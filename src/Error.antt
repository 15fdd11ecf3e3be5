-- ===== src/Error.antt =====
-- yubiwallet/src/error.rs: the error type, what it prints, and the text of a status word.
use crypto_rust_tools.Base.{ℕ, ◌%◌, ◌&&◌, ◌++◌, leb, ◌==◌, if◌then◌else◌}
use crypto_rust_tools.Text.{Text, codes, decimal, hex4_upper}

-- An error of `pcsc` or of `std::io` is the text that it prints.
pub data Error : Type 0 where
  pcsc : Text → Error
  io : Text → Error
  no_readers short_response : Error
  card : ℕ → Text → Error
  data_too_long : ℕ → Error
  pubkey_not_found unsupported parse : Text → Error
  recovery_failed : Error
  signature : Text → Error

-- `status & 0x0F` is `status % 16`.
unfoldable pub status_word_message : ℕ → Text
status_word_message status =
    if status == 0x9000
    then codes "success"
    else if leb 0x63c0 status && leb status 0x63cf
    then codes "PIN verification failed. Retries left: " ++ decimal (status % 16)
    else if status == 0x6983
    then codes "PIN verification failed. Authentication method blocked (PIN locked)"
    else if status == 0x6982
    then codes "Security status not satisfied (e.g., PIN required or wrong PIN context)"
    else if status == 0x6985
    then codes "Conditions of use not satisfied (e.g., key usage not allowed)"
    else if status == 0x6a80
    then codes "Wrong data field parameters (e.g., incorrect PIN length/format)"
    else if status == 0x6a86
    then codes "Incorrect P1/P2 parameters"
    else if status == 0x6a88
    then codes "Referenced data not found (e.g., key invalid or PIN reference wrong)"
    else if status == 0x6d00
    then codes "Instruction not supported"
    else if status == 0x6e00
    then codes "Class not supported"
    else codes "Card returned error status: " ++ hex4_upper status

-- `Display`, as `thiserror` derives it from the attributes.
unfoldable pub to_string : Error → Text
to_string (pcsc e) = codes "PC/SC error: " ++ e
to_string (io e) = codes "io error: " ++ e
to_string no_readers = codes "no smart card readers found"
to_string short_response = codes "card response too short (< 2 bytes)"
to_string (card status message) =
    codes "card error " ++ (hex4_upper status ++ (codes ": " ++ message))
to_string (data_too_long n) =
    codes "APDU data field too long (" ++ (decimal n ++ codes " bytes, max 255 for short APDU)")
to_string (pubkey_not_found m) = codes "public key not found: " ++ m
to_string (unsupported m) = codes "unsupported operation: " ++ m
to_string (parse m) = codes "parse error: " ++ m
to_string recovery_failed = codes "could not recover Ethereum recovery id from signature"
to_string (signature m) = codes "signature error: " ++ m
