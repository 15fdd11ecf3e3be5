-- ===== src/Piv/Data.antt =====
-- yubiwallet/src/piv.rs, the pure helpers: data objects, templates, certificates and PINs.
pub mod Templates
pub mod Keys
pub mod Pins
use crypto_rust_tools.Base.{
  ℕ, ◌+◌, ◌-◌, ◌*◌, Bool, true, false, ◌&&◌, Option, none, some, List, [], ◌∷◌, ◌++◌, map,
}
use crypto_rust_tools.Base.{Bytes, length, replicate, slice, ltb, leb, ◌==◌, if◌then◌else◌}
use crypto_rust_tools.Base.{Result, ok, err, ◌>>=◌}
use crypto_rust_tools.Base.Search.{position}
use crypto_rust_tools.Text.{Text, codes, as_bytes, hex2_prefixed}
use crypto_rust_tools.Error.{Error, parse, pubkey_not_found, unsupported}
use crypto_rust_tools.Account.{auth, sign, key_mgmt, card_auth, retired_first, retired_last}
use crypto_rust_tools.Piv.Tlv.{ber_len, read_tlv}

abbrev pub tag_dynamic_auth : ℕ
tag_dynamic_auth = 0x7c

abbrev pub tag_response : ℕ
tag_response = 0x82

abbrev pub tag_challenge : ℕ
tag_challenge = 0x81

abbrev pub tag_data_object : ℕ
tag_data_object = 0x53

abbrev pub tag_certificate : ℕ
tag_certificate = 0x70

abbrev pub ed25519_spki_prefix : Bytes
ed25519_spki_prefix =
    0x30 ∷ 0x2a ∷ 0x30 ∷ 0x05 ∷ 0x06 ∷ 0x03 ∷ 0x2b ∷ 0x65 ∷ 0x70 ∷ 0x03 ∷ 0x21 ∷ 0x00 ∷ []

-- The last byte of the tag of a slot's data object.
unfoldable pub slot_object_low : ℕ → Result ℕ Error
slot_object_low slot =
    if slot == auth
    then ok 0x05
    else if slot == sign
    then ok 0x0a
    else if slot == key_mgmt
    then ok 0x0b
    else if slot == card_auth
    then ok 0x01
    else if leb retired_first slot && leb slot retired_last
    then ok (0x0d + (slot - retired_first))
    else err (unsupported (codes "not a PIV slot: " ++ hex2_prefixed slot))

unfoldable pub slot_object_tag : ℕ → Result Bytes Error
unfolding slot_object_low
slot_object_tag slot = do low ← slot_object_low slot; ok (0x5f ∷ 0xc1 ∷ low ∷ [])

unfoldable pub build_general_authenticate_data : Bytes → Bytes
build_general_authenticate_data message =
    let inner =
      (tag_response ∷ 0x00 ∷ tag_challenge ∷ []) ++ (ber_len (length message) ++ message) in
    (tag_dynamic_auth ∷ []) ++ (ber_len (length inner) ++ inner)

unfoldable pub parse_signature_response : Bytes → Result Bytes Error
parse_signature_response resp = do
  dynamic ← read_tlv resp tag_dynamic_auth
  read_tlv dynamic tag_response

abbrev pub refuse_empty : Bytes → Result Bytes Error
refuse_empty [] = err (pubkey_not_found (codes "empty certificate in slot"))
refuse_empty (b ∷ cert) = ok (b ∷ cert)

unfoldable pub extract_certificate : Bytes → Result Bytes Error
extract_certificate resp = do
  object ← read_tlv resp tag_data_object
  cert ← read_tlv object tag_certificate
  refuse_empty cert

unfoldable pub extract_ed25519_from_cert : Bytes → Result Bytes Error
extract_ed25519_from_cert der = elim (position ed25519_spki_prefix der) [
  | some pos ↦
      let start = pos + length ed25519_spki_prefix in
      let end = start + 32 in
      if ltb (length der) end
      then err (pubkey_not_found (codes "truncated Ed25519 key in cert"))
      else ok (slice der start end)
  | none ↦ err (
      pubkey_not_found
        (codes "no Ed25519 SubjectPublicKeyInfo in certificate (is the slot Ed25519?)"))
]

-- `v.resize(8, 0xFF)` of at most eight bytes.
unfoldable pub pin_padded : Text → Result Bytes Error
pin_padded pin =
    let bytes = as_bytes pin in
    if ltb 8 (length bytes)
    then err (parse (codes "PIV PIN must be at most 8 characters"))
    else ok (bytes ++ replicate (8 - length bytes) 0xff)
