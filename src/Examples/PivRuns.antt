-- ===== src/Examples/PivRuns.antt =====
-- yubiwallet/examples: whole runs of sui_sign and sol_surfpool on a card that plays a script.
use crypto_rust_tools.Base.{
  ℕ, zero, suc, ◌≡◌, refl, none, some, List, [], ◌∷◌, ◌++◌, Bytes, length, replicate, Result, ok,
  get_elem?,
}
use crypto_rust_tools.Text.{Text, codes}
use crypto_rust_tools.External.{Base64}
use crypto_rust_tools.Transport.{Session}
use crypto_rust_tools.Account.{piv, parse_slot}
use crypto_rust_tools.Wallet
use crypto_rust_tools.Wallet.{as_array}
use crypto_rust_tools.Text.{as_bytes, text_eq, to_ascii_lowercase, trim, from_str_radix, strip_0x}
use crypto_rust_tools.Base.{slice}
use crypto_rust_tools.Base.Search.{matches_at, position}
use crypto_rust_tools.Transport.{resolve, prompt}
use crypto_rust_tools.Account.{Account, ed25519, piv_slot_value, parse_hex_byte, is_valid}
use crypto_rust_tools.Apdu.{build_apdu, build_apdu_ext, check_response, connect, send, transmit}
use crypto_rust_tools.Piv
use crypto_rust_tools.Piv.Card.{ensure_ed25519, ensure_slot, select, fetch_ed25519_pubkey}
use crypto_rust_tools.Piv.Data.{
  slot_object_tag, slot_object_low, extract_certificate, extract_ed25519_from_cert, pin_padded,
  build_general_authenticate_data, parse_signature_response,
}
use crypto_rust_tools.Piv.Tlv.{
  ber_len, read_tlv, read_tlv_loop, tlv_at, read_ber_len, end_of, byte_at, read_ber_len_from,
  read_len_bytes,
}
use crypto_rust_tools.Piv.Data.{
  tag_data_object, tag_certificate, tag_dynamic_auth, tag_response, ed25519_spki_prefix,
}
use crypto_rust_tools.Piv.Tlv.Items.{tlv}
use crypto_rust_tools.Chains.Encoding.{Panic}
use crypto_rust_tools.Chains.Sui
use crypto_rust_tools.Chains.Sui.Output.{IsLine, main-IsLine}
use crypto_rust_tools.Chains.Solana
use crypto_rust_tools.Chains.Solana.Rpc.{Node, rpc, payload, json_str, member_pattern}
use crypto_rust_tools.Chains.Solana.Calls.{Base58, b58, prepare, broadcast, verdict}
use crypto_rust_tools.Chains.Solana.Output.{IsSent, main-IsSent}
use crypto_rust_tools.Examples.Fixtures.{hex, keccak, script, playing, done}
use crypto_rust_tools.Examples.Scripts.{key}

-- Sui: a signature over two bytes, with the key of the slot 9a.
abbrev base64 : Base64
base64 = record { encode = hex.encode; decode = λ t. hex.decode t }

abbrev object : Bytes
object = tlv tag_data_object (tlv tag_certificate (0x30 ∷ (ed25519_spki_prefix ++ key)))

abbrev signature : Bytes
signature = replicate 64 0x5a

abbrev signature_answer : Bytes
signature_answer = tlv tag_dynamic_auth (tlv tag_response signature)

abbrev piv_card : Session script
piv_card = playing (done ∷ (object ++ done) ∷ done ∷ done ∷ (signature_answer ++ done) ∷ [])

abbrev piv_account : Account
piv_account = record { applet = piv; slot = 0x9a; curve = ed25519 }

parsed : parse_slot piv (codes "9a") ≡ ok 0x9a
unfolding parse_slot codes text_eq to_ascii_lowercase trim piv_slot_value parse_hex_byte
    from_str_radix strip_0x is_valid
parsed = refl

abbrev read_state : Session script
read_state = (Wallet.get_pubkey hex script piv_account piv_card).1

piv_read : Wallet.get_pubkey hex script piv_account piv_card ≡ (ok key, read_state)
unfolding Wallet.get_pubkey Wallet.get_pubkey_at Piv.Card.get_pubkey ensure_ed25519 ensure_slot
    connect select send build_apdu transmit check_response fetch_ed25519_pubkey slot_object_tag
    ber_len extract_certificate read_tlv read_tlv_loop tlv_at read_ber_len end_of build_apdu_ext
    slice matches_at position extract_ed25519_from_cert slot_object_low byte_at read_ber_len_from
    read_len_bytes is_valid
piv_read = refl

-- The card answers with the same signature for every message.
abbrev signed_state : Bytes → Session script
signed_state message = (Wallet.sign script piv_account message read_state).1

piv_signed :
    (message : Bytes)
    → Wallet.sign script piv_account message read_state ≡ (ok signature, signed_state message)
unfolding Wallet.get_pubkey Wallet.get_pubkey_at Piv.Card.get_pubkey ensure_ed25519 ensure_slot
    connect select send build_apdu transmit check_response fetch_ed25519_pubkey slot_object_tag
    ber_len extract_certificate read_tlv read_tlv_loop tlv_at read_ber_len end_of build_apdu_ext
    slice matches_at position extract_ed25519_from_cert slot_object_low byte_at read_ber_len_from
    read_len_bytes is_valid Wallet.sign Wallet.sign_dispatch Wallet.sign_at Piv.Card.sign resolve
    prompt pin_padded codes as_bytes trim build_general_authenticate_data parse_signature_response
piv_signed message = refl

abbrev sui_args : List Text
sui_args = codes "sui_sign" ∷ codes "9a" ∷ codes "6869" ∷ []

abbrev sui_line : Text
sui_line = hex.encode (0x00 ∷ (signature ++ key))

sui_run :
    Sui.main hex base64 keccak script sui_args piv_card
    ≡ (ok sui_line, (Sui.main hex base64 keccak script sui_args piv_card).1)
unfolding Sui.main Sui.with_key Sui.sign_transaction Sui.serialized codes trim
sui_run = rw (parsed, piv_read, piv_signed) refl

main-IsLine_example :
    (slot_text : Text) × (slot : ℕ) × (pk : Bytes) × (u : Session script) × (get_elem? sui_args 1
      ≡ some slot_text)
    × (parse_slot piv slot_text ≡ ok slot)
    × (length pk ≡ 32)
    × (Wallet.get_pubkey hex script (Sui.account_at slot) piv_card ≡ (ok pk, u))
    × IsLine hex base64 keccak script
        (get_elem? sui_args 2)
        pk
        slot
        u
        (Sui.main hex base64 keccak script sui_args piv_card).1
        sui_line
main-IsLine_example =
    main-IsLine hex base64 keccak script sui_args piv_card
      (Sui.main hex base64 keccak script sui_args piv_card).1 sui_line sui_run

-- Solana: a node that answers the second request with a block hash, and the others with a result.
abbrev blank_line : Text
blank_line = 13 ∷ 10 ∷ 13 ∷ 10 ∷ []

abbrev body : ℕ → Text
body (suc zero) = codes "{\"blockhash\":\"4uQe\"}"
body _ = codes "{\"result\":\"5sig\"}"

abbrev node : Node
node before call = ok (codes "HTTP/1.1 200 OK" ++ (blank_line ++ body (length before)))

abbrev base58 : Base58
base58 = record { encode = hex.encode; decode = λ t. ok (replicate 32 (length t)) }

abbrev solana_args : List Text
solana_args = codes "sol_surfpool" ∷ codes "9a" ∷ []

abbrev solana_line : Text
solana_line = codes "slot 9a " ++ (hex.encode key ++ codes " BROADCAST_OK tx=5sig")

abbrev solana_result : Result Text Panic × Session script
solana_result = Solana.Program.main hex base58 base64 node none script solana_args piv_card

receiver : b58 base58 Solana.recipient_b58 ≡ ok (replicate 32 43)
unfolding b58 as_array codes
receiver = refl

latest_hash : prepare base58 base64 node none key ≡ ok (replicate 32 4)
unfolding prepare b58 as_array rpc payload json_str member_pattern position matches_at codes
latest_hash = refl

sent : (tx : Bytes) → broadcast base58 base64 node none (codes "9a") key tx ≡ ok solana_line
unfolding broadcast verdict rpc payload json_str member_pattern position matches_at codes
sent tx = refl

solana_run : solana_result ≡ (ok solana_line, solana_result.1)
unfolding Solana.Program.main as_array
solana_run = rw (parsed, piv_read, receiver, latest_hash, piv_signed, sent) refl

main-IsSent_example :
    (slot_str : Text) × (slot : ℕ) × (get_elem? solana_args 1 ≡ some slot_str)
    × (parse_slot piv slot_str ≡ ok slot)
    × IsSent hex base58 base64 node none script slot_str slot piv_card solana_result.1 solana_line
main-IsSent_example =
    main-IsSent hex base58 base64 node none script solana_args piv_card solana_result.1 solana_line
      solana_run
