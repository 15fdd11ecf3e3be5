-- ===== src/Examples/Records.antt =====
-- yubiwallet/src/piv.rs and yubiwallet/src/account.rs, the pure functions, at concrete inputs.
use crypto_rust_tools.Piv.Tlv.{end_of, tlv_at}
use crypto_rust_tools.Account.{parse_hex_byte, piv_slot_value}
use crypto_rust_tools.Text.{from_str_radix, strip_0x, text_eq, to_ascii_lowercase, trim}
use crypto_rust_tools.Base.{ℕ, ◌≡◌, ◌↔◌, refl, arith, some, List, [], ◌∷◌, ◌++◌}
use crypto_rust_tools.Base.{Bytes, length, replicate, slice, ok, err}
use crypto_rust_tools.Base.Marked.{Marked}
use crypto_rust_tools.Text.{codes, as_bytes}
use crypto_rust_tools.Account.{piv, open_pgp, parse_slot, is_valid, sig}
use crypto_rust_tools.Piv.Tlv.{ber_len, read_ber_len, read_tlv, read_tlv_loop, not_found}
use crypto_rust_tools.Piv.Tlv.Progress.{Inside, read_tlv_loop_total, read_tlv-Inside}
use crypto_rust_tools.Piv.Tlv.Items.{tlvs, lookup_tag, read_tlv-tlvs}
use crypto_rust_tools.Piv.Data.{
  ed25519_spki_prefix, slot_object_tag, extract_ed25519_from_cert, pin_padded,
}
use crypto_rust_tools.Piv.Data.Keys.{extract_ed25519_from_cert_iff}

abbrev items : List (ℕ × Bytes)
items = (0x70, 0x0a ∷ 0x0b ∷ []) ∷ (0x71, 0x00 ∷ []) ∷ []

read_certificate : read_tlv (tlvs items) 0x71 ≡ ok (0x00 ∷ [])
unfolding read_tlv read_tlv_loop ber_len read_ber_len slice tlv_at end_of
read_certificate = refl

read_missing : read_tlv (tlvs items) 0xfe ≡ err (not_found 0xfe)
unfolding read_tlv read_tlv_loop ber_len read_ber_len slice tlv_at end_of
read_missing = refl

read_tlv-tlvs_example : read_tlv (tlvs items) 0x71 ≡ lookup_tag items 0x71
read_tlv-tlvs_example = read_tlv-tlvs items 0x71 (omega arith) (unfold ber_len in omega arith)

read_tlv_loop_total_example :
    read_tlv_loop (length (tlvs items)) (tlvs items) 0x71 0 ≡ some (read_tlv (tlvs items) 0x71)
read_tlv_loop_total_example = read_tlv_loop_total (tlvs items) 0x71

read_tlv-Inside_example : Inside (tlvs items) 0x71 (0x00 ∷ [])
read_tlv-Inside_example = read_tlv-Inside (tlvs items) 0x71 (0x00 ∷ []) read_certificate

abbrev message : Bytes
message = 0x68 ∷ 0x69 ∷ []

abbrev key : Bytes
key = replicate 32 0x42

abbrev certificate : Bytes
certificate = 0x30 ∷ 0x82 ∷ (ed25519_spki_prefix ++ (key ++ (0x05 ∷ 0x00 ∷ [])))

extract_ed25519_from_cert_iff_example :
    (extract_ed25519_from_cert certificate ≡ ok key) ↔ Marked ed25519_spki_prefix 32 certificate key
extract_ed25519_from_cert_iff_example = extract_ed25519_from_cert_iff certificate key

retired_object : slot_object_tag 0x83 ≡ ok (0x5f ∷ 0xc1 ∷ 0x0e ∷ [])
unfolding slot_object_tag
retired_object = refl

abbrev padded : Bytes
padded = 0x31 ∷ 0x32 ∷ 0x33 ∷ 0x34 ∷ 0x35 ∷ 0x36 ∷ 0xff ∷ 0xff ∷ []

six_digits : pin_padded (codes "123456") ≡ ok padded
unfolding pin_padded as_bytes codes
six_digits = refl

retired_slot : parse_slot piv (codes "0x82") ≡ ok 0x82
unfolding parse_slot codes piv_slot_value text_eq to_ascii_lowercase trim parse_hex_byte
    from_str_radix strip_0x is_valid
retired_slot = refl

signature_slot : parse_slot open_pgp (codes " SIG ") ≡ ok sig
unfolding parse_slot codes text_eq to_ascii_lowercase trim
signature_slot = refl
