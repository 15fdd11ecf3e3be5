-- ===== src/Suite/Piv.antt =====
-- The tests of yubiwallet/src/piv.rs.
use crypto_rust_tools.Base.{
  ℕ, ◌+◌, ◌%◌, ◌++◌, ◌≡◌, refl, Bool, true, false, List, [], ◌∷◌, Bytes, bytes_eq, get_or, length,
  replicate, slice, take, ◌==◌, Result, ok, err, ◌>>=◌,
}
use crypto_rust_tools.Base.Search.{position, matches_at}
use crypto_rust_tools.Text.{codes, as_bytes}
use crypto_rust_tools.Error.{Error}
use crypto_rust_tools.Piv.Tlv.{
  ber_len, read_tlv, read_tlv_loop, tlv_at, read_ber_len, end_of, byte_at, read_ber_len_from,
  read_len_bytes,
}
use crypto_rust_tools.Piv.Data.{
  tag_certificate, tag_data_object, ed25519_spki_prefix, slot_object_tag, slot_object_low,
  build_general_authenticate_data, parse_signature_response, extract_certificate,
  extract_ed25519_from_cert, pin_padded,
}
use crypto_rust_tools.Suite.{all_hold, is_err, unwraps_to, is_pubkey_not_found, from_fn}

unfoldable standard_slot_object_tags : Bool
standard_slot_object_tags = all_hold (
    unwraps_to (slot_object_tag 0x9a) (0x5f ∷ 0xc1 ∷ 0x05 ∷ [])
    ∷ unwraps_to (slot_object_tag 0x9c) (0x5f ∷ 0xc1 ∷ 0x0a ∷ [])
    ∷ unwraps_to (slot_object_tag 0x9d) (0x5f ∷ 0xc1 ∷ 0x0b ∷ [])
    ∷ unwraps_to (slot_object_tag 0x9e) (0x5f ∷ 0xc1 ∷ 0x01 ∷ [])
    ∷ [])

unfoldable retired_slot_object_tags_span_the_range : Bool
retired_slot_object_tags_span_the_range = all_hold (
    unwraps_to (slot_object_tag 0x82) (0x5f ∷ 0xc1 ∷ 0x0d ∷ [])
    ∷ unwraps_to (slot_object_tag 0x95) (0x5f ∷ 0xc1 ∷ 0x20 ∷ [])
    ∷ [])

unfoldable invalid_slot_is_rejected : Bool
invalid_slot_is_rejected =
    all_hold (is_err (slot_object_tag 0x00) ∷ is_err (slot_object_tag 0x96) ∷ [])

unfoldable ber_len_short_and_long_forms : Bool
ber_len_short_and_long_forms = all_hold (
    bytes_eq (ber_len 0) (0x00 ∷ [])
    ∷ bytes_eq (ber_len 127) (0x7f ∷ [])
    ∷ bytes_eq (ber_len 128) (0x81 ∷ 0x80 ∷ [])
    ∷ bytes_eq (ber_len 255) (0x81 ∷ 0xff ∷ [])
    ∷ bytes_eq (ber_len 256) (0x82 ∷ 0x01 ∷ 0x00 ∷ [])
    ∷ bytes_eq (ber_len 300) (0x82 ∷ 0x01 ∷ 0x2c ∷ [])
    ∷ [])

unfoldable general_authenticate_template_short_message : Bool
general_authenticate_template_short_message =
    bytes_eq (build_general_authenticate_data (0xde ∷ 0xad ∷ 0xbe ∷ 0xef ∷ []))
      (0x7c ∷ 0x08 ∷ 0x82 ∷ 0x00 ∷ 0x81 ∷ 0x04 ∷ 0xde ∷ 0xad ∷ 0xbe ∷ 0xef ∷ [])

unfoldable general_authenticate_template_long_message : Bool
general_authenticate_template_long_message =
    let result = build_general_authenticate_data (replicate 200 0xab) in
    all_hold (
      bytes_eq (take 2 result) (0x7c ∷ 0x81 ∷ [])
      ∷ (get_or result 2 0 == 205)
      ∷ bytes_eq (slice result 3 7) (0x82 ∷ 0x00 ∷ 0x81 ∷ 0x81 ∷ [])
      ∷ (get_or result 7 0 == 200)
      ∷ (length result == 3 + 205)
      ∷ [])

unfoldable round_trip_signature_response : Bool
round_trip_signature_response =
    let sig = from_fn (λ i. i) 0 64 in
    unwraps_to (parse_signature_response ((0x7c ∷ 0x42 ∷ 0x82 ∷ 0x40 ∷ []) ++ sig)) sig

-- A panic of the first `unwrap` and one of the second are not told apart.
unfoldable extract_cert_then_key : Bool
extract_cert_then_key =
    let key = from_fn (λ i. (i + 1) % 256) 0 32 in
    let cert = (0xaa ∷ 0xbb ∷ []) ++ (ed25519_spki_prefix ++ (key ++ (0xcc ∷ []))) in
    let object = (tag_certificate ∷ ber_len (length cert)) ++ (cert ++ (0x71 ∷ 0x01 ∷ 0x00 ∷ [])) in
    let resp = (tag_data_object ∷ ber_len (length object)) ++ object in
    unwraps_to (do extracted ← extract_certificate resp; extract_ed25519_from_cert extracted) key

unfoldable cert_without_ed25519_key_errors : Bool
cert_without_ed25519_key_errors =
    let der = 0x30 ∷ 0x10 ∷ 0x06 ∷ 0x03 ∷ 0x2a ∷ 0x86 ∷ 0x48 ∷ [] in
    is_pubkey_not_found (extract_ed25519_from_cert der)

-- `_.unwrap().len()`
abbrev unwraps_to_length : Result Bytes Error → ℕ → Bool
unwraps_to_length (ok b) n = length b == n
unwraps_to_length (err e) n = false

unfoldable pin_padding_to_eight_bytes : Bool
pin_padding_to_eight_bytes = all_hold (
    unwraps_to (pin_padded (codes "123456"))
      (0x31 ∷ 0x32 ∷ 0x33 ∷ 0x34 ∷ 0x35 ∷ 0x36 ∷ 0xff ∷ 0xff ∷ [])
    ∷ unwraps_to_length (pin_padded (codes "12345678")) 8
    ∷ is_err (pin_padded (codes "123456789"))
    ∷ [])

abbrev tests : List Bool
tests =
    standard_slot_object_tags ∷ retired_slot_object_tags_span_the_range ∷ invalid_slot_is_rejected
    ∷ ber_len_short_and_long_forms ∷ general_authenticate_template_short_message
    ∷ general_authenticate_template_long_message ∷ round_trip_signature_response
    ∷ extract_cert_then_key ∷ cert_without_ed25519_key_errors ∷ pin_padding_to_eight_bytes ∷ []

-- All of them pass.
tests_pass : all_hold tests ≡ true
unfolding standard_slot_object_tags retired_slot_object_tags_span_the_range invalid_slot_is_rejected
    ber_len_short_and_long_forms general_authenticate_template_short_message
    general_authenticate_template_long_message round_trip_signature_response extract_cert_then_key
    cert_without_ed25519_key_errors pin_padding_to_eight_bytes slot_object_tag slot_object_low
    ber_len build_general_authenticate_data slice parse_signature_response extract_certificate
    extract_ed25519_from_cert pin_padded read_tlv read_tlv_loop tlv_at read_ber_len end_of byte_at
    read_ber_len_from read_len_bytes codes as_bytes position matches_at
tests_pass = refl
