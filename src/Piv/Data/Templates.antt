-- ===== src/Piv/Data/Templates.antt =====
-- yubiwallet/src/piv.rs: the templates of GENERAL AUTHENTICATE and GET DATA, built and read.
use crypto_rust_tools.Base.{ℕ, ◌+◌, ◌^◌, ◌-◌, ◌≤◌, ◌<◌, ◌≡◌, ap, arith, ◌∙◌}
use mathlib.Core.Path.{subst}
use crypto_rust_tools.Base.{List, [], ◌∷◌, ◌++◌, append-nil, Bytes, length, length-append}
use crypto_rust_tools.Base.{ok}
use crypto_rust_tools.Piv.Tlv.{ber_len, read_tlv}
use crypto_rust_tools.Piv.Tlv.Lengths.{ber_len_shape}
use crypto_rust_tools.Piv.Tlv.Items.{tlv, tlvs, lookup_tag, AreShort, read_tlv-tlvs}
use crypto_rust_tools.Piv.Data.{
  tag_dynamic_auth, tag_response, tag_challenge, tag_data_object, tag_certificate,
  build_general_authenticate_data, parse_signature_response, extract_certificate, refuse_empty,
}

pub length-tlv-le : (t : ℕ) (v : Bytes) → length (tlv t v) ≤ length v + 5
length-tlv-le t v =
    let (a, b, c) = ber_len_shape (length v) in omega (arith, length-append (ber_len (length v)) v)

-- One record alone: `read_tlv` returns its value.
read_tlv-tlv : (t : ℕ) (v : Bytes) → length v < 2 ^ 24 → read_tlv (tlv t v) t ≡ ok v
unfolding lookup_tag
read_tlv-tlv t v h =
    let whole : tlvs ((t, v) ∷ []) ≡ tlv t v = append-nil (tlv t v) in
    subst (λ b. read_tlv b t ≡ ok v) whole
      (read_tlv-tlvs ((t, v) ∷ []) t (h, tt) (omega (arith, ap length whole, length-tlv-le t v))
        ∙ ground arith)

-- The empty response record and the message inside the template.
abbrev challenge_items : Bytes → List (ℕ × Bytes)
challenge_items message = (tag_response, []) ∷ (tag_challenge, message) ∷ []

-- The template is one record that holds the two inner records.
build_general_authenticate_data-tlv :
    (message : Bytes)
    → build_general_authenticate_data message
      ≡ tlv tag_dynamic_auth (tlvs (challenge_items message))
unfolding build_general_authenticate_data ber_len
build_general_authenticate_data-tlv message = simp append-nil

length-challenge_items :
    (message : Bytes) → length (tlvs (challenge_items message)) ≤ length message + 10
unfolding ber_len
length-challenge_items message = rw append-nil (omega (arith, length-tlv-le tag_challenge message))

-- For a message below 2 ^ 24 - 16 bytes the data field of GENERAL AUTHENTICATE reads back as a
-- template with an empty response record and a challenge record that holds the message.
pub read_tlv-build_general_authenticate_data :
    (message : Bytes)
    → length message < 2 ^ 24 - 16
    → (inner : Bytes) × (read_tlv (build_general_authenticate_data message) tag_dynamic_auth
        ≡ ok inner)
      × (read_tlv inner tag_response ≡ ok [])
      × (read_tlv inner tag_challenge ≡ ok message)
unfolding lookup_tag
read_tlv-build_general_authenticate_data message h =
    let items = challenge_items message in
    let n = length-challenge_items message in
    let small : AreShort items = omega arith in
    let short : length (tlvs items) < 2 ^ 24 = omega (arith, n) in
    (
      tlvs items,
      rw (build_general_authenticate_data-tlv message)
          (read_tlv-tlv tag_dynamic_auth (tlvs items) short),
      read_tlv-tlvs items tag_response small (omega (arith, n)),
      read_tlv-tlvs items tag_challenge small (omega (arith, n)),
    )

-- The signature of a response `7C L { 82 L <signature> }` is returned as it is.
pub parse_signature_response-tlv :
    (sig : Bytes)
    → length sig < 2 ^ 24 - 8
    → parse_signature_response (tlv tag_dynamic_auth (tlv tag_response sig)) ≡ ok sig
unfolding parse_signature_response
parse_signature_response-tlv sig h = rw (
  read_tlv-tlv tag_dynamic_auth (tlv tag_response sig)
      (omega (arith, length-tlv-le tag_response sig)),
  read_tlv-tlv tag_response sig (omega arith),
)

-- The certificate of a data object `53 L { 70 L <cert> … }` is returned whatever records follow
-- it, and an empty one is refused: if each of these records has less than 2 ^ 24 bytes, and they
-- and the certificate less than 2 ^ 24 - 8 in all.
pub extract_certificate-tlv :
    (cert : Bytes) (more : List (ℕ × Bytes))
    → AreShort more
    → length cert + length (tlvs more) < 2 ^ 24 - 8
    → extract_certificate (tlv tag_data_object (tlv tag_certificate cert ++ tlvs more))
      ≡ refuse_empty cert
unfolding extract_certificate lookup_tag
extract_certificate-tlv cert more s h =
    let items = (tag_certificate, cert) ∷ more in
    let n = length-append (tlv tag_certificate cert) (tlvs more) in
    let l = length-tlv-le tag_certificate cert in
    let outer = read_tlv-tlv tag_data_object (tlvs items) (omega (arith, n, l)) in
    let inner = read_tlv-tlvs items tag_certificate (omega arith, s) (omega (arith, n, l)) in
    rw (outer, inner)
