-- ===== src/Piv/Card/Chip.antt =====
-- The commands and answers of a PIV card as NIST SP 800-73 and ISO 7816-4 write them, and that
-- yubiwallet/src/piv.rs builds these commands.
use crypto_rust_tools.Base.{
  ℕ, ◌+◌, ◌/◌, ◌%◌, ◌≤◌, ◌<◌, ◌≡◌, ◌⊎◌, ◌-◌, inl, inr, refl, arith, ap, ◌∙◌, true, [], ◌∷◌, ◌++◌,
  Bytes, length, length-append, ltb, if◌then◌else◌, ok,
}
use native.Mathlib.Decide.{ℕ_discrete}
use crypto_rust_tools.Apdu.{build_apdu_ext}
use crypto_rust_tools.Account.{is_valid}
use crypto_rust_tools.Piv.Tlv.{ber_len}
use crypto_rust_tools.Piv.Tlv.Items.{tlv}
use crypto_rust_tools.Piv.Data.{slot_object_low, slot_object_tag, build_general_authenticate_data}
use crypto_rust_tools.Piv.Card.Conduct.{sign_command, read_command}

-- A BER-TLV record of less than 65536 bytes.
abbrev pub record_length : ℕ → Bytes
record_length n =
    if ltb n 128
    then n ∷ []
    else if ltb n 256
    then 0x81 ∷ n ∷ []
    else 0x82 ∷ (n / 256) ∷ (n % 256) ∷ []

abbrev pub ber_record : ℕ → Bytes → Bytes
ber_record tag value = tag ∷ (record_length (length value) ++ value)

-- SELECT with the identifier of the applet.
abbrev pub select_apdu : Bytes
select_apdu =
    0x00 ∷ 0xa4 ∷ 0x04 ∷ 0x00 ∷ 0x0b ∷ 0xa0 ∷ 0x00 ∷ 0x00 ∷ 0x03 ∷ 0x08 ∷ 0x00 ∷ 0x00 ∷ 0x10 ∷ 0x00
    ∷ 0x01 ∷ 0x00 ∷ []

-- VERIFY of the application PIN.
abbrev pub verify_apdu : Bytes → Bytes
verify_apdu padded = 0x00 ∷ 0x20 ∷ 0x00 ∷ 0x80 ∷ 0x08 ∷ padded

-- The dynamic authentication template with an empty response, which asks for one, and the challenge.
abbrev pub challenge_template : Bytes → Bytes
challenge_template message = ber_record 0x7c (0x82 ∷ 0x00 ∷ ber_record 0x81 message)

-- The template with the response alone.
abbrev pub response_template : Bytes → Bytes
response_template sig = ber_record 0x7c (ber_record 0x82 sig)

-- GENERAL AUTHENTICATE with Ed25519 (E0) and the key in the slot, of extended length.
abbrev pub authenticate_apdu : ℕ → Bytes → Bytes
authenticate_apdu slot message =
    let n = length (challenge_template message) in
    0x00
    ∷ 0x87
    ∷ 0xe0
    ∷ slot
    ∷ 0x00
    ∷ (n / 256)
    ∷ (n % 256)
    ∷ (challenge_template message ++ (0x00 ∷ 0x00 ∷ []))

-- GET DATA of the object whose tag is 5f, c1 and this byte.
abbrev pub get_data_apdu : ℕ → Bytes
get_data_apdu low =
    0x00 ∷ 0xcb ∷ 0x3f ∷ 0xff ∷ 0x00 ∷ 0x00 ∷ 0x05 ∷ 0x5c ∷ 0x03 ∷ 0x5f ∷ 0xc1 ∷ low ∷ 0x00 ∷ 0x00
    ∷ []

-- The certificate of the key in the slot is the object whose tag is 5f, c1 and this byte.
abbrev pub IsObjectOf : ℕ → ℕ → Type 0
IsObjectOf slot low =
    ((slot ≡ 0x9a) × (low ≡ 0x05))
    ⊎ (((slot ≡ 0x9c) × (low ≡ 0x0a))
        ⊎ (((slot ≡ 0x9d) × (low ≡ 0x0b))
            ⊎ (((slot ≡ 0x9e) × (low ≡ 0x01))
                ⊎ ((0x82 ≤ slot) × (slot ≤ 0x95) × (low + 0x82 ≡ slot + 0x0d)))))

-- A data object with a certificate: the certificate, its coding and no error detection code.
abbrev pub stored_object : Bytes → Bytes
stored_object cert =
    ber_record 0x53 (ber_record 0x70 cert ++ (ber_record 0x71 (0x00 ∷ []) ++ ber_record 0xfe []))

pub ber_record-tlv : (t : ℕ) (v : Bytes) → length v < 65536 → tlv t v ≡ ber_record t v
unfolding ber_len
ber_record-tlv t v h = ground arith

pub length-ber_record : (t : ℕ) (v : Bytes) → length (ber_record t v) ≤ length v + 4
length-ber_record t v = let n = length-append (record_length (length v)) v in ground (arith, n)

pub build_general_authenticate_data-template :
    (message : Bytes)
    → length message ≤ 65000
    → build_general_authenticate_data message ≡ challenge_template message
unfolding build_general_authenticate_data
build_general_authenticate_data-template message h =
    let inner = 0x82 ∷ 0x00 ∷ ber_record 0x81 message in
    let n = length-ber_record 0x81 message in
    let same : tlv 0x81 message ≡ ber_record 0x81 message =
      ber_record-tlv 0x81 message (omega arith) in
    ap (λ x. tlv 0x7c (0x82 ∷ 0x00 ∷ x)) same ∙ ber_record-tlv 0x7c inner (omega (arith, n))

-- GENERAL AUTHENTICATE as `sign` builds it.
pub sign_command-authenticate_apdu :
    (slot : ℕ) (message : Bytes)
    → length message ≤ 65000
    → sign_command slot message ≡ authenticate_apdu slot message
unfolding build_apdu_ext
sign_command-authenticate_apdu slot message h =
    let n = length-ber_record 0x81 message in
    let m = length-ber_record 0x7c (0x82 ∷ 0x00 ∷ ber_record 0x81 message) in
    let k : length (challenge_template message) / 256 % 256
        ≡ length (challenge_template message) / 256 =
      omega (arith, n, m) in
    rw (build_general_authenticate_data-template message h, k) refl

pub response_template-tlv :
    (sig : Bytes) → length sig ≤ 65000 → tlv 0x7c (tlv 0x82 sig) ≡ response_template sig
response_template-tlv sig h =
    let n = length-ber_record 0x82 sig in
    ap (tlv 0x7c) (ber_record-tlv 0x82 sig (omega arith))
    ∙ ber_record-tlv 0x7c (ber_record 0x82 sig) (omega (arith, n))

pub length-response_template : (sig : Bytes) → length (response_template sig) ≤ length sig + 8
length-response_template sig =
    let n = length-ber_record 0x82 sig in
    let m = length-ber_record 0x7c (ber_record 0x82 sig) in omega (arith, n, m)

-- GET DATA as `fetch_ed25519_pubkey` builds it for a signing slot.
pub slot_object_tag-IsObjectOf :
    (slot : ℕ)
    → is_valid slot ≡ true
    → (low : ℕ) × IsObjectOf slot low × (slot_object_tag slot ≡ ok (0x5f ∷ 0xc1 ∷ low ∷ []))
unfolding is_valid slot_object_tag slot_object_low
slot_object_tag-IsObjectOf slot h = elim (ℕ_discrete slot 0x9a) [
  | yes a ↦ (0x05, inl (a, refl), ground arith)
  | no a ↦ elim (ℕ_discrete slot 0x9c) [
    | yes b ↦ (0x0a, inr (inl (b, refl)), ground arith)
    | no b ↦ elim (ℕ_discrete slot 0x9d) [
      | yes c ↦ (0x0b, inr (inr (inl (c, refl))), ground arith)
      | no c ↦ elim (ℕ_discrete slot 0x9e) [
        | yes d ↦ (0x01, inr (inr (inr (inl (d, refl)))), ground arith)
        | no d ↦
            let between : (0x82 ≤ slot) × (slot ≤ 0x95) = (ground arith, ground arith) in
            (
              0x0d + (slot - 0x82),
              inr (inr (inr (inr (between.0, between.1, omega (arith, between))))),
              ground (arith, between),
            )
      ]
    ]
  ]
]

pub read_command-get_data_apdu :
    (low : ℕ) → read_command (0x5f ∷ 0xc1 ∷ low ∷ []) ≡ get_data_apdu low
unfolding build_apdu_ext
read_command-get_data_apdu low = refl
