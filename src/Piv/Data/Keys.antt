-- ===== src/Piv/Data/Keys.antt =====
-- yubiwallet/src/piv.rs: the Ed25519 key of a certificate, and the data object of a slot.
use crypto_rust_tools.Base.{ℕ, ◌+◌, ◌≤◌, ◌≡◌, ◌↔◌, inl, inr, arith}
use crypto_rust_tools.Base.{true, Bytes, length}
use crypto_rust_tools.Base.{ok, Option-cases, Result-cases, slice}
use crypto_rust_tools.Base.Search.{position}
use crypto_rust_tools.Base.Marked.{Marked, slice-Marked, position-Marked}
use crypto_rust_tools.Account.{is_valid}
use crypto_rust_tools.Piv.Data.{ed25519_spki_prefix, extract_ed25519_from_cert, slot_object_tag}

pub extract_ed25519_from_cert-Marked :
    (der key : Bytes)
    → extract_ed25519_from_cert der ≡ ok key
    → Marked ed25519_spki_prefix 32 der key
unfolding extract_ed25519_from_cert
extract_ed25519_from_cert-Marked der key h =
    elim (Option-cases (position ed25519_spki_prefix der)) [
      | inl n ↦ absurd (ground arith)
      | inr (p, e) ↦
          let fits : p + 12 + 32 ≤ length der = ground arith in
          let same : slice der (p + 12) (p + 12 + 32) ≡ key = ground arith in
          rw same at (slice-Marked ed25519_spki_prefix 32 der p e fits)
    ]

pub extract_ed25519_from_cert-eq-ok :
    (der key : Bytes)
    → Marked ed25519_spki_prefix 32 der key
    → extract_ed25519_from_cert der ≡ ok key
unfolding extract_ed25519_from_cert
extract_ed25519_from_cert-eq-ok der key m =
    let (p, e, fits, read) = position-Marked _ _ 32 der key m in ground (arith, e, fits, read)

-- `extract_ed25519_from_cert` returns a key exactly if it has 32 bytes and stands in the
-- certificate right behind the first Ed25519 prefix.
pub extract_ed25519_from_cert_iff :
    (der key : Bytes)
    → (extract_ed25519_from_cert der ≡ ok key) ↔ Marked ed25519_spki_prefix 32 der key
extract_ed25519_from_cert_iff der key =
    (extract_ed25519_from_cert-Marked der key, extract_ed25519_from_cert-eq-ok der key)

-- A slot has a data object exactly if it is a valid signing slot.
pub slot_object_tag-is_valid :
    (slot : ℕ) → ((tag : Bytes) × (slot_object_tag slot ≡ ok tag)) ↔ (is_valid slot ≡ true)
unfolding slot_object_tag is_valid
slot_object_tag-is_valid slot = (sound, complete)
  where
    sound : (tag : Bytes) × (slot_object_tag slot ≡ ok tag) → is_valid slot ≡ true
    sound t = ground (arith, t.1)

    complete : is_valid slot ≡ true → (tag : Bytes) × (slot_object_tag slot ≡ ok tag)
    complete h = elim (Result-cases (slot_object_tag slot)) [
      | inl found ↦ found
      | inr (e, bad) ↦ absurd (ground arith)
    ]

-- Two slots with the same data object are the same slot.
pub slot_object_tag_injective :
    (a b : ℕ) {tag : Bytes} → slot_object_tag a ≡ ok tag → slot_object_tag b ≡ ok tag → a ≡ b
unfolding slot_object_tag
slot_object_tag_injective a b h k = ground arith
