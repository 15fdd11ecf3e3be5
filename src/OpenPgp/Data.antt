-- ===== src/OpenPgp/Data.antt =====
-- yubiwallet/src/openpgp.rs, the pure helpers: the tag of a slot's key, and the public keys in a
-- GET PUBLIC KEY response.
pub mod Keys
use crypto_rust_tools.Base.{
  ℕ, ◌+◌, not, Bool, true, false, Option, none, some, List, [], ◌∷◌, ◌++◌, Bytes,
}
use crypto_rust_tools.Base.{length, slice, get_or, ltb, ◌==◌, if◌then◌else◌, Result, ok, err}
use crypto_rust_tools.Base.Search.{position}
use crypto_rust_tools.External.{Hex}
use crypto_rust_tools.Text.{Text, codes, hex2_prefixed}
use crypto_rust_tools.Error.{Error, pubkey_not_found, unsupported}
use crypto_rust_tools.Account.{Curve, ed25519, secp256k1, sig, aut}

unfoldable pub unsupported_slot : ℕ → Error
unsupported_slot slot =
    unsupported
      (codes "OpenPGP slot " ++ (hex2_prefixed slot ++ codes ": only SIG and AUT are supported"))

unfoldable pub crt_tag : ℕ → Result ℕ Error
crt_tag slot =
    if slot == sig then ok 0xb6 else if slot == aut then ok 0xa4 else err (unsupported_slot slot)

-- The two bytes of tag and length in front of an Ed25519 key and of a secp256k1 point.
abbrev pub ed25519_marker : Bytes
ed25519_marker = 0x86 ∷ 0x20 ∷ []

abbrev pub secp256k1_marker : Bytes
secp256k1_marker = 0x86 ∷ 0x41 ∷ []

module _ (H : Hex) where
  unfoldable pub extract_ed25519_pubkey : Bytes → Result Bytes Error
  extract_ed25519_pubkey tlv =
      if ltb (length tlv) 2
      then err (pubkey_not_found (codes "GET PUBLIC KEY response too short"))
      else elim (position ed25519_marker tlv) [
        | some pos ↦
            let start = pos + 2 in
            let end = start + 32 in
            if ltb (length tlv) end
            then err (pubkey_not_found (codes "truncated 0x86 public-key TLV"))
            else ok (slice tlv start end)
        | none ↦ err (
            pubkey_not_found (
              codes "no Ed25519 (0x86,0x20) tag in response (TLV: " ++ (H.encode tlv ++ codes ")")))
      ]

  -- The test of the prefix byte.
  unfoldable pub check_point : Bytes → Result Bytes Error
  check_point point =
      if not (get_or point 0 0 == 0x04)
      then err (
          pubkey_not_found (
            codes "expected uncompressed point (0x04 prefix), got "
            ++ hex2_prefixed (get_or point 0 0)))
      else ok point

  unfoldable pub extract_secp256k1_pubkey : Bytes → Result Bytes Error
  unfolding check_point
  extract_secp256k1_pubkey tlv =
      if ltb (length tlv) 2
      then err (pubkey_not_found (codes "GET PUBLIC KEY response too short"))
      else elim (position secp256k1_marker tlv) [
        | some pos ↦
            let start = pos + 2 in
            let end = start + 65 in
            if ltb (length tlv) end
            then err (pubkey_not_found (codes "truncated 0x86 secp256k1 point TLV"))
            else check_point (slice tlv start end)
        | none ↦ err (
            pubkey_not_found (
              codes "no secp256k1 (0x86,0x41) tag in response (TLV: "
              ++ (H.encode tlv ++ codes ")")))
      ]

  -- What `get_pubkey` makes of the response.
  unfoldable pub extract_pubkey : Curve → Bytes → Result Bytes Error
  extract_pubkey ed25519 raw = extract_ed25519_pubkey raw
  extract_pubkey secp256k1 raw = extract_secp256k1_pubkey raw

  -- What `detect_account` makes of the response: Ed25519 is tried first.
  unfoldable pub detect : ℕ → Bytes → Result (Curve × Bytes) Error
  detect slot raw = elim (extract_ed25519_pubkey raw) [
    | ok k ↦ ok (ed25519, k)
    | err _ ↦ elim (extract_secp256k1_pubkey raw) [
      | ok k ↦ ok (secp256k1, k)
      | err _ ↦ err (
          pubkey_not_found (
            codes "OpenPGP slot "
            ++ (hex2_prefixed slot ++ codes ": not an Ed25519 or secp256k1 key")))
    ]
  ]
