-- ===== src/Suite/OpenPgp.antt =====
-- The tests of yubiwallet/src/openpgp.rs, under any hex crate: it appears in messages only.
use crypto_rust_tools.Base.Search.{matches_at, position}
use crypto_rust_tools.Base.{slice}
use crypto_rust_tools.Base.{◌%◌, ◌++◌, ◌≡◌, refl, Bool, true, List, [], ◌∷◌, replicate}
use crypto_rust_tools.External.{Hex}
use crypto_rust_tools.OpenPgp.Data.{extract_ed25519_pubkey, extract_secp256k1_pubkey}
use crypto_rust_tools.Suite.{all_hold, unwraps_to, is_pubkey_not_found, from_fn}

module _ (H : Hex) where
  unfoldable extracts_key_from_well_formed_tlv : Bool
  extracts_key_from_well_formed_tlv =
      let key = from_fn (λ i. i % 256) 0 32 in
      let tlv = (0x7f ∷ 0x49 ∷ 0x22 ∷ 0x86 ∷ 0x20 ∷ []) ++ key in
      unwraps_to (extract_ed25519_pubkey H tlv) key

  unfoldable missing_tag_is_an_error : Bool
  missing_tag_is_an_error =
      is_pubkey_not_found (extract_ed25519_pubkey H (0x7f ∷ 0x49 ∷ 0x02 ∷ 0x99 ∷ 0x00 ∷ []))

  unfoldable truncated_key_is_an_error : Bool
  truncated_key_is_an_error =
      is_pubkey_not_found (extract_ed25519_pubkey H (0x86 ∷ 0x20 ∷ 0x01 ∷ 0x02 ∷ 0x03 ∷ []))

  -- The loop fills the point from the index 1 on.
  unfoldable extracts_secp256k1_uncompressed_point : Bool
  extracts_secp256k1_uncompressed_point =
      let point = 0x04 ∷ from_fn (λ i. i % 256) 1 64 in
      let tlv = (0x7f ∷ 0x49 ∷ 0x43 ∷ 0x86 ∷ 0x41 ∷ []) ++ point in
      unwraps_to (extract_secp256k1_pubkey H tlv) point

  unfoldable secp256k1_rejects_non_uncompressed_prefix : Bool
  secp256k1_rejects_non_uncompressed_prefix =
      let tlv = (0x86 ∷ 0x41 ∷ 0x02 ∷ []) ++ replicate 64 0 in
      is_pubkey_not_found (extract_secp256k1_pubkey H tlv)

  abbrev tests : List Bool
  tests =
      extracts_key_from_well_formed_tlv ∷ missing_tag_is_an_error ∷ truncated_key_is_an_error
      ∷ extracts_secp256k1_uncompressed_point ∷ secp256k1_rejects_non_uncompressed_prefix ∷ []

  -- All of them pass.
  tests_pass : all_hold tests ≡ true
  unfolding extracts_key_from_well_formed_tlv extract_ed25519_pubkey position matches_at slice
      missing_tag_is_an_error truncated_key_is_an_error extracts_secp256k1_uncompressed_point
      extract_secp256k1_pubkey secp256k1_rejects_non_uncompressed_prefix
  tests_pass = refl
