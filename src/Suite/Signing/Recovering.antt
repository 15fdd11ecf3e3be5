-- ===== src/Suite/Signing/Recovering.antt =====
-- yubiwallet/src/eth.rs: the tests that sign pass with every crate that keeps the laws of ECDSA.
use crypto_rust_tools.Base.{
  ℕ, ◌+◌, ◌-◌, ◌*◌, ◌≤◌, ◌≡◌, ◌⊎◌, inl, inr, refl, arith, true, false, some, [], ◌∷◌, Bytes, length,
  get_or, take, drop, bytes_eq_refl, replicate, Bool-cases, Result-cases, ok,
}
use crypto_rust_tools.Text.{codes, as_bytes}
use crypto_rust_tools.External.{Hex, Keccak, K256}
use crypto_rust_tools.Eth.{
  address_from_pubkey, eip155_v, low_s, recovers, with_recovery_id, try_recovery_ids,
  ethereum_signature,
}
use crypto_rust_tools.Eth.Recovery.{eip155_v_exact}
use crypto_rust_tools.Suite.Signing.{
  nibble, hex_literal, hardhat_digits, Signer, chain_id, matches_signer,
  recovers_v_and_matches_signer, wrong_pubkey_fails_recovery,
}

-- The documented behaviour of the crate: the point of a signing key is the uncompressed form of its
-- verifying key, which is read back; a signature is read back from its bytes and from its two
-- scalars; and a signature recovers the key that made it under the recovery id 0 or 1.
pub record IsSigner (K : K256) (S : Signer K) : Type 0 where
  pub key_of : S.SigningKey → K.Key
  pub from_sec1_bytes-point :
      (sk : S.SigningKey) → K.from_sec1_bytes (S.public_point sk) ≡ ok (key_of sk)
  pub key_point-key_of : (sk : S.SigningKey) → S.key_point (key_of sk) ≡ S.public_point sk
  pub uncompressed :
      (sk : S.SigningKey)
      → (length (S.public_point sk) ≡ 65) × (get_or (S.public_point sk) 0 0 ≡ 0x04)
  pub from_slice-to_bytes : (s : K.Signature) → K.from_slice (K.to_bytes s) ≡ ok s
  pub from_scalars-to_bytes :
      (s : K.Signature) → S.from_scalars (take 32 (K.to_bytes s)) (drop 32 (K.to_bytes s)) ≡ ok s
  pub key_eq_sound : (a b : K.Key) → K.key_eq a b ≡ true → a ≡ b
  pub recovers_signer :
      (sk : S.SigningKey) (h : Bytes) (s : K.Signature)
      → S.sign_prehash sk h ≡ ok s
      → (recovers K h (low_s K s) (key_of sk) 0 ≡ true)
        ⊎ (recovers K h (low_s K s) (key_of sk) 1 ≡ true)

-- The key that the digits stand for.
hardhat_sk :
    hex_literal hardhat_digits
    ≡ some (
        0xac ∷ 0x09 ∷ 0x74 ∷ 0xbe ∷ 0xc3 ∷ 0x9a ∷ 0x17 ∷ 0xe3 ∷ 0x6b ∷ 0xa4 ∷ 0xa6 ∷ 0xb4 ∷ 0xd2
        ∷ 0x38 ∷ 0xff ∷ 0x94 ∷ 0x4b ∷ 0xac ∷ 0xb4 ∷ 0x78 ∷ 0xcb ∷ 0xed ∷ 0x5e ∷ 0xfc ∷ 0xae ∷ 0x78
        ∷ 0x4d ∷ 0x7b ∷ 0xf4 ∷ 0xf2 ∷ 0xff ∷ 0x80 ∷ [])
unfolding hex_literal nibble codes
hardhat_sk = refl

module _ (H : Hex) (keccak : Keccak) (K : K256) (S : Signer K) (L : IsSigner K S) where
  address_of_point :
      (sk : S.SigningKey)
      → address_from_pubkey keccak (S.public_point sk)
        ≡ ok (drop 12 (keccak (drop 1 (S.public_point sk))))
  unfolding address_from_pubkey
  address_of_point sk = let (n, p) = L.uncompressed sk in ground (arith, n, p)

  -- What recovers the key is the key.
  recover-key :
      (h : Bytes) (s : K.Signature) (expected : K.Key) (rid : ℕ)
      → recovers K h s expected rid ≡ true
      → K.recover h s rid ≡ ok expected
  unfolding recovers
  recover-key h s expected rid r = elim (Result-cases (K.recover h s rid)) [
    | inl (vk, e) ↦
        let k : K.key_eq vk expected ≡ true = rw (e, recovers) at r in
        rw (e, L.key_eq_sound vk expected k) refl
    | inr (x, e) ↦ absurd (ground (arith, e))
  ]

  matches_signer_lem :
      (sk : S.SigningKey) (h : Bytes) (s : K.Signature) (rid : ℕ)
      → rid ≤ 1
      → recovers K h s (L.key_of sk) rid ≡ true
      → matches_signer H keccak K S (S.public_point sk) h (with_recovery_id K s rid chain_id) ≡ true
  unfolding with_recovery_id
  matches_signer_lem sk h s rid b r =
      let v : eip155_v rid 11155111 ≡ rid + 11155111 * 2 + 35 =
        (eip155_v_exact rid 11155111 b (omega arith)).0 in
      let back : rid + 11155111 * 2 + 35 - 11155111 * 2 - 35 ≡ rid = omega arith in
      rw
        (
          v,
          back,
          L.from_scalars-to_bytes s,
          recover-key h s (L.key_of sk) rid r,
          L.key_point-key_of sk,
          address_of_point sk,
          bytes_eq_refl (drop 12 (keccak (drop 1 (S.public_point sk)))),
        )
        (ground arith)

  -- If the crate takes the key and signs the hash, the test passes.
  recovers_v_and_matches_signer_lem :
      (sk : S.SigningKey) (sig : K.Signature) {key : Bytes}
      → hex_literal hardhat_digits ≡ some key
      → S.from_bytes key ≡ ok sk
      → S.sign_prehash sk (keccak (as_bytes (codes "hello ethereum"))) ≡ ok sig
      → recovers_v_and_matches_signer H keccak K S ≡ true
  unfolding recovers_v_and_matches_signer ethereum_signature try_recovery_ids
  recovers_v_and_matches_signer_lem sk sig d f g =
      let h = keccak (as_bytes (codes "hello ethereum")) in
      let low = low_s K sig in
      rw (d, f, g, L.from_sec1_bytes-point sk, L.from_slice-to_bytes sig)
        (elim (Bool-cases (recovers K h low (L.key_of sk) 0)) [
          | inl z ↦ rw z (matches_signer_lem sk h low 0 (omega arith) z)
          | inr z ↦ elim (L.recovers_signer sk h sig g) [
            | inl o ↦ absurd (cc (o, z))
            | inr o ↦ rw (z, o) (matches_signer_lem sk h low 1 (omega arith) o)
          ]
        ])

  -- If the crate takes both keys and signs the hash, and recovers the other key under no recovery
  -- id, the test passes.
  wrong_pubkey_fails_recovery_lem :
      (sk other : S.SigningKey) (sig : K.Signature) {key : Bytes}
      → hex_literal hardhat_digits ≡ some key
      → S.from_bytes key ≡ ok sk
      → S.from_bytes (replicate 32 1) ≡ ok other
      → S.sign_prehash sk (replicate 32 7) ≡ ok sig
      → recovers K (replicate 32 7) (low_s K sig) (L.key_of other) 0 ≡ false
      → recovers K (replicate 32 7) (low_s K sig) (L.key_of other) 1 ≡ false
      → wrong_pubkey_fails_recovery H keccak K S ≡ true
  unfolding wrong_pubkey_fails_recovery ethereum_signature try_recovery_ids
  wrong_pubkey_fails_recovery_lem sk other sig d f o g z w =
      rw (d, f, g, o, L.from_sec1_bytes-point other, L.from_slice-to_bytes sig, z, w) refl
