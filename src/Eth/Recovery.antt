-- ===== src/Eth/Recovery.antt =====
-- yubiwallet/src/eth.rs: when a card signature becomes an Ethereum signature, and its `v`.
use crypto_rust_tools.Base.{
  ℕ, ◌+◌, ◌-◌, ◌*◌, ◌/◌, ◌%◌, ◌^◌, ◌≤◌, ◌<◌, ◌≡◌, ◌⊎◌, inl, inr, refl, arith, ap, ◌∙◌,
}
use crypto_rust_tools.Base.{
  true, false, none, some, Result-cases, Option-cases, Bool-cases, Bytes, length, take, drop,
  length-take, length-drop,
}
use crypto_rust_tools.Base.{ok, err, map_err, >>=-eq-ok, map_err-eq-ok, IsU64}
use crypto_rust_tools.External.{K256, IsK256}
use crypto_rust_tools.Text.{Text}
use crypto_rust_tools.Error.{recovery_failed}
use crypto_rust_tools.Eth.{
  EthSignature, eip155_v, low_s, recovers, with_recovery_id, try_recovery_ids, ethereum_signature,
}

-- Below this bound `v` determines the recovery id and the chain id: nothing wraps around.
pub eip155_v_exact :
    (rid chain_id : ℕ)
    → rid ≤ 1
    → chain_id ≤ 2 ^ 63 - 19
    → (eip155_v rid chain_id ≡ rid + chain_id * 2 + 35)
      × ((eip155_v rid chain_id - 35) % 2 ≡ rid)
      × ((eip155_v rid chain_id - 35) / 2 ≡ chain_id)
unfolding eip155_v
eip155_v_exact rid chain_id h k = omega arith

-- For a recovery id of 0 or 1 and a 64-bit chain id from 2 ^ 63 - 17 on, `v` wraps around: it is
-- below the sum that it stands for.
pub eip155_v_wraps :
    (rid chain_id : ℕ)
    → rid ≤ 1
    → 2 ^ 63 - 17 ≤ chain_id
    → IsU64 chain_id
    → eip155_v rid chain_id < rid + chain_id * 2 + 35
unfolding eip155_v
eip155_v_wraps rid chain_id h k w = omega arith

module _ (K : K256) where
  -- The branches that led to a signature.
  pub record Tried (pubkey msg_hash rs : Bytes) (chain_id : ℕ) (eth : EthSignature) : Type 0 where
    pub expected : K.Key
    pub sig : K.Signature
    pub rid : ℕ
    pub key_parsed : K.from_sec1_bytes pubkey ≡ ok expected
    pub sig_parsed : K.from_slice rs ≡ ok sig
    pub rid_range : (rid ≡ 0) ⊎ ((rid ≡ 1) × (recovers K msg_hash (low_s K sig) expected 0 ≡ false))
    pub recovered : recovers K msg_hash (low_s K sig) expected rid ≡ true
    pub result : eth ≡ with_recovery_id K (low_s K sig) rid chain_id

  module _ (pubkey msg_hash rs : Bytes) (chain_id : ℕ) where
    parsed :
        (expected : K.Key) (sig : K.Signature)
        → K.from_sec1_bytes pubkey ≡ ok expected
        → K.from_slice rs ≡ ok sig
        → ethereum_signature K pubkey msg_hash rs chain_id
          ≡ try_recovery_ids K msg_hash (low_s K sig) expected chain_id
    unfolding ethereum_signature
    parsed expected sig p q = rw (p, q)

    tried :
        (eth : EthSignature) (expected : K.Key) (sig : K.Signature)
        → K.from_sec1_bytes pubkey ≡ ok expected
        → K.from_slice rs ≡ ok sig
        → try_recovery_ids K msg_hash (low_s K sig) expected chain_id ≡ ok eth
        → Tried pubkey msg_hash rs chain_id eth
    unfolding try_recovery_ids
    tried eth expected sig p q h =
        elim (Bool-cases (recovers K msg_hash (low_s K sig) expected 0)) [
          | inl z ↦ record {
            expected = expected;
            sig = sig;
            rid = 0;
            key_parsed = p;
            sig_parsed = q;
            rid_range = inl refl;
            recovered = z;
            result = ground arith;
          }
          | inr z ↦ elim (Bool-cases (recovers K msg_hash (low_s K sig) expected 1)) [
            | inl o ↦ record {
              expected = expected;
              sig = sig;
              rid = 1;
              key_parsed = p;
              sig_parsed = q;
              rid_range = inr (refl, z);
              recovered = o;
              result = ground arith;
            }
            | inr o ↦ absurd (ground arith)
          ]
        ]

    pub ethereum_signature-Tried :
        (eth : EthSignature)
        → ethereum_signature K pubkey msg_hash rs chain_id ≡ ok eth
        → Tried pubkey msg_hash rs chain_id eth
    unfolding ethereum_signature
    ethereum_signature-Tried eth h =
        let (expected, p, h1) = >>=-eq-ok (map_err _ (K.from_sec1_bytes pubkey)) _ h in
        let (sig, q, h2) = >>=-eq-ok (map_err _ (K.from_slice rs)) _ h1 in
        tried eth expected sig (map_err-eq-ok _ (K.from_sec1_bytes pubkey) p)
          (map_err-eq-ok _ (K.from_slice rs) q) h2

    -- With a key and a signature that parse, either the result is a signature, or it is the error
    -- for a failed recovery and neither of the recovery ids 0 and 1 recovers the key.
    pub ethereum_signature_total :
        (expected : K.Key) (sig : K.Signature)
        → K.from_sec1_bytes pubkey ≡ ok expected
        → K.from_slice rs ≡ ok sig
        → ((eth : EthSignature) × (ethereum_signature K pubkey msg_hash rs chain_id ≡ ok eth))
          ⊎ ((ethereum_signature K pubkey msg_hash rs chain_id ≡ err recovery_failed)
              × (recovers K msg_hash (low_s K sig) expected 0 ≡ false)
              × (recovers K msg_hash (low_s K sig) expected 1 ≡ false))
    unfolding try_recovery_ids
    ethereum_signature_total expected sig p q =
        let e = parsed expected sig p q in
        let low = low_s K sig in
        elim (Bool-cases (recovers K msg_hash low expected 0)) [
          | inl z ↦ inl (with_recovery_id K low 0 chain_id, ground (arith, e))
          | inr z ↦ elim (Bool-cases (recovers K msg_hash low expected 1)) [
            | inl o ↦ inl (with_recovery_id K low 1 chain_id, ground (arith, e))
            | inr o ↦ inr (ground (arith, e), z, o)
          ]
        ]

  -- No key is recovered with the recovery id, or another key than the expected one.
  abbrev pub Misses : Bytes → K.Signature → K.Key → ℕ → Type 0
  Misses msg_hash t expected rid =
      ((e : Text) × (K.recover msg_hash t rid ≡ err e))
      ⊎ ((vk : K.Key) × (K.recover msg_hash t rid ≡ ok vk) × (K.key_eq vk expected ≡ false))

  -- What a signature that is returned stands for: `low` is what `normalize_s` makes of the card's
  -- signature, or this itself if there is nothing to change; `signer` is the key recovered from it.
  pub record Recovered (pubkey msg_hash rs : Bytes) (chain_id : ℕ) (eth : EthSignature)
      : Type 0 where
    pub expected : K.Key
    pub signer : K.Key
    pub sig : K.Signature
    pub low : K.Signature
    pub rid : ℕ
    pub key_parsed : K.from_sec1_bytes pubkey ≡ ok expected
    pub sig_parsed : K.from_slice rs ≡ ok sig
    pub low_form : (K.normalize_s sig ≡ some low) ⊎ ((K.normalize_s sig ≡ none) × (low ≡ sig))
    pub rid_range : (rid ≡ 0) ⊎ ((rid ≡ 1) × Misses msg_hash low expected 0)
    pub recovered : K.recover msg_hash low rid ≡ ok signer
    pub same_key : K.key_eq signer expected ≡ true
    pub r_bytes : eth.r ≡ take 32 (K.to_bytes low)
    pub s_bytes : eth.s ≡ drop 32 (K.to_bytes low)
    pub v_value : eth.v ≡ (rid + chain_id * 2 % 2 ^ 64 + 35) % 2 ^ 64

  pub low_s_form :
      (sig : K.Signature)
      → (K.normalize_s sig ≡ some (low_s K sig))
        ⊎ ((K.normalize_s sig ≡ none) × (low_s K sig ≡ sig))
  unfolding low_s
  low_s_form sig = elim (Option-cases (K.normalize_s sig)) [
    | inl n ↦ inr (n, rw (n, low_s) refl)
    | inr (t, e) ↦ inl (rw (e, low_s) refl)
  ]

  recovers_key :
      (msg_hash : Bytes) (t : K.Signature) (expected : K.Key) (rid : ℕ)
      → recovers K msg_hash t expected rid ≡ true
      → (vk : K.Key) × (K.recover msg_hash t rid ≡ ok vk) × (K.key_eq vk expected ≡ true)
  unfolding recovers
  recovers_key msg_hash t expected rid h = elim (Result-cases (K.recover msg_hash t rid)) [
    | inl (vk, e) ↦ (vk, e, rw (e, recovers) at h)
    | inr (x, e) ↦ absurd (cc (rw (e, recovers) at h))
  ]

  recovers-Misses :
      (msg_hash : Bytes) (t : K.Signature) (expected : K.Key) (rid : ℕ)
      → recovers K msg_hash t expected rid ≡ false
      → Misses msg_hash t expected rid
  unfolding recovers
  recovers-Misses msg_hash t expected rid h = elim (Result-cases (K.recover msg_hash t rid)) [
    | inl (vk, e) ↦ inr (vk, e, rw (e, recovers) at h)
    | inr (x, e) ↦ inl (x, e)
  ]

  -- Whatever `k256` does, a signature that is returned has these origins.
  pub ethereum_signature_from :
      (pubkey msg_hash rs : Bytes) (chain_id : ℕ) (eth : EthSignature)
      → ethereum_signature K pubkey msg_hash rs chain_id ≡ ok eth
      → Recovered pubkey msg_hash rs chain_id eth
  unfolding with_recovery_id eip155_v
  ethereum_signature_from pubkey msg_hash rs chain_id eth h =
      let w = ethereum_signature-Tried pubkey msg_hash rs chain_id eth h in
      let (vk, e, f) = recovers_key msg_hash (low_s K w.sig) w.expected w.rid w.recovered in
      record {
        expected = w.expected;
        signer = vk;
        sig = w.sig;
        low = low_s K w.sig;
        rid = w.rid;
        key_parsed = w.key_parsed;
        sig_parsed = w.sig_parsed;
        low_form = low_s_form w.sig;
        rid_range = elim w.rid_range [
          | inl z ↦ inl z
          | inr (o, m) ↦ inr (o, recovers-Misses msg_hash (low_s K w.sig) w.expected 0 m)
        ];
        recovered = e;
        same_key = f;
        r_bytes = ap (λ x. x.r) w.result;
        s_bytes = ap (λ x. x.s) w.result;
        v_value = ap (λ x. x.v) w.result;
      }

  -- If `IsK256` holds: the two halves of a signature that is returned are the bytes of what
  -- `normalize_s` makes of the card's signature, or of this itself if there is nothing to change; its S
  -- is low. The key that `k256` recovers from it and the message hash, with a recovery id of 0 or 1,
  -- equals the given public key, and with the id 1 none or another is recovered with 0. `v` is
  -- computed from this id and the chain id, with the wrap-around of 64 bits.
  pub ethereum_signature-Recovered :
      IsK256 K
      → (pubkey msg_hash rs : Bytes) (chain_id : ℕ) (eth : EthSignature)
      → ethereum_signature K pubkey msg_hash rs chain_id ≡ ok eth
      → (w : Recovered pubkey msg_hash rs chain_id eth) × (K.normalize_s w.low ≡ none)
        × (length eth.r ≡ 32)
        × (length eth.s ≡ 32)
  ethereum_signature-Recovered L pubkey msg_hash rs chain_id eth h =
      let w = ethereum_signature_from pubkey msg_hash rs chain_id eth h in
      let n = L.length-to_bytes w.low in
      (
        w,
        elim w.low_form [ inl e ↦ L.normalize_s_low w.sig w.low e | inr (e, same) ↦ rw same e ],
        ap length w.r_bytes ∙ length-take 32 (K.to_bytes w.low) (omega arith),
        ap length w.s_bytes ∙ omega (arith, length-drop 32 (K.to_bytes w.low)),
      )
