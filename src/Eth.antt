-- ===== src/Eth.antt =====
-- yubiwallet/src/eth.rs: Ethereum addresses, and signatures with their recovery id.
pub mod Address
pub mod Recovery
use crypto_rust_tools.Base.{
  ℕ, ◌+◌, ◌*◌, ◌%◌, ◌^◌, Bool, true, false, not, ◌||◌, Option, none, some, [], ◌∷◌, ◌++◌,
}
use crypto_rust_tools.Base.{
  Bytes, length, get_or, take, drop, ◌==◌, if◌then◌else◌, Result, ok, err, map_err, ◌>>=◌,
}
use crypto_rust_tools.Text.{Text, codes}
use crypto_rust_tools.External.{Hex, Keccak, K256}
use crypto_rust_tools.Error.{Error, parse, recovery_failed, signature}

pub record EthSignature : Type 0 where
  pub r : Bytes
  pub s : Bytes
  pub v : ℕ

unfoldable pub address_from_pubkey : Keccak → Bytes → Result Bytes Error
address_from_pubkey keccak pubkey =
    if not (length pubkey == 65) || not (get_or pubkey 0 0 == 0x04)
    then err (parse (codes "expected 65-byte uncompressed secp256k1 public key"))
    else ok (drop 12 (keccak (drop 1 pubkey)))

unfoldable pub address_to_hex : Hex → Bytes → Text
address_to_hex H addr = codes "0x" ++ H.encode addr

-- The arithmetic of `u64`, which wraps around in a release build.
unfoldable pub eip155_v : ℕ → ℕ → ℕ
eip155_v recovery_id chain_id = (recovery_id + chain_id * 2 % 2 ^ 64 + 35) % 2 ^ 64

module _ (K : K256) where
  -- `if let Some(normalized) = sig.normalize_s() { sig = normalized; }`
  unfoldable pub low_s : K.Signature → K.Signature
  low_s sig = elim (K.normalize_s sig) [ some normalized ↦ normalized | none ↦ sig ]

  -- The two nested tests of the loop.
  unfoldable pub recovers : Bytes → K.Signature → K.Key → ℕ → Bool
  recovers msg_hash sig expected rid = elim (K.recover msg_hash sig rid) [
    | ok vk ↦ K.key_eq vk expected
    | err e ↦ false
  ]

  unfoldable pub with_recovery_id : K.Signature → ℕ → ℕ → EthSignature
  with_recovery_id sig rid chain_id = record {
    r = take 32 (K.to_bytes sig);
    s = drop 32 (K.to_bytes sig);
    v = eip155_v rid chain_id;
  }

  -- `for rid in 0u8..=1`
  unfoldable pub try_recovery_ids : Bytes → K.Signature → K.Key → ℕ → Result EthSignature Error
  try_recovery_ids msg_hash sig expected chain_id =
      if recovers msg_hash sig expected 0
      then ok (with_recovery_id sig 0 chain_id)
      else if recovers msg_hash sig expected 1
      then ok (with_recovery_id sig 1 chain_id)
      else err recovery_failed

  unfoldable pub ethereum_signature : Bytes → Bytes → Bytes → ℕ → Result EthSignature Error
  ethereum_signature pubkey msg_hash rs chain_id = do
    expected ←
        map_err (λ e. signature (codes "invalid public key: " ++ e)) (K.from_sec1_bytes pubkey)
    sig ← map_err (λ e. signature (codes "invalid R||S: " ++ e)) (K.from_slice rs)
    try_recovery_ids msg_hash (low_s sig) expected chain_id
