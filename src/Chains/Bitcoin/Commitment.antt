-- ===== src/Chains/Bitcoin/Commitment.antt =====
-- yubiwallet/examples/btc_sign.rs: what the bytes that are signed determine.
use crypto_rust_tools.Base.{ℕ, ◌^◌, ◌<◌, ◌≡◌, refl, sym, ◌∙◌, ap, arith, some}
use crypto_rust_tools.Base.{[], ◌∷◌, Bytes, length}
use mathlib.Core.Option.{some-injective}
use crypto_rust_tools.Chains.Encoding.{le_bytes, length-le_bytes, le_value-le_bytes_8}
use crypto_rust_tools.Chains.Readers.{
  Reader, ◌>>=◌, return, fixed, number, whole, Reads, Reads-bind, Reads-last, Reads-return,
  Reads-fixed, Reads-number, whole-Reads,
}
use crypto_rust_tools.Chains.Bitcoin.{
  Hashes, sha256d, Spend, outpoint, outputs, script_code, preimage, sequence, locktime,
}
use crypto_rust_tools.Chains.Bitcoin.Decoding.{read_outpoint, read_outpoint-outpoint, number_4}

-- What BIP 143 commits to.
pub record Commitment : Type 0 where
  pub txid : Bytes
  pub vout : ℕ
  pub key_hash : Bytes
  pub value : ℕ
  pub outputs_hash : Bytes

-- The script of a key hash.
unfoldable pub read_script_code : Reader Bytes
read_script_code = do opening ← fixed 4; key_hash ← fixed 20; closing ← fixed 2; return key_hash

unfoldable pub read_commitment : Reader Commitment
read_commitment = do
  version_of ← fixed 4
  prevouts_hash ← fixed 32
  sequence_hash ← fixed 32
  spent ← read_outpoint
  key_hash ← read_script_code
  value ← number 8
  sequence_of ← number 4
  outputs_hash ← fixed 32
  locktime_of ← number 4
  hash_type ← number 4
  return (record {
    txid = spent.0;
    vout = spent.1;
    key_hash = key_hash;
    value = value;
    outputs_hash = outputs_hash;
  })

read_script_code-script_code :
    (h160 : Bytes) → length h160 ≡ 20 → Reads read_script_code (script_code h160) h160
unfolding read_script_code script_code
read_script_code-script_code h160 k =
    Reads-bind _ (Reads-fixed 4 (0x19 ∷ 0x76 ∷ 0xa9 ∷ 0x14 ∷ []) refl) (
      Reads-bind _ (Reads-fixed 20 h160 k)
        (Reads-last _ (Reads-fixed 2 (0x88 ∷ 0xac ∷ []) refl) (Reads-return _)))

module _ (F : Hashes) (size : (b : Bytes) → length (F.sha256_of b) ≡ 32) where
  abbrev committed : Bytes → Spend → Commitment
  committed h160 spend = record {
    txid = spend.txid_le;
    vout = spend.vout;
    key_hash = h160;
    value = spend.in_sat;
    outputs_hash = sha256d F (outputs spend);
  }

  hashed : (b : Bytes) → Reads (fixed 32) (sha256d F b) (sha256d F b)
  unfolding sha256d
  hashed b = Reads-fixed 32 (sha256d F b) (size (F.sha256_of b))

  read_commitment-preimage :
      (h160 : Bytes) (spend : Spend)
      → length h160 ≡ 20
      → length spend.txid_le ≡ 32
      → spend.vout < 2 ^ 32
      → spend.in_sat < 2 ^ 64
      → whole (read_commitment (preimage F h160 spend)) ≡ some (committed h160 spend)
  unfolding read_commitment preimage
  read_commitment-preimage h160 spend k t v i =
      whole-Reads read_commitment (preimage F h160 spend) (committed h160 spend) (
        Reads-bind _ (Reads-fixed 4 (le_bytes 4 2) (length-le_bytes 4 2)) (
          Reads-bind _ (hashed (outpoint spend)) (
            Reads-bind _ (hashed (le_bytes 4 sequence)) (
              Reads-bind _ (read_outpoint-outpoint spend t v) (
                Reads-bind _ (read_script_code-script_code h160 k) (
                  Reads-bind _ (Reads-number 8 spend.in_sat (le_value-le_bytes_8 spend.in_sat i)) (
                    Reads-bind _ (number_4 sequence (omega arith)) (
                      Reads-bind _ (hashed (outputs spend)) (
                        Reads-bind _ (number_4 locktime (omega arith))
                          (Reads-last _ (number_4 1 (omega arith)) (Reads-return _)))))))))))

  -- Two spends whose signed bytes are equal spend the same output with the same amount, are locked to
  -- the same key, and the hashes of their outputs are equal: with a SHA-256 whose values have 32
  -- bytes, for key hashes of 20 bytes, transaction ids of 32 bytes, and numbers in the range of their
  -- types.
  pub preimage-injective :
      (h160 k160 : Bytes) (spend other : Spend)
      → length h160 ≡ 20
      → length k160 ≡ 20
      → length spend.txid_le ≡ 32
      → length other.txid_le ≡ 32
      → spend.vout < 2 ^ 32
      → other.vout < 2 ^ 32
      → spend.in_sat < 2 ^ 64
      → other.in_sat < 2 ^ 64
      → preimage F h160 spend ≡ preimage F k160 other
      → (spend.txid_le ≡ other.txid_le)
        × (spend.vout ≡ other.vout)
        × (h160 ≡ k160)
        × (spend.in_sat ≡ other.in_sat)
        × (sha256d F (outputs spend) ≡ sha256d F (outputs other))
  preimage-injective h160 k160 spend other kh kk th to vh vo ih io e =
      let same : committed h160 spend ≡ committed k160 other = some-injective _ _ (
        sym (read_commitment-preimage h160 spend kh th vh ih)
        ∙ (ap (λ b. whole (read_commitment b)) e
            ∙ read_commitment-preimage k160 other kk to vo io)) in
      (
        ap (λ c. c.txid) same,
        ap (λ c. c.vout) same,
        ap (λ c. c.key_hash) same,
        ap (λ c. c.value) same,
        ap (λ c. c.outputs_hash) same,
      )
