-- ===== src/Chains/Bitcoin.antt =====
-- yubiwallet/examples/btc_sign.rs: a P2WPKH transaction with one input and one output, signed by an
-- OpenPGP secp256k1 slot.
pub mod Program
pub mod Decoding
pub mod LongScripts
pub mod Arguments
pub mod Output
pub mod Commitment
use crypto_rust_tools.Base.{
  ℕ, ◌%◌, List, [], ◌∷◌, ◌++◌, Bytes, length, get_or, slice, ltb, ◌==◌, if◌then◌else◌, Option, none,
  some,
}
use crypto_rust_tools.Base.{Result, ok, err, ◌>>=◌}
use mathlib.Core.List.{reverse}
use crypto_rust_tools.Text.{Text, codes}
use crypto_rust_tools.External.{Hex, K256}
use crypto_rust_tools.Eth.{low_s}
use crypto_rust_tools.Chains.Encoding.{
  le_bytes, parse_unsigned, Panic, panicked, unwrap, unwrap_option, arg,
}

-- The hash functions, and `segwit::encode_v0` for regtest.
pub record Hashes : Type 0 where
  pub sha256_of : Bytes → Bytes
  pub ripemd160_of : Bytes → Bytes
  pub encode_v0 : Bytes → Result Text Text

module _ (F : Hashes) where
  unfoldable pub sha256d : Bytes → Bytes
  sha256d d = F.sha256_of (F.sha256_of d)

  unfoldable pub hash160 : Bytes → Bytes
  hash160 d = F.ripemd160_of (F.sha256_of d)

unfoldable pub compress : Bytes → Result Bytes Panic
compress pk65 =
    if ltb (length pk65) 65
    then err panicked
    else ok ((if get_or pk65 64 0 % 2 == 0 then 0x02 else 0x03) ∷ slice pk65 1 33)

-- What the command line asks to be signed.
pub record Spend : Type 0 where
  pub txid_le : Bytes
  pub vout : ℕ
  pub in_sat : ℕ
  pub dest_spk : Bytes
  pub out_sat : ℕ

abbrev pub version : ℕ
version = 2

abbrev pub sequence : ℕ
sequence = 0xffffffff

abbrev pub locktime : ℕ
locktime = 0

unfoldable pub outpoint : Spend → Bytes
outpoint spend = spend.txid_le ++ le_bytes 4 spend.vout

unfoldable pub script_code : Bytes → Bytes
script_code h160 = 0x19 ∷ 0x76 ∷ 0xa9 ∷ 0x14 ∷ (h160 ++ (0x88 ∷ 0xac ∷ []))

-- The output: its value, and its script behind the length, `as u8`.
unfoldable pub outputs : Spend → Bytes
outputs spend = le_bytes 8 spend.out_sat ++ ((length spend.dest_spk % 256) ∷ spend.dest_spk)

-- `pre`
unfoldable pub preimage : Hashes → Bytes → Spend → Bytes
preimage F h160 spend =
    le_bytes 4 version
    ++ (sha256d F (outpoint spend)
        ++ (sha256d F (le_bytes 4 sequence)
            ++ (outpoint spend
                ++ (script_code h160
                    ++ (le_bytes 8 spend.in_sat
                        ++ (le_bytes 4 sequence
                            ++ (sha256d F (outputs spend)
                                ++ (le_bytes 4 locktime ++ le_bytes 4 1))))))))

-- `tx`, with the signature and the compressed key as its witness.
unfoldable pub raw_tx : Spend → Bytes → Bytes → Bytes
raw_tx spend sig cpk =
    le_bytes 4 version
    ++ (0x00
        ∷ 0x01
        ∷ 0x01
        ∷ (outpoint spend
            ++ (0x00
                ∷ (le_bytes 4 sequence
                    ++ (0x01
                        ∷ (outputs spend
                            ++ (0x02
                                ∷ (length sig % 256)
                                ∷ (sig
                                    ++ ((length cpk % 256) ∷ (cpk ++ le_bytes 4 locktime))))))))))

-- The DER form of the signature of low S, and SIGHASH_ALL.
unfoldable pub witness_signature : (K : K256) → K.Signature → Bytes
witness_signature K s = K.to_der (low_s K s) ++ (0x01 ∷ [])

-- The arguments from the fourth on. The transaction id is given with its last byte first.
unfoldable pub read_spend : Hex → List Text → Result Spend Panic
read_spend H args = do
  txid_hex ← arg args 3
  txid ← unwrap (H.decode txid_hex)
  vout_text ← arg args 4
  vout ← unwrap_option (parse_unsigned 32 vout_text)
  in_text ← arg args 5
  in_sat ← unwrap_option (parse_unsigned 64 in_text)
  spk_hex ← arg args 6
  dest_spk ← unwrap (H.decode spk_hex)
  out_text ← arg args 7
  out_sat ← unwrap_option (parse_unsigned 64 out_text)
  ok (record {
    txid_le = reverse txid;
    vout = vout;
    in_sat = in_sat;
    dest_spk = dest_spk;
    out_sat = out_sat;
  })
