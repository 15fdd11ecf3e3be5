-- ===== src/Chains/Bitcoin/Decoding.antt =====
-- yubiwallet/examples/btc_sign.rs: the transaction is one that a reader of BIP 144 takes apart.
use crypto_rust_tools.Base.{ℕ, ◌%◌, ◌^◌, ◌<◌, ◌≡◌, arith, some}
use crypto_rust_tools.Base.{[], ◌∷◌, ◌++◌, append_assoc, Bytes, length}
use crypto_rust_tools.Chains.Encoding.{le_bytes, le_value-le_bytes_4, le_value-le_bytes_8}
use crypto_rust_tools.Chains.Readers.{
  Reader, ◌>>=◌, return, fixed, number, byte, counted, whole, Reads, Reads-bind, Reads-last,
  Reads-return, Reads-fixed, Reads-byte, Reads-number, Reads-counted, whole-Reads,
}
use crypto_rust_tools.Chains.Bitcoin.{Spend, outpoint, outputs, raw_tx, sequence}

-- A segwit transaction with one input and one output, and the two items of the input's witness.
pub record Transaction : Type 0 where
  -- the marker, the flag and the three counts
  pub header : Bytes
  pub version_of : ℕ
  pub txid : Bytes
  pub vout : ℕ
  pub input_script : Bytes
  pub sequence_of : ℕ
  pub value : ℕ
  pub output_script : Bytes
  pub signature : Bytes
  pub pubkey : Bytes
  pub locktime_of : ℕ

-- The transaction id and the index of the output that is spent.
unfoldable pub read_outpoint : Reader (Bytes × ℕ)
read_outpoint = do txid ← fixed 32; vout ← number 4; return (txid, vout)

-- The output: its value and its script.
unfoldable pub read_output : Reader (ℕ × Bytes)
read_output = do value ← number 8; script ← counted; return (value, script)

-- The witness of the input: its two items.
unfoldable pub read_witness : Reader (Bytes × Bytes)
read_witness = do signature ← counted; pubkey ← counted; return (signature, pubkey)

-- BIP 144: version, marker and flag, the inputs, the outputs, the witness of the input, lock time.
unfoldable pub read_transaction : Reader Transaction
read_transaction = do
  version_of ← number 4
  marker ← byte
  flag ← byte
  inputs ← byte
  spent ← read_outpoint
  input_script ← counted
  sequence_of ← number 4
  output_count ← byte
  output ← read_output
  items ← byte
  witness ← read_witness
  locktime_of ← number 4
  return (record {
    header = marker ∷ flag ∷ inputs ∷ output_count ∷ items ∷ [];
    version_of = version_of;
    txid = spent.0;
    vout = spent.1;
    input_script = input_script;
    sequence_of = sequence_of;
    value = output.0;
    output_script = output.1;
    signature = witness.0;
    pubkey = witness.1;
    locktime_of = locktime_of;
  })

pub number_4 : (n : ℕ) → n < 2 ^ 32 → Reads (number 4) (le_bytes 4 n) n
number_4 n h = Reads-number 4 n (le_value-le_bytes_4 n h)

pub read_outpoint-outpoint :
    (spend : Spend)
    → length spend.txid_le ≡ 32
    → spend.vout < 2 ^ 32
    → Reads read_outpoint (outpoint spend) (spend.txid_le, spend.vout)
unfolding read_outpoint outpoint
read_outpoint-outpoint spend t v =
    Reads-bind _ (Reads-fixed 32 spend.txid_le t)
      (Reads-last _ (number_4 spend.vout v) (Reads-return _))

read_output-outputs :
    (spend : Spend)
    → spend.out_sat < 2 ^ 64
    → length spend.dest_spk < 253
    → Reads read_output (outputs spend) (spend.out_sat, spend.dest_spk)
unfolding read_output outputs
read_output-outputs spend o d =
    Reads-bind _ (Reads-number 8 spend.out_sat (le_value-le_bytes_8 spend.out_sat o))
      (Reads-last _ (Reads-counted spend.dest_spk d) (Reads-return _))

-- A byte sequence behind its length.
abbrev sized : Bytes → Bytes
sized b = (length b % 256) ∷ b

read_witness_lem :
    (sig cpk : Bytes)
    → length sig < 253
    → length cpk < 253
    → Reads read_witness (sized sig ++ sized cpk) (sig, cpk)
unfolding read_witness
read_witness_lem sig cpk g k =
    Reads-bind _ (Reads-counted sig g) (Reads-last _ (Reads-counted cpk k) (Reads-return _))

module _ (spend : Spend) (sig cpk : Bytes) where
  -- The transaction that is meant.
  abbrev pub intended : Transaction
  intended = record {
    header = 0x00 ∷ 0x01 ∷ 0x01 ∷ 0x01 ∷ 0x02 ∷ [];
    version_of = 2;
    txid = spend.txid_le;
    vout = spend.vout;
    input_script = [];
    sequence_of = 0xffffffff;
    value = spend.out_sat;
    output_script = spend.dest_spk;
    signature = sig;
    pubkey = cpk;
    locktime_of = 0;
  }

  -- `tx` is read as the transaction that is meant: if the transaction id has 32 bytes, the numbers
  -- are in the range of their types, and the script, the signature and the key have less than 253
  -- bytes.
  pub read_transaction-raw_tx :
      length spend.txid_le ≡ 32
      → spend.vout < 2 ^ 32
      → spend.out_sat < 2 ^ 64
      → length spend.dest_spk < 253
      → length sig < 253
      → length cpk < 253
      → whole (read_transaction (raw_tx spend sig cpk)) ≡ some intended
  unfolding read_transaction raw_tx
  read_transaction-raw_tx t v o d g k =
      whole-Reads read_transaction (raw_tx spend sig cpk) intended (
        rw (← append_assoc (sized sig) (sized cpk) (le_bytes 4 0)) (
          Reads-bind _ (number_4 2 (omega arith)) (
            Reads-bind _ (Reads-byte 0x00) (
              Reads-bind _ (Reads-byte 0x01) (
                Reads-bind _ (Reads-byte 0x01) (
                  Reads-bind _ (read_outpoint-outpoint spend t v) (
                    Reads-bind _ (Reads-counted [] (omega arith)) (
                      Reads-bind _ (number_4 sequence (omega arith)) (
                        Reads-bind _ (Reads-byte 0x01) (
                          Reads-bind _ (read_output-outputs spend o d) (
                            Reads-bind _ (Reads-byte 0x02) (
                              Reads-bind _ (read_witness_lem sig cpk g k) (
                                Reads-last _ (number_4 0 (omega arith))
                                  (Reads-return _))))))))))))))
