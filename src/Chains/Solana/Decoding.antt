-- ===== src/Chains/Solana/Decoding.antt =====
-- yubiwallet/examples/sol_surfpool.rs: the transaction is one that a reader of Solana's legacy format
-- takes apart.
use crypto_rust_tools.Base.{ℕ, ◌≡◌, refl, arith, some}
use crypto_rust_tools.Base.{List, [], ◌∷◌, ◌++◌, Bytes, length}
use crypto_rust_tools.Chains.Encoding.{le_bytes, length-le_bytes}
use crypto_rust_tools.Chains.Readers.{
  Reader, ◌>>=◌, return, fixed, whole, Reads, Reads-bind, Reads-last, Reads-return, Reads-fixed,
  whole-Reads,
}
use crypto_rust_tools.Chains.Solana.{compact_u16, message, transaction, system_program, data_of}
use crypto_rust_tools.Chains.Solana.Lengths.{read_compact, read_compact-compact_u16}

-- A transaction of one signature, three accounts, and one instruction of two accounts.
pub record Transfer : Type 0 where
  -- of the signatures, the accounts, the instructions, and the instruction's accounts
  pub counts : List ℕ
  pub signature : Bytes
  -- the three counts of the header
  pub header : Bytes
  pub payer : Bytes
  pub recipient : Bytes
  pub program : Bytes
  pub blockhash : Bytes
  pub program_index : Bytes
  pub account_indices : Bytes
  pub payload : Bytes

-- The instruction: the index of its program, the indices of its accounts, its data.
unfoldable pub read_instruction : Reader (Bytes × ℕ × Bytes × Bytes)
read_instruction = do
  program_index ← fixed 1
  account_count ← read_compact
  account_indices ← fixed 2
  data_size ← read_compact
  payload ← fixed data_size
  return (program_index, account_count, account_indices, payload)

unfoldable pub read_transfer : Reader Transfer
read_transfer = do
  signatures ← read_compact
  signature ← fixed 64
  header ← fixed 3
  accounts ← read_compact
  payer ← fixed 32
  recipient ← fixed 32
  program ← fixed 32
  blockhash ← fixed 32
  instructions ← read_compact
  instruction ← read_instruction
  return (record {
    counts = signatures ∷ accounts ∷ instructions ∷ instruction.1 ∷ [];
    signature = signature;
    header = header;
    payer = payer;
    recipient = recipient;
    program = program;
    blockhash = blockhash;
    program_index = instruction.0;
    account_indices = instruction.2;
    payload = instruction.3;
  })

-- The bytes of the instruction.
abbrev instruction_bytes : Bytes
instruction_bytes = 2 ∷ (compact_u16 2 ++ (0 ∷ 1 ∷ (compact_u16 (length data_of) ++ data_of)))

read_instruction-data_of : Reads read_instruction instruction_bytes (2 ∷ [], 2, 0 ∷ 1 ∷ [], data_of)
unfolding read_instruction
read_instruction-data_of = Reads-bind _ (Reads-fixed 1 (2 ∷ []) refl) (
    Reads-bind _ (read_compact-compact_u16 2 (omega arith)) (
      Reads-bind _ (Reads-fixed 2 (0 ∷ 1 ∷ []) refl) (
        Reads-bind _
          (read_compact-compact_u16 (length data_of) (omega (arith, length-le_bytes 8 1000)))
          (Reads-last _ (Reads-fixed (length data_of) data_of refl) (Reads-return _)))))

-- The transfer of 1000 lamports from the first of the three accounts, which is the one that signs, to
-- the second, by the system program.
abbrev pub intended : Bytes → Bytes → Bytes → Bytes → Transfer
intended sig from to blockhash = record {
  counts = 1 ∷ 3 ∷ 1 ∷ 2 ∷ [];
  signature = sig;
  header = 1 ∷ 0 ∷ 1 ∷ [];
  payer = from;
  recipient = to;
  program = system_program;
  blockhash = blockhash;
  program_index = 2 ∷ [];
  account_indices = 0 ∷ 1 ∷ [];
  payload = 2 ∷ 0 ∷ 0 ∷ 0 ∷ le_bytes 8 1000;
}

-- The transaction is read as the transfer that is meant, with the given block hash: for a signature of
-- 64 bytes, and accounts and a block hash of 32 bytes.
pub read_transfer-transaction :
    (sig from to blockhash : Bytes)
    → length sig ≡ 64
    → length from ≡ 32
    → length to ≡ 32
    → length blockhash ≡ 32
    → whole (read_transfer (transaction sig (message from to blockhash)))
      ≡ some (intended sig from to blockhash)
unfolding read_transfer transaction message
read_transfer-transaction sig from to blockhash s f t h =
    whole-Reads read_transfer (transaction sig (message from to blockhash)) _ (
      Reads-bind _ (read_compact-compact_u16 1 (omega arith)) (
        Reads-bind _ (Reads-fixed 64 sig s) (
          Reads-bind _ (Reads-fixed 3 (1 ∷ 0 ∷ 1 ∷ []) refl) (
            Reads-bind _ (read_compact-compact_u16 3 (omega arith)) (
              Reads-bind _ (Reads-fixed 32 from f) (
                Reads-bind _ (Reads-fixed 32 to t) (
                  Reads-bind _ (Reads-fixed 32 system_program (length-le_bytes 32 0)) (
                    Reads-bind _ (Reads-fixed 32 blockhash h) (
                      Reads-bind _ (read_compact-compact_u16 1 (omega arith))
                        (Reads-last _ read_instruction-data_of (Reads-return _)))))))))))
