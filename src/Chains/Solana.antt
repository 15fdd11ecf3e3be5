-- ===== src/Chains/Solana.antt =====
-- yubiwallet/examples/sol_surfpool.rs: a legacy transfer transaction of Solana, signed by an Ed25519
-- slot of the PIV applet, and the JSON-RPC calls around it.
pub mod Rpc
pub mod Calls
pub mod Program
pub mod Lengths
pub mod Decoding
pub mod Members
pub mod Framing
pub mod Answers
pub mod Output
use crypto_rust_tools.Base.{
  ℕ, zero, suc, ◌+◌, ◌/◌, ◌%◌, List, [], ◌∷◌, ◌++◌, Bytes, length, ◌==◌, if◌then◌else◌,
}
use crypto_rust_tools.Text.{Text, codes}
use crypto_rust_tools.Chains.Encoding.{le_bytes}

abbrev pub system_program : Bytes
system_program = le_bytes 32 0

abbrev pub recipient_b58 : Text
recipient_b58 = codes "So11111111111111111111111111111111111111112"

unfoldable pub compact_loop : ℕ → ℕ → Bytes
compact_loop zero n = []
compact_loop (suc fuel) n =
    let rest = compact_loop fuel (n / 128) in
    if n / 128 == 0 then (n % 128) ∷ [] else (n % 128 + 0x80) ∷ rest

-- What the loop appends to `out`. A `usize` has 64 bits, which are gone after ten rounds of seven.
unfoldable pub compact_u16 : ℕ → Bytes
compact_u16 n = compact_loop 10 n

-- The data of the instruction: a system transfer of 1000 lamports.
abbrev pub data_of : Bytes
data_of = 2 ∷ 0 ∷ 0 ∷ 0 ∷ le_bytes 8 1000

-- `msg`
unfoldable pub message : Bytes → Bytes → Bytes → Bytes
message from to blockhash =
    1
    ∷ 0
    ∷ 1
    ∷ (compact_u16 3
        ++ (from
            ++ (to
                ++ (system_program
                    ++ (blockhash
                        ++ (compact_u16 1
                            ++ (2
                                ∷ (compact_u16 2
                                    ++ (0 ∷ 1 ∷ (compact_u16 (length data_of) ++ data_of))))))))))

-- `tx`
unfoldable pub transaction : Bytes → Bytes → Bytes
transaction sig msg = compact_u16 1 ++ (sig ++ msg)
