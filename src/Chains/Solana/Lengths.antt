-- ===== src/Chains/Solana/Lengths.antt =====
-- yubiwallet/examples/sol_surfpool.rs: `compact_u16` is read back, and is as short as its name says.
use crypto_rust_tools.Base.{
  ℕ, zero, suc, ◌+◌, ◌-◌, ◌*◌, ◌/◌, ◌^◌, ◌<◌, ◌≡◌, arith, ltb, if◌then◌else◌, Option, none, some,
}
use crypto_rust_tools.Base.{[], ◌∷◌, ◌++◌, Bytes}
use crypto_rust_tools.Chains.Readers.{Reader, Reads}
use crypto_rust_tools.Chains.Solana.{compact_loop, compact_u16}

-- A digit of seven bits in front of the number behind it.
abbrev prefixed : ℕ → Option (ℕ × Bytes) → Option (ℕ × Bytes)
prefixed d none = none
prefixed d (some (n, rest)) = some (d + 128 * n, rest)

-- Seven bits a byte, the lowest first, up to a byte below 128.
unfoldable pub read_compact : Reader ℕ
read_compact [] = none
read_compact (b ∷ bs) =
    let rest = prefixed (b - 128) (read_compact bs) in if ltb b 128 then some (b, bs) else rest

read_compact-compact_loop :
    (fuel n : ℕ) (rest : Bytes)
    → n < 128 ^ suc fuel
    → read_compact (compact_loop (suc fuel) n ++ rest) ≡ some (n, rest)
unfolding read_compact compact_loop
read_compact-compact_loop zero n rest h = ground arith
read_compact-compact_loop (suc fuel) n rest h =
    ground (arith, read_compact-compact_loop fuel (n / 128) rest)

-- The prefix of a number of 64 bits is read back, whatever follows it.
pub read_compact-compact_u16 : (n : ℕ) → n < 2 ^ 64 → Reads read_compact (compact_u16 n) n
unfolding compact_u16
read_compact-compact_u16 n h = record {
  yields = λ rest. read_compact-compact_loop 9 n rest (omega arith);
}
