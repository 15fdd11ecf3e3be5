-- ===== src/Chains/Bitcoin/LongScripts.antt =====
-- yubiwallet/examples/btc_sign.rs: an output whose script is longer than one byte can say.
use crypto_rust_tools.Base.{
  ℕ, ◌%◌, ◌^◌, ◌≤◌, ◌<◌, ◌≡◌, refl, arith, some, ◌∷◌, ◌++◌, append_assoc, Bytes, length,
  length-take, take, drop, take-append-drop,
}
use crypto_rust_tools.Chains.Encoding.{le_bytes, le_value-le_bytes_8, read_bytes-append}
use crypto_rust_tools.Chains.Readers.{◌>>=◌, return, counted, Reads-number}
use crypto_rust_tools.Chains.Bitcoin.{Spend, outputs}
use crypto_rust_tools.Chains.Bitcoin.Decoding.{read_output}

-- A byte that is too small is taken for the length.
counted_cut :
    (b rest : Bytes) (n : ℕ)
    → n < 253
    → n ≤ length b
    → counted (n ∷ (b ++ rest)) ≡ some (take n b, drop n b ++ rest)
unfolding counted
counted_cut b rest n h l =
    let whole : take n b ++ (drop n b ++ rest) ≡ b ++ rest =
      rw (← append_assoc (take n b) (drop n b) rest, take-append-drop n b) in
    let e = read_bytes-append n (take n b) (drop n b ++ rest) (length-take n b l) in
    ground (arith, rw whole at e)

-- The output of a spend to a script of 256 bytes or more, of an amount in the range of its type, is
-- read with a script that is too short: if the length modulo 256 is below 253, a reader of BIP 144
-- finds that many bytes of it, and takes the other bytes of the script for what follows the output.
pub read_output-outputs_long :
    (spend : Spend) (rest : Bytes)
    → spend.out_sat < 2 ^ 64
    → 256 ≤ length spend.dest_spk
    → length spend.dest_spk % 256 < 253
    → let n = length spend.dest_spk % 256 in
      (read_output (outputs spend ++ rest)
        ≡ some ((spend.out_sat, take n spend.dest_spk), drop n spend.dest_spk ++ rest))
      × (length (take n spend.dest_spk) < length spend.dest_spk)
unfolding read_output outputs ◌>>=◌ return
read_output-outputs_long spend rest o l h =
    let b = spend.dest_spk in
    let n = length b % 256 in
    let value = Reads-number 8 spend.out_sat (le_value-le_bytes_8 spend.out_sat o) in
    let below : n ≤ length b = omega arith in
    (
      rw
          (
            append_assoc (le_bytes 8 spend.out_sat) (n ∷ b) rest,
            value.yields (n ∷ (b ++ rest)),
            counted_cut b rest n h below,
          )
          refl,
      omega (arith, length-take n b below),
    )
