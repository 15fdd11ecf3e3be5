-- ===== src/Wasm/Agreement.antt =====
-- yubiwallet-wasm/src/lib.rs: the functions for the browser compute what yubiwallet/src/eth.rs does.
use crypto_rust_tools.Base.{ℕ, ◌≡◌, refl, ap, arith, [], ◌∷◌, ◌++◌, Bytes, AreBytes, length}
use crypto_rust_tools.Base.{◌>>=◌, Result, ok, err, map_ok, map_err, ◌∙◌}
use crypto_rust_tools.Text.{Text, codes, trim_start_0x}
use crypto_rust_tools.External.{Hex, IsHex, AreDigits, Keccak, K256}
use crypto_rust_tools.Error.{Error, to_string}
use crypto_rust_tools.Wallet.{as_array}
use crypto_rust_tools.Eth.{EthSignature, address_from_pubkey, address_to_hex, ethereum_signature}
use crypto_rust_tools.Wasm.{EvmSignature, in_hex, unhex, eth_address, eth_signature}

-- Digits have no prefix to take away, since `x` is none.
trim_start_0x-AreDigits : (t : Text) → AreDigits t → trim_start_0x t ≡ t
unfolding trim_start_0x
trim_start_0x-AreDigits [] h = refl
trim_start_0x-AreDigits (a ∷ []) h = refl
trim_start_0x-AreDigits (a ∷ b ∷ t) (_, (h, _)) = ground arith

-- Bytes in hexadecimal form, with or without `0x` in front.
abbrev pub written : Hex → Text → Bytes → Text
written H prefix b = prefix ++ H.encode b

pub data Prefix : Text → Type 0 where
  plain : Prefix []
  prefixed : Prefix (codes "0x")

trim_start_0x-Prefix :
    {prefix : Text} (p : Prefix prefix) (t : Text) → AreDigits t → trim_start_0x (prefix ++ t) ≡ t
unfolding trim_start_0x codes
trim_start_0x-Prefix plain t h = trim_start_0x-AreDigits t h
trim_start_0x-Prefix prefixed t h = trim_start_0x-AreDigits t h

as_array-eq-ok : (n : ℕ) (b : Bytes) → length b ≡ n → as_array n b ≡ ok b
unfolding as_array
as_array-eq-ok n b h = ground arith

-- The halves in hexadecimal form, and `v`.
abbrev pub evm_form : Hex → EthSignature → EvmSignature
evm_form H sig = record { r = H.encode sig.r; s = H.encode sig.s; v = sig.v }

module _ (H : Hex) (L : IsHex H) {prefix : Text} (p : Prefix prefix) where
  unhex-written : (b : Bytes) → AreBytes b → unhex H (written H prefix b) ≡ ok b
  unfolding unhex
  unhex-written b h =
      ap H.decode (trim_start_0x-Prefix p (H.encode b) (L.encode-AreDigits b h))
      ∙ L.decode-encode b h

  -- If `IsHex` holds: on a key, a hash of 32 bytes and a signature of 64 bytes in hexadecimal form, with `0x` in
  -- front or without, `eth_signature` is `ethereum_signature` with `r` and `s` of its result in
  -- hexadecimal form and the same `v`, and with its error as the text that it prints.
  pub eth_signature-ethereum_signature :
      (K : K256) (pk hash rs : Bytes) (chain_id : ℕ)
      → AreBytes pk
      → AreBytes hash
      → AreBytes rs
      → length hash ≡ 32
      → length rs ≡ 64
      → eth_signature H K
          (written H prefix pk)
          (written H prefix hash)
          (written H prefix rs)
          chain_id
        ≡ map_ok (evm_form H) (map_err to_string (ethereum_signature K pk hash rs chain_id))
  unfolding eth_signature
  eth_signature-ethereum_signature K pk hash rs chain_id a b c h k =
      rw
        (
          unhex-written pk a,
          unhex-written hash b,
          unhex-written rs c,
          as_array-eq-ok 32 hash h,
          as_array-eq-ok 64 rs k,
        )
        (last (ethereum_signature K pk hash rs chain_id))
    where
      last :
          (r : Result EthSignature Error)
          → (map_err to_string r >>= λ sig. ok (in_hex H sig))
            ≡ map_ok (evm_form H) (map_err to_string r)
      last (ok sig) = refl
      last (err e) = refl

  -- On a key in hexadecimal form, with `0x` in front or without, `eth_address` prints the address
  -- that `address_from_pubkey` has for the key, or its error.
  pub eth_address-address_from_pubkey :
      (keccak : Keccak) (pk : Bytes)
      → AreBytes pk
      → eth_address H keccak (written H prefix pk)
        ≡ map_ok (address_to_hex H) (map_err to_string (address_from_pubkey keccak pk))
  unfolding eth_address
  eth_address-address_from_pubkey keccak pk a =
      rw (unhex-written pk a) (last (address_from_pubkey keccak pk))
    where
      last :
          (r : Result Bytes Error)
          → (map_err to_string r >>= λ addr. ok (address_to_hex H addr))
            ≡ map_ok (address_to_hex H) (map_err to_string r)
      last (ok addr) = refl
      last (err e) = refl
