-- ===== src/Wasm.antt =====
-- yubiwallet-wasm/src/lib.rs: the functions for the browser. A `JsError` is the text that it is made
-- of; the getters of `EvmSignature` are its fields.
pub mod Agreement
use crypto_rust_tools.Base.{
  ℕ, not, ◌==◌, if◌then◌else◌, Bytes, length, Result, ok, err, map_err, ◌>>=◌,
}
use crypto_rust_tools.Text.{Text, codes, trim_start_0x}
use crypto_rust_tools.External.{Hex, Keccak, K256}
use crypto_rust_tools.Error.{to_string}
use crypto_rust_tools.Wallet.{as_array}
use crypto_rust_tools.Eth.{EthSignature, address_from_pubkey, address_to_hex, ethereum_signature}

pub record EvmSignature : Type 0 where
  pub r : Text
  pub s : Text
  pub v : ℕ

module _ (H : Hex) where
  unfoldable pub unhex : Text → Result Bytes Text
  unhex t = H.decode (trim_start_0x t)

  -- The test of the size, and the address.
  abbrev ed25519_address : (Bytes → Text) → Bytes → Result Text Text
  ed25519_address bs58_encode pk =
      if not (length pk == 32)
      then err (codes "expected a 32-byte Ed25519 public key")
      else ok (bs58_encode pk)

  unfoldable pub solana_address : (Bytes → Text) → Text → Result Text Text
  unfolding unhex
  solana_address bs58_encode pubkey_hex = do pk ← unhex pubkey_hex; ed25519_address bs58_encode pk

  unfoldable pub eth_address : Keccak → Text → Result Text Text
  unfolding unhex
  eth_address keccak pubkey_hex = do
    pk ← unhex pubkey_hex
    addr ← map_err to_string (address_from_pubkey keccak pk)
    ok (address_to_hex H addr)

  -- The form in which a signature is handed out.
  abbrev pub in_hex : EthSignature → EvmSignature
  in_hex sig = record { r = H.encode sig.r; s = H.encode sig.s; v = sig.v }

  unfoldable pub eth_signature : K256 → Text → Text → Text → ℕ → Result EvmSignature Text
  unfolding unhex as_array
  eth_signature K pubkey_hex hash_hex rs_hex chain_id = do
    pk ← unhex pubkey_hex
    hash_vec ← unhex hash_hex
    hash ← map_err (λ _. codes "hash must be 32 bytes") (as_array 32 hash_vec)
    rs_vec ← unhex rs_hex
    rs ← map_err (λ _. codes "R||S must be 64 bytes") (as_array 64 rs_vec)
    sig ← map_err to_string (ethereum_signature K pk hash rs chain_id)
    ok (in_hex sig)
