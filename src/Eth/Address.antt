-- ===== src/Eth/Address.antt =====
-- yubiwallet/src/eth.rs: which public keys have an address, and what an address is.
use crypto_rust_tools.Base.{get_or, ◌≡◌, ◌↔◌, arith, ap, [], ◌∷◌, Bytes, length, length-drop, drop}
use crypto_rust_tools.Base.{ok}
use crypto_rust_tools.Text.{codes}
use crypto_rust_tools.External.{Hex, IsHex, Keccak, IsKeccak}
use crypto_rust_tools.Eth.{address_from_pubkey, address_to_hex}

module _ (keccak : Keccak) where
  -- A public key has an address exactly if it has 65 bytes and begins with 04, and the address is
  -- that of its coordinates: the hash of the other 64 bytes without its first twelve.
  pub address_from_pubkey_iff :
      (pubkey address : Bytes)
      → (address_from_pubkey keccak pubkey ≡ ok address)
        ↔ ((xy : Bytes) × (pubkey ≡ 0x04 ∷ xy) × (length xy ≡ 64) × (address ≡ drop 12 (keccak xy)))
  unfolding address_from_pubkey
  address_from_pubkey_iff [] address = (λ h. absurd (ground arith), λ t. absurd (cc (t.1)))
  address_from_pubkey_iff (x ∷ xy) address = (
    λ h. (xy, ap (λ b. b ∷ xy) (ground arith), ground arith, ground arith),
    λ (zs, e, l, a). ground (arith, e, l, a),
  )

  pub address_of_key :
      (pubkey : Bytes)
      → length pubkey ≡ 65
      → get_or pubkey 0 0 ≡ 0x04
      → (address : Bytes) × (address_from_pubkey keccak pubkey ≡ ok address)
  unfolding address_from_pubkey
  address_of_key pubkey l p = (drop 12 (keccak (drop 1 pubkey)), ground arith)

  -- An address has 20 bytes, and 42 characters in its printed form.
  pub address_from_pubkey_size :
      (H : Hex) (pubkey : Bytes) {address : Bytes}
      → IsKeccak keccak
      → IsHex H
      → address_from_pubkey keccak pubkey ≡ ok address
      → (length address ≡ 20) × (length (address_to_hex H address) ≡ 42)
  unfolding address_to_hex codes
  address_from_pubkey_size H pubkey {address} size hex h =
      let (xy, e, l, a) = (address_from_pubkey_iff pubkey address).0 h in
      let n : length address ≡ 20 =
        omega (arith, ap length a, length-drop 12 (keccak xy), size xy) in
      (n, omega (arith, n, hex.length-encode address))
