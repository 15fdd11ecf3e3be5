-- ===== src/Chains/Ethereum/Parity.antt =====
-- yubiwallet/examples/ethereum.rs: the parity that is handed on is that of the signature.
use crypto_rust_tools.Base.{◌⊎◌, false, ◌%◌, ◌^◌, ℕ, ◌+◌, ◌*◌, ◌≡◌, arith, true, inl, inr, Bytes}
use crypto_rust_tools.External.{K256}
use crypto_rust_tools.Eth.{EthSignature}
use crypto_rust_tools.Eth.Recovery.{Recovered}
use crypto_rust_tools.Chains.Ethereum.{sepolia, parity_of}

parity_of-eip155_v :
    (v : ℕ)
    → ((v ≡ (0 + sepolia * 2 % 2 ^ 64 + 35) % 2 ^ 64) → parity_of v ≡ false)
      × ((v ≡ (1 + sepolia * 2 % 2 ^ 64 + 35) % 2 ^ 64) → parity_of v ≡ true)
unfolding parity_of
parity_of-eip155_v v = (λ h. ground (arith, h), λ h. ground (arith, h))

-- The parity of a signature for Sepolia is the recovery id with which the signer's key is recovered.
pub parity_of-Recovered :
    (K : K256) (pubkey msg_hash rs : Bytes) (signed : EthSignature)
    (w : Recovered K pubkey msg_hash rs sepolia signed)
    → ((w.rid ≡ 0) × (parity_of signed.v ≡ false)) ⊎ ((w.rid ≡ 1) × (parity_of signed.v ≡ true))
parity_of-Recovered K pubkey msg_hash rs signed w = elim w.rid_range [
  | inl z ↦ inl (z, (parity_of-eip155_v signed.v).0 (rw z at w.v_value))
  | inr (o, _) ↦ inr (o, (parity_of-eip155_v signed.v).1 (rw o at w.v_value))
]
