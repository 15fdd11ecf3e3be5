-- ===== src/Examples/Signatures.antt =====
-- yubiwallet/src/eth.rs at concrete keys and signatures.
use crypto_rust_tools.Eth.{try_recovery_ids, with_recovery_id}
use crypto_rust_tools.Base.{◌≡◌, refl}
use crypto_rust_tools.Base.{Bytes, replicate, ok, none, length}
use crypto_rust_tools.Eth.{
  EthSignature, eip155_v, address_from_pubkey, low_s, recovers, ethereum_signature,
}
use crypto_rust_tools.Eth.Recovery.{Recovered, ethereum_signature-Recovered}
use crypto_rust_tools.Examples.Fixtures.{keccak, k256, k256-IsK256, point}

abbrev address : Bytes
address = replicate 20 0

address_of_sample : address_from_pubkey keccak point ≡ ok address
unfolding address_from_pubkey
address_of_sample = refl

abbrev hash : Bytes
hash = replicate 32 0x22

-- A signature with a high S.
abbrev rs : Bytes
rs = replicate 64 0x99

abbrev eth : EthSignature
eth = record { r = replicate 32 0x99; s = replicate 32 0x99; v = 38 }

signed : ethereum_signature k256 point hash rs 1 ≡ ok eth
unfolding ethereum_signature try_recovery_ids recovers with_recovery_id low_s eip155_v
signed = refl

ethereum_signature-Recovered_example :
    (w : Recovered k256 point hash rs 1 eth) × (k256.normalize_s w.low ≡ none)
    × (length eth.r ≡ 32)
    × (length eth.s ≡ 32)
ethereum_signature-Recovered_example =
    ethereum_signature-Recovered k256 k256-IsK256 point hash rs 1 eth signed
