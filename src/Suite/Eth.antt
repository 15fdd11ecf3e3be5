-- ===== src/Suite/Eth.antt =====
-- Those tests of yubiwallet/src/eth.rs that need no signing key: under any hash.
use crypto_rust_tools.Base.{◌≡◌, refl, Bool, true, List, [], ◌∷◌, replicate, ◌==◌}
use crypto_rust_tools.External.{Keccak}
use crypto_rust_tools.Eth.{address_from_pubkey, eip155_v}
use crypto_rust_tools.Suite.{all_hold, is_err}

unfoldable eip155_v_formula : Bool
eip155_v_formula =
    all_hold ((eip155_v 0 1 == 37) ∷ (eip155_v 1 1 == 38) ∷ (eip155_v 0 11155111 == 22310257) ∷ [])

module _ (keccak : Keccak) where
  unfoldable address_requires_uncompressed_key : Bool
  address_requires_uncompressed_key = all_hold (
      is_err (address_from_pubkey keccak (replicate 33 0))
      ∷ is_err (address_from_pubkey keccak (replicate 65 0x02))
      ∷ [])

  abbrev tests : List Bool
  tests = address_requires_uncompressed_key ∷ eip155_v_formula ∷ []

  -- Both of them pass.
  tests_pass : all_hold tests ≡ true
  unfolding address_requires_uncompressed_key address_from_pubkey eip155_v_formula eip155_v
  tests_pass = refl
