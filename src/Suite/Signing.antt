-- ===== src/Suite/Signing.antt =====
-- The tests of yubiwallet/src/eth.rs that sign with a key of the `k256` crate.
pub mod Recovering
use crypto_rust_tools.Base.{
  ℕ, ◌+◌, ◌-◌, ◌*◌, ◌≡◌, ◌&&◌, ◌||◌, Bool, true, false, Option, none, some, List, [], ◌∷◌, Bytes,
  bytes_eq, leb, replicate, ◌==◌, if◌then◌else◌, Result, ok, err, to_option,
}
use crypto_rust_tools.Text.{Text, codes, as_bytes, text_eq}
use crypto_rust_tools.External.{Hex, Keccak, K256}
use crypto_rust_tools.Error.{Error, recovery_failed}
use crypto_rust_tools.Eth.{EthSignature, address_from_pubkey, address_to_hex, ethereum_signature}

-- The digits, of which each other character is a panic.
unfoldable pub nibble : ℕ → Option ℕ
nibble c =
    if leb b'0' c && leb c b'9'
    then some (c - b'0')
    else if leb b'a' c && leb c b'f'
    then some (c - b'a' + 10)
    else none

abbrev push_byte : Option ℕ → Option ℕ → Option Bytes → Option Bytes
push_byte (some hi) (some lo) (some out) = some ((hi * 16 + lo) ∷ out)
push_byte _ _ _ = none

-- The loop over the pairs of digits.
unfoldable pub hex_literal : Text → Option Bytes
hex_literal (hi ∷ lo ∷ s) = push_byte (nibble hi) (nibble lo) (hex_literal s)
hex_literal _ = some []

abbrev pub hardhat_digits : Text
hardhat_digits = codes "ac0974bec39a17e36ba4a6b4d238ff944bacb478cbed5efcae784d7bf4f2ff80"

abbrev pub hardhat_addr : Text
hardhat_addr = codes "0xf39fd6e51aad88f6f4ce6ab8827279cfffb92266"

-- What the tests call of `k256::ecdsa` beyond what the code calls.
pub record Signer (K : K256) : Type 1 where
  pub SigningKey : Type 0
  pub from_bytes : Bytes → Result SigningKey Text
  -- `verifying_key().to_encoded_point(false).as_bytes()`
  pub public_point : SigningKey → Bytes
  pub sign_prehash : SigningKey → Bytes → Result K.Signature Text
  pub from_scalars : Bytes → Bytes → Result K.Signature Text
  -- `to_encoded_point(false).as_bytes()`
  pub key_point : K.Key → Bytes

-- `unwrap`, and the rest of the test: a panic fails it.
abbrev pub unwrapped : {A : Type 0} {E : Type 0} → Result A E → (A → Bool) → Bool
unwrapped (ok a) f = f a
unwrapped (err e) f = false

abbrev pub present : {A : Type 0} → Option A → (A → Bool) → Bool
present (some a) f = f a
present none f = false

-- Sepolia.
abbrev pub chain_id : ℕ
chain_id = 11155111

module _ (H : Hex) (keccak : Keccak) (K : K256) (S : Signer K) where
  abbrev pub with_signing_key : (S.SigningKey → Bool) → Bool
  with_signing_key f =
      present (hex_literal hardhat_digits) λ bytes. unwrapped (S.from_bytes bytes) f

  unfoldable pub known_address_from_pubkey : Bool
  known_address_from_pubkey = with_signing_key λ sk.
      unwrapped (address_from_pubkey keccak (S.public_point sk))
        λ addr. text_eq (address_to_hex H addr) hardhat_addr

  -- The recovery id in `v`, and the address of the key that the signature recovers with it. A
  -- subtraction below 0 is a panic.
  abbrev pub matches_signer : Bytes → Bytes → EthSignature → Bool
  matches_signer pk msg_hash eth =
      let recid = eth.v - chain_id * 2 - 35 in
      leb (chain_id * 2 + 35) eth.v
      && ((recid == 0 || recid == 1)
          && unwrapped (S.from_scalars eth.r eth.s) λ sig.
            unwrapped (K.recover msg_hash sig recid) λ recovered.
              unwrapped (address_from_pubkey keccak (S.key_point recovered))
                λ a. unwrapped (address_from_pubkey keccak pk) λ b. bytes_eq a b)

  unfoldable pub recovers_v_and_matches_signer : Bool
  recovers_v_and_matches_signer = with_signing_key λ sk.
      let pk = S.public_point sk in
      let msg_hash = keccak (as_bytes (codes "hello ethereum")) in
      unwrapped (S.sign_prehash sk msg_hash) λ sig.
        unwrapped (ethereum_signature K pk msg_hash (K.to_bytes sig) chain_id)
          λ eth. matches_signer pk msg_hash eth

  abbrev pub is_recovery_failed : Result EthSignature Error → Bool
  is_recovery_failed (err recovery_failed) = true
  is_recovery_failed _ = false

  unfoldable pub wrong_pubkey_fails_recovery : Bool
  wrong_pubkey_fails_recovery = with_signing_key λ sk.
      let msg_hash = replicate 32 7 in
      unwrapped (S.sign_prehash sk msg_hash) λ sig.
        unwrapped (S.from_bytes (replicate 32 1)) λ other.
          is_recovery_failed
            (ethereum_signature K (S.public_point other) msg_hash (K.to_bytes sig) 1)
