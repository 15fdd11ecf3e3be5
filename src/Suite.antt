-- ===== src/Suite.antt =====
-- The unit tests of yubiwallet/src as definitions that compute: one Boolean for each test, which is
-- true if every assertion of the test holds. This module has the assertions that they share.
mod Apdu
mod Accounts
mod Errors
mod OpenPgp
mod Piv
mod Eth
mod Signing
use crypto_rust_tools.Base.{
  ℕ, zero, suc, ◌+◌, ◌&&◌, Bool, true, false, Option, none, some, List, [], ◌∷◌, Bytes, bytes_eq,
  ◌==◌, Result, ok, err,
}
use crypto_rust_tools.Base.Search.{position}
use crypto_rust_tools.Text.{Text}
use crypto_rust_tools.Error.{Error, pubkey_not_found, data_too_long}

-- The assertions of a test, one after the other.
abbrev pub all_hold : List Bool → Bool
all_hold [] = true
all_hold (b ∷ bs) = b && all_hold bs

abbrev pub is_err : {A : Type 0} → Result A Error → Bool
is_err (ok a) = false
is_err (err e) = true

-- `assert_eq!(_.unwrap(), _)`: a panic of `unwrap` is a failure of the test as well.
abbrev pub unwraps_to : Result Bytes Error → Bytes → Bool
unwraps_to (ok b) c = bytes_eq b c
unwraps_to (err e) c = false

abbrev pub unwraps_to_number : Result ℕ Error → ℕ → Bool
unwraps_to_number (ok m) n = m == n
unwraps_to_number (err e) n = false

-- `assert!(matches!(_, Err(Error::PubkeyNotFound(_))))`
abbrev pub is_pubkey_not_found : Result Bytes Error → Bool
is_pubkey_not_found (err (pubkey_not_found m)) = true
is_pubkey_not_found _ = false

-- `assert!(matches!(_, Err(Error::DataTooLong(n))))`
abbrev pub is_data_too_long : ℕ → Result Bytes Error → Bool
is_data_too_long n (err (data_too_long m)) = m == n
is_data_too_long n _ = false

abbrev some_position : Option ℕ → Bool
some_position none = false
some_position (some p) = true

-- `str::contains`, of a text that is not empty.
abbrev pub contains : Text → Text → Bool
contains t needle = some_position (position needle t)

-- `core::array::from_fn`, from an index on.
abbrev pub from_fn : (ℕ → ℕ) → ℕ → ℕ → Bytes
from_fn f i zero = []
from_fn f i (suc n) = f i ∷ from_fn f (i + 1) n
