-- ===== src/Account/Slots.antt =====
-- yubiwallet/src/account.rs, `piv_slot`: the listing and the test of slots agree.
use crypto_rust_tools.Base.{All}
use crypto_rust_tools.Base.{ℕ, ◌≡◌, refl, arith, Bool, true, false, ◌||◌, List, [], ◌∷◌}
use crypto_rust_tools.Base.{length, ◌==◌, if◌then◌else◌}
use crypto_rust_tools.Account.{is_valid, all}

-- `Vec::contains`
abbrev pub contains : ℕ → List ℕ → Bool
contains v [] = false
contains v (x ∷ xs) = v == x || contains v xs

-- No element stands twice.
abbrev pub distinct : List ℕ → Bool
distinct [] = true
distinct (x ∷ xs) = if contains x xs then false else distinct xs

-- The slots that `piv_slot::all` lists are those that `piv_slot::is_valid` accepts; there are 24,
-- and none is listed twice.
pub all_complete :
    ((v : ℕ) → contains v all ≡ is_valid v) × (length all ≡ 24) × (distinct all ≡ true)
unfolding all is_valid
all_complete = (λ v. ground arith, refl, refl)

pub all-is_valid : All (λ v. is_valid v ≡ true) all
unfolding all is_valid
all-is_valid = ground arith
