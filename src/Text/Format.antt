-- ===== src/Text/Format.antt =====
-- What `format!` makes of numbers.
use crypto_rust_tools.Base.{ℕ, zero, suc, ◌+◌, ◌-◌, ◌/◌, ◌%◌, ◌≤◌, [], ◌∷◌, All, arith}
use crypto_rust_tools.Base.{ltb, if◌then◌else◌, Bool-cases, inl, inr}
use crypto_rust_tools.Text.Chars.{Text}

lower_digit : ℕ → ℕ
lower_digit d = if ltb d 10 then b'0' + d else b'a' + (d - 10)

upper_digit : ℕ → ℕ
upper_digit d = if ltb d 10 then b'0' + d else b'A' + (d - 10)

-- `{:02x}` of a byte.
unfoldable pub hex2 : ℕ → Text
unfolding lower_digit
hex2 b = lower_digit (b / 16) ∷ lower_digit (b % 16) ∷ []

-- `{:#04x}` of a byte.
unfoldable pub hex2_prefixed : ℕ → Text
unfolding hex2
hex2_prefixed b = b'0' ∷ b'x' ∷ hex2 b

-- `{:04X}` of a 16-bit number.
unfoldable pub hex4_upper : ℕ → Text
unfolding upper_digit
hex4_upper n =
    upper_digit (n / 4096 % 16)
    ∷ upper_digit (n / 256 % 16)
    ∷ upper_digit (n / 16 % 16)
    ∷ upper_digit (n % 16)
    ∷ []

decimal_loop : ℕ → ℕ → Text → Text
decimal_loop zero n out = out
decimal_loop (suc fuel) n out =
    let rest = decimal_loop fuel (n / 10) ((b'0' + n % 10) ∷ out) in
    if ltb n 10 then (b'0' + n) ∷ out else rest

-- `{}` of a number. Each round divides by ten, so one round more than the number is enough.
unfoldable pub decimal : ℕ → Text
unfolding decimal_loop
decimal n = decimal_loop (suc n) n []

decimal_loop_digits :
    (fuel n : ℕ) (out : Text)
    → All (λ c. b'0' ≤ c) out
    → All (λ c. b'0' ≤ c) (decimal_loop fuel n out)
unfolding decimal_loop
decimal_loop_digits zero n out h = h
decimal_loop_digits (suc fuel) n out h =
    let rest : All (λ c. b'0' ≤ c) (decimal_loop fuel (n / 10) ((b'0' + n % 10) ∷ out)) =
      decimal_loop_digits fuel (n / 10) ((b'0' + n % 10) ∷ out) (omega arith, h) in
    elim (Bool-cases (ltb n 10)) [ inl e ↦ rw e (omega arith, h) | inr e ↦ rw e rest ]

-- No character of a number stands before the digits.
pub decimal_digits : (n : ℕ) → All (λ c. b'0' ≤ c) (decimal n)
unfolding decimal
decimal_digits n = decimal_loop_digits (suc n) n [] tt
