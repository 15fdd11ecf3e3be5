-- ===== src/Chains/Encoding.antt =====
-- What the programs of yubiwallet/examples share: numbers in little-endian form, decimal numbers of
-- the command line, and panics.
use crypto_rust_tools.Base.{
  ℕ, zero, suc, ◌+◌, ◌-◌, ◌*◌, ◌/◌, ◌%◌, ◌^◌, ◌<◌, ◌≡◌, refl, arith, ◌&&◌, Option, none, some,
}
use crypto_rust_tools.Base.{
  List, [], ◌∷◌, ◌++◌, Bytes, length, get_elem?, take, drop, length-append, take-append_length,
  drop-append_length,
}
use crypto_rust_tools.Base.{ltb, leb, ◌==◌, if◌then◌else◌, Result, map_err, ok_or}
use crypto_rust_tools.Text.{Text}

-- `to_le_bytes` of a number of that many bytes.
unfoldable pub le_bytes : ℕ → ℕ → Bytes
le_bytes zero n = []
le_bytes (suc size) n = (n % 256) ∷ le_bytes size (n / 256)

-- The number that little-endian bytes stand for.
unfoldable pub le_value : Bytes → ℕ
le_value [] = 0
le_value (b ∷ bs) = b + 256 * le_value bs

pub length-le_bytes : (size n : ℕ) → length (le_bytes size n) ≡ size
unfolding le_bytes
length-le_bytes zero n = refl
length-le_bytes (suc size) n = omega (arith, length-le_bytes size (n / 256))

pub le_value-le_bytes_4 : (n : ℕ) → n < 2 ^ 32 → le_value (le_bytes 4 n) ≡ n
unfolding le_bytes le_value
le_value-le_bytes_4 n h = omega arith

pub le_value-le_bytes_8 : (n : ℕ) → n < 2 ^ 64 → le_value (le_bytes 8 n) ≡ n
unfolding le_bytes le_value
le_value-le_bytes_8 n h = omega arith

-- The next bytes of an input, and what is left of it.
unfoldable pub read_bytes : ℕ → Bytes → Option (Bytes × Bytes)
read_bytes n input = if ltb (length input) n then none else some (take n input, drop n input)

pub read_bytes-append :
    (n : ℕ) (front rest : Bytes)
    → length front ≡ n
    → read_bytes n (front ++ rest) ≡ some (front, rest)
unfolding read_bytes
read_bytes-append n front rest h = ground (
  arith,
  length-append front rest,
  take-append_length front rest n,
  drop-append_length front rest n,
)

-- `str::parse` of an unsigned type of that many bits: an optional `+`, and digits.
parse_digits : ℕ → Text → ℕ → Option ℕ
parse_digits bits [] acc = some acc
parse_digits bits (c ∷ cs) acc =
    let next = acc * 10 + (c - b'0') in
    let rest = parse_digits bits cs next in
    if leb b'0' c && leb c b'9' then (if ltb next (2 ^ bits) then rest else none) else none

unfoldable pub parse_unsigned : ℕ → Text → Option ℕ
unfolding parse_digits
parse_unsigned bits [] = none
parse_unsigned bits (c ∷ []) = parse_digits bits (c ∷ []) 0
parse_unsigned bits (c ∷ d ∷ cs) = parse_digits bits (if c == b'+' then d ∷ cs else c ∷ d ∷ cs) 0

-- A panic, which ends the program.
pub data Panic : Type 0 where
  panicked : Panic

-- `unwrap` and `expect`
abbrev pub unwrap : {A E : Type 0} → Result A E → Result A Panic
unwrap r = map_err (λ _. panicked) r

abbrev pub unwrap_option : {A : Type 0} → Option A → Result A Panic
unwrap_option o = ok_or panicked o

-- `args[i]`
abbrev pub arg : List Text → ℕ → Result Text Panic
arg args i = unwrap_option (get_elem? args i)
