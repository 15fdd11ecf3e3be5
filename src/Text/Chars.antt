-- ===== src/Text/Chars.antt =====
-- Characters, trimming, splitting, ASCII case, UTF-8, and `u8::from_str_radix`.
use Prim.Native.Char.{code}
use Prim.Native.String.{String}
use mathlib.Core.List.{reverse}
use crypto_rust_tools.Base.{ℕ, ◌+◌, ◌-◌, ◌*◌, ◌/◌, ◌%◌, Bool, true, false, ◌&&◌, ◌||◌}
use crypto_rust_tools.Base.{Option, none, some, List, [], ◌∷◌, ◌++◌, Bytes, bytes_eq}
use crypto_rust_tools.Base.{ltb, leb, ◌==◌, if◌then◌else◌}

abbrev pub Text : Type 0
Text = List ℕ

-- A text literal.
unfoldable pub codes : String → Text
codes String.[] = []
codes (String.◌∷◌ c s) = code c ∷ codes s

-- `==` of two texts.
unfoldable pub text_eq : Text → Text → Bool
text_eq = bytes_eq

-- `char::is_whitespace`, the property White_Space of Unicode.
unfoldable pub is_whitespace : ℕ → Bool
is_whitespace c =
    (leb 9 c && leb c 13)
    || c == 0x20
    || c == 0x85
    || c == 0xa0
    || c == 0x1680
    || (leb 0x2000 c && leb c 0x200a)
    || c == 0x2028
    || c == 0x2029
    || c == 0x202f
    || c == 0x205f
    || c == 0x3000

unfoldable pub trim_start : Text → Text
unfolding is_whitespace
trim_start [] = []
trim_start (c ∷ s) = if is_whitespace c then trim_start s else c ∷ s

-- `str::trim`
unfoldable pub trim : Text → Text
unfolding trim_start
trim s = reverse (trim_start (reverse (trim_start s)))

unfoldable pub lower : ℕ → ℕ
lower c = if leb b'A' c && leb c b'Z' then c + 32 else c

-- `str::to_ascii_lowercase`
unfoldable pub to_ascii_lowercase : Text → Text
unfolding lower
to_ascii_lowercase [] = []
to_ascii_lowercase (c ∷ s) = lower c ∷ to_ascii_lowercase s

cut : ℕ → Text → Text → List Text
cut sep [] cur = cur ∷ []
cut sep (c ∷ s) cur = elim (c == sep) [
  | true ↦ cur ∷ cut sep s []
  | false ↦ cut sep s (cur ++ (c ∷ []))
]

-- `str::split` at a character.
unfoldable pub split : ℕ → Text → List Text
unfolding cut
split sep s = cut sep s []

words : Text → Text → List Text
words [] [] = []
words [] (d ∷ cur) = (d ∷ cur) ∷ []
words (c ∷ s) [] = elim (is_whitespace c) [ true ↦ words s [] | false ↦ words s (c ∷ []) ]
words (c ∷ s) (d ∷ cur) = elim (is_whitespace c) [
  | true ↦ (d ∷ cur) ∷ words s []
  | false ↦ words s (d ∷ (cur ++ (c ∷ [])))
]

-- `str::split_whitespace`
unfoldable pub split_whitespace : Text → List Text
unfolding words is_whitespace
split_whitespace s = words s []

-- `s.strip_prefix("0x").unwrap_or(s)`
unfoldable pub strip_0x : Text → Text
strip_0x [] = []
strip_0x (a ∷ []) = a ∷ []
strip_0x (a ∷ b ∷ s) = if a == b'0' && b == b'x' then s else a ∷ b ∷ s

-- `s.trim_start_matches("0x")`, which takes every leading `0x` away.
unfoldable pub trim_start_0x : Text → Text
trim_start_0x [] = []
trim_start_0x (a ∷ []) = a ∷ []
trim_start_0x (a ∷ b ∷ s) =
    let rest = trim_start_0x s in if a == b'0' && b == b'x' then rest else a ∷ b ∷ s

-- The UTF-8 form of one scalar value; `str::as_bytes` of a text.
unfoldable pub utf8_char : ℕ → Bytes
utf8_char c =
    if ltb c 0x80
    then c ∷ []
    else if ltb c 0x800
    then (0xc0 + c / 64) ∷ (0x80 + c % 64) ∷ []
    else if ltb c 0x10000
    then (0xe0 + c / 4096) ∷ (0x80 + c / 64 % 64) ∷ (0x80 + c % 64) ∷ []
    else (0xf0 + c / 262144) ∷ (0x80 + c / 4096 % 64) ∷ (0x80 + c / 64 % 64) ∷ (0x80 + c % 64) ∷ []

unfoldable pub as_bytes : Text → Bytes
unfolding utf8_char
as_bytes [] = []
as_bytes (c ∷ s) = utf8_char c ++ as_bytes s

-- `char::to_digit(16)`
unfoldable pub hex_digit : ℕ → Option ℕ
hex_digit c =
    if leb b'0' c && leb c b'9'
    then some (c - b'0')
    else if leb b'a' c && leb c b'f'
    then some (c - b'a' + 10)
    else if leb b'A' c && leb c b'F'
    then some (c - b'A' + 10)
    else none

-- The digits of `u8::from_str_radix(_, 16)`; a value above 255 is an overflow.
radix_loop : Text → ℕ → Option ℕ
radix_loop [] acc = some acc
radix_loop (c ∷ s) acc = elim (hex_digit c) [
  | none ↦ none
  | some d ↦ elim (ltb (acc * 16 + d) 256) [ true ↦ radix_loop s (acc * 16 + d) | false ↦ none ]
]

-- `u8::from_str_radix(s, 16).ok()`: one leading `+` is allowed, and there must be a digit.
unfoldable pub from_str_radix : Text → Option ℕ
unfolding radix_loop hex_digit
from_str_radix [] = none
from_str_radix (c ∷ []) = if c == b'+' || c == b'-' then none else radix_loop (c ∷ []) 0
from_str_radix (c ∷ d ∷ s) = if c == b'+' then radix_loop (d ∷ s) 0 else radix_loop (c ∷ d ∷ s) 0
