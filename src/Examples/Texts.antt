-- ===== src/Examples/Texts.antt =====
-- The functions of Rust's `str` and `format!` on concrete texts.
use crypto_rust_tools.Base.{◌≡◌, refl, [], ◌∷◌, some}
use crypto_rust_tools.Text.{codes, trim, from_str_radix, split, split_whitespace}
use crypto_rust_tools.Text.{decimal}

trim_spaces : trim (codes "  Ab c ") ≡ codes "Ab c"
unfolding trim codes
trim_spaces = refl

split_with_empty_end : split b':' (codes "a:b:") ≡ codes "a" ∷ codes "b" ∷ [] ∷ []
unfolding split codes
split_with_empty_end = refl

decimal_number : decimal 1230 ≡ codes "1230"
unfolding decimal codes
decimal_number = refl

radix_with_sign : from_str_radix (codes "+9a") ≡ some 0x9a
unfolding from_str_radix codes
radix_with_sign = refl

split_words : split_whitespace (codes " a  bc d ") ≡ codes "a" ∷ codes "bc" ∷ codes "d" ∷ []
unfolding split_whitespace codes
split_words = refl
