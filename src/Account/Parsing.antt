-- ===== src/Account/Parsing.antt =====
-- yubiwallet/src/account.rs: what the parsers of applets, curves and slots accept.
use crypto_rust_tools.Base.{
  ℕ, ◌<◌, ◌≡◌, refl, arith, Bool, true, false, ◌&&◌, ◌⊎◌, holds_below, holds_below_lem, ok,
}
use crypto_rust_tools.Base.{◌==◌, if◌then◌else◌, >>=-eq-ok, Result, err}
use crypto_rust_tools.Text.{
  Text, codes, hex2, hex2_prefixed, trim, to_ascii_lowercase, text_eq, strip_0x, from_str_radix,
}
use crypto_rust_tools.Error.{Error}
use crypto_rust_tools.Account.{
  piv, open_pgp, is_valid, parse_slot, piv_slot_value, parse_hex_byte, sig, aut,
}

-- A PIV slot that `parse_slot` returns is a valid signing slot, whatever the text.
pub parse_slot-is_valid : (s : Text) {v : ℕ} → parse_slot piv s ≡ ok v → is_valid v ≡ true
unfolding parse_slot
parse_slot-is_valid s {v} h =
    let (w, e, f) = >>=-eq-ok (piv_slot_value s _) _ h in ground (arith, f)

-- An OpenPGP slot that `parse_slot` returns is SIG or AUT, whatever the text.
pub parse_slot_openpgp : (s : Text) {v : ℕ} → parse_slot open_pgp s ≡ ok v → (v ≡ sig) ⊎ (v ≡ aut)
unfolding parse_slot
parse_slot_openpgp s h = ground arith

is_ok_at : ℕ → Result ℕ Error → Bool
is_ok_at v (ok w) = w == v
is_ok_at v (err e) = false

is_ok_at_sound : (v : ℕ) (r : Result ℕ Error) → is_ok_at v r ≡ true → r ≡ ok v
unfolding is_ok_at
is_ok_at_sound v (ok w) h = ground arith
is_ok_at_sound v (err e) h = cc

-- Whether both spellings of a valid slot are read back.
reads_back : ℕ → Bool
unfolding is_ok_at
reads_back v =
    if is_valid v
    then is_ok_at v (parse_slot piv (hex2 v)) && is_ok_at v (parse_slot piv (hex2_prefixed v))
    else true

reads_back_table : holds_below reads_back 256 ≡ true
unfolding holds_below reads_back parse_slot parse_hex_byte piv_slot_value is_valid hex2
    hex2_prefixed trim to_ascii_lowercase text_eq codes strip_0x from_str_radix
reads_back_table = refl

is_valid-IsU8 : (v : ℕ) → is_valid v ≡ true → v < 256
unfolding is_valid
is_valid-IsU8 v h = ground arith

-- A valid PIV slot is read back from its two hexadecimal digits, with and without `0x`.
pub parse_slot-hex2 :
    (v : ℕ)
    → is_valid v ≡ true
    → (parse_slot piv (hex2 v) ≡ ok v) × (parse_slot piv (hex2_prefixed v) ≡ ok v)
unfolding reads_back
parse_slot-hex2 v h =
    let t = holds_below_lem reads_back 256 (is_valid-IsU8 v h) reads_back_table in
    let plain = is_ok_at_sound v (parse_slot piv (hex2 v)) in
    let prefixed = is_ok_at_sound v (parse_slot piv (hex2_prefixed v)) in
    (plain (ground (arith, t)), prefixed (ground (arith, t)))
