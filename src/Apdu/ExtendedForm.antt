-- ===== src/Apdu/ExtendedForm.antt =====
-- yubiwallet/src/apdu.rs, `build_apdu_ext`: its output read back by the extended forms of
-- ISO 7816-4, and what happens to data of 65536 bytes and more.
use crypto_rust_tools.Base.{
  ℕ, zero, ◌+◌, ◌*◌, ◌/◌, ◌%◌, ◌≤◌, ◌<◌, ◌≡◌, ◌≢◌, refl, arith, Option, none, some,
}
use crypto_rust_tools.Base.{
  [], ◌∷◌, ◌++◌, append-nil, Bytes, IsU16, length, length-append, take, get_or,
}
use crypto_rust_tools.Base.{◌==◌, if◌then◌else◌, get_or-append_length, take-append_length}
use crypto_rust_tools.Apdu.{build_apdu_ext}
use crypto_rust_tools.Apdu.ShortForm.{Command, with_header}

-- Behind `00 Lc-hi Lc-lo`, with `Lc` from 1 to 65535: the data, and two bytes of `Le` or none.
unfoldable pub read_body_ext : ℕ → Bytes → Option (Bytes × Option ℕ)
read_body_ext lc d =
    if lc == 0
    then none
    else if length d == lc
    then some (d, none)
    else if length d == lc + 2
    then some (take lc d, some (get_or d lc 0 * 256 + get_or d (lc + 1) 0))
    else none

unfoldable pub decode_ext : Bytes → Option Command
decode_ext (c ∷ i ∷ p ∷ q ∷ zero ∷ hi ∷ lo ∷ xs) =
    with_header c i p q (read_body_ext (hi * 256 + lo) xs)
decode_ext _ = none

read_body_ext_no_le :
    (n : ℕ) (d : Bytes) → n ≡ length d → d ≢ [] → read_body_ext n d ≡ some (d, none)
unfolding read_body_ext
read_body_ext_no_le n [] e h = absurd (h refl)
read_body_ext_no_le n (x ∷ xs) e h = ground arith

read_body_ext_le :
    (n : ℕ) (d : Bytes) (a b : ℕ)
    → n ≡ length d
    → d ≢ []
    → read_body_ext n (d ++ (a ∷ b ∷ [])) ≡ some (d, some (a * 256 + b))
unfolding read_body_ext
read_body_ext_le n [] a b e h = absurd (h refl)
read_body_ext_le n (x ∷ xs) a b e h = ground (
  arith,
  length-append (x ∷ xs) (a ∷ b ∷ []),
  take-append_length (x ∷ xs) (a ∷ b ∷ []) n,
  get_or-append_length (x ∷ xs) (a ∷ b ∷ []) 0 n 0,
  get_or-append_length (x ∷ xs) (a ∷ b ∷ []) 0 (n + 1) 1,
)

-- A command that `build_apdu_ext` builds from 1 to 65535 bytes of data is read by the extended
-- forms of ISO 7816-4 as the header, the data and the 16-bit `Le` that the call gives.
pub decode_ext-build_apdu_ext :
    (c ins p1 p2 : ℕ) (d : Bytes) (le : Option ℕ)
    → d ≢ []
    → length d < 65536
    → ((n : ℕ) → le ≡ some n → IsU16 n)
    → decode_ext (build_apdu_ext c ins p1 p2 d le)
      ≡ some (record { cla = c; ins = ins; p1 = p1; p2 = p2; body = d; le = le })
unfolding build_apdu_ext decode_ext
decode_ext-build_apdu_ext c ins p1 p2 d none ne h w = ground (
  arith,
  append-nil d,
  read_body_ext_no_le (length d / 256 % 256 * 256 + length d % 256) d (omega arith) ne,
)
decode_ext-build_apdu_ext c ins p1 p2 d (some le) ne h w = ground (
  arith,
  w le refl,
  read_body_ext_le (length d / 256 % 256 * 256 + length d % 256) d (le / 256 % 256) (le % 256)
      (omega arith) ne,
)

-- From 65536 bytes of data on the length field, bytes 5 and 6 of the command, holds the length modulo
-- 65536, and the command is not one that the extended forms can read.
pub decode_ext_too_long :
    (c ins p1 p2 : ℕ) (d : Bytes) (le : Option ℕ)
    → 65536 ≤ length d
    → let cmd = build_apdu_ext c ins p1 p2 d le in
      (get_or cmd 5 0 * 256 + get_or cmd 6 0 ≡ length d % 65536) × (decode_ext cmd ≡ none)
unfolding build_apdu_ext decode_ext read_body_ext
decode_ext_too_long c ins p1 p2 d none h = (omega arith, ground (arith, append-nil d))
decode_ext_too_long c ins p1 p2 d (some le) h =
    (omega arith, ground (arith, length-append d ((le / 256 % 256) ∷ (le % 256) ∷ [])))
