-- ===== src/Apdu/ShortForm.antt =====
-- yubiwallet/src/apdu.rs, `build_apdu`: its output read back by the short forms of ISO 7816-4.
use crypto_rust_tools.Base.{ℕ, ◌+◌, ◌%◌, ◌≤◌, ◌<◌, ◌≡◌, ◌≢◌, ◌↔◌, refl, arith, Option, none, some}
use crypto_rust_tools.Base.{
  [], ◌∷◌, ◌++◌, Bytes, AreBytes, IsU8, length, length-append, take, get_or,
}
use crypto_rust_tools.Base.{
  ok, err, ◌==◌, if◌then◌else◌, get_or-append_length, take-append_length, All-append,
}
use crypto_rust_tools.Error.{Error, data_too_long}
use crypto_rust_tools.Apdu.{build_apdu}

-- A command as the card reads it: header, data field, and `Le` where one is present.
pub record Command : Type 0 where
  pub cla : ℕ
  pub ins : ℕ
  pub p1 : ℕ
  pub p2 : ℕ
  pub body : Bytes
  pub le : Option ℕ

-- Cases 1 to 4 of ISO 7816-4: nothing, `Le`, `Lc data`, `Lc data Le`, with `Lc` from 1 to 255.
unfoldable pub read_body : ℕ → Bytes → Option (Bytes × Option ℕ)
read_body lc d =
    if lc == 0
    then none
    else if length d == lc
    then some (d, none)
    else if length d == lc + 1
    then some (take lc d, some (get_or d lc 0))
    else none

abbrev pub with_header : ℕ → ℕ → ℕ → ℕ → Option (Bytes × Option ℕ) → Option Command
with_header c i p q none = none
with_header c i p q (some (d, l)) =
    some (record { cla = c; ins = i; p1 = p; p2 = q; body = d; le = l })

unfoldable pub decode_short : Bytes → Option Command
decode_short (c ∷ i ∷ p ∷ q ∷ []) = with_header c i p q (some ([], none))
decode_short (c ∷ i ∷ p ∷ q ∷ le ∷ []) = with_header c i p q (some ([], some le))
decode_short (c ∷ i ∷ p ∷ q ∷ lc ∷ x ∷ xs) = with_header c i p q (read_body lc (x ∷ xs))
decode_short _ = none

-- What a call of `build_apdu` asks for. With neither data nor `Le` it sends the `Le` for 256 bytes.
abbrev pub wanted_body : Option Bytes → Bytes
wanted_body none = []
wanted_body (some d) = d

abbrev pub wanted_le : Option Bytes → Option ℕ → Option ℕ
wanted_le none none = some 0
wanted_le none (some le) = some le
wanted_le (some d) le = le

read_body_no_le : (d : Bytes) → d ≢ [] → read_body (length d) d ≡ some (d, none)
unfolding read_body
read_body_no_le [] h = absurd (h refl)
read_body_no_le (x ∷ xs) h = ground arith

read_body_le :
    (d : Bytes) (le : ℕ) → d ≢ [] → read_body (length d) (d ++ (le ∷ [])) ≡ some (d, some le)
unfolding read_body
read_body_le [] le h = absurd (h refl)
read_body_le (x ∷ xs) le h = ground (
  arith,
  length-append (x ∷ xs) (le ∷ []),
  take-append_length (x ∷ xs) (le ∷ []) (length (x ∷ xs)) refl,
  get_or-append_length (x ∷ xs) (le ∷ []) 0 (length (x ∷ xs)) 0 (omega arith),
)

-- A command that `build_apdu` builds is read by the short forms of ISO 7816-4 as the header, the
-- data and the `Le` that the call asks for, if the data field is absent or not empty.
pub decode_short-build_apdu :
    (c ins p1 p2 : ℕ) (d : Option Bytes) (le : Option ℕ) {cmd : Bytes}
    → d ≢ some []
    → build_apdu c ins p1 p2 d le ≡ ok cmd
    → decode_short cmd
      ≡ some (record {
        cla = c;
        ins = ins;
        p1 = p1;
        p2 = p2;
        body = wanted_body d;
        le = wanted_le d le;
      })
unfolding build_apdu decode_short
decode_short-build_apdu c ins p1 p2 none none ne h = ground arith
decode_short-build_apdu c ins p1 p2 none (some le) ne h = ground arith
decode_short-build_apdu c ins p1 p2 (some []) le ne h = absurd (ne refl)
decode_short-build_apdu c ins p1 p2 (some (x ∷ xs)) none ne h =
    ground (arith, read_body_no_le (x ∷ xs) (λ e. cc))
decode_short-build_apdu c ins p1 p2 (some (x ∷ xs)) (some le) ne h =
    ground (arith, read_body_le (x ∷ xs) le (λ e. cc))

-- `build_apdu` fails exactly on a data field of more than 255 bytes, with an error that carries
-- the length.
pub build_apdu-eq-err_iff :
    (c ins p1 p2 : ℕ) (d : Option Bytes) (le : Option ℕ) (e : Error)
    → (build_apdu c ins p1 p2 d le ≡ err e)
      ↔ ((v : Bytes) × (d ≡ some v) × (255 < length v) × (e ≡ data_too_long (length v)))
unfolding build_apdu
build_apdu-eq-err_iff c ins p1 p2 none le e = (λ h. cc, λ h. cc (h.1))
build_apdu-eq-err_iff c ins p1 p2 (some v) le e =
    (λ h. (v, refl, ground arith, ground arith), λ h. ground (arith, h.1, h.2, h.3))

length-build_apdu_step :
    (c ins p1 p2 : ℕ) (v : Bytes) (le : ℕ)
    → length ((c ∷ ins ∷ p1 ∷ p2 ∷ (length v % 256) ∷ v) ++ (le ∷ [])) ≡ length v + 6
length-build_apdu_step c ins p1 p2 v le = omega (arith, length-append v (le ∷ []))

-- A command that `build_apdu` builds has 5 to 261 elements, and each is a byte if the header,
-- the data and `Le` are bytes.
pub build_apdu_shape :
    (c ins p1 p2 : ℕ) (d : Option Bytes) (le : Option ℕ) {cmd : Bytes}
    → AreBytes (c ∷ ins ∷ p1 ∷ p2 ∷ wanted_body d)
    → ((n : ℕ) → le ≡ some n → IsU8 n)
    → build_apdu c ins p1 p2 d le ≡ ok cmd
    → (5 ≤ length cmd) × (length cmd ≤ 261) × AreBytes cmd
unfolding build_apdu
build_apdu_shape c ins p1 p2 none none b w h = ground arith
build_apdu_shape c ins p1 p2 none (some le) b w h = ground (arith, w le refl)
build_apdu_shape c ins p1 p2 (some v) none b w h = ground arith
build_apdu_shape c ins p1 p2 (some v) (some le) b w h = ground (
  arith,
  w le refl,
  length-build_apdu_step c ins p1 p2 v le,
  All-append (λ x. x < 256) v (le ∷ []),
)
