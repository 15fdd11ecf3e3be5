-- ===== src/Piv/Data/Pins.antt =====
-- yubiwallet/src/piv.rs, `pin_padded`: the PIN that the card is sent.
use crypto_rust_tools.Base.{
  ℕ, zero, suc, ◌-◌, ◌≤◌, ◌<◌, ◌≡◌, ◌≢◌, ◌↔◌, refl, ap, sym, ◌∙◌, arith, [], ◌∷◌, ◌++◌,
}
use crypto_rust_tools.Base.{
  Bytes, All, All-append, length, length-append, replicate, length-replicate,
}
use crypto_rust_tools.Base.{ok, err}
use crypto_rust_tools.Text.{Text, codes, as_bytes, utf8_char}
use crypto_rust_tools.Error.{Error, parse}
use crypto_rust_tools.Piv.Data.{pin_padded}

-- The characters of a text are Unicode scalar values.
abbrev pub AreScalars : Text → Type 0
AreScalars = All (λ c. c < 0x110000)

pub length-padded :
    (bytes : Bytes) → length bytes ≤ 8 → length (bytes ++ replicate (8 - length bytes) 0xff) ≡ 8
length-padded bytes h = omega (
  arith,
  length-append bytes (replicate (8 - length bytes) 0xff),
  length-replicate {A = ℕ} (8 - length bytes) 0xff,
)

-- A padded PIN has eight bytes: those of the PIN, and 0xFF from there on.
pub pin_padded_shape :
    (pin : Text) {v : Bytes}
    → pin_padded pin ≡ ok v
    → (length v ≡ 8) × (v ≡ as_bytes pin ++ replicate (8 - length (as_bytes pin)) 0xff)
unfolding pin_padded
pin_padded_shape pin {v} h =
    let e : v ≡ as_bytes pin ++ replicate (8 - length (as_bytes pin)) 0xff = ground arith in
    let fits : length (as_bytes pin) ≤ 8 = ground arith in
    (ap length e ∙ length-padded (as_bytes pin) fits, e)

-- A PIN is refused exactly if its UTF-8 form has more than eight bytes.
pub pin_padded-eq-err_iff :
    (pin : Text) → ((e : Error) × (pin_padded pin ≡ err e)) ↔ (8 < length (as_bytes pin))
unfolding pin_padded
pin_padded-eq-err_iff pin = (
  λ h. ground (arith, h.1),
  λ h. (parse (codes "PIV PIN must be at most 8 characters"), ground arith),
)

utf8_char-ne-pad : (c : ℕ) → c < 0x110000 → All (λ b. b ≢ 0xff) (utf8_char c)
unfolding utf8_char
utf8_char-ne-pad c h = ground arith

-- The padding byte never stands in a text.
as_bytes-ne-pad : (pin : Text) → AreScalars pin → All (λ b. b ≢ 0xff) (as_bytes pin)
unfolding as_bytes
as_bytes-ne-pad [] h = tt
as_bytes-ne-pad (c ∷ s) (h, hs) =
    All-append (λ b. b ≢ 0xff) (utf8_char c) (as_bytes s) (utf8_char-ne-pad c h)
      (as_bytes-ne-pad s hs)

pad_cancel :
    (xs ys : Bytes) (n m : ℕ)
    → All (λ b. b ≢ 0xff) xs
    → All (λ b. b ≢ 0xff) ys
    → xs ++ replicate n 0xff ≡ ys ++ replicate m 0xff
    → xs ≡ ys
pad_cancel [] [] n m hx hy e = refl
pad_cancel [] (y ∷ ys) zero m hx hy e = cc
pad_cancel [] (y ∷ ys) (suc n) m hx (hy, _) e = absurd (hy (cc))
pad_cancel (x ∷ xs) [] n zero hx hy e = cc
pad_cancel (x ∷ xs) [] n (suc m) (hx, _) hy e = absurd (hx (cc))
pad_cancel (x ∷ xs) (y ∷ ys) n m (_, hx) (_, hy) e = cc (pad_cancel xs ys n m hx hy (cc))

-- Two PINs with the same padded form have the same bytes: the padding hides no difference.
pub pin_padded_injective :
    (p q : Text) {v : Bytes}
    → AreScalars p
    → AreScalars q
    → pin_padded p ≡ ok v
    → pin_padded q ≡ ok v
    → as_bytes p ≡ as_bytes q
pin_padded_injective p q hp hq h k =
    let (_, e) = pin_padded_shape p h in
    let (_, f) = pin_padded_shape q k in
    pad_cancel (as_bytes p) (as_bytes q) (8 - length (as_bytes p)) (8 - length (as_bytes q))
      (as_bytes-ne-pad p hp) (as_bytes-ne-pad q hq) (sym e ∙ f)
