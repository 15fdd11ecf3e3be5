-- ===== src/Chains/Readers.antt =====
-- Readers of binary formats, for the theorems on what the programs of yubiwallet/examples write.
use crypto_rust_tools.Base.{
  ℕ, ◌%◌, ◌<◌, ◌≡◌, refl, ap, arith, ltb, if◌then◌else◌, Option, none, some,
}
use crypto_rust_tools.Base.{[], ◌∷◌, ◌++◌, append_assoc, append-nil, Bytes, length}
use crypto_rust_tools.Chains.Encoding.{
  le_bytes, le_value, length-le_bytes, read_bytes, read_bytes-append,
}

-- A value, and the input behind it.
abbrev pub Reader : Type 0 → Type 0
Reader A = Bytes → Option (A × Bytes)

abbrev pub continue_with : {A B : Type 0} → Option (A × Bytes) → (A → Reader B) → Option (B × Bytes)
continue_with none f = none
continue_with (some (a, rest)) f = f a rest

infixl 5 ◌>>=◌
unfoldable pub ◌>>=◌ : {A B : Type 0} → Reader A → (A → Reader B) → Reader B
◌>>=◌ r f input = continue_with (r input) f

unfoldable pub return : {A : Type 0} → A → Reader A
return a rest = some (a, rest)

-- That many bytes as they are.
unfoldable pub fixed : ℕ → Reader Bytes
fixed size = read_bytes size

-- A little-endian number of that many bytes.
unfoldable pub number : ℕ → Reader ℕ
unfolding ◌>>=◌ return
number size = read_bytes size >>= λ b. return (le_value b)

-- One byte.
unfoldable pub byte : Reader ℕ
byte [] = none
byte (b ∷ rest) = some (b, rest)

-- A byte sequence behind its length in one byte, for lengths up to 252.
unfoldable pub counted : Reader Bytes
counted [] = none
counted (n ∷ rest) = if ltb n 253 then read_bytes n rest else none

-- The whole input.
unfoldable pub whole : {A : Type 0} → Option (A × Bytes) → Option A
whole (some (a, [])) = some a
whole _ = none

-- On these bytes the reader yields the value, whatever follows them.
pub record Reads {A : Type 0} (r : Reader A) (p : Bytes) (a : A) : Type 0 where
  pub yields : (rest : Bytes) → r (p ++ rest) ≡ some (a, rest)

pub Reads-bind :
    {A B : Type 0} {r : Reader A} (f : A → Reader B) {p q : Bytes} {a : A} {b : B}
    → Reads r p a
    → Reads (f a) q b
    → Reads (r >>= f) (p ++ q) b
unfolding ◌>>=◌
Reads-bind f {p = p} {q = q} h k = record {
  yields = λ rest. rw (append_assoc p q rest, h.yields (q ++ rest)) (k.yields rest);
}

-- The last part of a format is followed by nothing of it.
pub Reads-last :
    {A B : Type 0} {r : Reader A} (f : A → Reader B) {p : Bytes} {a : A} {b : B}
    → Reads r p a
    → Reads (f a) [] b
    → Reads (r >>= f) p b
unfolding ◌>>=◌
Reads-last f h k = record { yields = λ rest. rw (h.yields rest) (k.yields rest) }

pub Reads-return : {A : Type 0} (a : A) → Reads (return a) [] a
unfolding return
Reads-return a = record { yields = λ rest. refl }

pub Reads-fixed : (size : ℕ) (b : Bytes) → length b ≡ size → Reads (fixed size) b b
unfolding fixed
Reads-fixed size b h = record { yields = λ rest. read_bytes-append size b rest h }

pub Reads-byte : (b : ℕ) → Reads byte (b ∷ []) b
unfolding byte
Reads-byte b = record { yields = λ rest. refl }

pub Reads-number :
    (size n : ℕ) → le_value (le_bytes size n) ≡ n → Reads (number size) (le_bytes size n) n
unfolding number ◌>>=◌ return
Reads-number size n h = record {
  yields =
      λ rest. rw (read_bytes-append size (le_bytes size n) rest (length-le_bytes size n), h) refl;
}

pub Reads-counted : (b : Bytes) → length b < 253 → Reads counted ((length b % 256) ∷ b) b
unfolding counted
Reads-counted b h = record {
  yields = λ rest. ground (arith, read_bytes-append (length b) b rest refl);
}

pub whole-Reads :
    {A : Type 0} (r : Reader A) (p : Bytes) (a : A) → Reads r p a → whole (r p) ≡ some a
unfolding whole
whole-Reads r p a h = ap whole (rw append-nil at (h.yields []))
