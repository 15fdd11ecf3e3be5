-- ===== src/Base/Search.antt =====
-- `haystack.windows(n).position(|w| w == needle)`: the first place where the needle stands.
use mathlib.Core.Option
use crypto_rust_tools.Base.Tests.{if◌then◌else◌, Bool-cases, Option-cases}
use crypto_rust_tools.Base.Lists.{
  Bytes, bytes_eq, bytes_eq_sound, bytes_eq_refl, length, take, drop,
}
use crypto_rust_tools.Base.Lists.{take-append_length, take-append-drop}
use Prim.Native.Nat.{ℕ, suc}
use mathlib.Core.Path.{◌≡◌, refl, sym, ap, subst}
use mathlib.Core.Bool.{Bool, true, false}
use mathlib.Core.Option.{Option, none, some}
use mathlib.Core.Logic.{◌≢◌, inl, inr}
use mathlib.Core.List.{[], ◌∷◌, ◌++◌}
use native.Mathlib.Omega.{arith}

-- `w == needle` for the window `w` at the front of the suffix. A suffix that is too short has no
-- window, and no needle as its front either.
unfoldable pub matches_at : Bytes → Bytes → Bool
matches_at needle xs = bytes_eq (take (length needle) xs) needle

-- The needle is not empty at any call, so the empty suffix has no window.
unfoldable pub position : Bytes → Bytes → Option ℕ
position needle [] = none
position needle (x ∷ xs) =
    let rest = Option.map suc (position needle xs) in
    if matches_at needle (x ∷ xs) then some 0 else rest

-- The needle starts nowhere in `pre ++ tail` before the end of `pre`.
abbrev pub FirstAt : Bytes → Bytes → Bytes → Type 0
FirstAt needle [] tail = Unit {0}
FirstAt needle (x ∷ pre) tail =
    (matches_at needle (x ∷ (pre ++ tail)) ≡ false) × FirstAt needle pre tail

-- `p` is the first place where the needle stands in `xs`.
pub record Found (needle xs : Bytes) (p : ℕ) : Type 0 where
  pub pre : Bytes
  pub post : Bytes
  pub splits : xs ≡ pre ++ (needle ++ post)
  pub at_end : length pre ≡ p
  pub is_first : FirstAt needle pre (needle ++ post)

pub matches_at-append : (needle post : Bytes) → matches_at needle (needle ++ post) ≡ true
unfolding matches_at
matches_at-append needle post =
    rw (take-append_length needle post (length needle) refl) (bytes_eq_refl needle)

matches_at_sound :
    (needle xs : Bytes) → matches_at needle xs ≡ true → xs ≡ needle ++ drop (length needle) xs
unfolding matches_at
matches_at_sound needle xs h =
    let e : take (length needle) xs ≡ needle = bytes_eq_sound _ needle h in
    rw e at (sym (take-append-drop (length needle) xs))

-- The first occurrence is found.
pub position_found :
    (n : ℕ) (needle pre post : Bytes)
    → FirstAt (n ∷ needle) pre ((n ∷ needle) ++ post)
    → position (n ∷ needle) (pre ++ ((n ∷ needle) ++ post)) ≡ some (length pre)
unfolding position
position_found n needle [] post h = rw (matches_at-append (n ∷ needle) post)
position_found n needle (x ∷ pre) post (h, hs) = rw (h, position_found n needle pre post hs)

Found-cons :
    (needle xs : Bytes) (x p : ℕ)
    → matches_at needle (x ∷ xs) ≡ false
    → Found needle xs p
    → Found needle (x ∷ xs) (suc p)
Found-cons needle xs x p h f = record {
  pre = x ∷ f.pre;
  post = f.post;
  splits = ap (λ t. x ∷ t) f.splits;
  at_end = ap suc f.at_end;
  is_first = (rw f.splits at h, f.is_first);
}

-- A position that is reported is an occurrence, and the first one.
pub position_sound : (needle xs : Bytes) (p : ℕ) → position needle xs ≡ some p → Found needle xs p
unfolding position
position_sound needle [] p h = cc
position_sound needle (x ∷ xs) p h = elim (Bool-cases (matches_at needle (x ∷ xs))) [
  | inl e ↦ record {
    pre = [];
    post = drop (length needle) (x ∷ xs);
    splits = matches_at_sound needle (x ∷ xs) e;
    at_end = ground arith;
    is_first = tt;
  }
  | inr e ↦ elim (Option-cases (position needle xs)) [
    | inl n ↦ absurd (ground arith)
    | inr (q, f) ↦
        let k : suc q ≡ p = ground arith in
        subst (λ t. Found needle (x ∷ xs) t) k
          (Found-cons needle xs x q e (position_sound needle xs q f))
  ]
]

-- Where the needle stands, some position is reported.
pub position-ne-none :
    (n : ℕ) (needle pre post : Bytes) → position (n ∷ needle) (pre ++ ((n ∷ needle) ++ post)) ≢ none
unfolding position
position-ne-none n needle [] post h = cc (position_found n needle [] post tt)
position-ne-none n needle (x ∷ pre) post h = ground (arith, position-ne-none n needle pre post)
