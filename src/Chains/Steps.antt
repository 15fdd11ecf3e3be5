-- ===== src/Chains/Steps.antt =====
-- The programs of yubiwallet/examples: steps of a `main` that ends without a panic.
use crypto_rust_tools.Base.{◌≡◌, refl, ap, Result, ok, err, ok-injective, Option, none, some}
use crypto_rust_tools.Transport.{
  Platform, Session, Act, and_then, and_then-eq-ok, rewrap-eq-ok, lift, relabel,
}
use crypto_rust_tools.Error.{Error}
use crypto_rust_tools.Chains.Encoding.{Panic, panicked, unwrap, unwrap_option}

-- A computation of the program itself.
pub lift-eq-ok :
    {P : Platform} {A B E : Type 0} (r : Result A E) (f : A → Act P B E) (s : Session P) {b : B}
    {t : Session P}
    → and_then (lift r s) f ≡ (ok b, t)
    → (a : A) × (r ≡ ok a) × (f a s ≡ (ok b, t))
lift-eq-ok (ok a) f s h = (a, refl, h)
lift-eq-ok (err e) f s h = absurd (cc (ap (λ p. p.0) h))

-- `unwrap` of a result.
pub unwrap-eq-ok :
    {P : Platform} {A B E : Type 0} (r : Result A E) (f : A → Act P B Panic) (s : Session P) {b : B}
    {t : Session P}
    → and_then (lift (unwrap r) s) f ≡ (ok b, t)
    → (a : A) × (r ≡ ok a) × (f a s ≡ (ok b, t))
unwrap-eq-ok (ok a) f s h = (a, refl, h)
unwrap-eq-ok (err e) f s h = absurd (cc (ap (λ p. p.0) h))

-- A call of the library, whose error is a panic.
pub call-eq-ok :
    {P : Platform} {A B : Type 0} (r : Act P A Error) (f : A → Act P B Panic) (s : Session P)
    {b : B} {t : Session P}
    → and_then (relabel (λ _. panicked) r s) f ≡ (ok b, t)
    → (a : A) × (u : Session P) × (r s ≡ (ok a, u)) × (f a u ≡ (ok b, t))
call-eq-ok r f s h =
    let (a, u, e, k) = and_then-eq-ok (relabel (λ _. panicked) r s) f h in
    (a, u, rewrap-eq-ok (λ _. panicked) (r s) e, k)

-- A value that is there.
pub unwrap_option-eq-ok : {A : Type 0} (o : Option A) {a : A} → unwrap_option o ≡ ok a → o ≡ some a
unwrap_option-eq-ok none h = absurd (cc h)
unwrap_option-eq-ok (some a) h = ap some (ok-injective a _ h)
