-- ===== src/Cli/Console.antt =====
-- yubiwallet/src/main.rs: computations that print. `println!` adds a line to what stands on the
-- standard output, which takes every line.
use crypto_rust_tools.Base.{List, [], ◌∷◌, ◌++◌, Result, ok, err}
use crypto_rust_tools.Text.{Text}
use crypto_rust_tools.Error.{Error}
use crypto_rust_tools.Transport.{Platform, Session, M}

-- The lines printed so far, oldest first, and the session with the card.
pub record Screen (P : Platform) : Type 0 where
  pub lines : List Text
  pub session : Session P

-- A function that may print, and that fails with a text.
abbrev pub Run : Platform → Type 0 → Type 0
Run P A = Screen P → Result A Text × Screen P

abbrev pub and_next :
    {P : Platform} {A B : Type 0}
    → Result A Text × Screen P
    → (A → Run P B)
    → Result B Text × Screen P
and_next (ok a, s) f = f a s
and_next (err e, s) f = (err e, s)

-- `?`
infixl 5 ◌>>=◌ ◌>>◌
abbrev pub ◌>>=◌ : {P : Platform} {A B : Type 0} → Run P A → (A → Run P B) → Run P B
◌>>=◌ m f s = and_next (m s) f

abbrev pub ◌>>◌ : {P : Platform} {A B : Type 0} → Run P A → Run P B → Run P B
m >> k = m >>= λ _. k

abbrev pub pure : {P : Platform} {A : Type 0} → Result A Text → Run P A
pure r s = (r, s)

abbrev pub print_on : {P : Platform} → Screen P → Text → Screen P
print_on s line = record s { lines = s.lines ++ (line ∷ []) }

-- `println!`
abbrev pub say : {P : Platform} → Text → Run P (Unit {0})
say line s = (ok tt, print_on s line)

-- A call of the library, with its result as a value.
abbrev returned :
    {P : Platform} {A : Type 0}
    → Screen P
    → Result A Error × Session P
    → Result (Result A Error) Text × Screen P
returned s (r, t) = (ok r, record s { session = t })

abbrev pub outcome_of : {P : Platform} {A : Type 0} → M P A → Run P (Result A Error)
outcome_of m s = returned s (m s.session)
