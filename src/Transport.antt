-- ===== src/Transport.antt =====
-- What the library uses of the `pcsc` crate and of the terminal, the state that it threads through
-- its calls, and the transport functions of yubiwallet/src/apdu.rs and yubiwallet/src/pin.rs.
pub mod Attempts
use crypto_rust_tools.Base.{
  ℕ, ◌≡◌, refl, ap, Option, none, some, List, [], ◌∷◌, ◌++◌, Bytes, Result, ok, err, map_err,
  ok-injective,
}
use crypto_rust_tools.Text.{Text, trim}
use crypto_rust_tools.Error.{Error, pcsc, io}

-- The services that the program calls, over a state of their own. Each may fail with an error,
-- given as the text that it prints.
pub record Platform : Type 1 where
  pub State : Type 0
  -- `Context::establish(Scope::User)`
  pub establish : State → Result (Unit {0}) Text × State
  -- `Context::list_readers` with a buffer of that many bytes
  pub list_readers : ℕ → State → Result (List Text) Text × State
  -- `Context::connect` to a reader
  pub connect_card : Text → State → Result (Unit {0}) Text × State
  -- `Card::transmit` of a command, with a buffer of that many bytes for the response
  pub transmit_card : Bytes → ℕ → State → Result Bytes Text × State
  -- `print!` and `io::stdout().flush()`
  pub print_flush : Text → State → Result (Unit {0}) Text × State
  -- `io::stdin().read_line`
  pub read_line : State → Result Text Text × State

-- One call of `Card::transmit`: the command, and what came back.
pub record Exchange : Type 0 where
  pub command : Bytes
  pub outcome : Result Bytes Text

-- The state of the services, and a record of the exchanges so far, oldest first. The program does
-- not look at the record.
pub record Session (P : Platform) : Type 0 where
  pub device : P.State
  pub log : List Exchange

-- A function that does input or output: `Result` with the session threaded through.
abbrev pub Act : Platform → Type 0 → Type 0 → Type 0
Act P A E = Session P → Result A E × Session P

-- The functions of the library, which fail with its `Error`.
abbrev pub M : Platform → Type 0 → Type 0
M P A = Act P A Error

abbrev pub and_then :
    {P : Platform} {A B E : Type 0}
    → Result A E × Session P
    → (A → Act P B E)
    → Result B E × Session P
and_then (ok a, s) f = f a s
and_then (err e, s) f = (err e, s)

-- `?`
infixl 5 ◌>>=◌ ◌>>◌
abbrev pub ◌>>=◌ : {P : Platform} {A B E : Type 0} → Act P A E → (A → Act P B E) → Act P B E
◌>>=◌ m f s = and_then (m s) f

abbrev pub ◌>>◌ : {P : Platform} {A B E : Type 0} → Act P A E → Act P B E → Act P B E
m >> k = m >>= λ _. k

-- A computation with no input or output.
abbrev pub lift : {P : Platform} {A E : Type 0} → Result A E → Act P A E
lift r s = (r, s)

-- `map_err` on what an action returns.
abbrev pub rewrap :
    {P : Platform} {A E F : Type 0} → (E → F) → Result A E × Session P → Result A F × Session P
rewrap g (r, s) = (map_err g r, s)

abbrev pub relabel : {P : Platform} {A E F : Type 0} → (E → F) → Act P A E → Act P A F
relabel g m s = rewrap g (m s)

-- A call of a service: its error becomes a case of `Error` by `From`.
abbrev pub with_state :
    {P : Platform} {A : Type 0}
    → (Text → Error)
    → Session P
    → Result A Text × P.State
    → Result A Error × Session P
with_state wrap s (ok a, d) = (ok a, record s { device = d })
with_state wrap s (err e, d) = (err (wrap e), record s { device = d })

abbrev pub call :
    {P : Platform} {A : Type 0} → (Text → Error) → (P.State → Result A Text × P.State) → M P A
call wrap f s = with_state wrap s (f s.device)

-- `Card::transmit`, with the exchange recorded.
abbrev pub recorded :
    {P : Platform}
    → Session P
    → Bytes
    → Result Bytes Text × P.State
    → Result Bytes Error × Session P
recorded s command (r, d) =
    with_state pcsc (record s { log = s.log ++ (record { command = command; outcome = r } ∷ []) })
      (r, d)

abbrev pub exchange : {P : Platform} → Bytes → ℕ → M P Bytes
exchange {P} command capacity s = recorded s command (P.transmit_card command capacity s.device)

-- yubiwallet/src/pin.rs
module _ (P : Platform) where
  unfoldable pub prompt : Text → M P Text
  unfolding trim
  prompt message = do
    call io (P.print_flush message)
    pin ← call io P.read_line
    lift (ok (trim pin))

  unfoldable pub resolve : Option Text → Text → M P Text
  resolve (some p) message = lift (ok p)
  resolve none message = prompt message

-- Inversion of a step that ends in success.
pub and_then-eq-ok :
    {P : Platform} {A B E : Type 0} (r : Result A E × Session P) (f : A → Act P B E) {b : B}
    {t : Session P}
    → and_then r f ≡ (ok b, t)
    → (a : A) × (u : Session P) × (r ≡ (ok a, u)) × (f a u ≡ (ok b, t))
and_then-eq-ok (ok a, u) f h = (a, u, refl, h)
and_then-eq-ok (err e, u) f h = absurd (cc (ap (λ p. p.0) h))

pub rewrap-eq-ok :
    {P : Platform} {A E F : Type 0} (g : E → F) (r : Result A E × Session P) {a : A} {t : Session P}
    → rewrap g r ≡ (ok a, t)
    → r ≡ (ok a, t)
rewrap-eq-ok g (ok b, u) {a} h = cc (ok-injective b a (ap (λ p. p.0) h), ap (λ p. p.1) h)
rewrap-eq-ok g (err e, u) h = absurd (cc (ap (λ p. p.0) h))
