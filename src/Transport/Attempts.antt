-- ===== src/Transport/Attempts.antt =====
-- How many commands of an operation present a PIN to the card: yubiwallet/src/apdu.rs and
-- yubiwallet/src/pin.rs.
use crypto_rust_tools.Base.{
  ℕ, Bool, true, false, ◌+◌, ◌≤◌, ◌≡◌, refl, arith, List, [], ◌∷◌, ◌++◌, Bytes, get_or, ◌==◌,
  if◌then◌else◌, Option, none, some, Result, ok, err,
}
use crypto_rust_tools.Text.{Text}
use crypto_rust_tools.Error.{Error, pcsc, io}
use crypto_rust_tools.Transport.{
  Platform, Session, Exchange, Act, and_then, lift, rewrap, with_state, call, exchange, prompt,
  resolve,
}

-- A VERIFY command has the instruction 20.
abbrev pub attempt_in : Bytes → ℕ
attempt_in command = if get_or command 1 0 == 0x20 then 1 else 0

unfoldable pub attempts : List Exchange → ℕ
attempts [] = 0
attempts (e ∷ es) = attempt_in e.command + attempts es

attempts-append : (es fs : List Exchange) → attempts (es ++ fs) ≡ attempts es + attempts fs
unfolding attempts
attempts-append [] fs = omega arith
attempts-append (e ∷ es) fs = omega (arith, attempts-append es fs)

-- The session behind a call of a service.
abbrev pub behind : {P : Platform} {A : Type 0} → Session P → A × P.State → Session P
behind s r = record s { device = r.1 }

-- A count of what is spent, to which a VERIFY command adds one at most, and nothing else adds.
pub record Meter (P : Platform) : Type 0 where
  pub spent : Session P → ℕ
  pub establish-le : (s : Session P) → spent (behind s (P.establish s.device)) ≤ spent s
  pub list_readers-le :
      (n : ℕ) (s : Session P) → spent (behind s (P.list_readers n s.device)) ≤ spent s
  pub connect_card-le :
      (reader : Text) (s : Session P) → spent (behind s (P.connect_card reader s.device)) ≤ spent s
  pub print_flush-le :
      (t : Text) (s : Session P) → spent (behind s (P.print_flush t s.device)) ≤ spent s
  pub read_line-le : (s : Session P) → spent (behind s (P.read_line s.device)) ≤ spent s
  pub exchange-le :
      (command : Bytes) (capacity : ℕ) (s : Session P)
      → spent (exchange command capacity s).1 ≤ spent s + attempt_in command

pub with_state-behind :
    {P : Platform} {A : Type 0} (wrap : Text → Error) (s : Session P) (r : Result A Text × P.State)
    → (with_state wrap s r).1 ≡ behind s r
with_state-behind wrap s (ok a, d) = refl
with_state-behind wrap s (err e, d) = refl

module _ {P : Platform} where
  -- A run from the session spends at most that much.
  pub record AtMost {B : Type 0} (M : Meter P) (n : ℕ) (s : Session P) (r : B × Session P)
      : Type 0 where
    pub bounded : M.spent r.1 ≤ M.spent s + n

module _ {P : Platform} {M : Meter P} where
  pub AtMost-pure : {B : Type 0} (n : ℕ) (s : Session P) (b : B) → AtMost M n s (b, s)
  AtMost-pure n s b = record { bounded = omega arith }

  pub AtMost-trans :
      {B C : Type 0} (m n : ℕ) (s : Session P) (r : B × Session P) (q : C × Session P)
      → AtMost M m s r
      → AtMost M n r.1 q
      → AtMost M (m + n) s q
  AtMost-trans m n s r q h k = record { bounded = omega (arith, h.bounded, k.bounded) }

  pub AtMost-weaken :
      {B : Type 0} (m n : ℕ) (s : Session P) (r : B × Session P)
      → m ≤ n
      → AtMost M m s r
      → AtMost M n s r
  AtMost-weaken m n s r l h = record { bounded = omega (arith, h.bounded) }

  -- A step, and what follows it.
  pub AtMost-bind :
      {A B E : Type 0} (m n : ℕ) (s : Session P) (r : Result A E × Session P) (f : A → Act P B E)
      → AtMost M m s r
      → ((a : A) (t : Session P) → AtMost M n t (f a t))
      → AtMost M (m + n) s (and_then r f)
  AtMost-bind m n s (ok a, t) f h k = record { bounded = omega (arith, h.bounded, (k a t).bounded) }
  AtMost-bind m n s (err e, t) f h k = record { bounded = omega (arith, h.bounded) }

  -- A step of the program itself.
  pub AtMost-lift :
      {A B E : Type 0} (n : ℕ) (s : Session P) (r : Result A E) (f : A → Act P B E)
      → ((a : A) → AtMost M n s (f a s))
      → AtMost M n s (and_then (lift r s) f)
  AtMost-lift n s (ok a) f k = k a
  AtMost-lift n s (err e) f k = AtMost-pure n s (err e)

  pub AtMost-rewrap :
      {A E F : Type 0} (n : ℕ) (s : Session P) (g : E → F) (r : Result A E × Session P)
      → AtMost M n s r
      → AtMost M n s (rewrap g r)
  AtMost-rewrap n s g r h = record { bounded = h.bounded }

  pub AtMost-if :
      {A E : Type 0} (n : ℕ) (s : Session P) (b : Bool) (f g : Act P A E)
      → AtMost M n s (f s)
      → AtMost M n s (g s)
      → AtMost M n s ((if b then f else g) s)
  AtMost-if n s true f g h k = h
  AtMost-if n s false f g h k = k

  -- A call other than an exchange.
  pub AtMost-call :
      {A : Type 0} (wrap : Text → Error) (f : P.State → Result A Text × P.State) (s : Session P)
      → M.spent (behind s (f s.device)) ≤ M.spent s
      → AtMost M 0 s (call wrap f s)
  AtMost-call wrap f s h = record {
    bounded = rw (with_state-behind wrap s (f s.device)) (omega (arith, h));
  }

  pub AtMost-exchange :
      (command : Bytes) (capacity : ℕ) (s : Session P)
      → AtMost M (attempt_in command) s (exchange command capacity s)
  AtMost-exchange command capacity s = record { bounded = M.exchange-le command capacity s }

  prompt_lem : (message : Text) (s : Session P) → AtMost M 0 s (prompt P message s)
  unfolding prompt
  prompt_lem message s =
      AtMost-bind 0 0 s _ _ (AtMost-call io (P.print_flush message) s (M.print_flush-le message s))
        λ _ t.
          AtMost-bind 0 0 t _ _ (AtMost-call io P.read_line t (M.read_line-le t))
            λ pin u. AtMost-pure 0 u _

  pub resolve-AtMost :
      (pin : Option Text) (message : Text) (s : Session P) → AtMost M 0 s (resolve P pin message s)
  unfolding resolve
  resolve-AtMost (some p) message s = AtMost-pure 0 s _
  resolve-AtMost none message s = prompt_lem message s

pub verify_exchange :
    {P : Platform} (command : Bytes) (capacity : ℕ) (s : Session P)
    → attempts (exchange command capacity s).1.log ≤ attempts s.log + attempt_in command
unfolding attempts
verify_exchange {P} command capacity s =
    let r = P.transmit_card command capacity s.device in
    let one : List Exchange = record { command = command; outcome = r.0 } ∷ [] in
    rw (with_state-behind {A = Bytes} pcsc (record s { log = s.log ++ one }) r)
      (omega (arith, attempts-append s.log one))

-- The number of VERIFY commands among the exchanges is such a count on every platform.
unfoldable pub verify_meter : (P : Platform) → Meter P
unfolding attempts
verify_meter P = record {
  spent = λ s. attempts s.log;
  establish-le = λ s. omega arith;
  list_readers-le = λ n s. omega arith;
  connect_card-le = λ reader s. omega arith;
  print_flush-le = λ t s. omega arith;
  read_line-le = λ s. omega arith;
  exchange-le = λ command capacity s. verify_exchange command capacity s;
}
