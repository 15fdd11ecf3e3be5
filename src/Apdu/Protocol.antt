-- ===== src/Apdu/Protocol.antt =====
-- yubiwallet/src/apdu.rs: which commands a computation sends, and that it stops at the first one
-- that the card does not accept.
use crypto_rust_tools.Base.{ℕ, ◌≡◌, refl, sym, ap, ◌∙◌, Bool, true, false, Option}
use crypto_rust_tools.Base.{
  List, [], ◌∷◌, ◌++◌, append_assoc, append-nil, Bytes, Result, ok, err, Result-cases, inl, inr,
}
use crypto_rust_tools.Text.{Text}
use crypto_rust_tools.Error.{Error, pcsc}
use crypto_rust_tools.Transport.{
  Platform, Session, Exchange, M, and_then, lift, call, with_state, recorded,
}
use crypto_rust_tools.Apdu.{check_response, first_reader, connect, transmit, send, build_apdu}

-- The card answered with the status word 90 00.
pub record Accepted (x : Exchange) : Type 0 where
  pub response : Bytes
  pub body : Bytes
  pub answered : x.outcome ≡ ok response
  pub success : check_response response ≡ ok body

abbrev is_ok {ℓ κ} : {A : Type ℓ} {E : Type κ} → Result A E → Bool
is_ok (ok a) = true
is_ok (err e) = false

-- `Follows plan xs b`: the exchanges `xs` are the planned commands in their order, each but
-- perhaps the last accepted by the card. With `b ≡ true` the plan is complete and all are
-- accepted; with `b ≡ false` it may break off anywhere.
pub data Follows : List Bytes → List Exchange → Bool → Type 0 where
  complete : Follows [] [] true
  broken : (plan : List Bytes) → Follows plan [] false
  refused :
      (c : Bytes) (plan : List Bytes) (x : Exchange)
      → x.command ≡ c
      → Follows (c ∷ plan) (x ∷ []) false
  accepted :
      (c : Bytes) (plan : List Bytes) (x : Exchange) (xs : List Exchange) (b : Bool)
      → x.command ≡ c
      → Accepted x
      → Follows plan xs b
      → Follows (c ∷ plan) (x ∷ xs) b

Follows-append :
    {p q : List Bytes} {xs ys : List Exchange} {b : Bool}
    → Follows p xs true
    → Follows q ys b
    → Follows (p ++ q) (xs ++ ys) b
Follows-append complete g = g
Follows-append {q = q} {ys = ys} (accepted c plan x xs b e a f) g =
    accepted c (plan ++ q) x (xs ++ ys) _ e a (Follows-append f g)

Follows-weaken :
    {p : List Bytes} (q : List Bytes) {xs : List Exchange}
    → Follows p xs false
    → Follows (p ++ q) xs false
Follows-weaken q (broken plan) = broken (plan ++ q)
Follows-weaken q (refused c plan x e) = refused c (plan ++ q) x e
Follows-weaken q (accepted c plan x xs b e a f) =
    accepted c (plan ++ q) x xs _ e a (Follows-weaken q f)

-- From the session `s` a computation has come to the result and session `r`, and what it has sent
-- follows the plan, which is complete if the result is no error.
pub record Obeys {P : Platform} {A : Type 0} (s : Session P) (plan : List Bytes)
    (r : Result A Error × Session P) : Type 0 where
  pub extra : List Exchange
  pub logged : r.1.log ≡ s.log ++ extra
  pub follows : Follows plan extra (is_ok r.0)

module _ {P : Platform} where
  -- A pure step that succeeds keeps the plan; one that fails breaks it off.
  pub Obeys-lift_ok : {A : Type 0} (s : Session P) (a : A) → Obeys {A = A} s [] (lift (ok a) s)
  Obeys-lift_ok s a = record { extra = []; logged = sym (append-nil s.log); follows = complete }

  pub Obeys-err :
      {A : Type 0} (s : Session P) (plan : List Bytes) (e : Error) → Obeys {A = A} s plan (err e, s)
  Obeys-err s plan e = record { extra = []; logged = sym (append-nil s.log); follows = broken plan }

  pub Obeys-lift : {A : Type 0} (s : Session P) (r : Result A Error) → Obeys {A = A} s [] (lift r s)
  Obeys-lift s (ok a) = Obeys-lift_ok s a
  Obeys-lift s (err e) = Obeys-err s [] e

  -- A call of a service other than `Card::transmit` sends nothing.
  call_case :
      {A : Type 0} (wrap : Text → Error) (s : Session P) (r : Result A Text × P.State)
      → Obeys {A = A} s [] (with_state wrap s r)
  call_case wrap s (ok a, d) = record {
    extra = [];
    logged = sym (append-nil s.log);
    follows = complete;
  }
  call_case wrap s (err e, d) = record {
    extra = [];
    logged = sym (append-nil s.log);
    follows = broken [];
  }

  pub Obeys-call :
      {A : Type 0} (wrap : Text → Error) (f : P.State → Result A Text × P.State) (s : Session P)
      → Obeys {A = A} s [] (call wrap f s)
  Obeys-call wrap f s = call_case wrap s (f s.device)

  -- Two steps in a row follow their plans in a row.
  pub Obeys-bind :
      {A B : Type 0} (s : Session P) (p q : List Bytes) (r : Result A Error × Session P)
      (f : A → M P B)
      → Obeys s p r
      → ((a : A) (t : Session P) → Obeys t q (f a t))
      → Obeys s (p ++ q) (and_then r f)
  Obeys-bind s p q (ok a, t) f h k =
      let g = k a t in
      record {
        extra = h.extra ++ g.extra;
        logged = g.logged ∙ ap (λ l. l ++ g.extra) h.logged ∙ append_assoc s.log h.extra g.extra;
        follows = Follows-append h.follows g.follows;
      }
  Obeys-bind s p q (err e, t) f h k = record {
    extra = h.extra;
    logged = h.logged;
    follows = Follows-weaken q h.follows;
  }

  transmit_case :
      (command : Bytes) (s : Session P) (r : Result Bytes Text × P.State)
      → Obeys s
          (command ∷ [])
          (and_then (recorded s command r) (λ resp. lift (check_response resp)))
  transmit_case command s (err e, d) = record {
    extra = record { command = command; outcome = err e } ∷ [];
    logged = refl;
    follows = refused command [] _ refl;
  }
  transmit_case command s (ok resp, d) = elim (Result-cases (check_response resp)) [
    | inl (body, e) ↦
        let x : Exchange = record { command = command; outcome = ok resp } in
        let answer : Accepted x = record {
          response = resp;
          body = body;
          answered = refl;
          success = e;
        } in
        rw e (record {
          extra = x ∷ [];
          logged = refl;
          follows = accepted command [] x [] true refl answer complete;
        })
    | inr (z, e) ↦
        let x : Exchange = record { command = command; outcome = ok resp } in
        rw e (record { extra = x ∷ []; logged = refl; follows = refused command [] x refl })
  ]

  -- `transmit` sends its command, and succeeds only if the card accepts it.
  pub Obeys-transmit :
      (command : Bytes) (capacity : ℕ) (s : Session P)
      → Obeys s (command ∷ []) (transmit P command capacity s)
  unfolding transmit
  Obeys-transmit command capacity s =
      transmit_case command s (P.transmit_card command capacity s.device)

  -- `send` does the same with the command that `build_apdu` builds, and sends nothing without one.
  pub Obeys-send :
      (c ins p1 p2 : ℕ) (d : Option Bytes) (le : Option ℕ) (capacity : ℕ) (s : Session P)
      (cmd : Bytes)
      → build_apdu c ins p1 p2 d le ≡ ok cmd
      → Obeys s (cmd ∷ []) (send P c ins p1 p2 d le capacity s)
  unfolding send
  Obeys-send c ins p1 p2 d le capacity s cmd e = rw e (Obeys-transmit cmd capacity s)

  -- `connect` sends no command.
  pub Obeys-connect : (s : Session P) → Obeys s [] (connect P s)
  unfolding connect
  Obeys-connect s = Obeys-bind s [] [] _ _ (Obeys-call pcsc P.establish s) λ _ t.
      Obeys-bind t [] [] _ _ (Obeys-call pcsc (P.list_readers 2048) t) λ readers u.
        Obeys-bind u [] [] _ _ (Obeys-lift u (first_reader readers))
          λ reader v. Obeys-call pcsc (P.connect_card reader) v
