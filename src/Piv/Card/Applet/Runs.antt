-- ===== src/Piv/Card/Applet/Runs.antt =====
-- yubiwallet/src/apdu.rs and yubiwallet/src/piv.rs: runs on a chip with the PIV applet.
use crypto_rust_tools.Base.{◌⊎◌, inl, inr, Option, none, some}
use crypto_rust_tools.Text.{Text, trim}
use crypto_rust_tools.Transport.{prompt, resolve}
use crypto_rust_tools.Base.{
  ℕ, ◌+◌, ◌*◌, ◌≤◌, ◌≡◌, refl, Bytes, length, ◌==◌, if◌then◌else◌, Result, ok, err,
}
use crypto_rust_tools.Error.{Error, card, status_word_message}
use crypto_rust_tools.Transport.{Platform, Session, Act, and_then}
use crypto_rust_tools.Apdu.{connect, transmit, send}
use crypto_rust_tools.Apdu.Response.{check_response_split}
use crypto_rust_tools.Piv.Card.{select}
use crypto_rust_tools.Piv.Card.Conduct.{build_apdu-select}
use crypto_rust_tools.Piv.Card.Applet.{
  fresh, selected, Chip, chip, Applet, Answers, selects, HasApplet,
}

-- What `transmit` makes of data and a status word.
abbrev pub checked : Bytes → ℕ → Result Bytes Error
checked body status =
    if status == 0x9000 then ok body else err (card status (status_word_message status))

module _ {P : Platform} {a : Applet} (A : HasApplet P a) where
  -- A run has come to the result, and the chip to the state.
  pub record Yields {X E : Type 0} (d : Chip) (x : Result X E) (r : Result X E × Session P)
      : Type 0 where
    pub after : Session P
    pub result : r ≡ (x, after)
    pub at_end : A.At d after.device

  pub Yields-pure :
      {X E : Type 0} (d : Chip) (x : Result X E) (s : Session P)
      → A.At d s.device
      → Yields d x (x, s)
  Yields-pure d x s h = record { after = s; result = refl; at_end = h }

  pub Yields-bind :
      {X Y E : Type 0} (c d : Chip) (x : X) (y : Result Y E) (r : Result X E × Session P)
      (f : X → Act P Y E)
      → Yields c (ok x) r
      → ((t : Session P) → A.At c t.device → Yields d y (f x t))
      → Yields d y (and_then r f)
  Yields-bind c d x y r f h k = rw h.result (k h.after h.at_end)

  pub Yields-bind_err :
      {X Y E : Type 0} (d : Chip) (e : E) (r : Result X E × Session P) (f : X → Act P Y E)
      → Yields d (err e) r
      → Yields {X = Y} d (err e) (and_then r f)
  Yields-bind_err d e r f h = rw h.result (Yields-pure d (err e) h.after h.at_end)

  pub Yields-connect :
      (c : Chip) (s : Session P)
      → A.readers_size ≤ 2048
      → A.At c s.device
      → Yields (chip fresh c.tries) (ok tt) (connect P s)
  unfolding connect
  Yields-connect c s z h =
      let (t, e, i) = A.establishes c s.device h in
      let (reader, readers, u, f, j) = A.lists c 2048 t z i in
      let (v, g, k) = A.connects c reader u j in
      rw (e, f, g) (Yields-pure (chip fresh c.tries) (ok tt) (record s { device = v }) k)

  pub Yields-transmit :
      {c d : Chip} {command body : Bytes} {sw1 sw2 : ℕ} (n : ℕ) (s : Session P)
      → length body + 2 ≤ n
      → A.At c s.device
      → Answers a c command body sw1 sw2 d
      → Yields d (checked body (sw1 * 256 + sw2)) (transmit P command n s)
  unfolding transmit
  Yields-transmit {c} {d} {command} {body} {sw1} {sw2} n s z h st =
      let (t, e, k) = A.answers n s.device z h st in
      rw (e, check_response_split body sw1 sw2) (record { after = _; result = refl; at_end = k })

  pub Yields-select :
      (n : ℕ) (s : Session P)
      → length a.info + 2 ≤ 512
      → A.At (chip fresh n) s.device
      → Yields (chip selected n) (ok tt) (select P s)
  unfolding select send
  Yields-select n s z h = rw build_apdu-select (
      Yields-bind (chip selected n) (chip selected n) a.info (ok tt) _ _
        (Yields-transmit 512 s z h (selects n)) λ t k. Yields-pure (chip selected n) (ok tt) t k)

  -- At a prompt the user types a line that is the PIN but for spaces around it, which the chip does
  -- not notice.
  pub record Types (p : Text) : Type 0 where
    pub line : Text
    pub trimmed : trim line ≡ p
    pub prompts :
        (c : Chip) (message : Text) (s : P.State)
        → A.At c s
        → (t : P.State) × (P.print_flush message s ≡ (ok tt, t)) × A.At c t
    pub enters :
        (c : Chip) (s : P.State)
        → A.At c s
        → (t : P.State) × (P.read_line s ≡ (ok line, t)) × A.At c t

  -- The PIN is given, or typed at the prompt.
  abbrev pub IsEntered : Option Text → Text → Type 0
  IsEntered pin p = (pin ≡ some p) ⊎ ((pin ≡ none) × Types p)

  pub Yields-resolve :
      (c : Chip) (pin : Option Text) (p message : Text) (s : Session P)
      → IsEntered pin p
      → A.At c s.device
      → Yields c (ok p) (resolve P pin message s)
  unfolding resolve prompt
  Yields-resolve c pin p message s (inl e) h = rw e (Yields-pure c (ok p) s h)
  Yields-resolve c pin p message s (inr (e, y)) h =
      let (t, f, i) = y.prompts c message s.device h in
      let (u, g, j) = y.enters c t i in
      rw (e, f, g, y.trimmed) (Yields-pure c (ok p) (record s { device = u }) j)
