-- ===== src/Apdu/Service.antt =====
-- yubiwallet/src/apdu.rs: a platform on which every call succeeds, with a card that answers by what
-- it has been sent since the connection, and the results of exchanges with it.
use crypto_rust_tools.Base.{
  ℕ, ◌+◌, ◌≤◌, length, ◌≡◌, refl, Option, some, List, [], ◌∷◌, ◌++◌, Bytes, Result, ok,
}
use crypto_rust_tools.Text.{Text}
use crypto_rust_tools.Transport.{Platform, Session, Act, and_then}
use crypto_rust_tools.Apdu.{build_apdu, connect, transmit, send}
use crypto_rust_tools.Apdu.Response.{check_response_split}

-- The data with which a card answers a command, behind those that it has accepted since the
-- connection; none if it does not accept it.
abbrev pub Card : Type 0
Card = List Bytes → Bytes → Option Bytes

-- There is a reader, and the card in it accepts the commands that `card` says, with the status
-- word 90 00. `At past s`: in the state `s` the commands `past` have been accepted. A call succeeds
-- only with a buffer that its result fits in: the names of the readers have `readers_size` bytes.
pub record Serves (P : Platform) (card : Card) : Type 1 where
  pub At : List Bytes → P.State → Type 0
  pub readers_size : ℕ
  pub establishes : (s : P.State) → (t : P.State) × (P.establish s ≡ (ok tt, t))
  pub lists :
      (n : ℕ) (s : P.State)
      → readers_size ≤ n
      → (reader : Text) × (readers : List Text) × (t : P.State) × (P.list_readers n s
          ≡ (ok (reader ∷ readers), t))
  pub connects :
      (reader : Text) (s : P.State)
      → (t : P.State) × (P.connect_card reader s ≡ (ok tt, t)) × At [] t
  pub answers :
      (past : List Bytes) (command body : Bytes) (n : ℕ) (s : P.State)
      → length body + 2 ≤ n
      → At past s
      → card past command ≡ some body
      → (t : P.State) × (P.transmit_card command n s ≡ (ok (body ++ (0x90 ∷ 0x00 ∷ [])), t))
        × At (past ++ (command ∷ [])) t

module _ {P : Platform} {card : Card} (S : Serves P card) where
  -- A run has come to the value, and the card has accepted these commands since the connection.
  pub record Reaches {A E : Type 0} (past : List Bytes) (a : A) (r : Result A E × Session P)
      : Type 0 where
    pub after : Session P
    pub result : r ≡ (ok a, after)
    pub at_past : S.At past after.device

  pub Reaches-ok :
      {A E : Type 0} (past : List Bytes) (a : A) (s : Session P)
      → S.At past s.device
      → Reaches {E = E} past a (ok a, s)
  Reaches-ok past a s h = record { after = s; result = refl; at_past = h }

  pub Reaches-bind :
      {A B E : Type 0} (past more : List Bytes) (a : A) (b : B) (r : Result A E × Session P)
      (f : A → Act P B E)
      → Reaches past a r
      → ((t : Session P) → S.At past t.device → Reaches more b (f a t))
      → Reaches more b (and_then r f)
  Reaches-bind past more a b r f h k = rw h.result (k h.after h.at_past)

  pub Reaches-connect : (s : Session P) → S.readers_size ≤ 2048 → Reaches [] tt (connect P s)
  unfolding connect
  Reaches-connect s z =
      let (t, e) = S.establishes s.device in
      let (reader, readers, u, f) = S.lists 2048 t z in
      let (v, g, h) = S.connects reader u in
      rw (e, f, g) (Reaches-ok [] tt (record s { device = v }) h)

  pub Reaches-transmit :
      (past : List Bytes) (command body : Bytes) (n : ℕ) (s : Session P)
      → length body + 2 ≤ n
      → S.At past s.device
      → card past command ≡ some body
      → Reaches (past ++ (command ∷ [])) body (transmit P command n s)
  unfolding transmit
  Reaches-transmit past command body n s z h c =
      let (t, e, k) = S.answers past command body n s.device z h c in
      rw (e, check_response_split body 0x90 0x00) (record { after = _; result = refl; at_past = k })

  pub Reaches-send :
      (past : List Bytes) (c ins p1 p2 : ℕ) (d : Option Bytes) (le : Option ℕ) (n : ℕ)
      (s : Session P) (command body : Bytes)
      → build_apdu c ins p1 p2 d le ≡ ok command
      → length body + 2 ≤ n
      → S.At past s.device
      → card past command ≡ some body
      → Reaches (past ++ (command ∷ [])) body (send P c ins p1 p2 d le n s)
  unfolding send
  Reaches-send past c ins p1 p2 d le n s command body e z h k =
      rw e (Reaches-transmit past command body n s z h k)
