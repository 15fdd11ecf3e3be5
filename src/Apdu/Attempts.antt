-- ===== src/Apdu/Attempts.antt =====
-- yubiwallet/src/apdu.rs: the VERIFY commands among what the transport functions send.
use crypto_rust_tools.Base.{
  ℕ, ◌+◌, ◌≡◌, ap, arith, Bytes, get_or, ◌==◌, if◌then◌else◌, Option, ok, err, Result-cases, inl,
  inr,
}
use crypto_rust_tools.Error.{pcsc}
use crypto_rust_tools.Transport.{Platform, Session}
use crypto_rust_tools.Transport.Attempts.{
  Meter, attempt_in, AtMost, AtMost-pure, AtMost-weaken, AtMost-bind, AtMost-lift, AtMost-call,
  AtMost-exchange,
}
use crypto_rust_tools.Apdu.{build_apdu, check_response, first_reader, connect, transmit, send}

-- The instruction of a command that is built is its second byte.
build_apdu_ins :
    (c ins p1 p2 : ℕ) (d : Option Bytes) (le : Option ℕ) (cmd : Bytes)
    → build_apdu c ins p1 p2 d le ≡ ok cmd
    → get_or cmd 1 0 ≡ ins
unfolding build_apdu
build_apdu_ins c ins p1 p2 d le cmd h = ground arith

-- The attempts of an instruction.
abbrev pub attempt_of : ℕ → ℕ
attempt_of ins = if ins == 0x20 then 1 else 0

module _ {P : Platform} (M : Meter P) where
  pub connect-AtMost : (s : Session P) → AtMost M 0 s (connect P s)
  unfolding connect
  connect-AtMost s =
      AtMost-bind 0 0 s _ _ (AtMost-call pcsc P.establish s (M.establish-le s)) λ _ t.
        AtMost-bind 0 0 t _ _ (AtMost-call pcsc (P.list_readers 2048) t (M.list_readers-le 2048 t))
          λ readers u.
            AtMost-lift 0 u (first_reader readers) _
              λ reader. AtMost-call pcsc (P.connect_card reader) u (M.connect_card-le reader u)

  pub transmit-AtMost :
      (n : ℕ) (command : Bytes) (capacity : ℕ) (s : Session P)
      → attempt_in command ≡ n
      → AtMost M n s (transmit P command capacity s)
  unfolding transmit
  transmit-AtMost n command capacity s e =
      AtMost-weaken (attempt_in command + 0) n s _ (omega (arith, e)) (
        AtMost-bind (attempt_in command) 0 s _ _ (AtMost-exchange command capacity s)
          λ resp t. AtMost-pure 0 t (check_response resp))

  pub send-AtMost :
      (c ins p1 p2 : ℕ) (d : Option Bytes) (le : Option ℕ) (capacity : ℕ) (s : Session P)
      → AtMost M (attempt_of ins) s (send P c ins p1 p2 d le capacity s)
  unfolding send
  send-AtMost c ins p1 p2 d le capacity s = elim (Result-cases (build_apdu c ins p1 p2 d le)) [
    | inl (cmd, e) ↦ rw e (
        transmit-AtMost (attempt_of ins) cmd capacity s
          (ap attempt_of (build_apdu_ins c ins p1 p2 d le cmd e)))
    | inr (x, e) ↦ rw e (AtMost-pure (attempt_of ins) s (err x))
  ]
