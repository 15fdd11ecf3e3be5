-- ===== src/OpenPgp/Card/LongMessages.antt =====
-- yubiwallet/src/openpgp.rs, `sign`: a message that does not fit a short command.
use crypto_rust_tools.Base.{
  ◌⊎◌, inl, inr, ℕ, ◌<◌, ◌≡◌, refl, arith, none, some, [], ◌∷◌, Bytes, length, Result, ok, err,
}
use crypto_rust_tools.Text.{Text, as_bytes}
use crypto_rust_tools.Error.{Error, data_too_long}
use crypto_rust_tools.Transport.{Platform, Session, M, and_then, resolve}
use crypto_rust_tools.Apdu.{build_apdu, connect, send}
use crypto_rust_tools.Apdu.Protocol.{Obeys, Obeys-bind, Obeys-err, Obeys-send}
use crypto_rust_tools.Account.{Account, sig, aut}
use crypto_rust_tools.OpenPgp.Card.{select, sign_sig, sign_aut, sign_slot, sign}
use crypto_rust_tools.OpenPgp.Card.Conduct.{select_command, verify_apdu, opening}

-- The slot is one of the two, and this is its VERIFY.
abbrev pub IsVerify : Account → Text → Bytes → Type 0
IsVerify acc pin verify =
    ((acc.slot ≡ sig) × (verify_apdu 0x81 pin ≡ ok verify))
    ⊎ ((acc.slot ≡ aut) × (verify_apdu 0x82 pin ≡ ok verify))

-- A run that ends in an error.
pub record Fails {P : Platform} {A : Type 0} (r : Result A Error × Session P) : Type 0 where
  pub error : Error
  pub failed : r.0 ≡ err error

Fails-bind :
    {P : Platform} {A B : Type 0} (r : Result A Error × Session P) (f : A → M P B)
    → ((a : A) (t : Session P) → Fails (f a t))
    → Fails (and_then r f)
Fails-bind (ok a, t) f h = h a t
Fails-bind (err e, t) f h = record { error = e; failed = refl }

build_apdu-eq-err :
    (ins p1 p2 : ℕ) (message : Bytes)
    → 255 < length message
    → build_apdu 0x00 ins p1 p2 (some message) (some 0x00) ≡ err (data_too_long (length message))
unfolding build_apdu
build_apdu-eq-err ins p1 p2 message h = ground arith

module _ (P : Platform) (message : Bytes) (long : 255 < length message) where
  send-eq-err :
      (ins p1 p2 : ℕ) (t : Session P)
      → send P 0x00 ins p1 p2 (some message) (some 0x00) 512 t
        ≡ (err (data_too_long (length message)), t)
  unfolding send
  send-eq-err ins p1 p2 t = rw (build_apdu-eq-err ins p1 p2 message long) refl

  -- VERIFY, and a signing command that cannot be built.
  verify_only :
      (p2 ins p1 q2 : ℕ) (pin : Text) (t : Session P) {verify : Bytes}
      → verify_apdu p2 pin ≡ ok verify
      → let r =
          and_then
            (send P 0x00 0x20 0x00 p2 (some (as_bytes pin)) none 512 t)
            λ _. send P 0x00 ins p1 q2 (some message) (some 0x00) 512 in
        Obeys t (verify ∷ []) r × Fails r
  verify_only p2 ins p1 q2 pin t {verify} v =
      let first = send P 0x00 0x20 0x00 p2 (some (as_bytes pin)) none 512 t in
      let next = λ (body : Bytes). send P 0x00 ins p1 q2 (some message) (some 0x00) 512 in
      (
        Obeys-bind t (verify ∷ []) [] first next
            (Obeys-send 0x00 0x20 0x00 p2 _ none 512 t verify v)
            λ _ u. rw (send-eq-err ins p1 q2 u) (Obeys-err u [] _),
        Fails-bind first next λ _ u.
            rw (send-eq-err ins p1 q2 u)
              (record { error = data_too_long (length message); failed = refl }),
      )

  verify_only-slot :
      (acc : Account) (pin : Text) (t : Session P) {verify : Bytes}
      → IsVerify acc pin verify
      → let r = sign_slot P acc.slot message (some pin) t in Obeys t (verify ∷ []) r × Fails r
  unfolding sign_slot sign_sig sign_aut resolve
  verify_only-slot acc pin t (inl (slot, v)) = rw slot (verify_only 0x81 0x2a 0x9e 0x9a pin t v)
  verify_only-slot acc pin t (inr (slot, v)) = rw slot (verify_only 0x82 0x88 0x00 0x00 pin t v)

  -- With a message of more than 255 bytes, on the signature or the authentication slot and with a PIN
  -- that fits a short command, `sign` ends in an error, and it sends SELECT and then VERIFY, each only
  -- if the card has accepted those before it, and nothing else.
  pub sign_too_long :
      (acc : Account) (pin : Text) (s : Session P) {verify : Bytes}
      → IsVerify acc pin verify
      → Obeys s (select_command ∷ verify ∷ []) (sign P acc message (some pin) s)
        × Fails (sign P acc message (some pin) s)
  unfolding sign
  sign_too_long acc pin s {verify} v = (
    opening P (verify ∷ []) s _ λ t. (verify_only-slot acc pin t v).0,
    Fails-bind (connect P s) _
        λ _ t. Fails-bind (select P t) _ λ _ u. (verify_only-slot acc pin u v).1,
  )
