-- ===== src/Wallet/Signing.antt =====
-- yubiwallet/src/lib.rs: `sign_with_pin` on a card that accepts the commands of its applet.
use crypto_rust_tools.Base.{◌+◌, ◌≤◌, length, ◌≡◌, some, List, [], ◌∷◌, Bytes}
use crypto_rust_tools.Text.{Text}
use crypto_rust_tools.Transport.{Platform, Session}
use crypto_rust_tools.Account.{Applet, Account, open_pgp}
use crypto_rust_tools.Apdu.Service.{Card, Serves, Reaches}
use crypto_rust_tools.OpenPgp
use crypto_rust_tools.OpenPgp.Card.Conduct.{select_command, IsPrepared}
use crypto_rust_tools.OpenPgp.Card.Success.{sign-Reaches}
use crypto_rust_tools.Wallet.{sign_with_pin, sign_dispatch, sign_at}

sign_at-Reaches :
    {P : Platform} {card : Card} (S : Serves P card) (applet : Applet) (acc : Account)
    (message : Bytes) (pin : Text) (signature : Bytes) (s : Session P) (plan : List Bytes)
    → applet ≡ open_pgp
    → Reaches S plan signature (OpenPgp.Card.sign P acc message (some pin) s)
    → Reaches S plan signature (sign_at P applet acc message (some pin) s)
unfolding sign_at
sign_at-Reaches S applet acc message pin signature s plan a h = rw a h

-- With an account of the OpenPGP applet, readers whose names fit in 2048 bytes and answers of the card
-- that fit in 512 bytes with their status words: if there is a reader and the card accepts SELECT, then
-- VERIFY in the mode of the slot, then the signing command of the slot, which it answers with a
-- signature, `sign_with_pin` returns that signature.
pub sign_with_pin-Reaches :
    {P : Platform} {card : Card} (S : Serves P card) (acc : Account) (message : Bytes) (pin : Text)
    (signature : Bytes) (s : Session P) {verify command info verified : Bytes}
    → acc.applet ≡ open_pgp
    → IsPrepared acc message pin verify command
    → S.readers_size ≤ 2048
    → length info + 2 ≤ 512
    → length verified + 2 ≤ 512
    → length signature + 2 ≤ 512
    → card [] select_command ≡ some info
    → card (select_command ∷ []) verify ≡ some verified
    → card (select_command ∷ verify ∷ []) command ≡ some signature
    → Reaches S
        (select_command ∷ verify ∷ command ∷ [])
        signature
        (sign_with_pin P acc message pin s)
unfolding sign_with_pin sign_dispatch
sign_with_pin-Reaches S acc message pin signature s a p z1 z2 z3 z4 c1 c2 c3 =
    sign_at-Reaches S acc.applet acc message pin signature s _ a
      (sign-Reaches S acc message pin signature s p z1 z2 z3 z4 c1 c2 c3)
