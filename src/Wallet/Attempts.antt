-- ===== src/Wallet/Attempts.antt =====
-- yubiwallet/src/lib.rs: how many PINs an operation presents.
use crypto_rust_tools.Base.{some, Bytes, Option}
use crypto_rust_tools.Text.{Text}
use crypto_rust_tools.External.{Hex}
use crypto_rust_tools.Transport.{Platform, Session}
use crypto_rust_tools.Transport.Attempts.{Meter, AtMost}
use crypto_rust_tools.Account.{Applet, Account, open_pgp, piv}
use crypto_rust_tools.OpenPgp
use crypto_rust_tools.Piv
use crypto_rust_tools.Wallet.{get_pubkey_at, get_pubkey, sign_at, sign_dispatch, sign_with_pin}

module _ {P : Platform} (M : Meter P) where
  get_pubkey_at-AtMost :
      (H : Hex) (applet : Applet) (acc : Account) (s : Session P)
      → AtMost M 0 s (get_pubkey_at H P applet acc s)
  unfolding get_pubkey_at
  get_pubkey_at-AtMost H open_pgp acc s = OpenPgp.Card.Attempts.get_pubkey-AtMost M H acc s
  get_pubkey_at-AtMost H piv acc s = Piv.Card.Attempts.get_pubkey-AtMost M acc s

  pub get_pubkey-AtMost :
      (H : Hex) (acc : Account) (s : Session P) → AtMost M 0 s (get_pubkey H P acc s)
  unfolding get_pubkey
  get_pubkey-AtMost H acc s = get_pubkey_at-AtMost H acc.applet acc s

  sign_at-AtMost :
      (applet : Applet) (acc : Account) (message : Bytes) (pin : Option Text) (s : Session P)
      → AtMost M 1 s (sign_at P applet acc message pin s)
  unfolding sign_at
  sign_at-AtMost open_pgp acc message pin s = OpenPgp.Card.Attempts.sign-AtMost M acc message pin s
  sign_at-AtMost piv acc message pin s = Piv.Card.Attempts.sign-AtMost M acc message pin s

  pub sign_with_pin-AtMost :
      (acc : Account) (message : Bytes) (pin : Text) (s : Session P)
      → AtMost M 1 s (sign_with_pin P acc message pin s)
  unfolding sign_with_pin sign_dispatch
  sign_with_pin-AtMost acc message pin s = sign_at-AtMost acc.applet acc message (some pin) s
