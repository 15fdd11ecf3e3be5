-- ===== src/Wallet.antt =====
-- yubiwallet/src/lib.rs: the entry points, which dispatch on the applet of an account.
pub mod KeySizes
pub mod Signing
pub mod Attempts
use crypto_rust_tools.Base.{
  ℕ, Option, none, some, Bytes, length, ◌==◌, if◌then◌else◌, Result, ok, err,
}
use crypto_rust_tools.External.{Hex}
use crypto_rust_tools.Text.{Text, codes}
use crypto_rust_tools.Error.{Error, to_string}
use crypto_rust_tools.Transport.{Platform, Session, M, Act, and_then, ◌>>=◌, ◌>>◌, lift, relabel}
use crypto_rust_tools.Account.{Applet, Account, open_pgp, piv, openpgp_sig}
use crypto_rust_tools.OpenPgp
use crypto_rust_tools.Piv

module _ (H : Hex) (P : Platform) where
  -- The `match` on the applet.
  unfoldable pub get_pubkey_at : Applet → Account → M P Bytes
  get_pubkey_at open_pgp account = OpenPgp.Card.get_pubkey H P account
  get_pubkey_at piv account = Piv.Card.get_pubkey P account

  unfoldable pub get_pubkey : Account → M P Bytes
  get_pubkey account = get_pubkey_at account.applet account

module _ (P : Platform) where
  unfoldable pub sign_at : Applet → Account → Bytes → Option Text → M P Bytes
  sign_at open_pgp account message pin = OpenPgp.Card.sign P account message pin
  sign_at piv account message pin = Piv.Card.sign P account message pin

  unfoldable pub sign_dispatch : Account → Bytes → Option Text → M P Bytes
  unfolding sign_at
  sign_dispatch account message pin = sign_at account.applet account message pin

  unfoldable pub sign : Account → Bytes → M P Bytes
  unfolding sign_dispatch
  sign account message = sign_dispatch account message none

  unfoldable pub sign_with_pin : Account → Bytes → Text → M P Bytes
  unfolding sign_dispatch
  sign_with_pin account message pin = sign_dispatch account message (some pin)

  unfoldable pub sign_with_yubikey : Bytes → M P Bytes
  unfolding sign
  sign_with_yubikey message = sign openpgp_sig message

-- `<[u8; 32]>::try_from`; the error is the text that it prints.
unfoldable pub as_array : ℕ → Bytes → Result Bytes Text
as_array n b = if length b == n then ok b else err (codes "could not convert slice to array")

unfoldable pub get_pubkey_from_yubikey : (H : Hex) (P : Platform) → Act P Bytes Text
unfolding as_array
get_pubkey_from_yubikey H P = do
  pk ← relabel to_string (get_pubkey H P openpgp_sig)
  lift (as_array 32 pk)
