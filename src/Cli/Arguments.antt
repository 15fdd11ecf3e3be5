-- ===== src/Cli/Arguments.antt =====
-- yubiwallet/src/main.rs, `to_account`: which accounts the command line can name.
use crypto_rust_tools.Base.{ℕ, ◌≡◌, ◌⊎◌, true, ok, map_err, map_err-eq-ok, >>=-eq-ok, ok-injective}
use crypto_rust_tools.Text.{Text}
use crypto_rust_tools.Error.{to_string}
use crypto_rust_tools.Account.{
  Account, Applet, open_pgp, piv, Curve, ed25519, secp256k1, is_valid, sig, aut, parse_applet,
  parse_curve, parse_slot,
}
use crypto_rust_tools.Account.Parsing.{parse_slot-is_valid, parse_slot_openpgp}
use crypto_rust_tools.Cli.{AccountArgs, supported, to_account}

-- The accounts that the applets serve: a PIV signing slot with Ed25519, and the OpenPGP slots SIG
-- and AUT with either curve.
pub data IsServed : Account → Type 0 where
  in_piv :
      (slot : ℕ)
      → is_valid slot ≡ true
      → IsServed (record { applet = piv; slot = slot; curve = ed25519 })
  in_open_pgp :
      (slot : ℕ) (curve : Curve)
      → (slot ≡ sig) ⊎ (slot ≡ aut)
      → IsServed (record { applet = open_pgp; slot = slot; curve = curve })

supported-IsServed :
    (applet : Applet) (text : Text) (slot : ℕ) (curve : Curve) (account : Account)
    → parse_slot applet text ≡ ok slot
    → supported applet slot curve ≡ ok account
    → IsServed account
supported-IsServed piv text slot ed25519 account e h =
    rw (← ok-injective _ account h) (in_piv slot (parse_slot-is_valid text e))
supported-IsServed piv text slot secp256k1 account e h = absurd (cc h)
supported-IsServed open_pgp text slot curve account e h =
    rw (← ok-injective _ account h) (in_open_pgp slot curve (parse_slot_openpgp text e))

-- An account that `to_account` returns is one that the applets serve.
pub to_account-IsServed :
    (args : AccountArgs) {account : Account} → to_account args ≡ ok account → IsServed account
unfolding to_account
to_account-IsServed args {account} h =
    let (applet, _, h1) = >>=-eq-ok (map_err to_string (parse_applet args.applet)) _ h in
    let (curve, _, h2) = >>=-eq-ok (map_err to_string (parse_curve args.curve)) _ h1 in
    let (slot, e, h3) = >>=-eq-ok (map_err to_string (parse_slot applet args.slot)) _ h2 in
    supported-IsServed applet args.slot slot curve account
      (map_err-eq-ok to_string (parse_slot applet args.slot) e) h3
