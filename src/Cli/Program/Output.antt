-- ===== src/Cli/Program/Output.antt =====
-- yubiwallet/src/main.rs: what is printed, in success and in failure.
use crypto_rust_tools.Base.{◌++◌}
use crypto_rust_tools.Base.{◌≡◌, refl, Bytes, Result, ok, err, map_err}
use crypto_rust_tools.Text.{Text, codes}
use crypto_rust_tools.Error.{Error, to_string}
use crypto_rust_tools.Transport.{Platform, Session}
use crypto_rust_tools.Account.{Account, Curve, ed25519, secp256k1}
use crypto_rust_tools.Eth.{address_to_hex}
use crypto_rust_tools.Eth.Address.{address_of_key}
use crypto_rust_tools.Wallet
use crypto_rust_tools.Wallet.KeySizes.{IsKeyOf, get_pubkey-IsKeyOf}
use crypto_rust_tools.Cli.{AccountArgs, to_account, format_address}
use crypto_rust_tools.Cli.Console.{Screen, print_on}
use crypto_rust_tools.Cli.Program.{Tools, show_address, print_key}

module _ (P : Platform) (T : Tools P) where
  -- A key of an account's curve has an address.
  pub show_address-IsKeyOf :
      (c : Curve) (key : Bytes) → IsKeyOf c key → (t : Text) × (show_address P T c key ≡ ok t)
  unfolding format_address
  show_address-IsKeyOf ed25519 key k = (_, refl)
  show_address-IsKeyOf secp256k1 key k =
      let (address, e) = address_of_key T.keccak key k.0 k.1 in
      (codes "Ethereum: " ++ address_to_hex T.hex address, rw e refl)

  -- What a run of `address` comes to.
  pub data AddressRun (args : AccountArgs) (s : Screen P)
      : Result (Unit {0}) Text × Screen P → Type 0 where
    refused : (e : Text) (t : Session P) → AddressRun args s (err e, record s { session = t })
    answered :
        (account : Account) (pk : Bytes) (shown : Text) (t : Session P)
        → to_account args ≡ ok account
        → Wallet.get_pubkey T.hex P account s.session ≡ (ok pk, t)
        → show_address P T account.curve pk ≡ ok shown
        → AddressRun args s (
          ok tt,
          print_on
              (print_on (record s { session = t }) (codes "Public key: " ++ T.hex.encode pk))
              shown,
        )

  with_key :
      (args : AccountArgs) (s : Screen P) (account : Account) (r : Result Bytes Error × Session P)
      → to_account args ≡ ok account
      → Wallet.get_pubkey T.hex P account s.session ≡ r
      → AddressRun args s
          (print_key P T account (map_err to_string r.0) (record s { session = r.1 }))
  with_key args s account (err e, t) h k = refused (to_string e) t
  with_key args s account (ok pk, t) h k =
      let (shown, e) =
        show_address-IsKeyOf account.curve pk (get_pubkey-IsKeyOf T.hex P account s.session t k) in
      rw e (answered account pk shown t h k e)
