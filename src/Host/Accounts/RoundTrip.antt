-- ===== src/Host/Accounts/RoundTrip.antt =====
-- yubiwallet-host/src/main.rs: the identifiers that the listing gives out are read back.
use crypto_rust_tools.Base.{
  ℕ, ◌<◌, ◌≡◌, refl, arith, Bool, true, false, ◌&&◌, holds_below, holds_below_lem, ◌==◌,
  if◌then◌else◌,
}
use crypto_rust_tools.Base.{Result, ok, err}
use crypto_rust_tools.Text.{
  Text, codes, hex2, split, trim, to_ascii_lowercase, text_eq, strip_0x, from_str_radix,
}
use crypto_rust_tools.Account.{
  Account, Applet, Curve, open_pgp, piv, ed25519, secp256k1, is_valid, sig, aut, parse_applet,
  parse_slot, parse_curve, parse_hex_byte, piv_slot_value,
}
use crypto_rust_tools.Host.Accounts.{Failure, parse_account, account_id}

-- The identifiers of the two OpenPGP slots, with either curve, name the slot and the curve.
pub parse_account-account_id_openpgp :
    (curve : Curve)
    → (parse_account (account_id (codes "openpgp") (codes "sig") curve)
        ≡ ok (record { applet = open_pgp; slot = sig; curve = curve }))
      × (parse_account (account_id (codes "openpgp") (codes "aut") curve)
          ≡ ok (record { applet = open_pgp; slot = aut; curve = curve }))
unfolding parse_account account_id codes split parse_applet parse_slot parse_curve trim
    to_ascii_lowercase text_eq
parse_account-account_id_openpgp ed25519 = (refl, refl)
parse_account-account_id_openpgp secp256k1 = (refl, refl)

abbrev piv_account : ℕ → Account
piv_account slot = record { applet = piv; slot = slot; curve = ed25519 }

is_piv : Applet → Bool
is_piv open_pgp = false
is_piv piv = true

is_ed25519 : Curve → Bool
is_ed25519 ed25519 = true
is_ed25519 secp256k1 = false

names_slot : ℕ → Result Account Failure → Bool
unfolding is_piv is_ed25519
names_slot slot (ok a) = is_piv a.applet && (a.slot == slot && is_ed25519 a.curve)
names_slot slot (err e) = false

names_slot_sound :
    (slot : ℕ) (r : Result Account Failure) → names_slot slot r ≡ true → r ≡ ok (piv_account slot)
unfolding names_slot
names_slot_sound slot (ok a) h = ground arith
names_slot_sound slot (err e) h = cc

abbrev piv_id : ℕ → Text
piv_id slot = account_id (codes "piv") (hex2 slot) ed25519

reads_back : ℕ → Bool
reads_back slot = if is_valid slot then names_slot slot (parse_account (piv_id slot)) else true

reads_back_table : holds_below reads_back 256 ≡ true
unfolding holds_below reads_back names_slot is_valid parse_account account_id codes split
    parse_applet parse_slot parse_curve parse_hex_byte piv_slot_value hex2 trim to_ascii_lowercase
    text_eq strip_0x from_str_radix
reads_back_table = refl

is_valid-IsU8 : (v : ℕ) → is_valid v ≡ true → v < 256
unfolding is_valid
is_valid-IsU8 v h = ground arith

-- The identifier of a PIV slot, `piv:<two hexadecimal digits>:ed25519`, names that slot.
pub parse_account-account_id_piv :
    (slot : ℕ)
    → is_valid slot ≡ true
    → parse_account (account_id (codes "piv") (hex2 slot) ed25519)
      ≡ ok (record { applet = piv; slot = slot; curve = ed25519 })
unfolding reads_back
parse_account-account_id_piv slot h =
    let t = holds_below_lem reads_back 256 (is_valid-IsU8 slot h) reads_back_table in
    names_slot_sound slot (parse_account (piv_id slot)) (ground (arith, t))
