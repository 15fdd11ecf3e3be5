-- ===== src/Suite/Accounts.antt =====
-- The tests of yubiwallet/src/account.rs.
use crypto_rust_tools.Text.{from_str_radix, strip_0x, text_eq, to_ascii_lowercase, trim}
use crypto_rust_tools.Account.{parse_hex_byte, piv_slot_value}
use crypto_rust_tools.Base.{
  ◌≡◌, refl, Bool, true, false, not, List, [], ◌∷◌, map, length, ◌==◌, Result, ok, err,
}
use crypto_rust_tools.Text.{codes}
use crypto_rust_tools.Error.{Error}
use crypto_rust_tools.Account.{
  Applet, open_pgp, piv, Curve, ed25519, secp256k1, sig, aut, openpgp_sig, is_valid, all,
  parse_applet, parse_curve, parse_slot,
}
use crypto_rust_tools.Suite.{all_hold, is_err, unwraps_to_number}

-- The derived `PartialEq` of the two enumerations.
abbrev applet_eq : Applet → Applet → Bool
applet_eq open_pgp open_pgp = true
applet_eq piv piv = true
applet_eq _ _ = false

abbrev curve_eq : Curve → Curve → Bool
curve_eq ed25519 ed25519 = true
curve_eq secp256k1 secp256k1 = true
curve_eq _ _ = false

abbrev unwraps_to_applet : Result Applet Error → Applet → Bool
unwraps_to_applet (ok a) b = applet_eq a b
unwraps_to_applet (err e) b = false

abbrev unwraps_to_curve : Result Curve Error → Curve → Bool
unwraps_to_curve (ok a) b = curve_eq a b
unwraps_to_curve (err e) b = false

unfoldable default_account_is_openpgp_sig_ed25519 : Bool
default_account_is_openpgp_sig_ed25519 = all_hold (
    applet_eq openpgp_sig.applet open_pgp
    ∷ (openpgp_sig.slot == sig)
    ∷ curve_eq openpgp_sig.curve ed25519
    ∷ [])

unfoldable piv_slot_validation : Bool
piv_slot_validation = all_hold (
    is_valid 0x9a
    ∷ is_valid 0x82
    ∷ is_valid 0x95
    ∷ not (is_valid 0x81)
    ∷ not (is_valid 0x96)
    ∷ not (is_valid 0x00)
    ∷ [])

unfoldable piv_has_24_signing_slots : Bool
piv_has_24_signing_slots = all_hold ((length all == 24) ∷ all_hold (map (λ s. is_valid s) all) ∷ [])

unfoldable applet_parsing : Bool
applet_parsing = all_hold (
    unwraps_to_applet (parse_applet (codes "openpgp")) open_pgp
    ∷ unwraps_to_applet (parse_applet (codes "PIV")) piv
    ∷ is_err (parse_applet (codes "foo"))
    ∷ [])

unfoldable curve_parsing : Bool
curve_parsing = all_hold (
    unwraps_to_curve (parse_curve (codes "ed25519")) ed25519
    ∷ unwraps_to_curve (parse_curve (codes "secp256k1")) secp256k1
    ∷ is_err (parse_curve (codes "rsa"))
    ∷ [])

unfoldable openpgp_slot_aliases : Bool
openpgp_slot_aliases = all_hold (
    unwraps_to_number (parse_slot open_pgp (codes "sig")) sig
    ∷ unwraps_to_number (parse_slot open_pgp (codes "AUT")) aut
    ∷ is_err (parse_slot open_pgp (codes "9a"))
    ∷ [])

unfoldable piv_slot_aliases_and_hex : Bool
piv_slot_aliases_and_hex = all_hold (
    unwraps_to_number (parse_slot piv (codes "auth")) 0x9a
    ∷ unwraps_to_number (parse_slot piv (codes "9a")) 0x9a
    ∷ unwraps_to_number (parse_slot piv (codes "0x9c")) 0x9c
    ∷ unwraps_to_number (parse_slot piv (codes "82")) 0x82
    ∷ unwraps_to_number (parse_slot piv (codes "95")) 0x95
    ∷ is_err (parse_slot piv (codes "96"))
    ∷ is_err (parse_slot piv (codes "zz"))
    ∷ [])

abbrev tests : List Bool
tests =
    default_account_is_openpgp_sig_ed25519 ∷ piv_slot_validation ∷ piv_has_24_signing_slots
    ∷ applet_parsing ∷ curve_parsing ∷ openpgp_slot_aliases ∷ piv_slot_aliases_and_hex ∷ []

-- All of them pass.
tests_pass : all_hold tests ≡ true
unfolding tests openpgp_sig is_valid all parse_applet text_eq to_ascii_lowercase trim codes
    parse_curve parse_slot piv_slot_value parse_hex_byte from_str_radix strip_0x
    default_account_is_openpgp_sig_ed25519 piv_slot_validation piv_has_24_signing_slots
    applet_parsing curve_parsing openpgp_slot_aliases piv_slot_aliases_and_hex
tests_pass = refl
