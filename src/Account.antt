-- ===== src/Account.antt =====
-- yubiwallet/src/account.rs: applets, curves, accounts, the slots of both applets, and how each is
-- read from a text.
pub mod Slots
pub mod Parsing
use crypto_rust_tools.Base.{
  ℕ, zero, suc, ◌+◌, Bool, true, false, ◌&&◌, ◌||◌, Option, none, some, List, [], ◌∷◌, ◌++◌,
}
use crypto_rust_tools.Base.{leb, ◌==◌, if◌then◌else◌, Result, ok, err, ok_or, ◌>>=◌}
use crypto_rust_tools.Text.{
  Text, codes, text_eq, trim, to_ascii_lowercase, strip_0x, from_str_radix,
}
use crypto_rust_tools.Error.{Error, parse}

pub data Applet : Type 0 where
  open_pgp piv : Applet

pub data Curve : Type 0 where
  ed25519 secp256k1 : Curve

pub record Account : Type 0 where
  pub applet : Applet
  pub slot : ℕ
  pub curve : Curve

-- The constants of the modules `openpgp_slot` and `piv_slot`.
abbrev pub sig : ℕ
sig = 0x01

abbrev pub aut : ℕ
aut = 0x03

abbrev pub auth : ℕ
auth = 0x9a

abbrev pub sign : ℕ
sign = 0x9c

abbrev pub key_mgmt : ℕ
key_mgmt = 0x9d

abbrev pub card_auth : ℕ
card_auth = 0x9e

abbrev pub retired_first : ℕ
retired_first = 0x82

abbrev pub retired_last : ℕ
retired_last = 0x95

unfoldable pub openpgp_sig : Account
openpgp_sig = record { applet = open_pgp; slot = sig; curve = ed25519 }

-- `piv_slot::is_valid`
unfoldable pub is_valid : ℕ → Bool
is_valid slot =
    (slot == auth || slot == sign || slot == key_mgmt || slot == card_auth)
    || (leb retired_first slot && leb slot retired_last)

-- `first, first + 1, …`, that many numbers.
abbrev count_up : ℕ → ℕ → List ℕ
count_up first zero = []
count_up first (suc n) = first ∷ count_up (first + 1) n

-- `piv_slot::all`; the inclusive range has 0x95 - 0x82 + 1 = 20 members.
unfoldable pub all : List ℕ
all = (auth ∷ sign ∷ key_mgmt ∷ card_auth ∷ []) ++ count_up retired_first 20

-- `s.trim().to_ascii_lowercase()`
abbrev normalize : Text → Text
normalize s = to_ascii_lowercase (trim s)

-- `Applet::from_str`
unfoldable pub parse_applet : Text → Result Applet Error
parse_applet s =
    let t = normalize s in
    if text_eq t (codes "openpgp") || text_eq t (codes "pgp") || text_eq t (codes "gpg")
    then ok open_pgp
    else if text_eq t (codes "piv")
    then ok piv
    else err (parse (codes "unknown applet '" ++ (s ++ codes "' (use openpgp|piv)")))

-- `Curve::from_str`
unfoldable pub parse_curve : Text → Result Curve Error
parse_curve s =
    let t = normalize s in
    if text_eq t (codes "ed25519") || text_eq t (codes "ed")
    then ok ed25519
    else if text_eq t (codes "secp256k1") || text_eq t (codes "k1")
    then ok secp256k1
    else err (parse (codes "unknown curve '" ++ (s ++ codes "' (use ed25519|secp256k1)")))

unfoldable pub parse_hex_byte : Text → Option ℕ
parse_hex_byte s = from_str_radix (strip_0x s)

-- The value that `parse_slot` has for a PIV text, before it is validated.
unfoldable pub piv_slot_value : Text → Text → Result ℕ Error
piv_slot_value s t =
    if text_eq t (codes "auth")
    then ok auth
    else if text_eq t (codes "sign")
    then ok sign
    else if text_eq t (codes "keymgmt") || text_eq t (codes "key-mgmt")
    then ok key_mgmt
    else if text_eq t (codes "cardauth") || text_eq t (codes "card-auth")
    then ok card_auth
    else ok_or (parse (codes "unknown PIV slot '" ++ (s ++ codes "'"))) (parse_hex_byte t)

abbrev check_piv_slot : Text → ℕ → Result ℕ Error
check_piv_slot s v =
    if is_valid v then ok v else err (parse (s ++ codes " is not a valid PIV signing slot"))

unfoldable pub parse_slot : Applet → Text → Result ℕ Error
parse_slot open_pgp s =
    let t = normalize s in
    if text_eq t (codes "sig") || text_eq t (codes "signature")
    then ok sig
    else if text_eq t (codes "aut")
        || text_eq t (codes "auth")
        || text_eq t (codes "authentication")
    then ok aut
    else err (parse (codes "unknown OpenPGP slot '" ++ (s ++ codes "' (use sig|aut)")))
parse_slot piv s = do v ← piv_slot_value s (normalize s); check_piv_slot s v
