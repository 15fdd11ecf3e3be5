-- ===== src/Cli.antt =====
-- yubiwallet/src/main.rs: the arguments of the command line, and what is printed for them.
pub mod Arguments
pub mod SshKeys
pub mod Console
pub mod Program
use crypto_rust_tools.Base.{
  ℕ, ◌+◌, ◌&&◌, ◌||◌, not, ltb, if◌then◌else◌, Option, none, some, List, [], ◌∷◌, ◌++◌,
}
use crypto_rust_tools.Base.{
  Bytes, length, slice, Result, ok, err, map_err, ok_or, ◌>>=◌, true, false, Bool,
}
use crypto_rust_tools.Text.{Text, codes, text_eq, split_whitespace}
use crypto_rust_tools.External.{Hex, Keccak}
use crypto_rust_tools.Error.{to_string}
use crypto_rust_tools.Account.{
  Account, Applet, open_pgp, piv, Curve, ed25519, secp256k1, parse_applet, parse_curve, parse_slot,
}
use crypto_rust_tools.Eth.{address_from_pubkey, address_to_hex}

-- `AccountArgs`
pub record AccountArgs : Type 0 where
  pub applet : Text
  pub slot : Text
  pub curve : Text

-- The last test of `to_account`, and the account.
abbrev pub supported : Applet → ℕ → Curve → Result Account Text
supported piv slot secp256k1 = err (codes "PIV does not support secp256k1; use --applet openpgp")
supported piv slot ed25519 = ok (record { applet = piv; slot = slot; curve = ed25519 })
supported open_pgp slot curve = ok (record { applet = open_pgp; slot = slot; curve = curve })

unfoldable pub to_account : AccountArgs → Result Account Text
to_account args = do
  applet ← map_err to_string (parse_applet args.applet)
  curve ← map_err to_string (parse_curve args.curve)
  slot ← map_err to_string (parse_slot applet args.slot)
  supported applet slot curve

unfoldable pub format_address : Hex → Keccak → (Bytes → Text) → Curve → Bytes → Result Text Text
format_address H keccak bs58_encode ed25519 pubkey = ok (codes "Solana: " ++ bs58_encode pubkey)
format_address H keccak bs58_encode secp256k1 pubkey = do
  addr ← map_err to_string (address_from_pubkey keccak pubkey)
  ok (codes "Ethereum: " ++ address_to_hex H addr)

-- `raw.get(idx..idx + 32)`, with `idx` behind the two lengths and the name of the key type.
unfoldable pub key_of_blob : Bytes → Option Bytes
key_of_blob raw = if ltb (length raw) 51 then none else some (slice raw 19 51)

abbrev pub usage : Text
usage = codes "expected 'ssh-ed25519 <base64> [comment]'"

-- The two tests of the parts, and the second part.
unfoldable pub base64_part : List Text → Result Text Text
base64_part (kind ∷ blob ∷ rest) = if text_eq kind (codes "ssh-ed25519") then ok blob else err usage
base64_part _ = err usage

-- `decode` is the base64 engine.
unfoldable pub ssh_ed25519_to_solana :
    (Text → Result Bytes Text) → (Bytes → Text) → Text → Result Text Text
ssh_ed25519_to_solana decode bs58_encode ssh_key = do
  blob ← base64_part (split_whitespace ssh_key)
  raw ← map_err (λ e. codes "base64 decode: " ++ e) (decode blob)
  key ← ok_or (codes "SSH key data too short") (key_of_blob raw)
  ok (bs58_encode key)
