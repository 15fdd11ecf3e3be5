-- ===== src/Examples/Frontends.antt =====
-- yubiwallet/src/main.rs and yubiwallet-wasm/src/lib.rs at concrete inputs.
use crypto_rust_tools.Account.{is_valid, parse_hex_byte, piv_slot_value}
use crypto_rust_tools.Text.{strip_0x}
use crypto_rust_tools.Base.{
  ◌≡◌, refl, arith, [], ◌∷◌, Bytes, replicate, Result, ok, map_ok, map_err,
}
use crypto_rust_tools.Text.{
  Text, codes, split_whitespace, text_eq, to_ascii_lowercase, trim, from_str_radix,
}
use crypto_rust_tools.Error.{to_string}
use crypto_rust_tools.Account.{Account, piv, ed25519, parse_applet, parse_curve, parse_slot}
use crypto_rust_tools.Eth.{ethereum_signature}
use crypto_rust_tools.Cli.{AccountArgs, to_account}
use crypto_rust_tools.Cli.Arguments.{IsServed, to_account-IsServed}
use crypto_rust_tools.Cli.SshKeys.{ssh_blob}
use crypto_rust_tools.Wasm.{in_hex, eth_signature}
use crypto_rust_tools.Wasm.Agreement.{prefixed, written, eth_signature-ethereum_signature}
use crypto_rust_tools.Examples.Fixtures.{hex, hex-IsHex, k256, point}

abbrev args : AccountArgs
args = record { applet = codes "piv"; slot = codes "9a"; curve = codes "ed25519" }

abbrev account : Account
account = record { applet = piv; slot = 0x9a; curve = ed25519 }

args_read : to_account args ≡ ok account
unfolding to_account codes parse_applet text_eq to_ascii_lowercase trim parse_curve parse_slot
    piv_slot_value parse_hex_byte from_str_radix strip_0x is_valid
args_read = refl

to_account-IsServed_example : IsServed account
to_account-IsServed_example = to_account-IsServed args args_read

abbrev line : Text
line = codes "ssh-ed25519 AAAA me@host"

abbrev key : Bytes
key = replicate 32 0x42

-- A base64 engine that knows one text.
abbrev decode : Text → Result Bytes Text
decode t = ok (ssh_blob key)

line_words : split_whitespace line ≡ codes "ssh-ed25519" ∷ codes "AAAA" ∷ codes "me@host" ∷ []
unfolding split_whitespace codes
line_words = refl

abbrev hash : Bytes
hash = replicate 32 0x22

abbrev rs : Bytes
rs = replicate 64 0x99

eth_signature-ethereum_signature_example :
    eth_signature hex k256
      (written hex (codes "0x") point)
      (written hex (codes "0x") hash)
      (written hex (codes "0x") rs)
      1
    ≡ map_ok (in_hex hex) (map_err to_string (ethereum_signature k256 point hash rs 1))
eth_signature-ethereum_signature_example =
    eth_signature-ethereum_signature hex hex-IsHex prefixed k256 point hash rs 1 (omega arith)
      (omega arith) (omega arith) refl refl
