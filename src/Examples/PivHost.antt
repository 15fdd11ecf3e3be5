-- ===== src/Examples/PivHost.antt =====
-- The native-messaging host on a chip that counts wrong PINs: yubiwallet-host/src/main.rs.
use crypto_rust_tools.Base.{◌≤◌, ◌≡◌, refl, arith, ◌++◌, length, ok, err}
use crypto_rust_tools.Text.{
  decimal, split, text_eq, to_ascii_lowercase, trim, trim_start_0x, from_str_radix, strip_0x,
}
use crypto_rust_tools.Text.{codes, as_bytes}
use crypto_rust_tools.Piv.Card.Applet.{fresh, selected}
use crypto_rust_tools.Host.Methods.{
  Terminal, fail, param_str, param_account, param_hex, read_pin, dispatch,
}
use crypto_rust_tools.Host.Methods.Requests.{dispatch_refines}
use crypto_rust_tools.Piv.Card.Applet.{chip}
use crypto_rust_tools.Piv.Card.Applet.Runs.{Yields}
use crypto_rust_tools.Host.Accounts.{parse_account}
use crypto_rust_tools.Error.{card, to_string}
use crypto_rust_tools.Examples.Scripts.{message}
use crypto_rust_tools.Account.{
  parse_applet, parse_slot, parse_curve, piv_slot_value, parse_hex_byte, is_valid,
}
use crypto_rust_tools.Examples.Fixtures.{crates, Value, string, object, no_fields, field}
use crypto_rust_tools.Examples.PivChip.{
  account, has_applet_size, has_applet, valid_slot, six_bytes, at_start, wrong_pin, chip_platform,
  new_session,
}

-- The user types a wrong PIN.
abbrev terminal : Terminal chip_platform
terminal = record {
  env_pin = λ s. (ok wrong_pin, s);
  tty_prompt = λ s. s;
  tty_open = λ s. (ok tt, s);
  tty_read_line = λ s. (ok wrong_pin, s);
}

abbrev params : Value
params = object (
    field (codes "account_id") (string (codes "piv:9c:ed25519"))
      (field (codes "message") (string (codes "0x6869")) no_fields))

account_read : param_account crates params ≡ ok account
unfolding param_account param_str codes parse_account split parse_applet text_eq to_ascii_lowercase
    trim parse_slot parse_curve piv_slot_value parse_hex_byte from_str_radix strip_0x is_valid
account_read = refl

message_read : param_hex crates params (codes "message") ≡ ok message
unfolding param_hex param_str codes trim_start_0x
message_read = refl

pin_read : read_pin chip_platform terminal new_session ≡ (ok wrong_pin, new_session)
unfolding read_pin codes
pin_read = refl

message_size : length message ≤ 65000
unfolding codes as_bytes
message_size = omega arith

dispatch_refines_example :
    Yields has_applet
      (chip selected 2)
      (err (
        fail
          (codes "CARD_ERROR")
          (to_string (card 0x63c2 (codes "PIN verification failed. Retries left: " ++ decimal 2)))))
      (dispatch crates chip_platform terminal
        (codes "0.1.0")
        (codes "sign_ed25519")
        params
        new_session)
unfolding as_bytes codes
dispatch_refines_example =
    dispatch_refines has_applet crates terminal (codes "0.1.0") params account message wrong_pin
      (chip fresh 3) new_session new_session account_read refl refl valid_slot message_read pin_read
      six_bytes.0 six_bytes.1 message_size has_applet_size (omega arith) (omega arith) refl
      (omega arith) at_start
