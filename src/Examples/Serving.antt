-- ===== src/Examples/Serving.antt =====
-- A card that asks for its commands in their order: yubiwallet/src/lib.rs and
-- yubiwallet-host/src/main.rs.
use crypto_rust_tools.Base.{
  ℕ, ◌+◌, ◌≤◌, leb, err, ◌≡◌, refl, inr, arith, none, some, Option, List, [], ◌∷◌, ◌++◌, Bytes,
  length, replicate, bytes_eq, get_elem?, if◌then◌else◌, Result, ok,
}
use crypto_rust_tools.Text.{Text, codes}
use crypto_rust_tools.Transport.{Platform, Session}
use crypto_rust_tools.Account.{Account, open_pgp, piv, ed25519, secp256k1, aut, is_valid}
use crypto_rust_tools.Apdu.Service.{Card, Serves, Reaches}
use crypto_rust_tools.OpenPgp
use crypto_rust_tools.Wallet
use crypto_rust_tools.Text.{as_bytes}
use crypto_rust_tools.Base.{true}
use crypto_rust_tools.Apdu.{build_apdu}
use crypto_rust_tools.Piv.Data.{pin_padded}
use crypto_rust_tools.Piv.Card.Chip.{select_apdu, verify_apdu, authenticate_apdu, response_template}
use crypto_rust_tools.Host.Methods.{
  Terminal, param_str, param_account, param_hex, read_pin, dispatch,
}
use crypto_rust_tools.Host.Methods.Success.{dispatch_signs}
use crypto_rust_tools.Host.Accounts.{parse_account}
use crypto_rust_tools.Account.{
  parse_applet, parse_slot, parse_curve, piv_slot_value, parse_hex_byte,
}
use crypto_rust_tools.Text.{
  split, text_eq, to_ascii_lowercase, trim, trim_start_0x, from_str_radix, strip_0x,
}
use crypto_rust_tools.Examples.Fixtures.{crates, Value, string, object, no_fields, field}
use crypto_rust_tools.OpenPgp.Card.Conduct.{IsPrepared}
use crypto_rust_tools.Wallet.Signing.{sign_with_pin-Reaches}
use crypto_rust_tools.Examples.Scripts.{pin, message}

-- What the card accepts next, and its answer.
abbrev pub Step : Type 0
Step = Bytes × Bytes

abbrev answer_to : Option Step → Bytes → Option Bytes
answer_to none command = none
answer_to (some (expected, body)) command = if bytes_eq command expected then some body else none

abbrev pub in_order : List Step → Card
in_order steps past command = answer_to (get_elem? steps (length past)) command

-- The status word 6d 00 for a command that is not accepted.
-- A response that does not fit in the buffer is the error of PC/SC.
abbrev replied : ℕ → List Bytes → Bytes → Option Bytes → Result Bytes Text × List Bytes
replied capacity past command (some body) =
    if leb (length body + 2) capacity
    then (ok (body ++ (0x90 ∷ 0x00 ∷ [])), past ++ (command ∷ []))
    else (err (codes "InsufficientBuffer"), past ++ (command ∷ []))
replied capacity past command none = (ok (0x6d ∷ 0x00 ∷ []), past)

abbrev names : ℕ → Result (List Text) Text
names capacity =
    if leb 16 capacity then ok (codes "Yubico YubiKey" ∷ []) else err (codes "InsufficientBuffer")

-- The state is what the card has accepted since the connection.
abbrev pub served : Card → Platform
served card = record {
  State = List Bytes;
  establish = λ s. (ok tt, s);
  list_readers = λ n s. (names n, s);
  connect_card = λ reader s. (ok tt, []);
  transmit_card = λ command capacity s. replied capacity s command (card s command);
  print_flush = λ t s. (ok tt, s);
  read_line = λ s. (ok (codes "123456"), s);
}

answered :
    (card : Card) (past : List Bytes) (command body : Bytes) (capacity : ℕ) (s : List Bytes)
    → length body + 2 ≤ capacity
    → s ≡ past
    → card past command ≡ some body
    → (t : List Bytes) × (replied capacity s command (card s command)
        ≡ (ok (body ++ (0x90 ∷ 0x00 ∷ [])), t))
      × (t ≡ past ++ (command ∷ []))
answered card past command body capacity s z e h =
    (past ++ (command ∷ []), rw (e, h) (ground (arith, z)), refl)

named : (n : ℕ) (s : List Bytes) → 16 ≤ n → names n ≡ ok (codes "Yubico YubiKey" ∷ [])
named n s z = ground arith

serves : (card : Card) → Serves (served card) card
serves card = record {
  At = λ past s. s ≡ past;
  readers_size = 16;
  establishes = λ s. (s, refl);
  lists = λ n s z. (codes "Yubico YubiKey", [], s, rw (named n s z) refl);
  connects = λ reader s. ([], refl, refl);
  answers = λ past command body n s z e h. answered card past command body n s z e h;
}

abbrev started : (card : Card) → Session (served card)
started card = record { device = []; log = [] }

-- The applets' own sequences; the answers to SELECT and VERIFY are empty.
abbrev padded : Bytes
padded = 0x31 ∷ 0x32 ∷ 0x33 ∷ 0x34 ∷ 0x35 ∷ 0x36 ∷ 0xff ∷ 0xff ∷ []

padded_form : pin_padded pin ≡ ok padded
unfolding pin_padded codes as_bytes
padded_form = refl

abbrev ed25519_signature : Bytes
ed25519_signature = replicate 64 0x5a

abbrev piv_steps : List Step
piv_steps =
    (select_apdu, [])
    ∷ (verify_apdu padded, [])
    ∷ (authenticate_apdu 0x9c message, response_template ed25519_signature)
    ∷ []

abbrev piv_card : Card
piv_card = in_order piv_steps

abbrev piv_account : Account
piv_account = record { applet = piv; slot = 0x9c; curve = ed25519 }

piv_slot : is_valid 0x9c ≡ true
unfolding is_valid
piv_slot = refl

piv_accepts :
    (piv_card [] select_apdu ≡ some [])
    × (piv_card (select_apdu ∷ []) (verify_apdu padded) ≡ some [])
    × (piv_card (select_apdu ∷ verify_apdu padded ∷ []) (authenticate_apdu 0x9c message)
        ≡ some (response_template ed25519_signature))
piv_accepts = (refl, refl, refl)

-- A request for a signature by the host.
abbrev params : Value
params = object (
    field (codes "account_id") (string (codes "piv:9c:ed25519"))
      (field (codes "message") (string (codes "0x6869")) no_fields))

abbrev terminal : Terminal (served piv_card)
terminal = record {
  env_pin = λ s. (ok (codes "123456"), s);
  tty_prompt = λ s. s;
  tty_open = λ s. (ok tt, s);
  tty_read_line = λ s. (ok (codes "123456"), s);
}

account_read : param_account crates params ≡ ok piv_account
unfolding param_account param_str codes parse_account split parse_applet text_eq to_ascii_lowercase
    trim parse_slot parse_curve piv_slot_value parse_hex_byte from_str_radix strip_0x is_valid
account_read = refl

message_read : param_hex crates params (codes "message") ≡ ok message
unfolding param_hex param_str codes trim_start_0x
message_read = refl

pin_read : read_pin (served piv_card) terminal (started piv_card) ≡ (ok pin, started piv_card)
unfolding read_pin codes
pin_read = refl

dispatch_signs_example :
    (u : Session (served piv_card)) × (dispatch crates
        (served piv_card)
        terminal
        (codes "0.1.0")
        (codes "sign_ed25519")
        params
        (started piv_card)
      ≡ (
        ok (
            object
              (field (codes "signature") (string (crates.hex.encode ed25519_signature)) no_fields)),
        u,
      ))
unfolding serves
dispatch_signs_example =
    dispatch_signs (serves piv_card) crates terminal (codes "0.1.0") params piv_account message pin
      ed25519_signature (started piv_card) (started piv_card) account_read refl refl piv_slot
      message_read pin_read padded_form (omega arith) (omega arith) (omega arith) (omega arith)
      (omega arith) piv_accepts.0 piv_accepts.1 piv_accepts.2

abbrev verify : Bytes
verify = 0x00 ∷ 0x20 ∷ 0x00 ∷ 0x82 ∷ 6 ∷ 0x31 ∷ 0x32 ∷ 0x33 ∷ 0x34 ∷ 0x35 ∷ 0x36 ∷ []

abbrev authenticate_command : Bytes
authenticate_command = 0x00 ∷ 0x88 ∷ 0x00 ∷ 0x00 ∷ 2 ∷ 0x68 ∷ 0x69 ∷ 0x00 ∷ []

abbrev aut_account : Account
aut_account = record { applet = open_pgp; slot = aut; curve = secp256k1 }

prepared : IsPrepared aut_account message pin verify authenticate_command
unfolding codes build_apdu as_bytes
prepared = inr (refl, refl, refl)

abbrev signature : Bytes
signature = replicate 64 0x99

abbrev openpgp_card : Card
openpgp_card = in_order (
    (OpenPgp.Card.Conduct.select_command, [])
    ∷ (verify, [])
    ∷ (authenticate_command, signature)
    ∷ [])

openpgp_accepts :
    (openpgp_card [] OpenPgp.Card.Conduct.select_command ≡ some [])
    × (openpgp_card (OpenPgp.Card.Conduct.select_command ∷ []) verify ≡ some [])
    × (openpgp_card (OpenPgp.Card.Conduct.select_command ∷ verify ∷ []) authenticate_command
        ≡ some signature)
openpgp_accepts = (refl, refl, refl)

sign_with_pin-Reaches_example :
    Reaches
      (serves openpgp_card)
      (OpenPgp.Card.Conduct.select_command ∷ verify ∷ authenticate_command ∷ [])
      signature
      (Wallet.sign_with_pin (served openpgp_card) aut_account message pin (started openpgp_card))
unfolding serves
sign_with_pin-Reaches_example =
    sign_with_pin-Reaches (serves openpgp_card) aut_account message pin signature
      (started openpgp_card) refl prepared (omega arith) (omega arith) (omega arith) (omega arith)
      openpgp_accepts.0 openpgp_accepts.1 openpgp_accepts.2
