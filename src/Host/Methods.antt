-- ===== src/Host/Methods.antt =====
-- yubiwallet-host/src/main.rs: the methods of the protocol.
pub mod Replies
pub mod Failures
pub mod Attempts
pub mod Success
pub mod Listing
pub mod Requests
use crypto_rust_tools.Base.{
  ℕ, ◌-◌, not, Bool, true, false, ◌||◌, Option, none, some, List, [], ◌∷◌, ◌++◌, Bytes,
}
use crypto_rust_tools.Base.{if◌then◌else◌, Result, ok, err, ok_or, map_err}
use crypto_rust_tools.Text.{Text, codes, text_eq, trim, trim_start_0x, hex2}
use crypto_rust_tools.External.{Hex, K256, Json, Crates}
use crypto_rust_tools.Error.{Error, to_string}
use crypto_rust_tools.Transport.{Platform, Session, Act, and_then, ◌>>=◌, ◌>>◌, lift, relabel}
use crypto_rust_tools.Account.{Account, Curve, ed25519, sig, aut}
use crypto_rust_tools.OpenPgp
use crypto_rust_tools.Piv
use crypto_rust_tools.Piv.Card.{SlotInfo}
use crypto_rust_tools.Wallet.{get_pubkey, sign_with_pin, as_array}
use crypto_rust_tools.Eth.{EthSignature, ethereum_signature}
use crypto_rust_tools.Host.Accounts.{Failure, parse_account, account_json}

abbrev pub fail : Text → Text → Failure
fail c m = record { code = c; message = m }

abbrev pub bad_request : Text → Failure
bad_request m = fail (codes "BAD_REQUEST") m

unfoldable pub card_err : Error → Failure
card_err e = fail (codes "CARD_ERROR") (to_string e)

-- `$YUBIWALLET_PIN` and the controlling terminal; a failure is the text that it prints.
pub record Terminal (P : Platform) : Type 0 where
  -- `std::env::var("YUBIWALLET_PIN")`
  pub env_pin : P.State → Result Text Text × P.State
  -- the prompt on `/dev/tty`, of which every failure is ignored
  pub tty_prompt : P.State → P.State
  -- `File::open("/dev/tty")` and `read_line`
  pub tty_open : P.State → Result (Unit {0}) Text × P.State
  pub tty_read_line : P.State → Result Text Text × P.State

module _ (P : Platform) (T : Terminal P) where
  abbrev at_device : {A : Type 0} → Session P → A × P.State → A × Session P
  at_device s (a, d) = (a, record s { device = d })

  abbrev ask : {A : Type 0} → (P.State → Result A Text × P.State) → Act P A Text
  ask f s = at_device s (f s.device)

  read_tty : Act P Text Text
  read_tty = do
    λ s. (ok tt, record s { device = T.tty_prompt s.device })
    relabel (λ e. codes "no PIN source (set YUBIWALLET_PIN or run with a tty): " ++ e)
        (ask T.tty_open)
    line ← ask T.tty_read_line
    lift (ok (trim line))

  -- The variable if it is set and not empty, and else the terminal.
  choose_pin : Result Text Text × Session P → Result Text Text × Session P
  choose_pin (ok (c ∷ p), s) = (ok (c ∷ p), s)
  choose_pin (ok [], s) = read_tty s
  choose_pin (err e, s) = read_tty s

  unfoldable pub read_pin : Act P Text Text
  unfolding choose_pin read_tty
  read_pin s = choose_pin (ask T.env_pin s)

module _ (C : Crates) where
  open C use {hex, keccak, bs58_encode, k256, json}

  unfoldable pub param_str : json.Value → Text → Result Text Failure
  param_str params key =
      ok_or (bad_request (codes "missing param '" ++ (key ++ codes "'"))) (json.get_str params key)

  -- `hex::decode(_.trim_start_matches("0x"))` of a parameter.
  unfoldable pub param_hex : json.Value → Text → Result Bytes Failure
  param_hex params key = elim (param_str params key) [
    | err e ↦ err e
    | ok t ↦
        map_err (λ e. bad_request (key ++ (codes " hex: " ++ e))) (hex.decode (trim_start_0x t))
  ]

  unfoldable pub param_account : json.Value → Result Account Failure
  param_account params = elim (param_str params (codes "account_id")) [
    | err e ↦ err e
    | ok id ↦ parse_account id
  ]

  module _ (P : Platform) where
    abbrev entry_of : Text → Result (Curve × Bytes) Error → List json.Value
    entry_of slot_name (ok (curve, pk)) =
        account_json hex keccak bs58_encode json (codes "openpgp") slot_name curve pk ∷ []
    entry_of slot_name (err e) = []

    -- The loop over the OpenPGP slots; a slot that cannot be read is left out.
    unfoldable pub openpgp_entries : List (Text × ℕ) → Session P → List json.Value × Session P
    openpgp_entries [] s = ([], s)
    openpgp_entries ((slot_name, slot) ∷ slots) s =
        let (found, t) = OpenPgp.Card.detect_account hex P slot s in
        let (rest, u) = openpgp_entries slots t in (entry_of slot_name found ++ rest, u)

    -- The loop over the PIV slots; a slot without a key is left out.
    unfoldable pub piv_entries : List SlotInfo → List json.Value
    piv_entries [] = []
    piv_entries (info ∷ infos) = elim info.ed25519_pubkey [
      | none ↦ piv_entries infos
      | some pk ↦
          account_json hex keccak bs58_encode json (codes "piv") (hex2 info.slot) ed25519 pk
          ∷ piv_entries infos
    ]

    abbrev piv_entries_of : Result (List SlotInfo) Error → List json.Value
    piv_entries_of (ok infos) = piv_entries infos
    piv_entries_of (err e) = []

    unfoldable pub list_accounts : Session P → List json.Value × Session P
    unfolding openpgp_entries piv_entries
    list_accounts s =
        let (first, t) = openpgp_entries ((codes "sig", sig) ∷ (codes "aut", aut) ∷ []) s in
        let (slots, u) = Piv.Card.list_accounts P t in (first ++ piv_entries_of slots, u)

    module _ (T : Terminal P) where
      abbrev pub pin_failed : Text → Failure
      pin_failed m = fail (codes "PIN_FAILED") m

      abbrev pub signature_json : EthSignature → json.Value
      signature_json sig = json.object (
          (codes "r", json.string (hex.encode sig.r))
          ∷ (codes "s", json.string (hex.encode sig.s))
          ∷ (codes "recovery_id", json.number (sig.v - 35))
          ∷ [])

      abbrev pub exactly : ℕ → Failure → Bytes → Result Bytes Failure
      exactly n e b = map_err (λ _. e) (as_array n b)

      unfoldable pub sign_secp256k1 : json.Value → Act P json.Value Failure
      sign_secp256k1 params = do
        acc ← lift (param_account params)
        prehash ← lift (param_hex params (codes "prehash"))
        hash ← lift (exactly 32 (bad_request (codes "prehash must be 32 bytes")) prehash)
        pubkey ← relabel card_err (get_pubkey hex P acc)
        pin ← relabel pin_failed (read_pin P T)
        rs_vec ← relabel card_err (sign_with_pin P acc hash pin)
        rs ← lift (exactly 64 (fail (codes "CARD_ERROR") (codes "expected 64-byte R||S")) rs_vec)
        sig ← lift (map_err card_err (ethereum_signature k256 pubkey hash rs 0))
        lift (ok (signature_json sig))

      unfoldable pub sign_ed25519 : json.Value → Act P json.Value Failure
      sign_ed25519 params = do
        acc ← lift (param_account params)
        message ← lift (param_hex params (codes "message"))
        pin ← relabel pin_failed (read_pin P T)
        sig ← relabel card_err (sign_with_pin P acc message pin)
        lift (ok (json.object ((codes "signature", json.string (hex.encode sig)) ∷ [])))

      abbrev info_json : Text → json.Value
      info_json version = json.object (
          (codes "name", json.string (codes "yubiwallet-host"))
          ∷ (codes "version", json.string version)
          ∷ (codes "protocol", json.number 1)
          ∷ (
            codes "methods",
            json.array (
                json.string (codes "get_info")
                ∷ json.string (codes "get_status")
                ∷ json.string (codes "list_accounts")
                ∷ json.string (codes "sign_secp256k1")
                ∷ json.string (codes "sign_ed25519")
                ∷ []),
          )
          ∷ [])

      abbrev accounts_json : List json.Value × Session P → Result json.Value Failure × Session P
      accounts_json (accounts, s) =
          (ok (json.object ((codes "accounts", json.array accounts) ∷ [])), s)

      abbrev is_empty : List json.Value → Bool
      is_empty [] = true
      is_empty (a ∷ as') = false

      abbrev status_json : List json.Value × Session P → Result json.Value Failure × Session P
      status_json (accounts, s) = (
        ok (
            json.object (
              (codes "card_present", json.boolean (not (is_empty accounts)))
              ∷ (codes "accounts", json.array accounts)
              ∷ [])),
        s,
      )

      -- `version` is the package version, which the build fills in.
      unfoldable pub dispatch : Text → Text → json.Value → Act P json.Value Failure
      dispatch version method params =
          if text_eq method (codes "get_info")
          then lift (ok (info_json version))
          else if text_eq method (codes "list_accounts")
          then (λ s. accounts_json (list_accounts s))
          else if text_eq method (codes "get_status")
          then (λ s. status_json (list_accounts s))
          else if text_eq method (codes "sign_secp256k1")
          then sign_secp256k1 params
          else if text_eq method (codes "sign_ed25519")
          then sign_ed25519 params
          else lift (err (fail (codes "UNSUPPORTED_METHOD") (codes "unknown method: " ++ method)))
