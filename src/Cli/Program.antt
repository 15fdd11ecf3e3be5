-- ===== src/Cli/Program.antt =====
-- yubiwallet/src/main.rs: `run` and `main`, once the command line is parsed.
pub mod Output
pub mod Listing
use crypto_rust_tools.Base.{
  ℕ, suc, zero, ◌+◌, ◌==◌, if◌then◌else◌, Option, none, some, List, [], ◌∷◌, ◌++◌,
}
use crypto_rust_tools.Base.{Bytes, Result, ok, err, map_err}
use crypto_rust_tools.Text.{Text, codes, hex2_prefixed}
use crypto_rust_tools.External.{Hex, Keccak}
use crypto_rust_tools.Error.{Error, to_string}
use crypto_rust_tools.Transport.{Platform, Session}
use crypto_rust_tools.Account.{Account, Curve, sig, aut}
use crypto_rust_tools.OpenPgp
use crypto_rust_tools.Piv
use crypto_rust_tools.Piv.Card.{SlotInfo}
use crypto_rust_tools.Wallet
use crypto_rust_tools.Cli.{AccountArgs, to_account, format_address, ssh_ed25519_to_solana}
use crypto_rust_tools.Cli.Console.{Screen, Run, and_next, ◌>>=◌, ◌>>◌, pure, say, outcome_of}

pub data Command : Type 0 where
  list : Command
  address : AccountArgs → Command
  ssh_to_solana : Option Text → Command

-- What the program calls of crates and of the standard input. `next_line` is
-- `stdin().lock().lines().next()`.
pub record Tools (P : Platform) : Type 0 where
  pub hex : Hex
  pub keccak : Keccak
  pub bs58_encode : Bytes → Text
  pub base64_decode : Text → Result Bytes Text
  pub next_line : P.State → Option (Result Text Text) × P.State

module _ (P : Platform) (T : Tools P) where
  open T use {hex, keccak, bs58_encode, base64_decode, next_line}

  abbrev pub show_address : Curve → Bytes → Result Text Text
  show_address curve pubkey = format_address hex keccak bs58_encode curve pubkey

  abbrev pub in_parens : Text → Text
  in_parens t = codes "(" ++ (t ++ codes ")")

  -- The two arms of the `match` on what a slot holds.
  unfoldable pub show_slot : Result (Curve × Bytes) Error → Run P (Unit {0})
  show_slot (err e) = say (codes "  " ++ in_parens (codes "none: " ++ to_string e))
  show_slot (ok (curve, pk)) = do
    shown ← pure (show_address curve pk)
    say (codes "  " ++ (shown ++ (codes "  " ++ in_parens (hex.encode pk))))

  -- One round of the loop over the OpenPGP slots.
  unfoldable pub list_slot : Text → ℕ → Run P (Unit {0})
  list_slot name slot = do
    say (codes "OpenPGP (" ++ (name ++ codes " slot):"))
    found ← outcome_of (OpenPgp.Card.detect_account hex P slot)
    show_slot found

  abbrev pub slot_line : ℕ → Bytes → Text
  slot_line slot pk =
      codes "  slot "
      ++ (hex2_prefixed slot
          ++ (codes "  Solana: " ++ (bs58_encode pk ++ (codes "  " ++ in_parens (hex.encode pk)))))

  -- The loop over the PIV slots, which counts those with a key.
  unfoldable pub list_keys : List SlotInfo → ℕ → Run P ℕ
  list_keys [] found = pure (ok found)
  list_keys (info ∷ infos) found = elim info.ed25519_pubkey [
    | none ↦ list_keys infos found
    | some pk ↦ say (slot_line info.slot pk) >> list_keys infos (found + 1)
  ]

  abbrev pub no_keys : Text
  no_keys = codes "  (none — generate one, e.g. `ykman piv keys generate -a ED25519 9a ...`)"

  unfoldable pub run_list : Run P (Unit {0})
  run_list = do
    list_slot (codes "SIG") sig
    list_slot (codes "AUT") aut
    say (codes "PIV slots (Ed25519 → Solana):")
    listing ← outcome_of (Piv.Card.list_accounts P)
    infos ← pure (map_err to_string listing)
    found ← list_keys infos 0
    if found == 0 then say no_keys else pure (ok tt)

  -- What is left once the public key is read.
  abbrev pub print_key : Account → Result Bytes Text → Run P (Unit {0})
  print_key account read = do
    pubkey ← pure read
    say (codes "Public key: " ++ hex.encode pubkey)
    shown ← pure (show_address account.curve pubkey)
    say shown

  unfoldable pub run_address : AccountArgs → Run P (Unit {0})
  run_address args = do
    account ← pure (to_account args)
    read ← outcome_of (Wallet.get_pubkey hex P account)
    print_key account (map_err to_string read)

  -- The first line of the standard input.
  abbrev line_of : Option (Result Text Text) → Result Text Text
  line_of none = err (codes "no input provided")
  line_of (some r) = r

  abbrev with_device : {A : Type 0} → Screen P → A × P.State → A × Screen P
  with_device s (a, d) = (a, record s { session = record s.session { device = d } })

  abbrev read_next : Screen P → Option (Result Text Text) × Screen P
  read_next s = with_device s (next_line s.session.device)

  unfoldable pub ssh_line : Option Text → Run P Text
  ssh_line (some k) s = (ok k, s)
  ssh_line none s = (line_of (read_next s).0, (read_next s).1)

  unfoldable pub run_ssh : Option Text → Run P (Unit {0})
  run_ssh ssh_key = do
    key ← ssh_line ssh_key
    shown ← pure (ssh_ed25519_to_solana base64_decode bs58_encode key)
    say shown

  unfoldable pub run : Command → Run P (Unit {0})
  run list = run_list
  run (address args) = run_address args
  run (ssh_to_solana ssh_key) = run_ssh ssh_key

  -- The exit code, and the line on the standard error if there is one.
  abbrev pub exit_of : Result (Unit {0}) Text × Screen P → (ℕ × Option Text) × Screen P
  exit_of (ok _, s) = ((0, none), s)
  exit_of (err e, s) = ((1, some (codes "Error: " ++ e)), s)

  unfoldable pub main : Command → Session P → (ℕ × Option Text) × Screen P
  unfolding run
  main command s = exit_of (run command (record { lines = []; session = s }))
