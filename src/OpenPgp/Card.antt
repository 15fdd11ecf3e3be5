-- ===== src/OpenPgp/Card.antt =====
-- yubiwallet/src/openpgp.rs: the operations on the card.
pub mod Conduct
pub mod Success
pub mod LongMessages
pub mod Attempts
use crypto_rust_tools.Base.{
  ℕ, ◌==◌, if◌then◌else◌, Bool, true, false, Option, none, some, List, [], ◌∷◌, Bytes,
}
use crypto_rust_tools.Base.{Result, ok, err}
use crypto_rust_tools.External.{Hex}
use crypto_rust_tools.Text.{Text, codes, as_bytes}
use crypto_rust_tools.Error.{Error}
use crypto_rust_tools.Transport.{Platform, Session, M, and_then, ◌>>=◌, ◌>>◌, lift, resolve}
use crypto_rust_tools.Apdu.{
  cla, ins_select, ins_verify, ins_pso, ins_get_public_key, ins_internal_authenticate, connect,
  transmit, send,
}
use crypto_rust_tools.Account.{Account, Curve, sig, aut}
use crypto_rust_tools.OpenPgp.Data.{crt_tag, unsupported_slot, extract_pubkey, detect}

abbrev pub aid : Bytes
aid = 0xd2 ∷ 0x76 ∷ 0x00 ∷ 0x01 ∷ 0x24 ∷ 0x01 ∷ []

abbrev pub p2_pw1_sign : ℕ
p2_pw1_sign = 0x81

abbrev pub p2_pw1_other : ℕ
p2_pw1_other = 0x82

abbrev pub p1_sign : ℕ
p1_sign = 0x9e

abbrev pub p2_compute_signature : ℕ
p2_compute_signature = 0x9a

-- The GET PUBLIC KEY command for a Control Reference Template.
abbrev pub get_public_key_command : ℕ → Bytes
get_public_key_command crt =
    cla ∷ ins_get_public_key ∷ 0x81 ∷ 0x00 ∷ 0x00 ∷ 0x00 ∷ 0x02 ∷ crt ∷ 0x00 ∷ 0x00 ∷ 0x00 ∷ []

module _ (P : Platform) where
  unfoldable pub select : M P (Unit {0})
  select = do send P cla ins_select 0x04 0x00 (some aid) none 512; lift (ok tt)

  unfoldable pub get_pubkey_raw_on : ℕ → M P Bytes
  get_pubkey_raw_on slot = do crt ← lift (crt_tag slot); transmit P (get_public_key_command crt) 512

  unfoldable pub get_pubkey_raw : ℕ → M P Bytes
  get_pubkey_raw slot = do connect P; select; get_pubkey_raw_on slot

  unfoldable pub sign_sig : Bytes → Option Text → M P Bytes
  sign_sig message pin = do
    user_pin ← resolve P pin (codes "Enter User PIN (PW1/PIN2): ")
    send P cla ins_verify 0x00 p2_pw1_sign (some (as_bytes user_pin)) none 512
    send P cla ins_pso p1_sign p2_compute_signature (some message) (some 0x00) 512

  unfoldable pub sign_aut : Bytes → Option Text → M P Bytes
  sign_aut message pin = do
    user_pin ← resolve P pin (codes "Enter User PIN (PW1): ")
    send P cla ins_verify 0x00 p2_pw1_other (some (as_bytes user_pin)) none 512
    send P cla ins_internal_authenticate 0x00 0x00 (some message) (some 0x00) 512

  -- The `match` on the slot.
  unfoldable pub sign_slot : ℕ → Bytes → Option Text → M P Bytes
  sign_slot slot message pin =
      if slot == sig
      then sign_sig message pin
      else if slot == aut
      then sign_aut message pin
      else lift (err (unsupported_slot slot))

  unfoldable pub sign : Account → Bytes → Option Text → M P Bytes
  sign acc message pin = do connect P; select; sign_slot acc.slot message pin

module _ (H : Hex) (P : Platform) where
  unfoldable pub get_pubkey : Account → M P Bytes
  get_pubkey acc = do raw ← get_pubkey_raw P acc.slot; lift (extract_pubkey H acc.curve raw)

  unfoldable pub detect_account : ℕ → M P (Curve × Bytes)
  detect_account slot = do raw ← get_pubkey_raw P slot; lift (detect H slot raw)
