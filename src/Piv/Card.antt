-- ===== src/Piv/Card.antt =====
-- yubiwallet/src/piv.rs: the operations on the card.
pub mod Conduct
pub mod Listing
pub mod Success
pub mod Attempts
pub mod Chip
pub mod Applet
use crypto_rust_tools.Base.{
  ℕ, not, Bool, true, false, Option, none, some, List, [], ◌∷◌, ◌++◌, Bytes,
}
use crypto_rust_tools.Base.{if◌then◌else◌, Result, ok, err, to_option}
use crypto_rust_tools.Text.{Text, codes, hex2_prefixed}
use crypto_rust_tools.Error.{Error, unsupported}
use crypto_rust_tools.Transport.{Platform, Session, M, and_then, ◌>>=◌, ◌>>◌, lift, resolve}
use crypto_rust_tools.Apdu.{
  cla, ins_select, ins_verify, ins_general_authenticate, ins_get_data, build_apdu_ext, connect,
  transmit, send,
}
use crypto_rust_tools.Account.{Account, Curve, ed25519, secp256k1, is_valid, all}
use crypto_rust_tools.Piv.Data.{
  slot_object_tag, build_general_authenticate_data, parse_signature_response, extract_certificate,
  extract_ed25519_from_cert, pin_padded,
}

abbrev pub aid : Bytes
aid = 0xa0 ∷ 0x00 ∷ 0x00 ∷ 0x03 ∷ 0x08 ∷ 0x00 ∷ 0x00 ∷ 0x10 ∷ 0x00 ∷ 0x01 ∷ 0x00 ∷ []

abbrev pub alg_ed25519 : ℕ
alg_ed25519 = 0xe0

abbrev pub p2_piv_pin : ℕ
p2_piv_pin = 0x80

pub record SlotInfo : Type 0 where
  pub slot : ℕ
  pub ed25519_pubkey : Option Bytes

abbrev ensure_curve : Curve → Result (Unit {0}) Error
ensure_curve ed25519 = ok tt
ensure_curve secp256k1 =
    err (unsupported (codes "PIV does not support secp256k1; use the OpenPGP applet"))

unfoldable pub ensure_ed25519 : Account → Result (Unit {0}) Error
ensure_ed25519 acc = ensure_curve acc.curve

-- The test of the slot that `get_pubkey` and `sign` begin with.
unfoldable pub ensure_slot : Account → Result (Unit {0}) Error
ensure_slot acc =
    if not (is_valid acc.slot)
    then err (unsupported (hex2_prefixed acc.slot ++ codes " is not a PIV signing slot"))
    else ok tt

module _ (P : Platform) where
  unfoldable pub select : M P (Unit {0})
  select = do send P cla ins_select 0x04 0x00 (some aid) none 512; lift (ok tt)

  unfoldable pub fetch_ed25519_pubkey : ℕ → M P Bytes
  fetch_ed25519_pubkey slot = do
    tag ← lift (slot_object_tag slot)
    let request = 0x5c ∷ 0x03 ∷ tag
    let cmd = build_apdu_ext cla ins_get_data 0x3f 0xff request (some 0)
    resp ← transmit P cmd 4096
    cert ← lift (extract_certificate resp)
    lift (extract_ed25519_from_cert cert)

  unfoldable pub get_pubkey : Account → M P Bytes
  get_pubkey acc = do
    lift (ensure_ed25519 acc)
    lift (ensure_slot acc)
    connect P
    select
    fetch_ed25519_pubkey acc.slot

  unfoldable pub sign : Account → Bytes → Option Text → M P Bytes
  sign acc message pin = do
    lift (ensure_ed25519 acc)
    lift (ensure_slot acc)
    connect P
    select
    pin_str ← resolve P pin (codes "Enter PIV PIN: ")
    padded ← lift (pin_padded pin_str)
    send P cla ins_verify 0x00 p2_piv_pin (some padded) none 512
    let ga = build_general_authenticate_data message
    let cmd = build_apdu_ext cla ins_general_authenticate alg_ed25519 acc.slot ga (some 0)
    resp ← transmit P cmd 4096
    lift (parse_signature_response resp)

  -- One entry of the listing: an error of the card leaves the slot without a key.
  abbrev pub slot_info : ℕ → Result Bytes Error × Session P → SlotInfo × Session P
  slot_info slot (r, s) = (record { slot = slot; ed25519_pubkey = to_option r }, s)

  -- The closure over the slots, in their order.
  unfoldable pub list_slots : List ℕ → Session P → List SlotInfo × Session P
  list_slots [] s = ([], s)
  list_slots (slot ∷ slots) s =
      let (info, t) = slot_info slot (fetch_ed25519_pubkey slot s) in
      let (infos, u) = list_slots slots t in (info ∷ infos, u)

  abbrev pub succeed : {A : Type 0} → A × Session P → Result A Error × Session P
  succeed (a, s) = (ok a, s)

  unfoldable pub list_accounts : M P (List SlotInfo)
  list_accounts = do connect P; select; λ s. succeed (list_slots all s)
