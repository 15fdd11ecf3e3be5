-- ===== src/Piv/Card/Conduct.antt =====
-- yubiwallet/src/piv.rs: the commands that the operations send, in their order, and what they
-- refuse before they send any.
use crypto_rust_tools.Base.{ℕ, ◌≡◌, ◌⊎◌, inl, inr, refl, arith, false, Option, none, some}
use crypto_rust_tools.Base.{List, [], ◌∷◌, ◌++◌, Bytes, length, ok, err}
use crypto_rust_tools.Text.{Text, codes, hex2_prefixed}
use crypto_rust_tools.Error.{Error, unsupported}
use crypto_rust_tools.Transport.{Platform, Session, M, and_then, lift, resolve}
use crypto_rust_tools.Apdu.{build_apdu, build_apdu_ext, connect, transmit, send}
use crypto_rust_tools.Apdu.Protocol.{
  Obeys, Obeys-bind, Obeys-lift, Obeys-lift_ok, Obeys-err, Obeys-connect, Obeys-send,
  Obeys-transmit,
}
use crypto_rust_tools.Account.{Account, Curve, ed25519, secp256k1, is_valid}
use crypto_rust_tools.Piv.Data.{
  slot_object_tag, build_general_authenticate_data, parse_signature_response, extract_certificate,
  extract_ed25519_from_cert, pin_padded,
}
use crypto_rust_tools.Piv.Data.Pins.{pin_padded_shape}
use crypto_rust_tools.Piv.Card.{
  aid, ensure_ed25519, ensure_slot, select, fetch_ed25519_pubkey, get_pubkey, sign,
}

-- SELECT of the PIV applet.
abbrev pub select_command : Bytes
select_command = 0x00 ∷ 0xa4 ∷ 0x04 ∷ 0x00 ∷ 11 ∷ aid

-- VERIFY of the application PIN, eight bytes.
abbrev pub verify_command : Bytes → Bytes
verify_command padded = 0x00 ∷ 0x20 ∷ 0x00 ∷ 0x80 ∷ 8 ∷ padded

-- GENERAL AUTHENTICATE with the Ed25519 key of the slot.
abbrev pub sign_command : ℕ → Bytes → Bytes
sign_command slot message =
    build_apdu_ext 0x00 0x87 0xe0 slot (build_general_authenticate_data message) (some 0)

-- GET DATA of a data object.
abbrev pub read_command : Bytes → Bytes
read_command tag = build_apdu_ext 0x00 0xcb 0x3f 0xff (0x5c ∷ 0x03 ∷ tag) (some 0)

pub build_apdu-verify :
    (padded : Bytes)
    → length padded ≡ 8
    → build_apdu 0x00 0x20 0x00 0x80 (some padded) none ≡ ok (verify_command padded)
unfolding build_apdu
build_apdu-verify padded h = ground arith

pub build_apdu-select : build_apdu 0x00 0xa4 0x04 0x00 (some aid) none ≡ ok select_command
unfolding build_apdu
build_apdu-select = refl

module _ (P : Platform) where
  Obeys-select : (s : Session P) → Obeys s (select_command ∷ []) (select P s)
  unfolding select
  Obeys-select s =
      Obeys-bind s (select_command ∷ []) [] _ _
        (Obeys-send 0x00 0xa4 0x04 0x00 (some aid) none 512 s select_command build_apdu-select)
        λ _ t. Obeys-lift_ok t tt

  -- Both tests, the connection and SELECT, which `get_pubkey` and `sign` begin with.
  opening :
      {A : Type 0} (acc : Account) (plan : List Bytes) (s : Session P) (k : M P A)
      → ((t : Session P) → Obeys t plan (k t))
      → Obeys s (select_command ∷ plan) (
          and_then (lift (ensure_ed25519 acc) s) λ _ t.
            and_then
              (lift (ensure_slot acc) t)
              λ _ u. and_then (connect P u) λ _ v. and_then (select P v) λ _. k)
  opening acc plan s k h =
      Obeys-bind s [] (select_command ∷ plan) _ _ (Obeys-lift s (ensure_ed25519 acc)) λ _ t.
        Obeys-bind t [] (select_command ∷ plan) _ _ (Obeys-lift t (ensure_slot acc)) λ _ u.
          Obeys-bind u [] (select_command ∷ plan) _ _ (Obeys-connect u)
            λ _ v. Obeys-bind v (select_command ∷ []) plan _ _ (Obeys-select v) λ _ w. h w

  -- What is sent once the PIN is padded.
  signing :
      (acc : Account) (message padded : Bytes) (s : Session P)
      → length padded ≡ 8
      → Obeys s (verify_command padded ∷ sign_command acc.slot message ∷ []) (
          and_then (send P 0x00 0x20 0x00 0x80 (some padded) none 512 s) λ _ t.
            and_then
              (transmit P (sign_command acc.slot message) 4096 t)
              λ resp. lift (parse_signature_response resp))
  signing acc message padded s h =
      Obeys-bind s (verify_command padded ∷ []) (sign_command acc.slot message ∷ []) _ _
        (Obeys-send 0x00 0x20 0x00 0x80 (some padded) none 512 s _ (build_apdu-verify padded h))
        λ _ t.
          Obeys-bind t (sign_command acc.slot message ∷ []) [] _ _
            (Obeys-transmit (sign_command acc.slot message) 4096 t)
            λ resp u. Obeys-lift u (parse_signature_response resp)

  -- With a PIN that can be padded, `sign` sends SELECT, VERIFY and GENERAL AUTHENTICATE in this
  -- order: each only if the card has accepted those before it, and all three, accepted, if it
  -- returns a signature.
  pub sign_conduct :
      (acc : Account) (message : Bytes) (pin : Text) (s : Session P) {padded : Bytes}
      → pin_padded pin ≡ ok padded
      → Obeys s
          (select_command ∷ verify_command padded ∷ sign_command acc.slot message ∷ [])
          (sign P acc message (some pin) s)
  unfolding sign resolve
  sign_conduct acc message pin s {padded} e =
      opening acc (verify_command padded ∷ sign_command acc.slot message ∷ []) s _
        λ t. rw e (signing acc message padded t (pin_padded_shape pin e).0)

  -- With a PIN that is too long nothing is sent but SELECT, and the result is an error.
  pub sign_conduct_bad_pin :
      (acc : Account) (message : Bytes) (pin : Text) (s : Session P) {e : Error}
      → pin_padded pin ≡ err e
      → Obeys s (select_command ∷ []) (sign P acc message (some pin) s)
  unfolding sign resolve
  sign_conduct_bad_pin acc message pin s {e} h = opening acc [] s _ λ t. rw h (Obeys-err t [] e)

  -- `get_pubkey` of a slot with a data object sends SELECT and GET DATA of that object.
  pub get_pubkey_conduct :
      (acc : Account) (s : Session P) {tag : Bytes}
      → slot_object_tag acc.slot ≡ ok tag
      → Obeys s (select_command ∷ read_command tag ∷ []) (get_pubkey P acc s)
  unfolding get_pubkey fetch_ed25519_pubkey
  get_pubkey_conduct acc s {tag} e = opening acc (read_command tag ∷ []) s _ λ t. rw e (
      Obeys-bind t (read_command tag ∷ []) [] _ _ (Obeys-transmit (read_command tag) 4096 t)
        λ resp u.
          Obeys-bind u [] [] _ _ (Obeys-lift u (extract_certificate resp))
            λ cert v. Obeys-lift v (extract_ed25519_from_cert cert))

abbrev wrong_curve : Text
wrong_curve = codes "PIV does not support secp256k1; use the OpenPGP applet"

Curve-cases : (c : Curve) → (c ≡ ed25519) ⊎ (c ≡ secp256k1)
Curve-cases ed25519 = inl refl
Curve-cases secp256k1 = inr refl

pub ensure_ed25519-eq-ok : (acc : Account) → acc.curve ≡ ed25519 → ensure_ed25519 acc ≡ ok tt
unfolding ensure_ed25519
ensure_ed25519-eq-ok acc h = rw h

ensure_ed25519-eq-err :
    (acc : Account) → acc.curve ≡ secp256k1 → ensure_ed25519 acc ≡ err (unsupported wrong_curve)
unfolding ensure_ed25519
ensure_ed25519-eq-err acc h = rw h

abbrev wrong_slot : Account → Text
wrong_slot acc = hex2_prefixed acc.slot ++ codes " is not a PIV signing slot"

ensure_slot-eq-err :
    (acc : Account)
    → is_valid acc.slot ≡ false
    → ensure_slot acc ≡ err (unsupported (wrong_slot acc))
unfolding ensure_slot
ensure_slot-eq-err acc h = rw h

module _ (P : Platform) (acc : Account) (message : Bytes) (pin : Option Text) (s : Session P) where
  refused_curve :
      acc.curve ≡ secp256k1
      → (sign P acc message pin s ≡ (err (unsupported wrong_curve), s))
        × (get_pubkey P acc s ≡ (err (unsupported wrong_curve), s))
  unfolding sign get_pubkey
  refused_curve h = (rw (ensure_ed25519-eq-err acc h), rw (ensure_ed25519-eq-err acc h))

  -- An account on the wrong curve or on no signing slot is refused as unsupported, by `sign` and
  -- by `get_pubkey`, before the card is contacted: the session is unchanged.
  pub refused_early :
      (acc.curve ≡ secp256k1) ⊎ (is_valid acc.slot ≡ false)
      → (m : Text) × (sign P acc message pin s ≡ (err (unsupported m), s))
        × (get_pubkey P acc s ≡ (err (unsupported m), s))
  unfolding sign get_pubkey
  refused_early (inl h) = let r = refused_curve h in (wrong_curve, r.0, r.1)
  refused_early (inr h) = elim (Curve-cases acc.curve) [
    | inr k ↦ let r = refused_curve k in (wrong_curve, r.0, r.1)
    | inl k ↦
        let a = ensure_ed25519-eq-ok acc k in
        let b = ensure_slot-eq-err acc h in (wrong_slot acc, rw (a, b), rw (a, b))
  ]
