-- ===== src/OpenPgp/Card/Conduct.antt =====
-- yubiwallet/src/openpgp.rs: the commands that the operations send, in their order.
use crypto_rust_tools.Base.{
  ◌⊎◌, inl, inr, ℕ, ◌≡◌, ◌≢◌, refl, Option, none, some, [], ◌∷◌, Bytes, Result, ok, List,
}
use crypto_rust_tools.Base.{==_ne}
use crypto_rust_tools.External.{Hex}
use crypto_rust_tools.Text.{Text, as_bytes}
use crypto_rust_tools.Error.{Error}
use crypto_rust_tools.Transport.{Platform, Session, M, and_then, resolve}
use crypto_rust_tools.Apdu.{build_apdu, connect}
use crypto_rust_tools.Apdu.Protocol.{
  Obeys, Obeys-bind, Obeys-lift, Obeys-lift_ok, Obeys-err, Obeys-connect, Obeys-send,
  Obeys-transmit,
}
use crypto_rust_tools.Account.{Account, sig, aut}
use crypto_rust_tools.OpenPgp.Data.{crt_tag, unsupported_slot, extract_pubkey, detect}
use crypto_rust_tools.OpenPgp.Card.{
  aid, get_public_key_command, select, get_pubkey_raw_on, get_pubkey_raw, sign_sig, sign_aut,
  sign_slot, sign, get_pubkey, detect_account,
}

-- SELECT of the OpenPGP applet.
abbrev pub select_command : Bytes
select_command = 0x00 ∷ 0xa4 ∷ 0x04 ∷ 0x00 ∷ 6 ∷ aid

-- VERIFY of the user PIN, in the mode that `p2` stands for.
abbrev pub verify_apdu : ℕ → Text → Result Bytes Error
verify_apdu p2 pin = build_apdu 0x00 0x20 0x00 p2 (some (as_bytes pin)) none

-- PSO: COMPUTE DIGITAL SIGNATURE, and INTERNAL AUTHENTICATE.
abbrev pub signature_apdu : Bytes → Result Bytes Error
signature_apdu message = build_apdu 0x00 0x2a 0x9e 0x9a (some message) (some 0x00)

abbrev pub authenticate_apdu : Bytes → Result Bytes Error
authenticate_apdu message = build_apdu 0x00 0x88 0x00 0x00 (some message) (some 0x00)

-- The slot is one of the two, and these are its VERIFY and its signing command.
abbrev pub IsPrepared : Account → Bytes → Text → Bytes → Bytes → Type 0
IsPrepared acc message pin verify command =
    ((acc.slot ≡ sig) × (verify_apdu 0x81 pin ≡ ok verify) × (signature_apdu message ≡ ok command))
    ⊎ ((acc.slot ≡ aut)
        × (verify_apdu 0x82 pin ≡ ok verify)
        × (authenticate_apdu message ≡ ok command))

pub build_apdu-select : build_apdu 0x00 0xa4 0x04 0x00 (some aid) none ≡ ok select_command
unfolding build_apdu
build_apdu-select = refl

module _ (P : Platform) where
  Obeys-select : (s : Session P) → Obeys s (select_command ∷ []) (select P s)
  unfolding select
  Obeys-select s =
      Obeys-bind s (select_command ∷ []) [] _ _
        (Obeys-send 0x00 0xa4 0x04 0x00 (some aid) none 512 s select_command build_apdu-select)
        λ _ t. Obeys-lift_ok t tt

  pub opening :
      {A : Type 0} (plan : List Bytes) (s : Session P) (k : M P A)
      → ((t : Session P) → Obeys t plan (k t))
      → Obeys s (select_command ∷ plan) (and_then (connect P s) λ _ t. and_then (select P t) λ _. k)
  opening plan s k h =
      Obeys-bind s [] (select_command ∷ plan) _ _ (Obeys-connect s)
        λ _ t. Obeys-bind t (select_command ∷ []) plan _ _ (Obeys-select t) λ _ u. h u

  module _ (acc : Account) (message : Bytes) (pin : Text) (s : Session P)
      {verify command : Bytes} where
    sign_conduct_sig :
        acc.slot ≡ sig
        → verify_apdu 0x81 pin ≡ ok verify
        → signature_apdu message ≡ ok command
        → Obeys s (select_command ∷ verify ∷ command ∷ []) (sign P acc message (some pin) s)
    unfolding sign sign_slot sign_sig resolve
    sign_conduct_sig slot v c = opening (verify ∷ command ∷ []) s _ λ t. rw slot (
        Obeys-bind t (verify ∷ []) (command ∷ []) _ _ (Obeys-send _ _ _ _ _ _ 512 t verify v)
          λ _ u. Obeys-send _ _ _ _ _ _ 512 u command c)

    sign_conduct_aut :
        acc.slot ≡ aut
        → verify_apdu 0x82 pin ≡ ok verify
        → authenticate_apdu message ≡ ok command
        → Obeys s (select_command ∷ verify ∷ command ∷ []) (sign P acc message (some pin) s)
    unfolding sign sign_slot sign_aut resolve
    sign_conduct_aut slot v c = opening (verify ∷ command ∷ []) s _ λ t. rw slot (
        Obeys-bind t (verify ∷ []) (command ∷ []) _ _ (Obeys-send _ _ _ _ _ _ 512 t verify v)
          λ _ u. Obeys-send _ _ _ _ _ _ 512 u command c)

    -- With the signature slot, or the authentication slot, `sign` sends SELECT, VERIFY in the mode
    -- 81 or 82, and PSO: COMPUTE DIGITAL SIGNATURE or INTERNAL AUTHENTICATE in this order, if the PIN
    -- and the message fit short commands: each only if the card has accepted those before it, and all
    -- three, accepted, if it returns a signature.
    pub sign-Obeys :
        IsPrepared acc message pin verify command
        → Obeys s (select_command ∷ verify ∷ command ∷ []) (sign P acc message (some pin) s)
    sign-Obeys (inl (slot, v, c)) = sign_conduct_sig slot v c
    sign-Obeys (inr (slot, v, c)) = sign_conduct_aut slot v c

  -- On any other slot `sign` sends SELECT at most, and no PIN.
  pub sign_conduct_other :
      (acc : Account) (message : Bytes) (pin : Option Text) (s : Session P)
      → acc.slot ≢ sig
      → acc.slot ≢ aut
      → Obeys s (select_command ∷ []) (sign P acc message pin s)
  unfolding sign sign_slot
  sign_conduct_other acc message pin s h k =
      opening [] s _ λ t. rw (==_ne h, ==_ne k) (Obeys-err t [] (unsupported_slot acc.slot))

  raw_conduct :
      (slot : ℕ) (s : Session P) (crt : ℕ)
      → crt_tag slot ≡ ok crt
      → Obeys s (select_command ∷ get_public_key_command crt ∷ []) (get_pubkey_raw P slot s)
  unfolding get_pubkey_raw get_pubkey_raw_on
  raw_conduct slot s crt e =
      opening (get_public_key_command crt ∷ []) s _
        λ t. rw e (Obeys-transmit (get_public_key_command crt) 512 t)

-- Reading the key of a slot with a tag, by `get_pubkey` or `detect_account`, sends SELECT and, once
-- the card has accepted it, GET PUBLIC KEY with that tag; both are accepted if a key is returned.
pub read_key_conduct :
    (H : Hex) (P : Platform) (acc : Account) (s : Session P) {crt : ℕ}
    → crt_tag acc.slot ≡ ok crt
    → Obeys s (select_command ∷ get_public_key_command crt ∷ []) (get_pubkey H P acc s)
      × Obeys s (select_command ∷ get_public_key_command crt ∷ []) (detect_account H P acc.slot s)
unfolding get_pubkey detect_account
read_key_conduct H P acc s {crt} e =
    let plan = select_command ∷ get_public_key_command crt ∷ [] in
    (
      Obeys-bind s plan [] _ _ (raw_conduct P acc.slot s crt e)
          λ raw t. Obeys-lift t (extract_pubkey H acc.curve raw),
      Obeys-bind s plan [] _ _ (raw_conduct P acc.slot s crt e)
          λ raw t. Obeys-lift t (detect H acc.slot raw),
    )
