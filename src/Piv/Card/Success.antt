-- ===== src/Piv/Card/Success.antt =====
-- yubiwallet/src/piv.rs: on a card that accepts the commands, the operations return what it has.
use crypto_rust_tools.Base.{◌+◌, ◌≤◌, arith, ◌≡◌, some, none, true, [], ◌∷◌, Bytes, length, ok}
use crypto_rust_tools.Text.{Text}
use crypto_rust_tools.Transport.{Platform, Session, resolve}
use crypto_rust_tools.Apdu.{connect}
use crypto_rust_tools.Apdu.Service.{
  Card, Serves, Reaches, Reaches-ok, Reaches-bind, Reaches-connect, Reaches-transmit, Reaches-send,
}
use crypto_rust_tools.Account.{Account, ed25519, is_valid}
use crypto_rust_tools.Piv.Tlv.Items.{tlv}
use crypto_rust_tools.Piv.Data.{tag_dynamic_auth, tag_response, pin_padded}
use crypto_rust_tools.Piv.Data.Pins.{pin_padded_shape}
use crypto_rust_tools.Piv.Data.Templates.{parse_signature_response-tlv, length-tlv-le}
use crypto_rust_tools.Piv.Card.{aid, ensure_slot, select, sign}
use crypto_rust_tools.Piv.Card.Conduct.{
  select_command, verify_command, sign_command, build_apdu-verify, build_apdu-select,
  ensure_ed25519-eq-ok,
}

pub ensure_slot-eq-ok : (acc : Account) → is_valid acc.slot ≡ true → ensure_slot acc ≡ ok tt
unfolding ensure_slot
ensure_slot-eq-ok acc h = rw h

length_answer :
    (sig : Bytes)
    → length sig ≤ 4000
    → length (tlv tag_dynamic_auth (tlv tag_response sig)) + 2 ≤ 4096
length_answer sig l =
    let a = length-tlv-le tag_response sig in
    let b = length-tlv-le tag_dynamic_auth (tlv tag_response sig) in omega (arith, l, a, b)

module _ {P : Platform} {card : Card} (S : Serves P card) where
  Reaches-select :
      (s : Session P) {info : Bytes}
      → length info + 2 ≤ 512
      → S.At [] s.device
      → card [] select_command ≡ some info
      → Reaches S (select_command ∷ []) tt (select P s)
  unfolding select
  Reaches-select s {info} z h k =
      Reaches-bind S (select_command ∷ []) (select_command ∷ []) info tt _ _
        (Reaches-send S [] 0x00 0xa4 0x04 0x00 (some aid) none 512 s select_command info
          build_apdu-select z h k)
        λ t g. Reaches-ok S (select_command ∷ []) tt t g

  -- With an Ed25519 account on a signing slot, a PIN that can be padded, and readers and answers that
  -- fit in the buffers: if the card accepts
  -- SELECT, then VERIFY, then GENERAL AUTHENTICATE, which it answers with a signature in its
  -- template, `sign` returns that signature.
  pub sign-Reaches :
      (acc : Account) (message : Bytes) (pin : Text) (sig : Bytes) (s : Session P)
      {padded info verified : Bytes}
      → acc.curve ≡ ed25519
      → is_valid acc.slot ≡ true
      → pin_padded pin ≡ ok padded
      → length sig ≤ 4000
      → S.readers_size ≤ 2048
      → length info + 2 ≤ 512
      → length verified + 2 ≤ 512
      → card [] select_command ≡ some info
      → card (select_command ∷ []) (verify_command padded) ≡ some verified
      → card (select_command ∷ verify_command padded ∷ []) (sign_command acc.slot message)
        ≡ some (tlv tag_dynamic_auth (tlv tag_response sig))
      → Reaches S
          (select_command ∷ verify_command padded ∷ sign_command acc.slot message ∷ [])
          sig
          (sign P acc message (some pin) s)
  unfolding sign resolve
  sign-Reaches acc message pin sig s {padded} {info} {verified} c v p l z1 z2 z3 c1 c2 c3 =
      let plan = select_command ∷ verify_command padded ∷ sign_command acc.slot message ∷ [] in
      rw (ensure_ed25519-eq-ok acc c, ensure_slot-eq-ok acc v)
        (Reaches-bind S [] plan tt sig (connect P s) _ (Reaches-connect S s z1) λ t h.
          Reaches-bind S (select_command ∷ []) plan tt sig (select P t) _ (Reaches-select t z2 h c1)
            λ u k. rw p (
              Reaches-bind S (select_command ∷ verify_command padded ∷ []) plan verified sig _ _
                (Reaches-send S (select_command ∷ []) 0x00 0x20 0x00 0x80 (some padded) none 512 u
                  (verify_command padded) verified
                  (build_apdu-verify padded (pin_padded_shape pin p).0) z3 k c2)
                λ w g.
                  Reaches-bind S plan plan (tlv tag_dynamic_auth (tlv tag_response sig)) sig _ _
                    (Reaches-transmit S (select_command ∷ verify_command padded ∷ [])
                      (sign_command acc.slot message) _ 4096 w (length_answer sig l) g c3)
                    λ x f.
                      rw (parse_signature_response-tlv sig (omega (arith, l)))
                        (Reaches-ok S plan sig x f)))
