-- ===== src/Piv/Card/Attempts.antt =====
-- yubiwallet/src/piv.rs: how many PINs an operation presents.
use crypto_rust_tools.Base.{ℕ, refl, arith, List, [], ◌∷◌, Bytes, Option}
use crypto_rust_tools.Text.{Text}
use crypto_rust_tools.Transport.{Platform, Session}
use crypto_rust_tools.Transport.Attempts.{
  Meter, AtMost, AtMost-pure, AtMost-bind, AtMost-lift, resolve-AtMost,
}
use crypto_rust_tools.Apdu.{build_apdu_ext}
use crypto_rust_tools.Apdu.Attempts.{connect-AtMost, transmit-AtMost, send-AtMost}
use crypto_rust_tools.Account.{Account, all}
use crypto_rust_tools.Piv.Data.{slot_object_tag, extract_certificate, pin_padded}
use crypto_rust_tools.Piv.Card.{
  ensure_ed25519, ensure_slot, select, fetch_ed25519_pubkey, get_pubkey, sign, list_slots,
  list_accounts,
}

module _ {P : Platform} (M : Meter P) where
  select-AtMost : (s : Session P) → AtMost M 0 s (select P s)
  unfolding select
  select-AtMost s = AtMost-bind 0 0 s _ _ (send-AtMost M _ _ _ _ _ _ 512 s) λ _ t. AtMost-pure 0 t _

  fetch_ed25519_pubkey-AtMost :
      (slot : ℕ) (s : Session P) → AtMost M 0 s (fetch_ed25519_pubkey P slot s)
  unfolding fetch_ed25519_pubkey build_apdu_ext
  fetch_ed25519_pubkey-AtMost slot s = AtMost-lift 0 s (slot_object_tag slot) _ λ tag.
      AtMost-bind 0 0 s _ _ (transmit-AtMost M 0 _ 4096 s refl)
        λ resp t. AtMost-lift 0 t (extract_certificate resp) _ λ cert. AtMost-pure 0 t _

  pub get_pubkey-AtMost : (acc : Account) (s : Session P) → AtMost M 0 s (get_pubkey P acc s)
  unfolding get_pubkey
  get_pubkey-AtMost acc s = AtMost-lift 0 s (ensure_ed25519 acc) _ λ _.
      AtMost-lift 0 s (ensure_slot acc) _ λ _.
        AtMost-bind 0 0 s _ _ (connect-AtMost M s) λ _ t.
          AtMost-bind 0 0 t _ _ (select-AtMost t) λ _ u. fetch_ed25519_pubkey-AtMost acc.slot u

  pub sign-AtMost :
      (acc : Account) (message : Bytes) (pin : Option Text) (s : Session P)
      → AtMost M 1 s (sign P acc message pin s)
  unfolding sign build_apdu_ext
  sign-AtMost acc message pin s = AtMost-lift 1 s (ensure_ed25519 acc) _ λ _.
      AtMost-lift 1 s (ensure_slot acc) _ λ _. AtMost-bind 0 1 s _ _ (connect-AtMost M s) λ _ t.
        AtMost-bind 0 1 t _ _ (select-AtMost t) λ _ u.
          AtMost-bind 0 1 u _ _ (resolve-AtMost pin _ u) λ pin_str v.
            AtMost-lift 1 v (pin_padded pin_str) _ λ padded.
              AtMost-bind 1 0 v _ _ (send-AtMost M _ _ _ _ _ _ 512 v) λ _ w.
                AtMost-bind 0 0 w _ _ (transmit-AtMost M 0 _ 4096 w refl)
                  λ resp x. AtMost-pure 0 x _

  list_slots-AtMost : (slots : List ℕ) (s : Session P) → AtMost M 0 s (list_slots P slots s)
  unfolding list_slots
  list_slots-AtMost [] s = AtMost-pure 0 s []
  list_slots-AtMost (slot ∷ slots) s =
      let h = fetch_ed25519_pubkey-AtMost slot s in
      let k = list_slots-AtMost slots (fetch_ed25519_pubkey P slot s).1 in
      record { bounded = omega (arith, h.bounded, k.bounded) }

  pub list_accounts-AtMost : (s : Session P) → AtMost M 0 s (list_accounts P s)
  unfolding list_accounts
  list_accounts-AtMost s = AtMost-bind 0 0 s _ _ (connect-AtMost M s) λ _ t.
      AtMost-bind 0 0 t _ _ (select-AtMost t)
        λ _ u. record { bounded = (list_slots-AtMost all u).bounded }
