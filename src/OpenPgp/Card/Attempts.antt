-- ===== src/OpenPgp/Card/Attempts.antt =====
-- yubiwallet/src/openpgp.rs: how many PINs an operation presents.
use crypto_rust_tools.Base.{ℕ, refl, Bytes, Option, ◌==◌, Bool-cases, inl, inr}
use crypto_rust_tools.Text.{Text}
use crypto_rust_tools.External.{Hex}
use crypto_rust_tools.Transport.{Platform, Session}
use crypto_rust_tools.Transport.Attempts.{
  Meter, AtMost, AtMost-pure, AtMost-bind, AtMost-lift, resolve-AtMost,
}
use crypto_rust_tools.Apdu.Attempts.{connect-AtMost, transmit-AtMost, send-AtMost}
use crypto_rust_tools.Account.{Account, sig, aut}
use crypto_rust_tools.OpenPgp.Data.{crt_tag}
use crypto_rust_tools.OpenPgp.Card.{
  select, get_pubkey_raw_on, get_pubkey_raw, sign_sig, sign_aut, sign_slot, sign, get_pubkey,
  detect_account,
}

module _ {P : Platform} (M : Meter P) where
  select-AtMost : (s : Session P) → AtMost M 0 s (select P s)
  unfolding select
  select-AtMost s = AtMost-bind 0 0 s _ _ (send-AtMost M _ _ _ _ _ _ 512 s) λ _ t. AtMost-pure 0 t _

  get_pubkey_raw-AtMost : (slot : ℕ) (s : Session P) → AtMost M 0 s (get_pubkey_raw P slot s)
  unfolding get_pubkey_raw get_pubkey_raw_on
  get_pubkey_raw-AtMost slot s = AtMost-bind 0 0 s _ _ (connect-AtMost M s) λ _ t.
      AtMost-bind 0 0 t _ _ (select-AtMost t)
        λ _ u. AtMost-lift 0 u (crt_tag slot) _ λ crt. transmit-AtMost M 0 _ 512 u refl

  pub get_pubkey-AtMost :
      (H : Hex) (acc : Account) (s : Session P) → AtMost M 0 s (get_pubkey H P acc s)
  unfolding get_pubkey
  get_pubkey-AtMost H acc s =
      AtMost-bind 0 0 s _ _ (get_pubkey_raw-AtMost acc.slot s) λ raw t. AtMost-pure 0 t _

  pub detect_account-AtMost :
      (H : Hex) (slot : ℕ) (s : Session P) → AtMost M 0 s (detect_account H P slot s)
  unfolding detect_account
  detect_account-AtMost H slot s =
      AtMost-bind 0 0 s _ _ (get_pubkey_raw-AtMost slot s) λ raw t. AtMost-pure 0 t _

  sign_sig-AtMost :
      (message : Bytes) (pin : Option Text) (s : Session P)
      → AtMost M 1 s (sign_sig P message pin s)
  unfolding sign_sig
  sign_sig-AtMost message pin s = AtMost-bind 0 1 s _ _ (resolve-AtMost pin _ s) λ user_pin t.
      AtMost-bind 1 0 t _ _ (send-AtMost M _ _ _ _ _ _ 512 t) λ _ u. send-AtMost M _ _ _ _ _ _ 512 u

  sign_aut-AtMost :
      (message : Bytes) (pin : Option Text) (s : Session P)
      → AtMost M 1 s (sign_aut P message pin s)
  unfolding sign_aut
  sign_aut-AtMost message pin s = AtMost-bind 0 1 s _ _ (resolve-AtMost pin _ s) λ user_pin t.
      AtMost-bind 1 0 t _ _ (send-AtMost M _ _ _ _ _ _ 512 t) λ _ u. send-AtMost M _ _ _ _ _ _ 512 u

  sign_slot-AtMost :
      (slot : ℕ) (message : Bytes) (pin : Option Text) (s : Session P)
      → AtMost M 1 s (sign_slot P slot message pin s)
  unfolding sign_slot
  sign_slot-AtMost slot message pin s = elim (Bool-cases (slot == sig)) [
    | inl e ↦ rw e (sign_sig-AtMost message pin s)
    | inr e ↦ elim (Bool-cases (slot == aut)) [
      | inl f ↦ rw (e, f) (sign_aut-AtMost message pin s)
      | inr f ↦ rw (e, f) (AtMost-pure 1 s _)
    ]
  ]

  pub sign-AtMost :
      (acc : Account) (message : Bytes) (pin : Option Text) (s : Session P)
      → AtMost M 1 s (sign P acc message pin s)
  unfolding sign
  sign-AtMost acc message pin s =
      AtMost-bind 0 1 s _ _ (connect-AtMost M s) λ _ t.
        AtMost-bind 0 1 t _ _ (select-AtMost t) λ _ u. sign_slot-AtMost acc.slot message pin u
