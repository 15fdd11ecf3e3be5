-- ===== src/Host/Methods/Success.antt =====
-- yubiwallet-host/src/main.rs: a request to sign, with a card that accepts the commands.
use crypto_rust_tools.Base.{◌+◌, ◌≤◌, arith, ◌≡◌, refl, true, some, [], ◌∷◌, Bytes, length, ok}
use crypto_rust_tools.Text.{Text, codes, text_eq}
use crypto_rust_tools.External.{Crates}
use crypto_rust_tools.Transport.{Platform, Session}
use crypto_rust_tools.Account.{Applet, Account, piv, ed25519, is_valid}
use crypto_rust_tools.Apdu.Service.{Card, Serves}
use crypto_rust_tools.Piv
use crypto_rust_tools.Piv.Data.{pin_padded}
use crypto_rust_tools.Piv.Card.Chip.{
  select_apdu, verify_apdu, authenticate_apdu, response_template, sign_command-authenticate_apdu,
  response_template-tlv,
}
use crypto_rust_tools.Piv.Card.Success.{sign-Reaches}
use crypto_rust_tools.Wallet.{sign_at, sign_dispatch, sign_with_pin}
use crypto_rust_tools.Host.Methods.{
  Terminal, read_pin, param_account, param_hex, sign_ed25519, dispatch,
}

pub sign_at_piv :
    (P : Platform) (applet : Applet) (acc : Account) (message : Bytes) (pin : Text) (s : Session P)
    → applet ≡ piv
    → sign_at P applet acc message (some pin) s ≡ Piv.Card.sign P acc message (some pin) s
unfolding sign_at
sign_at_piv P applet acc message pin s e = rw e refl

module _ {P : Platform} {card : Card} (S : Serves P card) (C : Crates) (T : Terminal P) where
  -- A request to sign with an Ed25519 account on a signing slot of the PIV applet, with a message in
  -- hexadecimal form of at most 65000 bytes, a source for a PIN that can be padded, readers whose names
  -- fit in 2048 bytes, a signature of at most 4000 bytes, and answers to SELECT and VERIFY that fit in
  -- 512 bytes with their status words: if there is a reader and the card
  -- accepts SELECT, then VERIFY of this PIN, then GENERAL AUTHENTICATE over the message, which it
  -- answers with a signature in its template, the reply has this signature in hexadecimal form.
  pub dispatch_signs :
      (version : Text) (params : C.json.Value) (acc : Account) (message : Bytes) (pin : Text)
      (sig : Bytes) (s t : Session P) {padded info verified : Bytes}
      → param_account C params ≡ ok acc
      → acc.applet ≡ piv
      → acc.curve ≡ ed25519
      → is_valid acc.slot ≡ true
      → param_hex C params (codes "message") ≡ ok message
      → read_pin P T s ≡ (ok pin, t)
      → pin_padded pin ≡ ok padded
      → length message ≤ 65000
      → length sig ≤ 4000
      → S.readers_size ≤ 2048
      → length info + 2 ≤ 512
      → length verified + 2 ≤ 512
      → card [] select_apdu ≡ some info
      → card (select_apdu ∷ []) (verify_apdu padded) ≡ some verified
      → card (select_apdu ∷ verify_apdu padded ∷ []) (authenticate_apdu acc.slot message)
        ≡ some (response_template sig)
      → (u : Session P) × (dispatch C P T version (codes "sign_ed25519") params s
          ≡ (ok (C.json.object ((codes "signature", C.json.string (C.hex.encode sig)) ∷ [])), u))
  unfolding dispatch sign_ed25519 sign_with_pin sign_dispatch text_eq codes
  dispatch_signs version params acc message pin sig s t a p c v m r d n l z1 z2 z3 c1 c2 c3 =
      let same = sign_command-authenticate_apdu acc.slot message n in
      let answer = response_template-tlv sig (omega (arith, l)) in
      let h = sign-Reaches S acc message pin sig t c v d l z1 z2 z3 c1 c2 (rw (same, answer) c3) in
      (h.after, rw (a, m, r, sign_at_piv P acc.applet acc message pin t p, h.result) refl)
