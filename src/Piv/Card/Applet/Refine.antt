-- ===== src/Piv/Card/Applet/Refine.antt =====
-- yubiwallet/src/piv.rs, `sign`: on a chip with the PIV applet it is one signing request.
use crypto_rust_tools.Base.{==_ne, Option}
use crypto_rust_tools.Base.{
  ℕ, zero, suc, ◌+◌, ◌-◌, ◌*◌, ◌%◌, ◌≤◌, ◌<◌, ◌≡◌, ◌≢◌, arith, true, false, inl, inr, Option-cases,
  none, some, [], ◌++◌, Bytes, length, replicate, bytes_eq, bytes_eq_sound, bytes_eq_refl,
  Bool-cases, ok, err,
}
use crypto_rust_tools.Text.{Text, codes, decimal, as_bytes}
use crypto_rust_tools.Error.{Error, card, status_word_message}
use crypto_rust_tools.Transport.{Platform, Session, and_then, lift}
use crypto_rust_tools.Apdu.{transmit, send}
use crypto_rust_tools.Account.{Account, ed25519, is_valid}
use crypto_rust_tools.Piv.Data.{pin_padded, parse_signature_response}
use crypto_rust_tools.Piv.Data.Pins.{length-padded}
use crypto_rust_tools.Piv.Data.Templates.{parse_signature_response-tlv}
use crypto_rust_tools.Piv.Card.{sign}
use crypto_rust_tools.Piv.Card.Conduct.{sign_command, build_apdu-verify, ensure_ed25519-eq-ok}
use crypto_rust_tools.Piv.Card.Success.{ensure_slot-eq-ok}
use crypto_rust_tools.Piv.Card.Chip.{
  verify_apdu, sign_command-authenticate_apdu, response_template-tlv, length-response_template,
}
use crypto_rust_tools.Piv.Card.Applet.{
  fresh, selected, verified, Chip, chip, Applet, Answers, verifies, refuses, blocks, signs, lacks,
  HasApplet, IsSized, signed, request,
}
use crypto_rust_tools.Piv.Card.Applet.Runs.{
  IsEntered, Yields-resolve, checked, Yields, Yields-pure, Yields-bind, Yields-bind_err,
  Yields-connect, Yields-transmit, Yields-select,
}

abbrev refused : ℕ → Error
refused n = card (0x63c0 + n) (codes "PIN verification failed. Retries left: " ++ decimal n)

checked-refused : (n : ℕ) → n < 16 → checked [] (0x63 * 256 + (0xc0 + n)) ≡ err (refused n)
unfolding status_word_message
checked-refused n h =
    let low : (0x63 * 256 + (0xc0 + n)) % 16 ≡ n = omega arith in
    let whole : 0x63 * 256 + (0xc0 + n) ≡ 0x63c0 + n = omega arith in ground (arith, low)

bytes_eq-ne : {xs ys : Bytes} → bytes_eq xs ys ≡ false → xs ≢ ys
bytes_eq-ne {xs} {ys} h e = cc (rw e at h, bytes_eq_refl ys)

pin_padded_fits :
    (pin : Text)
    → length (as_bytes pin) ≤ 8
    → pin_padded pin ≡ ok (as_bytes pin ++ replicate (8 - length (as_bytes pin)) 0xff)
unfolding pin_padded
pin_padded_fits pin h = ground arith

module _ {P : Platform} {a : Applet} (A : HasApplet P a) where
  Yields-verify :
      {c d : Chip} {padded : Bytes} {sw1 sw2 : ℕ} (s : Session P)
      → length padded ≡ 8
      → A.At c s.device
      → Answers a c (verify_apdu padded) [] sw1 sw2 d
      → Yields A d
          (checked [] (sw1 * 256 + sw2))
          (send P 0x00 0x20 0x00 0x80 (some padded) none 512 s)
  unfolding send
  Yields-verify {padded = padded} s l h st =
      rw (build_apdu-verify padded l) (Yields-transmit A 512 s (omega arith) h st)

  -- GENERAL AUTHENTICATE behind a verified PIN.
  authenticating :
      (n slot : ℕ) (message : Bytes) (s : Session P)
      → length message ≤ 65000
      → IsSized (a.signature slot message)
      → a.missing1 * 256 + a.missing2 ≢ 0x9000
      → A.At (chip verified n) s.device
      → let (x, d) = signed a n slot (a.signature slot message) in
        Yields A d x (
          and_then
            (transmit P (sign_command slot message) 4096 s)
            λ resp. lift (parse_signature_response resp))
  authenticating n slot message s z w m h =
      let same = sign_command-authenticate_apdu slot message z in
      elim (Option-cases (a.signature slot message)) [
        | inl k ↦
            rw (same, k)
              (Yields-bind_err A (chip verified n) _ _ _ (
                rw (==_ne m) at
                  (Yields-transmit A 4096 s (omega arith) h (lacks n slot message z k))))
        | inr (sig, k) ↦
            let l : length sig ≡ 64 = rw k at w in
            rw (same, k)
              (Yields-bind A (chip (a.after slot) n) (chip (a.after slot) n) _ (ok sig) _ _
                (Yields-transmit A 4096 s (omega (arith, l, length-response_template sig)) h
                  (signs n slot message sig z k))
                λ t i.
                  rw
                    (
                      ← response_template-tlv sig (omega (arith, l)),
                      parse_signature_response-tlv sig (omega (arith, l)),
                    )
                    (Yields-pure A (chip (a.after slot) n) (ok sig) t i))
      ]

  Yields-verify_right :
      (n : ℕ) {padded : Bytes} (s : Session P)
      → length padded ≡ 8
      → padded ≡ a.pin
      → A.At (chip selected (suc n)) s.device
      → Yields A
          (chip verified a.limit)
          (ok [])
          (send P 0x00 0x20 0x00 0x80 (some padded) none 512 s)
  Yields-verify_right n s l e h = rw e (Yields-verify s (rw e at l) h (verifies n))

  Yields-verify_wrong :
      (n : ℕ) (bytes : Bytes) (s : Session P)
      → n < 16
      → 6 ≤ length bytes
      → length bytes ≤ 8
      → bytes ++ replicate (8 - length bytes) 0xff ≢ a.pin
      → A.At (chip selected (suc n)) s.device
      → Yields A (chip selected n) (err (refused n)) (
          send P 0x00 0x20 0x00 0x80 (some (bytes ++ replicate (8 - length bytes) 0xff)) none 512 s)
  Yields-verify_wrong n bytes s b l u e h =
      rw (checked-refused n b) at
        (Yields-verify s (length-padded bytes u) h (refuses n bytes b l u e))

  -- VERIFY, and what follows it only if the PIN is right.
  verifying :
      (n slot : ℕ) (message bytes : Bytes) (s : Session P)
      → length message ≤ 65000
      → n ≤ 16
      → 6 ≤ length bytes
      → length bytes ≤ 8
      → IsSized (a.signature slot message)
      → a.missing1 * 256 + a.missing2 ≢ 0x9000
      → A.At (chip selected n) s.device
      → let (x, d) = request a n (bytes ++ replicate (8 - length bytes) 0xff) slot message in
        Yields A d x (
          and_then
            (send P 0x00 0x20 0x00 0x80
              (some (bytes ++ replicate (8 - length bytes) 0xff))
              none
              512
              s)
            λ _ t.
              and_then
                (transmit P (sign_command slot message) 4096 t)
                λ resp. lift (parse_signature_response resp))
  unfolding status_word_message
  verifying zero slot message bytes s z b l u w m h =
      Yields-bind_err A (chip selected 0) _ _ _
        (Yields-verify s (length-padded bytes u) h (blocks _ (length-padded bytes u)))
  verifying (suc n) slot message bytes s z b l u w m h =
      elim (Bool-cases (bytes_eq (bytes ++ replicate (8 - length bytes) 0xff) a.pin)) [
        | inl k ↦ rw k (
            Yields-bind A (chip verified a.limit) _ [] _ _ _
              (Yields-verify_right n s (length-padded bytes u) (bytes_eq_sound _ _ k) h)
              λ t i. authenticating a.limit slot message t z w m i)
        | inr k ↦ rw k (
            Yields-bind_err A (chip selected n) _ _ _
              (Yields-verify_wrong n bytes s (omega arith) l u (bytes_eq-ne k) h))
      ]

  -- With an Ed25519 account on a signing slot, a message of at most 65000 bytes, a PIN of six to
  -- eight bytes that is given or typed at the prompt, readers whose names fit in 2048 bytes, and a
  -- chip with the applet that has at most 16 tries left, whose answer to SELECT fits in 512 bytes,
  -- whose signature for the slot, if there is one, has 64 bytes, and whose status word for a missing
  -- key is not 90 00: `sign`
  -- has the result of the request on the chip, which is the signature, or the error for the lack of a
  -- key, for a wrong PIN with the number of tries left, or for a blocked PIN, and leaves the chip in
  -- the state that the request leaves.
  pub sign_refines :
      (acc : Account) (message : Bytes) (pin : Option Text) (p : Text) (c : Chip) (s : Session P)
      → acc.curve ≡ ed25519
      → is_valid acc.slot ≡ true
      → IsEntered A pin p
      → 6 ≤ length (as_bytes p)
      → length (as_bytes p) ≤ 8
      → length message ≤ 65000
      → A.readers_size ≤ 2048
      → length a.info + 2 ≤ 512
      → c.tries ≤ 16
      → IsSized (a.signature acc.slot message)
      → a.missing1 * 256 + a.missing2 ≢ 0x9000
      → A.At c s.device
      → let (x, d) =
          request a c.tries
            (as_bytes p ++ replicate (8 - length (as_bytes p)) 0xff)
            acc.slot
            message in
        Yields A d x (sign P acc message pin s)
  unfolding sign
  sign_refines acc message pin p c s e v i l q z o f b w m h =
      rw (ensure_ed25519-eq-ok acc e, ensure_slot-eq-ok acc v)
        (Yields-bind A (chip fresh c.tries) _ tt _ _ _ (Yields-connect A c s o h) λ t j.
          Yields-bind A (chip selected c.tries) _ tt _ _ _ (Yields-select A c.tries t f j) λ u k.
            Yields-bind A (chip selected c.tries) _ p _ _ _
              (Yields-resolve A (chip selected c.tries) pin p _ u i k)
              λ x g.
                rw (pin_padded_fits p q)
                  (verifying c.tries acc.slot message (as_bytes p) x z b l q w m g))
