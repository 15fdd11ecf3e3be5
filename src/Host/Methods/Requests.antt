-- ===== src/Host/Methods/Requests.antt =====
-- yubiwallet-host/src/main.rs: a request to sign, on a chip with the PIV applet.
use crypto_rust_tools.Base.{inl, some}
use crypto_rust_tools.Base.{
  ◌-◌, ◌++◌, replicate, ◌+◌, ◌*◌, ◌≤◌, ◌≡◌, ◌≢◌, refl, true, [], ◌∷◌, Bytes, length, Result, ok,
  err,
}
use crypto_rust_tools.Text.{Text, codes, as_bytes, text_eq}
use crypto_rust_tools.External.{Crates}
use crypto_rust_tools.Error.{Error, to_string}
use crypto_rust_tools.Transport.{Platform, Session, and_then, lift, rewrap}
use crypto_rust_tools.Account.{Account, piv, ed25519, is_valid}
use crypto_rust_tools.Piv.Card.Applet.{Chip, Applet, HasApplet, IsSized, request}
use crypto_rust_tools.Piv.Card.Applet.Refine.{sign_refines}
use crypto_rust_tools.Piv.Card.Applet.Runs.{Yields}
use crypto_rust_tools.Wallet.{sign_dispatch, sign_with_pin}
use crypto_rust_tools.Host.Accounts.{Failure}
use crypto_rust_tools.Host.Methods.{
  Terminal, fail, card_err, read_pin, param_account, param_hex, sign_ed25519, dispatch,
}
use crypto_rust_tools.Host.Methods.Success.{sign_at_piv}

-- The reply to a signing request with that result.
abbrev pub reply : (C : Crates) → Result Bytes Error → Result C.json.Value Failure
reply C (ok sig) = ok (C.json.object ((codes "signature", C.json.string (C.hex.encode sig)) ∷ []))
reply C (err e) = err (fail (codes "CARD_ERROR") (to_string e))

module _ {P : Platform} {a : Applet} (A : HasApplet P a) (C : Crates) (T : Terminal P) where
  replying :
      (d : Chip) (x : Result Bytes Error) (r : Result Bytes Error × Session P)
      → Yields A d x r
      → Yields A d (reply C x) (
          and_then (rewrap card_err r) λ sig.
            lift (ok (C.json.object ((codes "signature", C.json.string (C.hex.encode sig)) ∷ []))))
  unfolding card_err
  replying d (ok sig) r h =
      rw h.result (record { after = h.after; result = refl; at_end = h.at_end })
  replying d (err e) r h =
      rw h.result (record { after = h.after; result = refl; at_end = h.at_end })

  -- With a request to sign that names an Ed25519 account on a signing slot of the PIV applet, a
  -- message of at most 65000 bytes in hexadecimal form, a source for a PIN of six to eight bytes,
  -- readers whose names fit in 2048 bytes, and a chip with the applet that has at most 16 tries left,
  -- whose answer to SELECT fits in 512 bytes, whose signature for the slot, if there is one, has 64
  -- bytes, and whose status word for a missing key is not 90 00: the reply is the signature in hexadecimal form,
  -- or CARD_ERROR with the text of the error for the lack of a key, for a wrong PIN with the number
  -- of tries left, or for a blocked PIN, as the request on the chip says, and the chip is left in the
  -- state that the request leaves.
  pub dispatch_refines :
      (version : Text) (params : C.json.Value) (acc : Account) (message : Bytes) (pin : Text)
      (c : Chip) (s t : Session P)
      → param_account C params ≡ ok acc
      → acc.applet ≡ piv
      → acc.curve ≡ ed25519
      → is_valid acc.slot ≡ true
      → param_hex C params (codes "message") ≡ ok message
      → read_pin P T s ≡ (ok pin, t)
      → 6 ≤ length (as_bytes pin)
      → length (as_bytes pin) ≤ 8
      → length message ≤ 65000
      → A.readers_size ≤ 2048
      → length a.info + 2 ≤ 512
      → c.tries ≤ 16
      → IsSized (a.signature acc.slot message)
      → a.missing1 * 256 + a.missing2 ≢ 0x9000
      → A.At c t.device
      → let (x, d) =
          request a c.tries
            (as_bytes pin ++ replicate (8 - length (as_bytes pin)) 0xff)
            acc.slot
            message in
        Yields A d (reply C x) (dispatch C P T version (codes "sign_ed25519") params s)
  unfolding dispatch sign_ed25519 sign_with_pin sign_dispatch text_eq codes
  dispatch_refines version params acc message pin c s t q p e v m r l k z o g b w f h =
      let y = sign_refines A acc message (some pin) pin c t e v (inl refl) l k z o g b w f h in
      rw (q, m, r, sign_at_piv P acc.applet acc message pin t p) (replying _ _ _ y)
