-- ===== src/Chains/Sui/Output.antt =====
-- yubiwallet/examples/sui_sign.rs: what a run prints.
use crypto_rust_tools.Base.{
  ℕ, ◌≡◌, sym, ◌∙◌, ap, List, ◌∷◌, ◌++◌, Bytes, length, ok, Option, none, some, get_elem?,
  ok-injective,
}
use crypto_rust_tools.Text.{Text, codes, trim}
use crypto_rust_tools.External.{Hex, Base64}
use crypto_rust_tools.Transport.{Platform, Session}
use crypto_rust_tools.Wallet
use crypto_rust_tools.Wallet.KeySizes.{get_pubkey-IsKeyOf}
use crypto_rust_tools.Chains.Encoding.{arg}
use crypto_rust_tools.Chains.Steps.{unwrap_option-eq-ok, lift-eq-ok, unwrap-eq-ok, call-eq-ok}
use crypto_rust_tools.Account.{piv, ed25519, parse_slot}
use crypto_rust_tools.Chains.Sui.{
  account_at, Blake2b256, address, with_intent, serialized, with_key, sign_transaction, main,
}

module _ (H : Hex) (S : Base64) (blake : Blake2b256) (P : Platform) where
  -- The line of a run that ends well, by the second argument: it is the address of the key, or the
  -- signature that the card has made of the hash of the intent and the transaction, with the key.
  abbrev pub IsLine : Option Text → Bytes → ℕ → Session P → Session P → Text → Type 0
  IsLine none pk slot u t line = (line ≡ codes "0x" ++ H.encode (blake (0x00 ∷ pk))) × (u ≡ t)
  IsLine (some txb64) pk slot u t line =
      (tx : Bytes) × (sig : Bytes) × (S.decode (trim txb64) ≡ ok tx)
      × (Wallet.sign P (record { applet = piv; slot = slot; curve = ed25519 })
            (blake (0x00 ∷ 0x00 ∷ 0x00 ∷ tx)) u
          ≡ (ok sig, t))
      × (line ≡ S.encode (0x00 ∷ (sig ++ pk)))

  with_key-IsLine :
      (second : Option Text) (slot : ℕ) (pk : Bytes) (u t : Session P) (line : Text)
      → with_key H S blake P second slot pk u ≡ (ok line, t)
      → IsLine second pk slot u t line
  unfolding with_key sign_transaction address with_intent serialized
  with_key-IsLine none slot pk u t line h =
      (ok-injective _ _ (ap (λ p. p.0) (sym h)), ap (λ p. p.1) h)
  with_key-IsLine (some txb64) slot pk u t line h =
      let (tx, decoded, h1) = unwrap-eq-ok (S.decode (trim txb64)) _ u h in
      let (sig, v, signed, h2) =
        call-eq-ok (Wallet.sign P (account_at slot) (blake (with_intent tx))) _ u h1 in
      (
        tx,
        sig,
        decoded,
        signed ∙ ap (λ w. (ok sig, w)) (ap (λ p. p.1) h2),
        ok-injective _ _ (ap (λ p. p.0) (sym h2)),
      )

  -- A run that ends without a panic has read a PIV slot from its first argument and the Ed25519 key of
  -- this slot, of 32 bytes, from the card. Without a second argument it prints 0x and the hash of 00 and
  -- the key in hexadecimal form. With one, a transaction in base64, it prints in base64 00, a signature
  -- that the card has made with this slot of the hash of 00 00 00 and the transaction, and the key.
  pub main-IsLine :
      (args : List Text) (s t : Session P) (line : Text)
      → main H S blake P args s ≡ (ok line, t)
      → (slot_text : Text) × (slot : ℕ) × (pk : Bytes) × (u : Session P) × (get_elem? args 1
          ≡ some slot_text)
        × (parse_slot piv slot_text ≡ ok slot)
        × (length pk ≡ 32)
        × (Wallet.get_pubkey H P (record { applet = piv; slot = slot; curve = ed25519 }) s
            ≡ (ok pk, u))
        × IsLine (get_elem? args 2) pk slot u t line
  unfolding main
  main-IsLine args s t line h =
      let (slot_text, given, h1) = lift-eq-ok (arg args 1) _ s h in
      let (slot, parsed, h2) = unwrap-eq-ok (parse_slot piv slot_text) _ s h1 in
      let (pk, u, read, h3) = call-eq-ok (Wallet.get_pubkey H P (account_at slot)) _ s h2 in
      (
        slot_text,
        slot,
        pk,
        u,
        unwrap_option-eq-ok (get_elem? args 1) given,
        parsed,
        get_pubkey-IsKeyOf H P (account_at slot) s u read,
        read,
        with_key-IsLine (get_elem? args 2) slot pk u t line h3,
      )
