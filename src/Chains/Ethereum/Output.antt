-- ===== src/Chains/Ethereum/Output.antt =====
-- yubiwallet/examples/ethereum.rs: what a run that ends well has signed and sent.
use crypto_rust_tools.Base.{
  ◌≡◌, refl, sym, ◌∙◌, ap, arith, ◌⊎◌, Bool, false, true, List, [], ◌∷◌, ◌++◌, append_assoc, Bytes,
  length, Result, ok, err, map_err, map_err-eq-ok,
}
use crypto_rust_tools.Text.{Text, codes}
use crypto_rust_tools.Error.{to_string}
use crypto_rust_tools.External.{Hex, Keccak, K256}
use crypto_rust_tools.Transport.{Platform}
use crypto_rust_tools.Account.{Account}
use crypto_rust_tools.Eth.{EthSignature, ethereum_signature}
use crypto_rust_tools.Eth.Recovery.{Recovered, ethereum_signature_from}
use crypto_rust_tools.Wallet
use crypto_rust_tools.Cli.Console.{Screen, Run, and_next, pure}
use crypto_rust_tools.Chains.Ethereum.{
  Alloy, TxLegacy, sepolia, as_rs, parity_of, sent_line, sign_and_send,
}
use crypto_rust_tools.Chains.Ethereum.Parity.{parity_of-Recovered}

-- Inversion of a step of the program itself.
pure-eq-ok :
    {P : Platform} {A B : Type 0} (r : Result A Text) (f : A → Run P B) (s : Screen P) {b : B}
    {t : Screen P}
    → and_next (pure r s) f ≡ (ok b, t)
    → (a : A) × (r ≡ ok a) × (f a s ≡ (ok b, t))
pure-eq-ok (ok a) f s h = (a, refl, h)
pure-eq-ok (err e) f s h = absurd (cc (ap (λ p. p.0) h))

as_rs-eq-ok : (b rs : Bytes) → as_rs b ≡ ok rs → (b ≡ rs) × (length rs ≡ 64)
unfolding as_rs
as_rs-eq-ok b rs h = ground (arith, h)

pair_eq : {A B : Type 0} (w : A × B) {a : A} {b : B} → w.0 ≡ a → w.1 ≡ b → w ≡ (a, b)
pair_eq w h k = cc

three_lines :
    (ls : List Text) (a b c : Text)
    → ((ls ++ (a ∷ [])) ++ (b ∷ [])) ++ (c ∷ []) ≡ ls ++ (a ∷ b ∷ c ∷ [])
three_lines ls a b c =
    rw (append_assoc (ls ++ (a ∷ [])) (b ∷ []) (c ∷ []), append_assoc ls (a ∷ []) (b ∷ c ∷ []))

module _ (H : Hex) (keccak : Keccak) (K : K256) (A : Alloy) (P : Platform) where
  -- The transaction that is sent carries a signature that the card has made of its signature hash,
  -- with the parity with which the key is recovered from it.
  pub record IsSent (url : A.Url) (account : Account) (pubkey : Bytes) (tx : TxLegacy)
      (s t : Screen P) : Type 0 where
    pub rs : Bytes
    pub signed : EthSignature
    pub parity : Bool
    pub by_card : Wallet.sign P account (A.signature_hash tx) s.session ≡ (ok rs, t.session)
    pub size : length rs ≡ 64
    pub made : Recovered K pubkey (A.signature_hash tx) rs 11155111 signed
    pub parity_is : ((made.rid ≡ 0) × (parity ≡ false)) ⊎ ((made.rid ≡ 1) × (parity ≡ true))
    pub printed :
        t.lines
        ≡ s.lines
          ++ ((codes "Signing tx hash "
                ++ (H.encode (A.signature_hash tx) ++ codes " on YubiKey..."))
              ∷ (codes "Signed raw tx: 0x" ++ H.encode (A.encoded_2718 tx signed.r signed.s parity))
              ∷ sent_line (A.send_raw_transaction url (A.encoded_2718 tx signed.r signed.s parity))
              ∷ [])

  -- If steps 4 and 5 end well, the raw transaction that is printed and handed to the node is the
  -- encoding of the transaction with a signature of 64 bytes that the card has made of its signature
  -- hash, normalized, and with the parity that is the recovery id with which `k256` recovers the
  -- account's key from it, for the chain id of Sepolia.
  pub sign_and_send-IsSent :
      (url : A.Url) (account : Account) (pubkey : Bytes) (tx : TxLegacy) (s t : Screen P)
      → sign_and_send H keccak K A P url account pubkey tx s ≡ (ok tt, t)
      → IsSent url account pubkey tx s t
  unfolding sign_and_send
  sign_and_send-IsSent url account pubkey tx s t h =
      let (bytes, e1, h1) =
        pure-eq-ok (map_err to_string (Wallet.sign P account (A.signature_hash tx) s.session).0) _ _
          h in
      let (rs, e2, h2) = pure-eq-ok (as_rs bytes) _ _ h1 in
      let (signed, e3, h3) =
        pure-eq-ok
          (map_err to_string (ethereum_signature K pubkey (A.signature_hash tx) rs sepolia)) _ _
          h2 in
      let (same, size) = as_rs-eq-ok bytes rs e2 in
      let made : ethereum_signature K pubkey (A.signature_hash tx) rs sepolia ≡ ok signed =
        map_err-eq-ok to_string _ e3 in
      let made_by = ethereum_signature_from K pubkey (A.signature_hash tx) rs sepolia signed made in
      record {
        rs = rs;
        signed = signed;
        parity = parity_of signed.v;
        by_card =
            pair_eq (Wallet.sign P account (A.signature_hash tx) s.session)
              (map_err-eq-ok to_string _ e1 ∙ ap ok same) (ap (λ p. p.1.session) h3);
        size = size;
        made = made_by;
        parity_is = parity_of-Recovered K pubkey (A.signature_hash tx) rs signed made_by;
        printed = sym (ap (λ p. p.1.lines) h3) ∙ three_lines s.lines _ _ _;
      }
