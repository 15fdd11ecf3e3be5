-- ===== src/Chains/Bitcoin/Output.antt =====
-- yubiwallet/examples/btc_sign.rs: what a run prints.
use crypto_rust_tools.Base.{
  ℕ, ◌≤◌, ◌%◌, ◌≡◌, refl, sym, ◌∙◌, ap, arith, List, [], ◌∷◌, Bytes, length, get_or, slice, ltb,
  false, ◌==◌, if◌then◌else◌,
}
use crypto_rust_tools.Base.{ok, ok-injective, ◌++◌, take, drop, get_elem?, some, none, ◌⊎◌}
use mathlib.Core.List.{reverse}
use crypto_rust_tools.Eth.{low_s}
use crypto_rust_tools.Eth.Recovery.{low_s_form}
use crypto_rust_tools.Text.{Text}
use crypto_rust_tools.External.{Hex, K256}
use crypto_rust_tools.Transport.{Platform, Session}
use crypto_rust_tools.Account.{open_pgp, secp256k1, parse_slot}
use crypto_rust_tools.Wallet
use crypto_rust_tools.Wallet.KeySizes.{get_pubkey-IsKeyOf}
use crypto_rust_tools.Chains.Encoding.{le_bytes, arg}
use crypto_rust_tools.Chains.Steps.{unwrap_option-eq-ok, lift-eq-ok, unwrap-eq-ok, call-eq-ok}
use crypto_rust_tools.Chains.Bitcoin.{
  Hashes, sha256d, hash160, compress, Spend, outpoint, script_code, outputs, preimage, raw_tx,
  witness_signature, read_spend,
}
use crypto_rust_tools.Chains.Bitcoin.Arguments.{Names, read_spend-Names}
use crypto_rust_tools.Chains.Bitcoin.Program.{account_at, sign_spend, with_key, main}

-- SHA-256 twice.
abbrev pub twice : Hashes → Bytes → Bytes
twice F d = F.sha256_of (F.sha256_of d)

-- What is hashed for the signature (BIP 143), for a key: version 2, the hash of the outpoint, the hash
-- of the sequence, the outpoint, the script of the key, the amount, the sequence, the hash of the
-- outputs, the lock time 0 and SIGHASH_ALL.
abbrev pub signing_bytes : Hashes → Bytes → Bytes → ℕ → ℕ → Bytes → ℕ → Bytes
signing_bytes F cpk txid vout in_sat dest_spk out_sat =
    (2 ∷ 0 ∷ 0 ∷ 0 ∷ [])
    ++ (twice F (reverse txid ++ le_bytes 4 vout)
        ++ (twice F (0xff ∷ 0xff ∷ 0xff ∷ 0xff ∷ [])
            ++ ((reverse txid ++ le_bytes 4 vout)
                ++ ((0x19
                      ∷ 0x76
                      ∷ 0xa9
                      ∷ 0x14
                      ∷ (F.ripemd160_of (F.sha256_of cpk) ++ (0x88 ∷ 0xac ∷ [])))
                    ++ (le_bytes 8 in_sat
                        ++ ((0xff ∷ 0xff ∷ 0xff ∷ 0xff ∷ [])
                            ++ (twice F (le_bytes 8 out_sat ++ ((length dest_spk % 256) ∷ dest_spk))
                                ++ ((0 ∷ 0 ∷ 0 ∷ 0 ∷ []) ++ (1 ∷ 0 ∷ 0 ∷ 0 ∷ [])))))))))

-- The point of 65 bytes in compressed form.
abbrev pub compressed : Bytes → Bytes
compressed pk = (if get_or pk 64 0 % 2 == 0 then 0x02 else 0x03) ∷ take 32 (drop 1 pk)

compress-compressed : (pk : Bytes) → length pk ≡ 65 → compress pk ≡ ok (compressed pk)
unfolding compress slice
compress-compressed pk h =
    let not_short : ltb (length pk) 65 ≡ false = ground arith in rw not_short refl

preimage-signing_bytes :
    (F : Hashes) (cpk : Bytes) (spend : Spend) (txid : Bytes)
    → spend.txid_le ≡ reverse txid
    → preimage F (hash160 F cpk) spend
      ≡ signing_bytes F cpk txid spend.vout spend.in_sat spend.dest_spk spend.out_sat
unfolding preimage hash160 sha256d outpoint outputs script_code le_bytes
preimage-signing_bytes F cpk spend txid e = rw (← e) refl

module _ (H : Hex) (K : K256) (F : Hashes) (P : Platform) where
  -- The line is a transaction over the spend of the command line, whose witness is the DER form of the
  -- normalized signature that the card has made, and SIGHASH_ALL, with the compressed key.
  pub record IsSigned (args : List Text) (slot : ℕ) (cpk : Bytes) (u t : Session P)
      (lines : List Text) : Type 0 where
    pub spend : Spend
    pub txid : Bytes
    pub rs : Bytes
    pub s : K.Signature
    pub low : K.Signature
    pub asked : Names H args spend txid
    pub signed :
        Wallet.sign P
          (record { applet = open_pgp; slot = slot; curve = secp256k1 })
          (twice F (signing_bytes F cpk txid spend.vout spend.in_sat spend.dest_spk spend.out_sat))
          u
        ≡ (ok rs, t)
    pub parsed : K.from_slice rs ≡ ok s
    pub low_form : (K.normalize_s s ≡ some low) ⊎ ((K.normalize_s s ≡ none) × (low ≡ s))
    pub printed : lines ≡ H.encode (raw_tx spend (K.to_der low ++ (0x01 ∷ [])) cpk) ∷ []

  with_key-IsSigned :
      (args : List Text) (slot : ℕ) (cpk : Bytes) (u t : Session P) (lines : List Text)
      → 3 ≤ length args
      → with_key H K F P args (account_at slot) cpk u ≡ (ok lines, t)
      → IsSigned args slot cpk u t lines
  unfolding with_key sign_spend witness_signature sha256d
  with_key-IsSigned args slot cpk u t lines n h =
      let not_short : ltb (length args) 3 ≡ false = ground arith in
      let (spend, asked, h1) = lift-eq-ok (read_spend H args) _ u (rw not_short at h) in
      let (rs, v, signed, h2) =
        call-eq-ok (Wallet.sign P (account_at slot) (twice F (preimage F (hash160 F cpk) spend))) _
          u h1 in
      let (s, parsed, h3) = unwrap-eq-ok (K.from_slice rs) _ v h2 in
      let (txid, named) = read_spend-Names H args spend asked in
      record {
        spend = spend;
        txid = txid;
        rs = rs;
        s = s;
        low = low_s K s;
        asked = named;
        signed =
            rw (preimage-signing_bytes F cpk spend txid named.reversed) at signed
            ∙ ap (λ w. (ok rs, w)) (ap (λ p. p.1) h3);
        parsed = parsed;
        low_form = low_s_form K s;
        printed = ok-injective _ _ (ap (λ p. p.0) (sym h3));
      }

  -- A run with three arguments or more that ends without a panic has read an OpenPGP slot from the
  -- first and the key of this slot, of 65 bytes, from the card. It prints one line: the raw transaction
  -- in hexadecimal form for the transaction id, the output, the amounts and the script that the
  -- arguments from the fourth on name, the id with its bytes reversed. Its witness is the DER form of a
  -- signature that the card has made with this slot of the double hash of the bytes of BIP 143,
  -- normalized, with SIGHASH_ALL, and the key in compressed form.
  pub main-IsSigned :
      (args : List Text) (s t : Session P) (lines : List Text)
      → 3 ≤ length args
      → main H K F P args s ≡ (ok lines, t)
      → (slot_text : Text) × (slot : ℕ) × (pk : Bytes) × (u : Session P) × (get_elem? args 1
          ≡ some slot_text)
        × (parse_slot open_pgp slot_text ≡ ok slot)
        × (Wallet.get_pubkey H P (record { applet = open_pgp; slot = slot; curve = secp256k1 }) s
            ≡ (ok pk, u))
        × (length pk ≡ 65)
        × IsSigned args slot (compressed pk) u t lines
  unfolding main
  main-IsSigned args s t lines n h =
      let (slot_text, given, h1) = lift-eq-ok (arg args 1) _ s h in
      let (slot, parsed, h2) = unwrap-eq-ok (parse_slot open_pgp slot_text) _ s h1 in
      let (pk, u, read, h3) = call-eq-ok (Wallet.get_pubkey H P (account_at slot)) _ s h2 in
      let (cpk, made, h4) = lift-eq-ok (compress pk) _ u h3 in
      let size = (get_pubkey-IsKeyOf H P (account_at slot) s u read).0 in
      let same = ok-injective _ _ (sym made ∙ compress-compressed pk size) in
      (
        slot_text,
        slot,
        pk,
        u,
        unwrap_option-eq-ok (get_elem? args 1) given,
        parsed,
        read,
        size,
        rw same at (with_key-IsSigned args slot cpk u t lines n h4),
      )
