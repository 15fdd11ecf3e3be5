-- ===== src/Host/Methods/Replies.antt =====
-- yubiwallet-host/src/main.rs: what the methods reply, on success and on failure.
use crypto_rust_tools.Base.{ℕ, [], ◌∷◌, ◌-◌, ◌≡◌, ◌⊎◌, inl, inr, ap, sym, ◌∙◌, arith}
use crypto_rust_tools.Base.{Bytes, length, ok, err, map_err, map_err-eq-ok, ok-injective}
use crypto_rust_tools.Text.{Text, codes}
use crypto_rust_tools.External.{Crates}
use crypto_rust_tools.Transport.{
  Platform, Session, and_then, and_then-eq-ok, lift, relabel, rewrap-eq-ok,
}
use crypto_rust_tools.Account.{Account}
use crypto_rust_tools.Wallet.{get_pubkey, sign_with_pin, as_array}
use crypto_rust_tools.Eth.{EthSignature, ethereum_signature}
use crypto_rust_tools.Eth.Recovery.{Recovered, ethereum_signature_from}
use crypto_rust_tools.Host.Accounts.{Failure}
use crypto_rust_tools.Host.Methods.{
  Terminal, fail, bad_request, card_err, read_pin, param_hex, param_account, pin_failed,
  signature_json, exactly, sign_secp256k1, sign_ed25519,
}

module _ (C : Crates) (P : Platform) (T : Terminal P) (params : C.json.Value) (s : Session P) where
  -- The failure that the parameters of a signing request come to, the message under `key`.
  pub record BadParams (key : Text) (f : Failure) : Type 0 where
    pub which :
        (param_account C params ≡ err f)
        ⊎ ((a : Account) × (param_account C params ≡ ok a) × (param_hex C params key ≡ err f))

  -- A request for an Ed25519 signature with a bad account, or a message that is no hexadecimal
  -- text, is answered with the failure of that parameter, before a PIN is asked for or the card is
  -- contacted: the session is unchanged.
  pub sign_ed25519-BadParams :
      (f : Failure) → BadParams (codes "message") f → sign_ed25519 C P T params s ≡ (err f, s)
  unfolding sign_ed25519
  sign_ed25519-BadParams f b = case_of b.which
    where
      case_of :
          (param_account C params ≡ err f)
            ⊎ ((a : Account) × (param_account C params ≡ ok a)
                × (param_hex C params (codes "message") ≡ err f))
          → sign_ed25519 C P T params s ≡ (err f, s)
      case_of (inl e) = rw e
      case_of (inr (a, e, k)) = rw (e, k)

  -- The same holds of a request for a secp256k1 signature and its hash.
  pub sign_secp256k1-BadParams :
      (f : Failure) → BadParams (codes "prehash") f → sign_secp256k1 C P T params s ≡ (err f, s)
  unfolding sign_secp256k1
  sign_secp256k1-BadParams f b = case_of b.which
    where
      case_of :
          (param_account C params ≡ err f)
            ⊎ ((a : Account) × (param_account C params ≡ ok a)
                × (param_hex C params (codes "prehash") ≡ err f))
          → sign_secp256k1 C P T params s ≡ (err f, s)
      case_of (inl e) = rw e
      case_of (inr (a, e, k)) = rw (e, k)

  -- The card returned the key, or the signature of the hash, in some session of the run.
  abbrev pub KeyRead : Account → Bytes → Type 0
  KeyRead account pubkey =
      (u : Session P) × (w : Session P) × (get_pubkey C.hex P account u ≡ (ok pubkey, w))

  abbrev pub SignatureRead : Account → Bytes → Bytes → Type 0
  SignatureRead account hash rs =
      (pin : Text) × (u : Session P) × (w : Session P) × (sign_with_pin P account hash pin u
        ≡ (ok rs, w))

  -- What a reply of `sign_secp256k1` stands for.
  pub record SignedBy (v : C.json.Value) : Type 1 where
    pub account : Account
    pub hash : Bytes
    pub pubkey : Bytes
    pub rs : Bytes
    pub sig : EthSignature
    pub account_read : param_account C params ≡ ok account
    pub hash_read : param_hex C params (codes "prehash") ≡ ok hash
    pub hash_size : length hash ≡ 32
    pub key_read : KeyRead account pubkey
    pub rs_read : SignatureRead account hash rs
    pub rs_size : length rs ≡ 64
    pub made : Recovered C.k256 pubkey hash rs 0 sig
    pub reply :
        v
        ≡ C.json.object (
            (codes "r", C.json.string (C.hex.encode sig.r))
            ∷ (codes "s", C.json.string (C.hex.encode sig.s))
            ∷ (codes "recovery_id", C.json.number made.rid)
            ∷ [])

  as_array_sound :
      (n : ℕ) (f : Failure) (b c : Bytes) → exactly C P T n f b ≡ ok c → (c ≡ b) × (length b ≡ n)
  unfolding as_array
  as_array_sound n f b c h = ground arith

  -- For the chain id 0 the recovery id is what `v` is above 35.
  recovery_id_of_zero :
      (pubkey hash rs : Bytes) (sig : EthSignature) (w : Recovered C.k256 pubkey hash rs 0 sig)
      → sig.v - 35 ≡ w.rid
  recovery_id_of_zero pubkey hash rs sig w = elim w.rid_range [
    | inl z ↦ omega (arith, w.v_value, z)
    | inr (o, _) ↦ omega (arith, w.v_value, o)
  ]

  abbrev bad_hash : Failure
  bad_hash = bad_request (codes "prehash must be 32 bytes")

  abbrev bad_rs : Failure
  bad_rs = fail (codes "CARD_ERROR") (codes "expected 64-byte R||S")

  reply_of :
      (sig : EthSignature) (v : C.json.Value) (u t : Session P)
      → lift {E = Failure} (ok (signature_json C P T sig)) u ≡ (ok v, t)
      → v ≡ signature_json C P T sig
  reply_of sig v u t h = sym (ok-injective (signature_json C P T sig) v (ap (λ p. p.0) h))

  SignedBy-steps :
      (account : Account) (prehash hash pubkey rs_vec rs : Bytes) (sig : EthSignature)
      (v : C.json.Value)
      → param_account C params ≡ ok account
      → param_hex C params (codes "prehash") ≡ ok prehash
      → exactly C P T 32 bad_hash prehash ≡ ok hash
      → KeyRead account pubkey
      → SignatureRead account hash rs_vec
      → exactly C P T 64 bad_rs rs_vec ≡ ok rs
      → map_err card_err (ethereum_signature C.k256 pubkey hash rs 0) ≡ ok sig
      → v ≡ signature_json C P T sig
      → SignedBy v
  SignedBy-steps account prehash hash pubkey rs_vec rs sig v e1 e2 e3 key made e4 e5 e6 =
      let a = as_array_sound 32 bad_hash prehash hash e3 in
      let b = as_array_sound 64 bad_rs rs_vec rs e4 in
      let made_by : Recovered C.k256 pubkey hash rs 0 sig =
        ethereum_signature_from C.k256 pubkey hash rs 0 sig
          (map_err-eq-ok card_err (ethereum_signature C.k256 pubkey hash rs 0) e5) in
      record {
        account = account;
        hash = hash;
        pubkey = pubkey;
        rs = rs;
        sig = sig;
        account_read = e1;
        hash_read = e2 ∙ ap ok (sym a.0);
        hash_size = ap length a.0 ∙ a.1;
        key_read = key;
        rs_read = (made.0, made.1, made.2, made.3 ∙ ap (λ x. (ok x, made.2)) (sym b.0));
        rs_size = ap length b.0 ∙ b.1;
        made = made_by;
        reply =
            e6
            ∙ ap
                (λ n. C.json.object (
                  (codes "r", C.json.string (C.hex.encode sig.r))
                  ∷ (codes "s", C.json.string (C.hex.encode sig.s))
                  ∷ (codes "recovery_id", C.json.number n)
                  ∷ []))
                (recovery_id_of_zero pubkey hash rs sig made_by);
      }

  -- The last steps, from the bytes that the card returned.
  SignedBy-tail :
      (account : Account) (prehash hash pubkey rs_vec : Bytes) (v : C.json.Value) (u t : Session P)
      → param_account C params ≡ ok account
      → param_hex C params (codes "prehash") ≡ ok prehash
      → exactly C P T 32 bad_hash prehash ≡ ok hash
      → KeyRead account pubkey
      → SignatureRead account hash rs_vec
      → and_then (lift (exactly C P T 64 bad_rs rs_vec) u) (λ rs w.
        and_then
          (lift (map_err card_err (ethereum_signature C.k256 pubkey hash rs 0)) w)
          λ sig. lift (ok (signature_json C P T sig)))
        ≡ (ok v, t)
      → SignedBy v
  SignedBy-tail account prehash hash pubkey rs_vec v u t e1 e2 e3 key made h =
      let (rs, w, e4, k) = and_then-eq-ok (lift (exactly C P T 64 bad_rs rs_vec) u) _ h in
      let (sig, x, e5, l) =
        and_then-eq-ok (lift (map_err card_err (ethereum_signature C.k256 pubkey hash rs 0)) w) _
          k in
      SignedBy-steps account prehash hash pubkey rs_vec rs sig v e1 e2 e3 key made
        (ap (λ p. p.0) e4) (ap (λ p. p.0) e5) (reply_of sig v x t l)

  -- A success of `sign_secp256k1` is an object with `r` and `s`, the two halves in hexadecimal form of
  -- the normalized signature that the card returned for the 32 bytes of the request's `prehash`, and
  -- with `recovery_id`, the id 0 or 1 with which `k256` recovers from it the key that the card returned
  -- for the request's account.
  pub sign_secp256k1-SignedBy :
      (v : C.json.Value) (t : Session P) → sign_secp256k1 C P T params s ≡ (ok v, t) → SignedBy v
  unfolding sign_secp256k1
  sign_secp256k1-SignedBy v t h =
      let (account, s1, e1, h1) = and_then-eq-ok (lift (param_account C params) s) _ h in
      let (prehash, s2, e2, h2) =
        and_then-eq-ok (lift (param_hex C params (codes "prehash")) s1) _ h1 in
      let (hash, s3, e3, h3) =
        and_then-eq-ok
          (lift (exactly C P T 32 (bad_request (codes "prehash must be 32 bytes")) prehash) s2) _
          h2 in
      let (pubkey, s4, e4, h4) =
        and_then-eq-ok (relabel card_err (get_pubkey C.hex P account) s3) _ h3 in
      let (pin, s5, e5, h5) = and_then-eq-ok (relabel (pin_failed C P T) (read_pin P T) s4) _ h4 in
      let (rs_vec, s6, e6, h6) =
        and_then-eq-ok (relabel card_err (sign_with_pin P account hash pin) s5) _ h5 in
      let key : KeyRead account pubkey =
        (s3, s4, rewrap-eq-ok card_err (get_pubkey C.hex P account s3) e4) in
      let made : SignatureRead account hash rs_vec =
        (pin, s5, s6, rewrap-eq-ok card_err (sign_with_pin P account hash pin s5) e6) in
      SignedBy-tail account prehash hash pubkey rs_vec v s6 t (ap (λ p. p.0) e1) (ap (λ p. p.0) e2)
        (ap (λ p. p.0) e3) key made h6
