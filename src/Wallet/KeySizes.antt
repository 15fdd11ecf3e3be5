-- ===== src/Wallet/KeySizes.antt =====
-- yubiwallet/src/lib.rs: the size of a public key is that of the account's curve, on either applet.
use crypto_rust_tools.Base.{
  ℕ, arith, Result-cases, inr, ◌≡◌, refl, ap, Bytes, length, get_or, ok, inl, [], none,
}
use crypto_rust_tools.External.{Hex}
use crypto_rust_tools.Transport.{Platform, Session, and_then-eq-ok}
use crypto_rust_tools.Account.{Applet, Account, Curve, open_pgp, piv, ed25519, secp256k1}
use crypto_rust_tools.OpenPgp
use crypto_rust_tools.OpenPgp.Data.{
  extract_pubkey, detect, extract_ed25519_pubkey, extract_secp256k1_pubkey,
}
use crypto_rust_tools.OpenPgp.Data.Keys.{extract_ed25519_pubkey_iff, extract_secp256k1_pubkey_iff}
use crypto_rust_tools.OpenPgp.Card.{get_pubkey_raw, detect_account}
use crypto_rust_tools.Piv
use crypto_rust_tools.Piv.Card.Conduct.{refused_early}
use crypto_rust_tools.Piv.Card.Listing.{get_pubkey_size}
use crypto_rust_tools.Wallet.{get_pubkey_at, get_pubkey}

-- 32 bytes on Ed25519; on secp256k1 65 bytes, the first of them 04.
abbrev pub IsKeyOf : Curve → Bytes → Type 0
IsKeyOf ed25519 key = length key ≡ 32
IsKeyOf secp256k1 key = (length key ≡ 65) × (get_or key 0 0 ≡ 0x04)

extract_pubkey-IsKeyOf :
    (H : Hex) (c : Curve) (raw key : Bytes) → extract_pubkey H c raw ≡ ok key → IsKeyOf c key
unfolding extract_pubkey
extract_pubkey-IsKeyOf H ed25519 raw key h = ((extract_ed25519_pubkey_iff H raw key).0 h).sized
extract_pubkey-IsKeyOf H secp256k1 raw key h =
    let t = (extract_secp256k1_pubkey_iff H raw key).0 h in (t.0.sized, t.1)

piv-IsKeyOf :
    (P : Platform) (acc : Account) (s t : Session P) (c : Curve) {key : Bytes}
    → acc.curve ≡ c
    → Piv.Card.get_pubkey P acc s ≡ (ok key, t)
    → IsKeyOf c key
piv-IsKeyOf P acc s t ed25519 e h = get_pubkey_size P acc s t h
piv-IsKeyOf P acc s t secp256k1 e h =
    let (m, _, refused) = refused_early P acc [] none s (inl e) in
    absurd (cc (ap (λ p. p.0) refused, ap (λ p. p.0) h))

at-IsKeyOf :
    (H : Hex) (P : Platform) (a : Applet) (acc : Account) (s t : Session P) {key : Bytes}
    → get_pubkey_at H P a acc s ≡ (ok key, t)
    → IsKeyOf acc.curve key
unfolding get_pubkey_at OpenPgp.Card.get_pubkey
at-IsKeyOf H P open_pgp acc s t {key} h =
    let (raw, u, _, h1) = and_then-eq-ok (get_pubkey_raw P acc.slot s) _ h in
    extract_pubkey-IsKeyOf H acc.curve raw key (ap (λ p. p.0) h1)
at-IsKeyOf H P piv acc s t h = piv-IsKeyOf P acc s t acc.curve refl h

-- A public key that `get_pubkey` returns has 32 bytes if the account's curve is Ed25519; if it is
-- secp256k1 the key has 65 bytes and begins with 04.
pub get_pubkey-IsKeyOf :
    (H : Hex) (P : Platform) (account : Account) (s t : Session P) {key : Bytes}
    → get_pubkey H P account s ≡ (ok key, t)
    → IsKeyOf account.curve key
unfolding get_pubkey
get_pubkey-IsKeyOf H P account s t h = at-IsKeyOf H P account.applet account s t h

detect-IsKeyOf :
    (H : Hex) (slot : ℕ) (raw key : Bytes) (c : Curve)
    → detect H slot raw ≡ ok (c, key)
    → IsKeyOf c key
unfolding detect
detect-IsKeyOf H slot raw key c h = elim (Result-cases (extract_ed25519_pubkey H raw)) [
  | inl (k, e) ↦
      let found : (c ≡ ed25519) × (key ≡ k) = ground (arith, e, h) in
      rw (found.0, found.1) ((extract_ed25519_pubkey_iff H raw k).0 e).sized
  | inr (x, e) ↦ elim (Result-cases (extract_secp256k1_pubkey H raw)) [
    | inl (k, f) ↦
        let found : (c ≡ secp256k1) × (key ≡ k) = ground (arith, e, f, h) in
        let t = (extract_secp256k1_pubkey_iff H raw k).0 f in rw (found.0, found.1) (t.0.sized, t.1)
    | inr (y, f) ↦ absurd (ground (arith, e, f, h))
  ]
]

-- A key that `detect_account` returns has the size and the prefix of the curve that comes with it.
pub detect_account-IsKeyOf :
    (H : Hex) (P : Platform) (slot : ℕ) (s t : Session P) {c : Curve} {key : Bytes}
    → detect_account H P slot s ≡ (ok (c, key), t)
    → IsKeyOf c key
unfolding detect_account
detect_account-IsKeyOf H P slot s t {c} {key} h =
    let (raw, u, _, h1) = and_then-eq-ok (get_pubkey_raw P slot s) _ h in
    detect-IsKeyOf H slot raw key c (ap (λ p. p.0) h1)
