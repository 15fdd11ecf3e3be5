-- ===== src/Piv/Card/Listing.antt =====
-- yubiwallet/src/piv.rs: the public keys that are read, and the listing of the slots.
use crypto_rust_tools.Base.{
  ℕ, ◌≡◌, refl, ap, Option, none, some, List, [], ◌∷◌, map, Bytes, All, length,
}
use crypto_rust_tools.Base.{Result, ok, err}
use crypto_rust_tools.Error.{Error}
use crypto_rust_tools.Transport.{Platform, Session, and_then-eq-ok, lift}
use crypto_rust_tools.Apdu.{connect, transmit}
use crypto_rust_tools.Account.{Account, all}
use crypto_rust_tools.Piv.Data.{slot_object_tag, extract_certificate}
use crypto_rust_tools.Piv.Data.Keys.{extract_ed25519_from_cert-Marked}
use crypto_rust_tools.Piv.Card.{
  SlotInfo, ensure_ed25519, ensure_slot, select, slot_info, fetch_ed25519_pubkey, get_pubkey,
  list_slots, list_accounts,
}

module _ (P : Platform) where
  fetch_ed25519_pubkey_size :
      (slot : ℕ) (s t : Session P) {key : Bytes}
      → fetch_ed25519_pubkey P slot s ≡ (ok key, t)
      → length key ≡ 32
  unfolding fetch_ed25519_pubkey
  fetch_ed25519_pubkey_size slot s t {key} h =
      let (tag, u, _, h1) = and_then-eq-ok (lift (slot_object_tag slot) s) _ h in
      let (resp, v, _, h2) = and_then-eq-ok (transmit P _ 4096 u) _ h1 in
      let (cert, w, _, h3) = and_then-eq-ok (lift (extract_certificate resp) v) _ h2 in
      (extract_ed25519_from_cert-Marked cert key (ap (λ p. p.0) h3)).sized

  -- A public key that `get_pubkey` returns has 32 bytes.
  pub get_pubkey_size :
      (acc : Account) (s t : Session P) {key : Bytes}
      → get_pubkey P acc s ≡ (ok key, t)
      → length key ≡ 32
  unfolding get_pubkey
  get_pubkey_size acc s t h =
      let (_, u, _, h1) = and_then-eq-ok (lift (ensure_ed25519 acc) s) _ h in
      let (_, v, _, h2) = and_then-eq-ok (lift (ensure_slot acc) u) _ h1 in
      let (_, w, _, h3) = and_then-eq-ok (connect P v) _ h2 in
      let (_, x, _, h4) = and_then-eq-ok (select P w) _ h3 in
      fetch_ed25519_pubkey_size acc.slot x t h4

  -- A key in an entry of the listing, if there is one, has 32 bytes.
  abbrev pub IsKeySize : Option Bytes → Type 0
  IsKeySize none = Unit {0}
  IsKeySize (some key) = length key ≡ 32

  abbrev pub HasKeySize : SlotInfo → Type 0
  HasKeySize i = IsKeySize i.ed25519_pubkey

  slot_info_size :
      (slot : ℕ) (s : Session P) (r : Result Bytes Error × Session P)
      → fetch_ed25519_pubkey P slot s ≡ r
      → HasKeySize (slot_info P slot r).0
  slot_info_size slot s (ok k, t) e = fetch_ed25519_pubkey_size slot s t e
  slot_info_size slot s (err x, t) e = tt

  list_slots_lem :
      (slots : List ℕ) (s : Session P)
      → (map (λ i. i.slot) (list_slots P slots s).0 ≡ slots)
        × All HasKeySize (list_slots P slots s).0
  unfolding list_slots
  list_slots_lem [] s = (refl, tt)
  list_slots_lem (slot ∷ slots) s =
      let (e, h) = list_slots_lem slots (fetch_ed25519_pubkey P slot s).1 in
      (ap (λ t. slot ∷ t) e, (slot_info_size slot s (fetch_ed25519_pubkey P slot s) refl, h))

  -- A listing that succeeds has one entry for each signing slot, in the order of `piv_slot::all`,
  -- and a key that it reports has 32 bytes.
  pub list_accounts_lem :
      (s : Session P) {t : Session P} {infos : List SlotInfo}
      → list_accounts P s ≡ (ok infos, t)
      → (map (λ i. i.slot) infos ≡ all) × All HasKeySize infos
  unfolding list_accounts
  list_accounts_lem s {infos} h =
      let (_, u, _, h1) = and_then-eq-ok (connect P s) _ h in
      let (_, v, _, h2) = and_then-eq-ok (select P u) _ h1 in
      let e : (list_slots P all v).0 ≡ infos = cc (ap (λ p. p.0) h2) in
      let l = list_slots_lem all v in rw e at l
