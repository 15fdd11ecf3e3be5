-- ===== src/Host/Methods/Listing.antt =====
-- yubiwallet-host/src/main.rs, `list_accounts`: what is listed can be asked for.
use crypto_rust_tools.Base.{
  ℕ, ◌≡◌, refl, true, List, [], ◌∷◌, map, Bytes, length, All, All-append, Result, ok, err,
  Option-cases, inl, inr,
}
use crypto_rust_tools.Text.{Text, codes, hex2}
use crypto_rust_tools.External.{Crates}
use crypto_rust_tools.Error.{Error}
use crypto_rust_tools.Transport.{Platform, Session}
use crypto_rust_tools.Account.Slots.{all-is_valid}
use crypto_rust_tools.Account.{Account, Curve, open_pgp, piv, ed25519, sig, aut, is_valid}
use crypto_rust_tools.OpenPgp
use crypto_rust_tools.Piv
use crypto_rust_tools.Piv.Card.{SlotInfo}
use crypto_rust_tools.Piv.Card.Listing.{HasKeySize, list_accounts_lem}
use crypto_rust_tools.Wallet.KeySizes.{IsKeyOf, detect_account-IsKeyOf}
use crypto_rust_tools.Host.Accounts.{
  account_id, parse_account, account_json, family_name, curve_name, account_address,
}
use crypto_rust_tools.Host.Accounts.RoundTrip.{
  parse_account-account_id_openpgp, parse_account-account_id_piv,
}
use crypto_rust_tools.Host.Methods.{
  entry_of, openpgp_entries, piv_entries, piv_entries_of, list_accounts,
}

module _ (C : Crates) (P : Platform) where
  open C use {hex, keccak, bs58_encode, json}

  -- The value is an object with these members, where `id` is read back as an account and `pubkey` is a
  -- key in hexadecimal form that has the size of the account's curve.
  pub record IsListed (v : json.Value) : Type 0 where
    pub account : Account
    pub id : Text
    pub family : Text
    pub curve : Text
    pub applet_name : Text
    pub slot_name : Text
    pub address : Text
    pub key : Bytes
    pub shown :
        v
        ≡ json.object (
            (codes "id", json.string id)
            ∷ (codes "family", json.string family)
            ∷ (codes "curve", json.string curve)
            ∷ (codes "applet", json.string applet_name)
            ∷ (codes "slot", json.string slot_name)
            ∷ (codes "address", json.string address)
            ∷ (codes "pubkey", json.string (hex.encode key))
            ∷ [])
    pub reads : parse_account id ≡ ok account
    pub sized : IsKeyOf account.curve key

  -- Under both curves the identifier of the slot names the slot.
  abbrev IsNamed : Text × ℕ → Type 0
  IsNamed (name, slot) =
      (c : Curve)
      → parse_account (account_id (codes "openpgp") name c)
        ≡ ok (record { applet = open_pgp; slot = slot; curve = c })

  entry_of-IsListed :
      (name : Text) (slot : ℕ) (s : Session P) (r : Result (Curve × Bytes) Error × Session P)
      → IsNamed (name, slot)
      → OpenPgp.Card.detect_account hex P slot s ≡ r
      → All IsListed (entry_of C P name r.0)
  unfolding account_json
  entry_of-IsListed name slot s (ok (c, key), t) h e = (
    record {
      account = record { applet = open_pgp; slot = slot; curve = c };
      id = account_id (codes "openpgp") name c;
      family = family_name c;
      curve = curve_name c;
      applet_name = codes "openpgp";
      address = account_address hex keccak bs58_encode json c key;
      slot_name = name;
      key = key;
      shown = refl;
      reads = h c;
      sized = detect_account-IsKeyOf hex P slot s t e;
    },
    tt,
  )
  entry_of-IsListed name slot s (err x, t) h e = tt

  openpgp_entries-IsListed :
      (slots : List (Text × ℕ)) (s : Session P)
      → All IsNamed slots
      → All IsListed (openpgp_entries C P slots s).0
  unfolding openpgp_entries
  openpgp_entries-IsListed [] s h = tt
  openpgp_entries-IsListed ((name, slot) ∷ slots) s (h, hs) =
      All-append IsListed _ _ (entry_of-IsListed name slot s _ h refl)
        (openpgp_entries-IsListed slots (OpenPgp.Card.detect_account hex P slot s).1 hs)

  key-IsListed :
      (slot : ℕ) (key : Bytes)
      → is_valid slot ≡ true
      → length key ≡ 32
      → IsListed (account_json hex keccak bs58_encode json (codes "piv") (hex2 slot) ed25519 key)
  unfolding account_json
  key-IsListed slot key v k = record {
    account = record { applet = piv; slot = slot; curve = ed25519 };
    id = account_id (codes "piv") (hex2 slot) ed25519;
    family = family_name ed25519;
    curve = curve_name ed25519;
    applet_name = codes "piv";
    address = account_address hex keccak bs58_encode json ed25519 key;
    slot_name = hex2 slot;
    key = key;
    shown = refl;
    reads = parse_account-account_id_piv slot v;
    sized = k;
  }

  piv_entries-IsListed :
      (infos : List SlotInfo)
      → All (λ i. is_valid i.slot ≡ true) infos
      → All (HasKeySize P) infos
      → All IsListed (piv_entries C P infos)
  unfolding piv_entries
  piv_entries-IsListed [] v k = tt
  piv_entries-IsListed (info ∷ infos) (v, vs) (k, ks) =
      let others = piv_entries-IsListed infos vs ks in
      elim (Option-cases info.ed25519_pubkey) [
        | inl e ↦ rw e others
        | inr (key, e) ↦ rw e (key-IsListed info.slot key v (rw e at k), others)
      ]

  All-slots :
      (infos : List SlotInfo)
      → All (λ n. is_valid n ≡ true) (map (λ i. i.slot) infos)
      → All (λ i. is_valid i.slot ≡ true) infos
  All-slots [] h = tt
  All-slots (i ∷ infos) (h, hs) = (h, All-slots infos hs)

  piv_entries_of-IsListed :
      (s : Session P) (r : Result (List SlotInfo) Error × Session P)
      → Piv.Card.list_accounts P s ≡ r
      → All IsListed (piv_entries_of C P r.0)
  piv_entries_of-IsListed s (ok infos, t) e =
      let (slots, sizes) = list_accounts_lem P s e in
      piv_entries-IsListed infos (All-slots infos (rw slots all-is_valid)) sizes
  piv_entries_of-IsListed s (err x, t) e = tt

  -- Every value that the host lists, whatever the card answers, is an object whose member `id` is an
  -- identifier that `parse_account` reads as an account, and whose member `pubkey` is a key in
  -- hexadecimal form with the size of this account's curve.
  pub list_accounts-IsListed : (s : Session P) → All IsListed (list_accounts C P s).0
  unfolding list_accounts
  list_accounts-IsListed s =
      let slots : List (Text × ℕ) = (codes "sig", sig) ∷ (codes "aut", aut) ∷ [] in
      All-append IsListed _ _
        (openpgp_entries-IsListed slots s (
          λ c. (parse_account-account_id_openpgp c).0,
          (λ c. (parse_account-account_id_openpgp c).1, tt),
        ))
        (piv_entries_of-IsListed (openpgp_entries C P slots s).1 _ refl)
