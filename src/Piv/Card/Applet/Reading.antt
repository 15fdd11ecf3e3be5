-- ===== src/Piv/Card/Applet/Reading.antt =====
-- yubiwallet/src/piv.rs: what is listed of a chip with the PIV applet, and what is read of it.
use crypto_rust_tools.Base.{
  ℕ, ◌+◌, ◌≤◌, ◌≡◌, refl, arith, ◌∙◌, ◌*◌, length, length-append, ◌++◌, ap, true, inl, inr, Option,
  Option-cases, none, some, List, [], ◌∷◌, map, All, Bytes, Result, ok, err, to_option,
}
use crypto_rust_tools.Text.{codes}
use crypto_rust_tools.Error.{Error, card, status_word_message}
use crypto_rust_tools.Transport.{Platform, Session, and_then, lift}
use crypto_rust_tools.Account.Slots.{all-is_valid}
use crypto_rust_tools.Account.{Account, ed25519, is_valid, all}
use crypto_rust_tools.Piv.Data.{extract_certificate, extract_ed25519_from_cert}
use crypto_rust_tools.Piv.Data.Keys.{extract_ed25519_from_cert-eq-ok}
use crypto_rust_tools.Piv.Card.{
  SlotInfo, succeed, fetch_ed25519_pubkey, get_pubkey, list_slots, list_accounts,
}
use crypto_rust_tools.Piv.Card.Conduct.{ensure_ed25519-eq-ok}
use crypto_rust_tools.Piv.Card.Success.{ensure_slot-eq-ok}
use crypto_rust_tools.Piv.Tlv.{ber_len}
use crypto_rust_tools.Piv.Tlv.Items.{tlv, tlvs}
use crypto_rust_tools.Piv.Data.Templates.{extract_certificate-tlv}
use crypto_rust_tools.Base.Search.{position}
use crypto_rust_tools.Base.Marked.{Marked}
use crypto_rust_tools.Piv.Card.Chip.{
  ber_record, stored_object, ber_record-tlv, length-ber_record, slot_object_tag-IsObjectOf,
  read_command-get_data_apdu,
}
use crypto_rust_tools.Piv.Card.Applet.{
  Stored, fresh, selected, Chip, chip, Applet, reads, lacks_object, HasApplet,
}
use crypto_rust_tools.Piv.Card.Applet.Runs.{
  checked, Yields, Yields-pure, Yields-bind, Yields-bind_err, Yields-connect, Yields-transmit,
  Yields-select,
}

-- The key in a data object, if there is one; for an object that is not found the status word is 6A82.
abbrev pub key_in : Option Stored → Result Bytes Error
key_in none = err (card 0x6a82 (codes "Card returned error status: 6A82"))
key_in (some o) = ok o.key

-- DER of an Ed25519 public key (RFC 8410) in front of its 32 bytes.
abbrev pub key_prefix : Bytes
key_prefix = 0x30 ∷ 0x2a ∷ 0x30 ∷ 0x05 ∷ 0x06 ∷ 0x03 ∷ 0x2b ∷ 0x65 ∷ 0x70 ∷ 0x03 ∷ 0x21 ∷ 0x00 ∷ []

-- The certificate has at most 4000 bytes, with the key behind the first prefix in it.
abbrev pub IsStored : Option Stored → Type 0
IsStored none = Unit {0}
IsStored (some o) = (length o.cert ≤ 4000) × Marked key_prefix 32 o.cert o.key

extract_empty : (e : Error) × (extract_ed25519_from_cert [] ≡ err e)
unfolding extract_ed25519_from_cert position
extract_empty = (_, refl)

checked_not_found :
    checked [] (0x6a * 256 + 0x82) ≡ err (card 0x6a82 (codes "Card returned error status: 6A82"))
unfolding status_word_message codes crypto_rust_tools.Text.hex4_upper
checked_not_found = refl

stored_rest : tlvs ((0x71, 0x00 ∷ []) ∷ (0xfe, []) ∷ []) ≡ 0x71 ∷ 0x01 ∷ 0x00 ∷ 0xfe ∷ 0x00 ∷ []
unfolding ber_len
stored_rest = refl

extract_certificate-stored_object :
    (cert key : Bytes)
    → length cert ≤ 4000
    → Marked key_prefix 32 cert key
    → (extract_certificate (stored_object cert) ≡ ok cert)
      × (length (stored_object cert) ≤ length cert + 13)
unfolding ber_len
extract_certificate-stored_object [] key z m =
    absurd (cc (extract_ed25519_from_cert-eq-ok [] key m, extract_empty.1))
extract_certificate-stored_object (b ∷ cert) key z m =
    let n = length-ber_record 0x70 (b ∷ cert) in
    let more : List (ℕ × Bytes) = (0x71, 0x00 ∷ []) ∷ (0xfe, []) ∷ [] in
    let inner : Bytes = ber_record 0x70 (b ∷ cert) ++ (0x71 ∷ 0x01 ∷ 0x00 ∷ 0xfe ∷ 0x00 ∷ []) in
    let k : length inner ≡ length (ber_record 0x70 (b ∷ cert)) + 5 =
      length-append (ber_record 0x70 (b ∷ cert)) _ in
    let l = length-ber_record 0x53 inner in
    let whole : tlv 0x53 (tlv 0x70 (b ∷ cert) ++ tlvs more) ≡ stored_object (b ∷ cert) =
      ap (λ x. tlv 0x53 (x ++ tlvs more)) (ber_record-tlv 0x70 (b ∷ cert) (omega (arith, z)))
      ∙ ap (λ y. tlv 0x53 (ber_record 0x70 (b ∷ cert) ++ y)) stored_rest
      ∙ ber_record-tlv 0x53 inner (omega (arith, k, n, z)) in
    (
      rw (← whole) (
          extract_certificate-tlv (b ∷ cert) more (omega arith, (omega arith, tt))
            (omega (arith, z))),
      omega (arith, k, l, n),
    )

-- The entry of a slot.
abbrev pub entry : Applet → ℕ → SlotInfo
entry a slot = record { slot = slot; ed25519_pubkey = to_option (key_in (a.object slot)) }

module _ {P : Platform} {a : Applet} (A : HasApplet P a) where
  extracting :
      (d : Chip) (o : Stored) (s : Session P)
      → IsStored (some o)
      → A.At d s.device
      → Yields A d (ok o.key) (
          and_then
            (lift (extract_certificate (stored_object o.cert)) s)
            λ cert. lift (extract_ed25519_from_cert cert))
  extracting d o s (z, m) h =
      rw
        (
          (extract_certificate-stored_object o.cert o.key z m).0,
          extract_ed25519_from_cert-eq-ok o.cert o.key m,
        )
        (Yields-pure A d (ok o.key) s h)

  Yields-fetch :
      (n slot : ℕ) (s : Session P)
      → is_valid slot ≡ true
      → IsStored (a.object slot)
      → A.At (chip selected n) s.device
      → Yields A (chip selected n) (key_in (a.object slot)) (fetch_ed25519_pubkey P slot s)
  unfolding fetch_ed25519_pubkey
  Yields-fetch n slot s v z h =
      let (low, t, e) = slot_object_tag-IsObjectOf slot v in
      let same = read_command-get_data_apdu low in
      elim (Option-cases (a.object slot)) [
        | inl k ↦
            rw (e, same, k)
              (Yields-bind_err A (chip selected n) _ _ _ (
                rw checked_not_found at
                  (Yields-transmit A 4096 s (omega arith) h (lacks_object n slot low t k))))
        | inr (o, k) ↦
            let w : IsStored (some o) = rw k at z in
            let fits = (extract_certificate-stored_object o.cert o.key w.0 w.1).1 in
            rw (e, same, k)
              (Yields-bind A (chip selected n) (chip selected n) (stored_object o.cert) _ _ _
                (Yields-transmit A 4096 s (omega (arith, fits, w.0)) h (reads n slot low o t k))
                λ u g. extracting (chip selected n) o u w g)
      ]

  -- The loop over the slots.
  record_slots :
      (n : ℕ) (slots : List ℕ) (s : Session P)
      → All (λ v. is_valid v ≡ true) slots
      → ((slot : ℕ) → IsStored (a.object slot))
      → A.At (chip selected n) s.device
      → ((list_slots P slots s).0 ≡ map (entry a) slots)
        × A.At (chip selected n) (list_slots P slots s).1.device
  unfolding list_slots
  record_slots n [] s v z h = (refl, h)
  record_slots n (slot ∷ slots) s (v, vs) z h =
      let y = Yields-fetch n slot s v (z slot) h in
      let (e, k) = record_slots n slots y.after vs z y.at_end in
      rw (y.result) (ap (λ t. entry a slot ∷ t) e, k)

  listed :
      (n : ℕ) (u : Session P)
      → ((slot : ℕ) → IsStored (a.object slot))
      → A.At (chip selected n) u.device
      → Yields A {E = Error}
          (chip selected n)
          (ok (map (entry a) all))
          (succeed P (list_slots P all u))
  listed n u z j =
      let (e, k) = record_slots n all u all-is_valid z j in
      rw e (Yields-pure A (chip selected n) (ok (map (entry a) all)) (list_slots P all u).1 k)

  list_accounts-Yields :
      (c : Chip) (s : Session P)
      → A.readers_size ≤ 2048
      → length a.info + 2 ≤ 512
      → ((slot : ℕ) → IsStored (a.object slot))
      → A.At c s.device
      → Yields A (chip selected c.tries) (ok (map (entry a) all)) (list_accounts P s)
  unfolding list_accounts
  list_accounts-Yields c s o f z h =
      Yields-bind A (chip fresh c.tries) (chip selected c.tries) tt _ _ _ (Yields-connect A c s o h)
        λ t i.
          Yields-bind A (chip selected c.tries) (chip selected c.tries) tt _ _ _
            (Yields-select A c.tries t f i) λ u j. listed c.tries u z j

  get_pubkey-Yields :
      (acc : Account) (c : Chip) (s : Session P)
      → acc.curve ≡ ed25519
      → is_valid acc.slot ≡ true
      → A.readers_size ≤ 2048
      → length a.info + 2 ≤ 512
      → ((slot : ℕ) → IsStored (a.object slot))
      → A.At c s.device
      → Yields A (chip selected c.tries) (key_in (a.object acc.slot)) (get_pubkey P acc s)
  unfolding get_pubkey
  get_pubkey-Yields acc c s e v o f z h =
      rw (ensure_ed25519-eq-ok acc e, ensure_slot-eq-ok acc v)
        (Yields-bind A (chip fresh c.tries) _ tt _ _ _ (Yields-connect A c s o h) λ t i.
          Yields-bind A (chip selected c.tries) _ tt _ _ _ (Yields-select A c.tries t f i)
            λ u j. Yields-fetch c.tries acc.slot u v (z acc.slot) j)

  -- With readers whose names fit in 2048 bytes and a chip with the applet whose answer to SELECT fits
  -- in 512 bytes, and whose data objects, where there are any, hold certificates of at most 4000 bytes
  -- with an Ed25519 key: `list_accounts` succeeds, with one entry for each signing slot in the order
  -- of `piv_slot::all`, which has the key in the certificate of the slot, or none if the slot has no
  -- object; and `get_pubkey` of an Ed25519 account on a signing slot returns this key, or the error of
  -- the card that the object is not found. Neither changes the retry counter.
  pub list_accounts-get_pubkey :
      (acc : Account) (c : Chip) (s : Session P)
      → acc.curve ≡ ed25519
      → is_valid acc.slot ≡ true
      → A.readers_size ≤ 2048
      → length a.info + 2 ≤ 512
      → ((slot : ℕ) → IsStored (a.object slot))
      → A.At c s.device
      → Yields A (chip selected c.tries) (ok (map (entry a) all)) (list_accounts P s)
        × Yields A (chip selected c.tries) (key_in (a.object acc.slot)) (get_pubkey P acc s)
  list_accounts-get_pubkey acc c s e v o f z h =
      (list_accounts-Yields c s o f z h, get_pubkey-Yields acc c s e v o f z h)
