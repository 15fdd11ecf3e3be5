-- ===== src/OpenPgp/Card/Success.antt =====
-- yubiwallet/src/openpgp.rs: on a card that accepts the commands, the operations return what it has.
use crypto_rust_tools.Base.{
  ℕ, ◌+◌, ◌≤◌, length, ◌≡◌, inl, inr, none, some, List, [], ◌∷◌, Bytes, ok,
}
use crypto_rust_tools.Text.{Text, as_bytes}
use crypto_rust_tools.External.{Hex}
use crypto_rust_tools.Transport.{Platform, Session, M, and_then, resolve}
use crypto_rust_tools.Apdu.{build_apdu, connect, send}
use crypto_rust_tools.Apdu.Service.{
  Card, Serves, Reaches, Reaches-ok, Reaches-bind, Reaches-connect, Reaches-transmit, Reaches-send,
}
use crypto_rust_tools.Account.{Account}
use crypto_rust_tools.OpenPgp.Data.{crt_tag, extract_pubkey}
use crypto_rust_tools.OpenPgp.Card.{
  aid, select, sign, sign_slot, sign_sig, sign_aut, get_pubkey, get_pubkey_raw, get_pubkey_raw_on,
  get_public_key_command,
}
use crypto_rust_tools.OpenPgp.Card.Conduct.{select_command, build_apdu-select, IsPrepared}

module _ {P : Platform} {card : Card} (S : Serves P card) where
  Reaches-select :
      (s : Session P) {info : Bytes}
      → length info + 2 ≤ 512
      → S.At [] s.device
      → card [] select_command ≡ some info
      → Reaches S (select_command ∷ []) tt (select P s)
  unfolding select
  Reaches-select s {info} z h k =
      Reaches-bind S (select_command ∷ []) (select_command ∷ []) info tt _ _
        (Reaches-send S [] 0x00 0xa4 0x04 0x00 (some aid) none 512 s select_command info
          build_apdu-select z h k)
        λ t g. Reaches-ok S (select_command ∷ []) tt t g

  opening :
      {A : Type 0} (plan : List Bytes) (a : A) (s : Session P) (k : M P A) {info : Bytes}
      → S.readers_size ≤ 2048
      → length info + 2 ≤ 512
      → card [] select_command ≡ some info
      → ((t : Session P) → S.At (select_command ∷ []) t.device → Reaches S plan a (k t))
      → Reaches S plan a (and_then (connect P s) λ _ t. and_then (select P t) λ _. k)
  opening plan a s k z1 z2 c h = Reaches-bind S [] plan tt a _ _ (Reaches-connect S s z1) λ t g.
      Reaches-bind S (select_command ∷ []) plan tt a _ _ (Reaches-select t z2 g c) λ u f. h u f

  module _ (acc : Account) (message : Bytes) (pin : Text) (signature : Bytes) (s : Session P) where
    -- VERIFY and the signing command, whichever they are.
    signing :
        (mode ins p1 p2 : ℕ) (verify command verified : Bytes) (t : Session P)
        → build_apdu 0x00 0x20 0x00 mode (some (as_bytes pin)) none ≡ ok verify
        → build_apdu 0x00 ins p1 p2 (some message) (some 0x00) ≡ ok command
        → length verified + 2 ≤ 512
        → length signature + 2 ≤ 512
        → S.At (select_command ∷ []) t.device
        → card (select_command ∷ []) verify ≡ some verified
        → card (select_command ∷ verify ∷ []) command ≡ some signature
        → Reaches S (select_command ∷ verify ∷ command ∷ []) signature (
            and_then
              (send P 0x00 0x20 0x00 mode (some (as_bytes pin)) none 512 t)
              λ _. send P 0x00 ins p1 p2 (some message) (some 0x00) 512)
    signing mode ins p1 p2 verify command verified t v c z3 z4 h c2 c3 =
        Reaches-bind S (select_command ∷ verify ∷ []) (select_command ∷ verify ∷ command ∷ [])
          verified signature _ _
          (Reaches-send S (select_command ∷ []) 0x00 0x20 0x00 mode (some (as_bytes pin)) none 512 t
            verify verified v z3 h c2)
          λ u k.
            Reaches-send S (select_command ∷ verify ∷ []) 0x00 ins p1 p2 (some message) (some 0x00)
              512 u command signature c z4 k c3

    -- With readers and answers that fit in the buffers: if the card accepts SELECT, then VERIFY, then the signing command of the slot, which it
    -- answers with a signature, `sign` returns that signature.
    pub sign-Reaches :
        {verify command info verified : Bytes}
        → IsPrepared acc message pin verify command
        → S.readers_size ≤ 2048
        → length info + 2 ≤ 512
        → length verified + 2 ≤ 512
        → length signature + 2 ≤ 512
        → card [] select_command ≡ some info
        → card (select_command ∷ []) verify ≡ some verified
        → card (select_command ∷ verify ∷ []) command ≡ some signature
        → Reaches S
            (select_command ∷ verify ∷ command ∷ [])
            signature
            (sign P acc message (some pin) s)
    unfolding sign sign_slot sign_sig sign_aut resolve
    sign-Reaches (inl (slot, v, c)) z1 z2 z3 z4 c1 c2 c3 =
        opening _ signature s _ z1 z2 c1 λ t h. rw slot (signing _ _ _ _ _ _ _ t v c z3 z4 h c2 c3)
    sign-Reaches (inr (slot, v, c)) z1 z2 z3 z4 c1 c2 c3 =
        opening _ signature s _ z1 z2 c1 λ t h. rw slot (signing _ _ _ _ _ _ _ t v c z3 z4 h c2 c3)

  -- With readers and answers that fit in the buffers: if the card accepts SELECT, and answers GET PUBLIC KEY for the slot with a response from which
  -- a key of the curve can be extracted, `get_pubkey` returns that key.
  pub get_pubkey-Reaches :
      (H : Hex) (acc : Account) (raw key : Bytes) (s : Session P) {crt : ℕ} {info : Bytes}
      → crt_tag acc.slot ≡ ok crt
      → extract_pubkey H acc.curve raw ≡ ok key
      → S.readers_size ≤ 2048
      → length info + 2 ≤ 512
      → length raw + 2 ≤ 512
      → card [] select_command ≡ some info
      → card (select_command ∷ []) (get_public_key_command crt) ≡ some raw
      → Reaches S (select_command ∷ get_public_key_command crt ∷ []) key (get_pubkey H P acc s)
  unfolding get_pubkey get_pubkey_raw get_pubkey_raw_on
  get_pubkey-Reaches H acc raw key s {crt} t x z1 z2 z3 c1 c2 =
      let plan = select_command ∷ get_public_key_command crt ∷ [] in
      Reaches-bind S plan plan raw key _ _
        (opening plan raw s _ z1 z2 c1 λ u h.
          rw t (
            Reaches-transmit S (select_command ∷ []) (get_public_key_command crt) raw 512 u z3 h
              c2))
        λ u h. rw x (Reaches-ok S plan key u h)
