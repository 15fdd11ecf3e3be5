-- ===== src/OpenPgp/Data/Keys.antt =====
-- yubiwallet/src/openpgp.rs: which keys are taken from a GET PUBLIC KEY response.
use crypto_rust_tools.Base.{ℕ, ◌+◌, ◌≤◌, ◌≡◌, ◌↔◌, inl, inr, refl, arith, ap, sym}
use crypto_rust_tools.Base.{[], ◌∷◌, ◌++◌, append-nil, length-append, Bytes, length, get_or, slice}
use crypto_rust_tools.Base.{ok, Option-cases, Result-cases}
use crypto_rust_tools.Base.Search.{position, matches_at, FirstAt}
use crypto_rust_tools.Base.Marked.{Marked, slice-Marked, position-Marked}
use crypto_rust_tools.External.{Hex}
use crypto_rust_tools.Account.{ed25519, secp256k1}
use crypto_rust_tools.OpenPgp.Data.{
  ed25519_marker, secp256k1_marker, extract_ed25519_pubkey, extract_secp256k1_pubkey, detect,
}

module _ (H : Hex) (tlv key : Bytes) where
  ed25519_sound : extract_ed25519_pubkey H tlv ≡ ok key → Marked ed25519_marker 32 tlv key
  unfolding extract_ed25519_pubkey
  ed25519_sound h = elim (Option-cases (position ed25519_marker tlv)) [
    | inl n ↦ absurd (ground arith)
    | inr (p, e) ↦
        let fits : p + 2 + 32 ≤ length tlv = ground arith in
        let same : slice tlv (p + 2) (p + 2 + 32) ≡ key = ground arith in
        rw same at (slice-Marked ed25519_marker 32 tlv p e fits)
  ]

  ed25519_complete : Marked ed25519_marker 32 tlv key → extract_ed25519_pubkey H tlv ≡ ok key
  unfolding extract_ed25519_pubkey
  ed25519_complete m =
      let (p, e, fits, read) = position-Marked _ _ 32 tlv key m in ground (arith, e, fits, read)

  -- `extract_ed25519_pubkey` returns a key exactly if it has 32 bytes and stands right behind the
  -- first 86 20 of the response.
  pub extract_ed25519_pubkey_iff :
      (extract_ed25519_pubkey H tlv ≡ ok key) ↔ Marked ed25519_marker 32 tlv key
  extract_ed25519_pubkey_iff = (ed25519_sound, ed25519_complete)

  secp256k1_sound :
      extract_secp256k1_pubkey H tlv ≡ ok key
      → Marked secp256k1_marker 65 tlv key × (get_or key 0 0 ≡ 0x04)
  unfolding extract_secp256k1_pubkey
  secp256k1_sound h = elim (Option-cases (position secp256k1_marker tlv)) [
    | inl n ↦ absurd (ground arith)
    | inr (p, e) ↦
        let fits : p + 2 + 65 ≤ length tlv = ground arith in
        let same : slice tlv (p + 2) (p + 2 + 65) ≡ key = ground arith in
        (rw same at (slice-Marked secp256k1_marker 65 tlv p e fits), ground arith)
  ]

  secp256k1_complete :
      Marked secp256k1_marker 65 tlv key × (get_or key 0 0 ≡ 0x04)
      → extract_secp256k1_pubkey H tlv ≡ ok key
  unfolding extract_secp256k1_pubkey
  secp256k1_complete (m, prefix) =
      let (p, e, fits, read) = position-Marked _ _ 65 tlv key m in ground (arith, e, fits, read)

  -- `extract_secp256k1_pubkey` returns a point exactly if it has 65 bytes, begins with 04 and
  -- stands right behind the first 86 41 of the response.
  pub extract_secp256k1_pubkey_iff :
      (extract_secp256k1_pubkey H tlv ≡ ok key)
      ↔ (Marked secp256k1_marker 65 tlv key × (get_or key 0 0 ≡ 0x04))
  extract_secp256k1_pubkey_iff = (secp256k1_sound, secp256k1_complete)

-- The response template of GET PUBLIC KEY around a secp256k1 point: `7F 49 43 { 86 41 <point> }`.
abbrev pub secp256k1_response : Bytes → Bytes
secp256k1_response point = 0x7f ∷ 0x49 ∷ 0x43 ∷ (secp256k1_marker ++ point)

secp256k1_response-Marked :
    (point : Bytes)
    → length point ≡ 65
    → Marked secp256k1_marker 65 (secp256k1_response point) point
unfolding matches_at
secp256k1_response-Marked point h = record {
  pre = 0x7f ∷ 0x49 ∷ 0x43 ∷ [];
  post = [];
  splits = ap secp256k1_response (sym (append-nil point));
  sized = h;
  is_first = (refl, (refl, (refl, tt)));
}

module _ (H : Hex) (slot : ℕ) where
  detect_ed25519 :
      (tlv key : Bytes) → Marked ed25519_marker 32 tlv key → detect H slot tlv ≡ ok (ed25519, key)
  unfolding detect
  detect_ed25519 tlv key m = ground (arith, ed25519_complete H tlv key m)

  -- A secp256k1 point in its response template is detected if no Ed25519 key can be read there.
  pub detect_secp256k1 :
      (point : Bytes)
      → length point ≡ 65
      → get_or point 0 0 ≡ 0x04
      → ((k : Bytes) → ¬ Marked ed25519_marker 32 (secp256k1_response point) k)
      → detect H slot (secp256k1_response point) ≡ ok (secp256k1, point)
  unfolding detect
  detect_secp256k1 point h prefix free =
      let raw = secp256k1_response point in
      let m = secp256k1_response-Marked point h in
      elim (Result-cases (extract_ed25519_pubkey H raw)) [
        | inl (k, e) ↦ absurd (free k (ed25519_sound H raw k e))
        | inr (x, e) ↦ ground (arith, e, secp256k1_complete H raw point (m, prefix))
      ]

-- A point whose coordinates hold 86 20 and at least 32 bytes behind it.
abbrev pub point_with_marker : Bytes → Bytes → Bytes → Bytes
point_with_marker front key rest = 0x04 ∷ (front ++ (ed25519_marker ++ (key ++ rest)))

length-point_with_marker :
    (front key rest : Bytes)
    → length (point_with_marker front key rest) ≡ length front + length key + length rest + 3
length-point_with_marker front key rest =
    omega (arith, length-append front (ed25519_marker ++ (key ++ rest)), length-append key rest)

point_with_marker-Marked :
    (front key rest : Bytes)
    → length key ≡ 32
    → FirstAt ed25519_marker (0x04 ∷ front) (ed25519_marker ++ (key ++ rest))
    → Marked ed25519_marker 32 (secp256k1_response (point_with_marker front key rest)) key
unfolding matches_at
point_with_marker-Marked front key rest h f = record {
  pre = 0x7f ∷ 0x49 ∷ 0x43 ∷ 0x86 ∷ 0x41 ∷ 0x04 ∷ front;
  post = rest;
  splits = refl;
  sized = h;
  is_first = (refl, (refl, (refl, (refl, (refl, f)))));
}

-- A secp256k1 point of 65 bytes that holds 86 20 in its coordinates, with at least 32 bytes behind
-- it, is reported as an Ed25519 account: with the 32 bytes behind the first 86 20 as the key,
-- although the point itself can be extracted from the same response.
pub detect_misreads_point :
    (H : Hex) (slot : ℕ) (front key rest : Bytes)
    → length front + length rest ≡ 30
    → length key ≡ 32
    → FirstAt ed25519_marker (0x04 ∷ front) (ed25519_marker ++ (key ++ rest))
    → (extract_secp256k1_pubkey H (secp256k1_response (point_with_marker front key rest))
        ≡ ok (point_with_marker front key rest))
      × (detect H slot (secp256k1_response (point_with_marker front key rest)) ≡ ok (ed25519, key))
detect_misreads_point H slot front key rest h k f =
    let point = point_with_marker front key rest in
    let sized : length point ≡ 65 = omega (arith, length-point_with_marker front key rest) in
    (
      secp256k1_complete H _ point (secp256k1_response-Marked point sized, refl),
      detect_ed25519 H slot _ key (point_with_marker-Marked front key rest k f),
    )
