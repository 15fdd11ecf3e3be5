-- ===== src/Piv/Tlv/Progress.antt =====
-- yubiwallet/src/piv.rs: on any buffer the loop of `read_tlv` ends, and what it returns is a part
-- of the buffer.
use crypto_rust_tools.Base.{ℕ, zero, suc, ◌+◌, ◌*◌, ◌%◌, ◌≤◌, ◌<◌, ◌≡◌, ◌≢◌, arith}
use crypto_rust_tools.Base.{
  Bytes, length, take, drop, length-take, length-drop, ◌-◌, slice, get_or, inl, inr, sym, ap, ◌∙◌,
}
use crypto_rust_tools.Base.{Result, ok, err, >>=-eq-ok, Result-cases, Option, none, some, ok_or}
use crypto_rust_tools.Error.{Error}
use native.Mathlib.Decide.{dec_lt, ℕ_discrete}
use crypto_rust_tools.Piv.Tlv.{
  byte_at, read_len_bytes, read_ber_len_from, read_ber_len, end_of, overruns, not_found, tlv_at,
  read_tlv_loop, read_tlv,
}

read_len_bytes_next :
    (rounds : ℕ) (bytes : Bytes) (i len n next : ℕ)
    → read_len_bytes rounds bytes i len ≡ ok (n, next)
    → next ≡ i + rounds
unfolding read_len_bytes
read_len_bytes_next zero bytes i len n next h = ground arith
read_len_bytes_next (suc rounds) bytes i len n next h =
    let (b, e, f) = >>=-eq-ok (byte_at bytes i) _ h in
    omega (arith, read_len_bytes_next rounds bytes (i + 1) (len * 256 + b) n next f)

read_ber_len_from_next :
    (first : ℕ) (bytes : Bytes) (i n next : ℕ)
    → read_ber_len_from first bytes i ≡ ok (n, next)
    → i ≤ next
unfolding read_ber_len_from
read_ber_len_from_next first bytes i n next h =
    ground (arith, read_len_bytes_next (first % 128) bytes i 0 n next)

read_ber_len_next : (bytes : Bytes) (i n next : ℕ) → read_ber_len bytes i ≡ ok (n, next) → i < next
unfolding read_ber_len
read_ber_len_next bytes i n next h =
    let (b, e, f) = >>=-eq-ok (byte_at bytes i) _ h in
    omega (arith, read_ber_len_from_next b bytes (i + 1) n next f)

end_of_bounds :
    (bytes : Bytes) (start len end : ℕ)
    → end_of bytes start len ≡ some end
    → (end ≡ start + len) × (end ≤ length bytes)
unfolding end_of
end_of_bounds bytes start len end h = ground arith

ok_or-eq-ok {ℓ κ} :
    {A : Type ℓ} {E : Type κ} (e : E) (o : Option A) {a : A} → ok_or e o ≡ ok a → o ≡ some a
ok_or-eq-ok e none h = cc
ok_or-eq-ok e (some a) h = cc

-- A record that is read lies ahead of the position, inside the buffer.
pub tlv_at_bounds :
    (bytes : Bytes) (i t start end : ℕ)
    → tlv_at bytes i ≡ ok (t, start, end)
    → (i < start) × (start ≤ end) × (end ≤ length bytes)
unfolding tlv_at
tlv_at_bounds bytes i t start end h =
    let ((len, s), e, f) = >>=-eq-ok (read_ber_len bytes (i + 1)) _ h in
    let (x, g, k) = >>=-eq-ok (ok_or (overruns (get_or bytes i 0)) (end_of bytes s len)) _ f in
    let b = end_of_bounds bytes s len x (ok_or-eq-ok _ (end_of bytes s len) g) in
    let n = read_ber_len_next bytes (i + 1) len s e in
    let u : (s ≡ start) × (x ≡ end) = (cc k, cc k) in
    (omega (arith, n, u.0), omega (arith, b.0, u.0, u.1), omega (arith, b.1, u.1))

-- What one round of the loop does.
module _ (fuel : ℕ) (bytes : Bytes) (tag i : ℕ) where
  pub read_tlv_loop_past :
      length bytes ≤ i → read_tlv_loop (suc fuel) bytes tag i ≡ some (err (not_found tag))
  unfolding read_tlv_loop
  read_tlv_loop_past h = ground arith

  pub read_tlv_loop_bad :
      (e : Error)
      → i < length bytes
      → tlv_at bytes i ≡ err e
      → read_tlv_loop (suc fuel) bytes tag i ≡ some (err e)
  unfolding read_tlv_loop
  read_tlv_loop_bad e h bad = ground arith

  pub read_tlv_loop_hit :
      (start end : ℕ)
      → i < length bytes
      → tlv_at bytes i ≡ ok (tag, start, end)
      → read_tlv_loop (suc fuel) bytes tag i ≡ some (ok (slice bytes start end))
  unfolding read_tlv_loop
  read_tlv_loop_hit start end h good = ground arith

  pub read_tlv_loop_miss :
      (t start end : ℕ)
      → i < length bytes
      → tlv_at bytes i ≡ ok (t, start, end)
      → t ≢ tag
      → read_tlv_loop (suc fuel) bytes tag i ≡ read_tlv_loop fuel bytes tag end
  unfolding read_tlv_loop
  read_tlv_loop_miss t start end h good other = ground arith

-- The cases of one round.
data Round (bytes : Bytes) (tag i : ℕ) : Type 0 where
  past : length bytes ≤ i → Round bytes tag i
  bad : (e : Error) → i < length bytes → tlv_at bytes i ≡ err e → Round bytes tag i
  hit :
      (start end : ℕ) → i < length bytes → tlv_at bytes i ≡ ok (tag, start, end) → Round bytes tag i
  miss :
      (t start end : ℕ)
      → i < length bytes
      → tlv_at bytes i ≡ ok (t, start, end)
      → t ≢ tag
      → Round bytes tag i

round : (bytes : Bytes) (tag i : ℕ) → Round bytes tag i
round bytes tag i = elim (dec_lt i (length bytes)) [
  | no h ↦ past (omega arith)
  | yes h ↦ elim (Result-cases (tlv_at bytes i)) [
    | inr (e, b) ↦ bad e h b
    | inl ((t, start, end), g) ↦ elim (ℕ_discrete t tag) [
      | yes same ↦ hit start end h (cc (g, same))
      | no other ↦ miss t start end h g other
    ]
  ]
]

-- Fuel for every byte that is left is enough: the loop has a result.
read_tlv_loop_ends :
    (fuel : ℕ) (bytes : Bytes) (tag i : ℕ)
    → length bytes ≤ fuel + i
    → (r : Result Bytes Error) × (read_tlv_loop fuel bytes tag i ≡ some r)
read_tlv_loop_ends zero bytes tag i h = (err (not_found tag), unfold read_tlv_loop in ground arith)
read_tlv_loop_ends (suc fuel) bytes tag i h = elim (round bytes tag i) [
  | past p ↦ (err (not_found tag), read_tlv_loop_past fuel bytes tag i p)
  | bad e p b ↦ (err e, read_tlv_loop_bad fuel bytes tag i e p b)
  | hit start end p g ↦
      (ok (slice bytes start end), read_tlv_loop_hit fuel bytes tag i start end p g)
  | miss t start end p g other ↦ rw (read_tlv_loop_miss fuel bytes tag i t start end p g other) (
      read_tlv_loop_ends fuel bytes tag end
        (let b = tlv_at_bounds bytes i t start end g in omega (arith, b)))
]

-- The loop of `read_tlv` ends on every buffer, and `read_tlv` is its result.
pub read_tlv_loop_total :
    (bytes : Bytes) (tag : ℕ) → read_tlv_loop (length bytes) bytes tag 0 ≡ some (read_tlv bytes tag)
unfolding read_tlv
read_tlv_loop_total bytes tag =
    let (r, e) = read_tlv_loop_ends (length bytes) bytes tag 0 (omega arith) in ground arith

-- What a record that is read is: its tag, and a length whose bytes end where the value starts.
tlv_at_parts :
    (bytes : Bytes) (i t start end : ℕ)
    → tlv_at bytes i ≡ ok (t, start, end)
    → (len : ℕ) × (get_or bytes i 0 ≡ t)
      × (read_ber_len bytes (i + 1) ≡ ok (len, start))
      × (end ≡ start + len)
unfolding tlv_at
tlv_at_parts bytes i t start end h =
    let ((len, s), e, f) = >>=-eq-ok (read_ber_len bytes (i + 1)) _ h in
    let (x, g, k) = >>=-eq-ok (ok_or (overruns (get_or bytes i 0)) (end_of bytes s len)) _ f in
    let b = end_of_bounds bytes s len x (ok_or-eq-ok _ (end_of bytes s len) g) in
    let u : (s ≡ start) × (x ≡ end) = (cc k, cc k) in
    (len, cc k, e ∙ ap (λ x. ok (len, x)) u.0, omega (arith, b.0, u.0, u.1))

-- The value belongs to the tag that stands at `at`: the length that stands behind the tag ends before
-- `start`, and the value is the bytes of the buffer from there, as many as this length says.
pub record Inside (bytes : Bytes) (tag : ℕ) (value : Bytes) : Type 0 where
  pub at : ℕ
  pub start : ℕ
  pub len : ℕ
  pub tagged : get_or bytes at 0 ≡ tag
  pub length_read : read_ber_len bytes (at + 1) ≡ ok (len, start)
  pub ordered : at < start
  pub bounded : start + len ≤ length bytes
  pub is_slice : value ≡ take len (drop start bytes)
  pub sized : length value ≡ len

Inside-hit :
    (bytes : Bytes) (tag i start end : ℕ) (value : Bytes)
    → tlv_at bytes i ≡ ok (tag, start, end)
    → slice bytes start end ≡ value
    → Inside bytes tag value
unfolding slice
Inside-hit bytes tag i start end value g e =
    let (len, t, l, k) = tlv_at_parts bytes i tag start end g in
    let b = tlv_at_bounds bytes i tag start end g in
    let n : end - start ≡ len = omega (arith, k) in
    let same : value ≡ take len (drop start bytes) =
      sym e ∙ ap (λ x. take x (drop start bytes)) n in
    record {
      at = i;
      start = start;
      len = len;
      tagged = t;
      length_read = l;
      ordered = b.0;
      bounded = omega (arith, b.2, k);
      is_slice = same;
      sized =
          ap length same
          ∙ length-take len (drop start bytes) (omega (arith, length-drop start bytes, b.2, k));
    }

read_tlv_loop-Inside :
    (fuel : ℕ) (bytes : Bytes) (tag i : ℕ) (value : Bytes)
    → read_tlv_loop fuel bytes tag i ≡ some (ok value)
    → Inside bytes tag value
read_tlv_loop-Inside zero bytes tag i value h = absurd (unfold read_tlv_loop in ground arith)
read_tlv_loop-Inside (suc fuel) bytes tag i value h = elim (round bytes tag i) [
  | past p ↦ absurd (cc (read_tlv_loop_past fuel bytes tag i p))
  | bad e p b ↦ absurd (cc (read_tlv_loop_bad fuel bytes tag i e p b))
  | hit start end p g ↦
      Inside-hit bytes tag i start end value g
        (cc (read_tlv_loop_hit fuel bytes tag i start end p g))
  | miss t start end p g other ↦
      read_tlv_loop-Inside fuel bytes tag end value
        (sym (read_tlv_loop_miss fuel bytes tag i t start end p g other) ∙ h)
]

-- A value that `read_tlv` returns belongs to a tag in the buffer that is the given one, and to the
-- length that `read_ber_len` reads behind it: the value is the bytes of the buffer from the end of
-- this length on, exactly as many as it says, and the buffer has so many bytes from there.
pub read_tlv-Inside :
    (bytes : Bytes) (tag : ℕ) (value : Bytes)
    → read_tlv bytes tag ≡ ok value
    → Inside bytes tag value
read_tlv-Inside bytes tag value h =
    read_tlv_loop-Inside (length bytes) bytes tag 0 value
      (read_tlv_loop_total bytes tag ∙ ap some h)
