-- ===== src/Piv/Tlv/Items.antt =====
-- yubiwallet/src/piv.rs: `read_tlv` on a well-formed sequence of records is a lookup of the tag.
use crypto_rust_tools.Base.{ℕ, zero, suc, ◌+◌, ◌^◌, ◌≤◌, ◌<◌, ◌≡◌, ◌≢◌, refl, arith, sym, ap, ◌∙◌}
use mathlib.Core.Path.{subst}
use crypto_rust_tools.Base.{List, [], ◌∷◌, ◌++◌, append_assoc, Bytes, length, length-append, slice}
use crypto_rust_tools.Base.{◌==◌, if◌then◌else◌, Result, ok, err, All, some}
use crypto_rust_tools.Base.{get_or-append_length, slice-append}
use crypto_rust_tools.Error.{Error}
use native.Mathlib.Decide.{ℕ_discrete}
use crypto_rust_tools.Piv.Tlv.{
  ber_len, read_ber_len, end_of, not_found, tlv_at, read_tlv_loop, read_tlv,
}
use crypto_rust_tools.Piv.Tlv.Lengths.{read_ber_len-ber_len}
use crypto_rust_tools.Piv.Tlv.Progress.{read_tlv_loop_hit, read_tlv_loop_miss, read_tlv_loop_total}

-- One record: tag, length, value.
abbrev pub tlv : ℕ → Bytes → Bytes
tlv tag value = tag ∷ (ber_len (length value) ++ value)

abbrev pub tlvs : List (ℕ × Bytes) → Bytes
tlvs [] = []
tlvs ((t, v) ∷ items) = tlv t v ++ tlvs items

-- The value of the first record with the tag.
unfoldable pub lookup_tag : List (ℕ × Bytes) → ℕ → Result Bytes Error
lookup_tag [] tag = err (not_found tag)
lookup_tag ((t, v) ∷ items) tag = if t == tag then ok v else lookup_tag items tag

-- Every value has a length that `ber_len` can write.
abbrev pub AreShort : List (ℕ × Bytes) → Type 0
AreShort = All (λ (t, v). length v < 2 ^ 24)

end_of_fits :
    (bytes : Bytes) (start len : ℕ)
    → start + len ≤ length bytes
    → length bytes < 2 ^ 64
    → end_of bytes start len ≡ some (start + len)
unfolding end_of
end_of_fits bytes start len h k = ground arith

-- The length of a record stands behind its tag.
read_ber_len-tlv :
    (t : ℕ) (v pre post : Bytes) (i : ℕ)
    → i ≡ length pre
    → length v < 2 ^ 24
    → read_ber_len (pre ++ (tlv t v ++ post)) (i + 1)
      ≡ ok (length v, i + 1 + length (ber_len (length v)))
read_ber_len-tlv t v pre post i e h =
    let n = length v in
    let regroup : pre ++ (tlv t v ++ post) ≡ (pre ++ (t ∷ [])) ++ (ber_len n ++ (v ++ post)) =
      simp append_assoc in
    rw regroup (
      read_ber_len-ber_len n (i + 1) (pre ++ (t ∷ [])) (v ++ post) h
        (omega (arith, length-append pre (t ∷ []))))

length-tlv :
    (t : ℕ) (v pre post : Bytes)
    → length (pre ++ (tlv t v ++ post))
      ≡ length pre + (1 + length (ber_len (length v)) + length v) + length post
length-tlv t v pre post = omega (
  arith,
  length-append pre (tlv t v ++ post),
  length-append (tlv t v) post,
  length-append (ber_len (length v)) v,
)

-- A record is read wherever it stands.
tlv_at-tlv :
    (t : ℕ) (v pre post : Bytes) (i : ℕ)
    → i ≡ length pre
    → length v < 2 ^ 24
    → length (pre ++ (tlv t v ++ post)) < 2 ^ 64
    → let start = i + 1 + length (ber_len (length v)) in
      tlv_at (pre ++ (tlv t v ++ post)) i ≡ ok (t, start, start + length v)
unfolding tlv_at
tlv_at-tlv t v pre post i e h k =
    let start = i + 1 + length (ber_len (length v)) in
    rw (
      get_or-append_length pre (tlv t v ++ post) 0 i 0 (omega arith),
      read_ber_len-tlv t v pre post i e h,
      end_of_fits (pre ++ (tlv t v ++ post)) start (length v)
          (omega (arith, length-tlv t v pre post)) k,
    )

-- The value of a record is the slice between the bounds that are read.
slice-tlv :
    (t : ℕ) (v pre post : Bytes) (i : ℕ)
    → i ≡ length pre
    → let start = i + 1 + length (ber_len (length v)) in
      slice (pre ++ (tlv t v ++ post)) start (start + length v) ≡ v
slice-tlv t v pre post i e =
    let b = ber_len (length v) in
    let regroup : pre ++ (tlv t v ++ post) ≡ (pre ++ (t ∷ b)) ++ (v ++ post) = simp append_assoc in
    let n : length (pre ++ (t ∷ b)) ≡ i + 1 + length b = omega (arith, length-append pre (t ∷ b)) in
    rw regroup (slice-append (pre ++ (t ∷ b)) v post _ _ (omega arith) (omega arith))

lookup_here : (t : ℕ) (v : Bytes) (items : List (ℕ × Bytes)) → lookup_tag ((t, v) ∷ items) t ≡ ok v
unfolding lookup_tag
lookup_here t v items = ground arith

lookup_further :
    (t tag : ℕ) (v : Bytes) (items : List (ℕ × Bytes))
    → t ≢ tag
    → lookup_tag ((t, v) ∷ items) tag ≡ lookup_tag items tag
unfolding lookup_tag
lookup_further t tag v items h = ground arith

read_tlv_loop-nil :
    (fuel : ℕ) (pre : Bytes) (tag i : ℕ)
    → i ≡ length pre
    → read_tlv_loop fuel (pre ++ []) tag i ≡ some (lookup_tag [] tag)
unfolding read_tlv_loop lookup_tag
read_tlv_loop-nil zero pre tag i e = ground (arith, length-append pre [])
read_tlv_loop-nil (suc fuel) pre tag i e = ground (arith, length-append pre [])

read_tlv_loop-tlvs :
    (items : List (ℕ × Bytes)) (fuel : ℕ) (pre : Bytes) (tag i : ℕ)
    → i ≡ length pre
    → AreShort items
    → length (pre ++ tlvs items) < 2 ^ 64
    → length (tlvs items) ≤ fuel
    → read_tlv_loop fuel (pre ++ tlvs items) tag i ≡ some (lookup_tag items tag)
read_tlv_loop-tlvs [] fuel pre tag i e s k f = read_tlv_loop-nil fuel pre tag i e
read_tlv_loop-tlvs ((t, v) ∷ items) zero pre tag i e s k f = absurd (omega arith)
read_tlv_loop-tlvs ((t, v) ∷ items) (suc fuel) pre tag i e (h, hs) k f =
    let bytes = pre ++ (tlv t v ++ tlvs items) in
    let start = i + 1 + length (ber_len (length v)) in
    let l = length-append (ber_len (length v)) v in
    let inside : i < length bytes = omega (arith, length-tlv t v pre (tlvs items)) in
    let read = tlv_at-tlv t v pre (tlvs items) i e h k in
    let regroup = append_assoc pre (tlv t v) (tlvs items) in
    elim (ℕ_discrete t tag) [
      | yes same ↦ rw (← same) (
          read_tlv_loop_hit fuel bytes t i start (start + length v) inside read
          ∙ ap (λ x. some (ok x)) (slice-tlv t v pre (tlvs items) i e)
          ∙ ap some (sym (lookup_here t v items)))
      | no other ↦
          read_tlv_loop_miss fuel bytes tag i t start (start + length v) inside read other
          ∙ subst (λ b. read_tlv_loop fuel b tag (start + length v) ≡ some (lookup_tag items tag))
              regroup
              (read_tlv_loop-tlvs items fuel (pre ++ tlv t v) tag (start + length v)
                (omega (arith, length-append pre (tlv t v), l)) hs (rw regroup k)
                (omega (arith, length-append (tlv t v) (tlvs items))))
          ∙ ap some (sym (lookup_further t tag v items other))
    ]

-- On a sequence of records whose values are shorter than 2 ^ 24 bytes, and which has less than
-- 2 ^ 64 bytes in all, `read_tlv` returns the value of the first record with the tag, and the error
-- for a missing tag if there is none.
pub read_tlv-tlvs :
    (items : List (ℕ × Bytes)) (tag : ℕ)
    → AreShort items
    → length (tlvs items) < 2 ^ 64
    → read_tlv (tlvs items) tag ≡ lookup_tag items tag
read_tlv-tlvs items tag s k =
    let loop = read_tlv_loop-tlvs items (length (tlvs items)) [] tag 0 refl s k (omega arith) in
    cc (read_tlv_loop_total (tlvs items) tag, loop)
