-- ===== src/Base/Marked.antt =====
-- Data of a fixed size behind the first occurrence of a marker, as both applets look for keys.
use Prim.Native.Nat.{ℕ, ◌+◌, ◌≤◌}
use mathlib.Core.Path.{◌≡◌, refl, ap}
use mathlib.Core.List.{◌∷◌, ◌++◌, append_assoc}
use mathlib.Core.Option.{some}
use native.Mathlib.Omega.{arith}
use crypto_rust_tools.Base.Lists.{
  Bytes, length, length-append, take, drop, length-take, take-append-drop, slice, slice-append,
}
use crypto_rust_tools.Base.Search.{position, position_sound, position_found, FirstAt}

-- `value` has `size` bytes and stands in `bytes` right behind the first occurrence of the marker.
pub record Marked (marker : Bytes) (size : ℕ) (bytes value : Bytes) : Type 0 where
  pub pre : Bytes
  pub post : Bytes
  pub splits : bytes ≡ pre ++ (marker ++ (value ++ post))
  pub sized : length value ≡ size
  pub is_first : FirstAt marker pre (marker ++ (value ++ post))

-- The slice that starts behind a marker, out of a buffer that is split already.
pub slice-marker :
    (pre marker value post : Bytes) (start end : ℕ)
    → start ≡ length pre + length marker
    → end ≡ start + length value
    → slice (pre ++ (marker ++ (value ++ post))) start end ≡ value
slice-marker pre marker value post start end h k = rw (← append_assoc pre marker (value ++ post)) (
    slice-append (pre ++ marker) value post start end (omega (arith, length-append pre marker))
      (omega (arith, length-append pre marker)))

-- The slice behind the position that the search reports, where it is in bounds.
pub slice-Marked :
    (marker : Bytes) (size : ℕ) (bytes : Bytes) (p : ℕ)
    → position marker bytes ≡ some p
    → p + length marker + size ≤ length bytes
    → Marked marker size bytes (slice bytes (p + length marker) (p + length marker + size))
slice-Marked marker size bytes p e h =
    let f = position_sound marker bytes p e in
    let value = take size f.post in
    let rest = drop size f.post in
    let whole : value ++ rest ≡ f.post = take-append-drop size f.post in
    let splits : bytes ≡ f.pre ++ (marker ++ (value ++ rest)) = rw whole f.splits in
    let fits : size ≤ length f.post = omega (
      arith,
      ap length f.splits,
      length-append f.pre (marker ++ f.post),
      length-append marker f.post,
      f.at_end,
    ) in
    let sized : length value ≡ size = length-take size f.post fits in
    let read : slice bytes (p + length marker) (p + length marker + size) ≡ value = rw splits (
      slice-marker f.pre marker value rest (p + length marker) (p + length marker + size)
        (omega (arith, f.at_end)) (omega (arith, sized))) in
    record {
      pre = f.pre;
      post = rest;
      splits = rw read splits;
      sized = rw read sized;
      is_first = rw (read, whole) f.is_first;
    }

-- Where a value stands behind the first marker, the search reports the place, and the slice behind
-- it is in bounds and is the value.
pub position-Marked :
    (n : ℕ) (rest : Bytes) (size : ℕ) (bytes value : Bytes)
    → Marked (n ∷ rest) size bytes value
    → (p : ℕ) × (position (n ∷ rest) bytes ≡ some p)
      × (p + length (n ∷ rest) + size ≤ length bytes)
      × (slice bytes (p + length (n ∷ rest)) (p + length (n ∷ rest) + size) ≡ value)
position-Marked n rest size bytes value m =
    let marker = n ∷ rest in
    (
      length m.pre,
      rw m.splits (position_found n rest m.pre (value ++ m.post) m.is_first),
      omega (
        arith,
        ap length m.splits,
        m.sized,
        length-append m.pre (marker ++ (value ++ m.post)),
        length-append marker (value ++ m.post),
        length-append value m.post,
      ),
      rw m.splits (slice-marker m.pre marker value m.post _ _ refl (omega (arith, m.sized))),
    )
