-- ===== src/Host/Frames.antt =====
-- yubiwallet-host/src/main.rs, `read_message` and `write_message`: one frame of native messaging
-- is the length of the message in four bytes, the lowest first, and the message.
use crypto_rust_tools.Base.{
  ℕ, ◌+◌, ◌*◌, ◌/◌, ◌%◌, ◌^◌, ◌≤◌, ◌<◌, ◌≡◌, refl, ap, arith, Option, none, some, Option-cases, inl,
  inr,
}
use crypto_rust_tools.Base.{
  [], ◌∷◌, ◌++◌, Bytes, length, length-append, take, drop, length-take, length-drop, ltb,
  if◌then◌else◌, get_or,
}
use crypto_rust_tools.Base.{take-append_length, drop-append_length}

-- `r.read_exact(&mut buf).ok()` on what is left of the input: it fails if the input ends first.
unfoldable pub read_exact : ℕ → Bytes → Option (Bytes × Bytes)
read_exact n input = if ltb (length input) n then none else some (take n input, drop n input)

-- `u32::from_le_bytes`
unfoldable pub from_le_bytes : Bytes → ℕ
from_le_bytes b =
    get_or b 0 0 + get_or b 1 0 * 2 ^ 8 + get_or b 2 0 * 2 ^ 16 + get_or b 3 0 * 2 ^ 24

-- `(n as u32).to_le_bytes()`
unfoldable pub to_le_bytes : ℕ → Bytes
to_le_bytes n = (n % 256) ∷ (n / 2 ^ 8 % 256) ∷ (n / 2 ^ 16 % 256) ∷ (n / 2 ^ 24 % 256) ∷ []

-- The message, and the input behind it.
unfoldable pub read_message : Bytes → Option (Bytes × Bytes)
read_message input = elim (read_exact 4 input) [
  | none ↦ none
  | some (len, rest) ↦ read_exact (from_le_bytes len) rest
]

-- What `write_message` appends to the output.
unfoldable pub write_message : Bytes → Bytes
write_message bytes = to_le_bytes (length bytes) ++ bytes

-- A message below 2 ^ 32 bytes that `write_message` writes is read back by `read_message`, and
-- the input behind it is left.
pub read_message-write_message :
    (message rest : Bytes)
    → length message < 2 ^ 32
    → read_message (write_message message ++ rest) ≡ some (message, rest)
unfolding read_message write_message read_exact to_le_bytes from_le_bytes
read_message-write_message message rest h = ground (
  arith,
  length-append message rest,
  take-append_length message rest (length message) refl,
  drop-append_length message rest (length message) refl,
)

read_exact_takes :
    (n : ℕ) (input front rest : Bytes)
    → read_exact n input ≡ some (front, rest)
    → (length front ≡ n) × (length input ≡ n + length rest)
unfolding read_exact
read_exact_takes n input front rest h =
    let fits : n ≤ length input = ground arith in
    let f : take n input ≡ front = ground arith in
    let r : drop n input ≡ rest = ground arith in
    (
      omega (arith, ap length f, length-take n input fits),
      omega (arith, ap length r, length-drop n input),
    )

-- A message that is read takes four bytes and its own length from the input.
pub read_message_takes :
    (input message rest : Bytes)
    → read_message input ≡ some (message, rest)
    → length input ≡ 4 + length message + length rest
unfolding read_message
read_message_takes input message rest h = elim (Option-cases (read_exact 4 input)) [
  | inl n ↦ absurd (ground arith)
  | inr ((len, more), e) ↦
      let u = read_exact_takes 4 input len more e in
      let v = read_exact_takes (from_le_bytes len) more message rest (ground arith) in
      omega (arith, u, v)
]
