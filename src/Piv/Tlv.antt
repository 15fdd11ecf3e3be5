-- ===== src/Piv/Tlv.antt =====
-- yubiwallet/src/piv.rs: BER-TLV lengths and the search for a tag.
pub mod Lengths
pub mod Progress
pub mod Items
use crypto_rust_tools.Base.{
  ℕ, zero, suc, ◌+◌, ◌-◌, ◌*◌, ◌/◌, ◌%◌, Bool, true, false, ◌||◌, Option, none, some,
}
use crypto_rust_tools.Base.{
  List, [], ◌∷◌, ◌++◌, Bytes, length, get_elem?, get_or, slice, checked_add,
}
use crypto_rust_tools.Base.{ltb, leb, ◌==◌, if◌then◌else◌, Result, ok, err, ok_or, ◌>>=◌}
use crypto_rust_tools.Text.{Text, codes, hex2_prefixed}
use crypto_rust_tools.Error.{Error, parse}

-- `as u8` is `% 256`, and `n >> 8` is `n / 256`.
unfoldable pub ber_len : ℕ → Bytes
ber_len n =
    if ltb n 0x80
    then (n % 256) ∷ []
    else if leb n 0xff
    then 0x81 ∷ (n % 256) ∷ []
    else if leb n 0xffff
    then 0x82 ∷ (n / 256 % 256) ∷ (n % 256) ∷ []
    else 0x83 ∷ (n / 65536 % 256) ∷ (n / 256 % 256) ∷ (n % 256) ∷ []

-- `data.get(i)` with its error.
unfoldable pub byte_at : Bytes → ℕ → Result ℕ Error
byte_at bytes i = ok_or (parse (codes "TLV length truncated")) (get_elem? bytes i)

-- The loop over the length bytes. `(len << 8) | b` is `len * 256 + b` for a byte `b`, and four
-- rounds at most stay below 2 ^ 32.
unfoldable pub read_len_bytes : ℕ → Bytes → ℕ → ℕ → Result (ℕ × ℕ) Error
unfolding byte_at
read_len_bytes zero bytes i len = ok (len, i)
read_len_bytes (suc rounds) bytes i len = do
  b ← byte_at bytes i
  read_len_bytes rounds bytes (i + 1) (len * 256 + b)

-- The part behind the first byte. `first & 0x7F` is `first % 128`.
unfoldable pub read_ber_len_from : ℕ → Bytes → ℕ → Result (ℕ × ℕ) Error
unfolding read_len_bytes
read_ber_len_from first bytes i =
    let num = first % 128 in
    if ltb first 0x80
    then ok (first, i)
    else if num == 0 || ltb 4 num
    then err (parse (codes "bad BER length byte " ++ hex2_prefixed first))
    else read_len_bytes num bytes i 0

unfoldable pub read_ber_len : Bytes → ℕ → Result (ℕ × ℕ) Error
unfolding byte_at read_ber_len_from
read_ber_len bytes i = do first ← byte_at bytes i; read_ber_len_from first bytes (i + 1)

unfoldable pub overruns : ℕ → Error
overruns t = parse (codes "TLV " ++ (hex2_prefixed t ++ codes " overruns buffer"))

unfoldable pub not_found : ℕ → Error
not_found tag = parse (codes "TLV tag " ++ (hex2_prefixed tag ++ codes " not found"))

-- `start.checked_add(len).filter(|&e| e <= data.len())`
unfoldable pub end_of : Bytes → ℕ → ℕ → Option ℕ
end_of bytes start len = elim (checked_add start len) [
  | none ↦ none
  | some e ↦ if leb e (length bytes) then some e else none
]

-- One round of the loop at a position inside the buffer: the tag that stands there, and the
-- bounds of its value.
unfoldable pub tlv_at : Bytes → ℕ → Result (ℕ × ℕ × ℕ) Error
tlv_at bytes i = do
  let t = get_or bytes i 0
  (len, start) ← read_ber_len bytes (i + 1)
  end ← ok_or (overruns t) (end_of bytes start len)
  ok (t, start, end)

-- The `while` loop, with fuel. Each round moves `i` forward, so the length of the buffer is
-- enough; `none` means that the fuel ran out.
unfoldable pub read_tlv_loop : ℕ → Bytes → ℕ → ℕ → Option (Result Bytes Error)
read_tlv_loop zero bytes tag i = if ltb i (length bytes) then none else some (err (not_found tag))
read_tlv_loop (suc fuel) bytes tag i = elim (ltb i (length bytes)) [
  | false ↦ some (err (not_found tag))
  | true ↦ elim (tlv_at bytes i) [
    | err e ↦ some (err e)
    | ok (t, start, end) ↦ elim (t == tag) [
      | true ↦ some (ok (slice bytes start end))
      | false ↦ read_tlv_loop fuel bytes tag end
    ]
  ]
]

-- `read_tlv`. The case without a result is not reached: `read_tlv_loop_total` in Progress.
unfoldable pub read_tlv : Bytes → ℕ → Result Bytes Error
read_tlv bytes tag = elim (read_tlv_loop (length bytes) bytes tag 0) [
  | some r ↦ r
  | none ↦ err (not_found tag)
]
