-- ===== src/Piv/Tlv/Lengths.antt =====
-- yubiwallet/src/piv.rs: `read_ber_len` reads what `ber_len` writes, and what it takes in general.
use crypto_rust_tools.Base.{ℕ, ◌+◌, ◌%◌, ◌^◌, ◌≤◌, ◌<◌, ◌≡◌, arith}
use crypto_rust_tools.Base.{◌++◌, Bytes, AreBytes, length, get_elem?-append_length}
use crypto_rust_tools.Base.{ok}
use crypto_rust_tools.Piv.Tlv.{ber_len, read_ber_len}

-- `ber_len` writes one to four bytes.
pub ber_len_shape :
    (n : ℕ) → (1 ≤ length (ber_len n)) × (length (ber_len n) ≤ 4) × AreBytes (ber_len n)
unfolding ber_len
ber_len_shape n = ground arith

-- Below 2 ^ 24 a length that `ber_len` writes is read back by `read_ber_len` wherever it stands,
-- and the index that comes with it is the one behind it.
pub read_ber_len-ber_len :
    (n i : ℕ) (pre post : Bytes)
    → n < 2 ^ 24
    → i ≡ length pre
    → read_ber_len (pre ++ (ber_len n ++ post)) i ≡ ok (n, i + length (ber_len n))
unfolding ber_len read_ber_len
read_ber_len-ber_len n i pre post h e = ground (
  arith,
  get_elem?-append_length pre (ber_len n ++ post) i 0,
  get_elem?-append_length pre (ber_len n ++ post) (i + 1) 1,
  get_elem?-append_length pre (ber_len n ++ post) (i + 1 + 1) 2,
  get_elem?-append_length pre (ber_len n ++ post) (i + 1 + 1 + 1) 3,
)

-- From 2 ^ 24 on `ber_len` keeps the lowest 24 bits of the length, and that is what is read back.
pub read_ber_len-ber_len_wraps :
    (n i : ℕ) (pre post : Bytes)
    → 2 ^ 24 ≤ n
    → i ≡ length pre
    → read_ber_len (pre ++ (ber_len n ++ post)) i ≡ ok (n % 2 ^ 24, i + 4)
unfolding ber_len read_ber_len
read_ber_len-ber_len_wraps n i pre post h e = ground (
  arith,
  get_elem?-append_length pre (ber_len n ++ post) i 0,
  get_elem?-append_length pre (ber_len n ++ post) (i + 1) 1,
  get_elem?-append_length pre (ber_len n ++ post) (i + 1 + 1) 2,
  get_elem?-append_length pre (ber_len n ++ post) (i + 1 + 1 + 1) 3,
)
