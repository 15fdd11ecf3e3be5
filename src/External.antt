-- ===== src/External.antt =====
-- What the program calls of crates that are not part of the repository, with the laws that the
-- theorems rely on.
use crypto_rust_tools.Base.{All, leb, ◌&&◌, ◌||◌, true}
use crypto_rust_tools.Base.{
  ℕ, ◌*◌, ◌≡◌, List, Bytes, AreBytes, length, Result, ok, Option, none, some, Bool,
}
use crypto_rust_tools.Text.{Text}

-- `hex::encode` and `hex::decode`; an error is the text that it prints.
pub record Hex : Type 0 where
  pub encode : Bytes → Text
  pub decode : Text → Result Bytes Text

-- Lower-case hexadecimal digits.
abbrev pub AreDigits : Text → Type 0
AreDigits = All (λ c. (leb b'0' c && leb c b'9') || (leb b'a' c && leb c b'f') ≡ true)

-- Every byte sequence is read back from its hexadecimal form, two digits a byte.
pub record IsHex (H : Hex) : Type 0 where
  pub decode-encode : (b : Bytes) → AreBytes b → H.decode (H.encode b) ≡ ok b
  pub encode-AreDigits : (b : Bytes) → AreBytes b → AreDigits (H.encode b)
  pub length-encode : (b : Bytes) → length (H.encode b) ≡ 2 * length b

-- `Keccak256` over all that it is fed.
abbrev pub Keccak : Type 0
Keccak = Bytes → Bytes

abbrev pub IsKeccak : Keccak → Type 0
IsKeccak keccak = (b : Bytes) → length (keccak b) ≡ 32

-- What `eth.rs` uses of `k256::ecdsa`. `recover` is `VerifyingKey::recover_from_prehash` with
-- `RecoveryId::from_byte` of 0 or 1, which both are valid.
pub record K256 : Type 1 where
  pub Key : Type 0
  pub Signature : Type 0
  pub from_sec1_bytes : Bytes → Result Key Text
  pub from_slice : Bytes → Result Signature Text
  pub normalize_s : Signature → Option Signature
  pub recover : Bytes → Signature → ℕ → Result Key Text
  pub key_eq : Key → Key → Bool
  pub to_bytes : Signature → Bytes
  -- `to_der().as_bytes()`
  pub to_der : Signature → Bytes

-- `normalize_s` is none exactly on signatures that are low already, so what it returns is low;
-- and a signature has 64 bytes.
pub record IsK256 (K : K256) : Type 0 where
  pub normalize_s_low : (s t : K.Signature) → K.normalize_s s ≡ some t → K.normalize_s t ≡ none
  pub length-to_bytes : (s : K.Signature) → length (K.to_bytes s) ≡ 64

-- What the host uses of `serde_json`. `get_str v key` is `v.get(key).and_then(Value::as_str)`;
-- the fields of an object stand in the order of the `json!` call.
pub record Json : Type 1 where
  pub Value : Type 0
  pub object : List (Text × Value) → Value
  pub array : List Value → Value
  pub string : Text → Value
  pub number : ℕ → Value
  pub boolean : Bool → Value
  pub get_str : Value → Text → Option Text

-- The crates that the host is built on. `bs58_encode` is `bs58::encode(_).into_string()`.
pub record Crates : Type 1 where
  pub hex : Hex
  pub keccak : Keccak
  pub bs58_encode : Bytes → Text
  pub k256 : K256
  pub json : Json

-- `base64::engine::general_purpose::STANDARD`
pub record Base64 : Type 0 where
  pub encode : Bytes → Text
  pub decode : Text → Result Bytes Text
