-- ===== src/Examples/Fixtures.antt =====
-- Concrete crates, a card that plays a script, a terminal and a wire format.
use crypto_rust_tools.Base.{
  ℕ, ◌+◌, ◌-◌, ◌*◌, ◌/◌, ◌%◌, ◌<◌, ◌≡◌, refl, arith, Bool, true, ◌&&◌, ◌||◌,
}
use crypto_rust_tools.Base.{
  Option, none, some, List, [], ◌∷◌, ◌++◌, Bytes, AreBytes, length, length-append, length-replicate,
  length-take,
}
use crypto_rust_tools.Base.{
  take, replicate, get_or, bytes_eq, ltb, leb, ◌==◌, if◌then◌else◌, Result, ok, err, map_ok,
}
use crypto_rust_tools.Text.{Text, codes}
use crypto_rust_tools.External.{Hex, IsHex, AreDigits, Keccak, IsKeccak, K256, IsK256, Json, Crates}
use crypto_rust_tools.Transport.{Platform, Session}
use crypto_rust_tools.Host.Methods.{Terminal}
use crypto_rust_tools.Host.Serve.{Host, Request, Wire}

-- Lower-case hexadecimal digits.
abbrev digit : ℕ → ℕ
digit n = if ltb n 10 then 48 + n else 87 + n

abbrev is_digit : ℕ → Bool
is_digit c = (leb 48 c && leb c 57) || (leb 97 c && leb c 102)

abbrev digit_value : ℕ → ℕ
digit_value c = if ltb c 58 then c - 48 else c - 87

abbrev encode_hex : Bytes → Text
encode_hex [] = []
encode_hex (b ∷ bs) = digit (b / 16) ∷ digit (b % 16) ∷ encode_hex bs

abbrev decode_pair : ℕ → ℕ → Result Bytes Text → Result Bytes Text
decode_pair c d rest =
    if is_digit c && is_digit d
    then map_ok (λ bs. (digit_value c * 16 + digit_value d) ∷ bs) rest
    else err (codes "Invalid character")

abbrev decode_hex : Text → Result Bytes Text
decode_hex [] = ok []
decode_hex (c ∷ []) = err (codes "Odd number of digits")
decode_hex (c ∷ d ∷ t) = decode_pair c d (decode_hex t)

abbrev pub hex : Hex
hex = record { encode = encode_hex; decode = decode_hex }

decode_pair-digits :
    (b : ℕ) (bs : Bytes)
    → b < 256
    → decode_pair (digit (b / 16)) (digit (b % 16)) (ok bs) ≡ ok (b ∷ bs)
decode_pair-digits b bs h = ground arith

decode_hex-encode_hex : (b : Bytes) → AreBytes b → decode_hex (encode_hex b) ≡ ok b
decode_hex-encode_hex [] h = refl
decode_hex-encode_hex (b ∷ bs) (h, hs) =
    rw (decode_hex-encode_hex bs hs) (decode_pair-digits b bs h)

encode_hex-AreDigits : (b : Bytes) → AreBytes b → AreDigits (encode_hex b)
encode_hex-AreDigits [] h = tt
encode_hex-AreDigits (b ∷ bs) (h, hs) = (ground arith, (ground arith, encode_hex-AreDigits bs hs))

length-encode_hex : (b : Bytes) → length (encode_hex b) ≡ 2 * length b
length-encode_hex [] = refl
length-encode_hex (b ∷ bs) = omega (arith, length-encode_hex bs)

pub hex-IsHex : IsHex hex
hex-IsHex = record {
  decode-encode = decode_hex-encode_hex;
  encode-AreDigits = encode_hex-AreDigits;
  length-encode = length-encode_hex;
}

-- A hash of 32 bytes: the length of what is hashed, and zeros.
abbrev pub keccak : Keccak
keccak b = (length b % 256) ∷ replicate 31 0

pub keccak-IsKeccak : IsKeccak keccak
keccak-IsKeccak b = refl

-- A signature of 64 bytes; its S is high if the first byte of S is 128 or more.
pub record Rs : Type 0 where
  pub is_low : Bool
  pub body : Bytes

abbrev sized : ℕ → Bytes → Result Bytes Text
sized n b = if length b == n then ok b else err (codes "wrong size")

abbrev lowered : Rs → Option Rs
lowered s = if s.is_low then none else some (record { is_low = true; body = s.body })

-- The public key that recovery id 1 yields; recovery id 0 yields another one.
abbrev pub point : Bytes
point = 0x04 ∷ replicate 64 0x11

abbrev recovered : ℕ → Bytes
recovered rid = 0x04 ∷ replicate 64 (rid * 0x11)

abbrev pub k256 : K256
k256 = record {
  Key = Bytes;
  Signature = Rs;
  from_sec1_bytes = sized 65;
  from_slice =
      λ b. map_ok (λ rs. record { is_low = ltb (get_or rs 32 0) 128; body = rs }) (sized 64 b);
  normalize_s = lowered;
  recover = λ hash s rid. ok (recovered rid);
  key_eq = bytes_eq;
  to_bytes = λ s. take 64 (s.body ++ replicate 64 0);
  to_der = λ s. 0x30 ∷ take 64 (s.body ++ replicate 64 0);
}

lowered_low : (s t : Rs) → lowered s ≡ some t → lowered t ≡ none
lowered_low s t h = ground arith

length-padded : (b : Bytes) → length (take 64 (b ++ replicate 64 0)) ≡ 64
length-padded b =
    length-take 64 (b ++ replicate 64 0)
      (omega (arith, length-append b (replicate 64 0), length-replicate {A = ℕ} 64 0))

pub k256-IsK256 : IsK256 k256
k256-IsK256 = record { normalize_s_low = lowered_low; length-to_bytes = λ s. length-padded s.body }

mutual
  pub data Value : Type 0 where
    object : Fields → Value
    array : Items → Value
    string : Text → Value
    boolean : Bool → Value
    number : ℕ → Value

  pub data Fields : Type 0 where
    no_fields : Fields
    field : Text → Value → Fields → Fields

  pub data Items : Type 0 where
    no_items : Items
    item : Value → Items → Items

abbrev to_items : List Value → Items
to_items [] = no_items
to_items (v ∷ vs) = item v (to_items vs)

abbrev to_fields : List (Text × Value) → Fields
to_fields [] = no_fields
to_fields ((k, v) ∷ fs) = field k v (to_fields fs)

abbrev as_str : Value → Option Text
as_str (string t) = some t
as_str _ = none

abbrev find : Fields → Text → Option Text
find no_fields key = none
find (field k v fs) key = if bytes_eq k key then as_str v else find fs key

abbrev get_str : Value → Text → Option Text
get_str (object fs) key = find fs key
get_str _ key = none

abbrev pub json : Json
json = record {
  Value = Value;
  object = λ fs. object (to_fields fs);
  array = λ vs. array (to_items vs);
  string = string;
  number = number;
  boolean = boolean;
  get_str = get_str;
}

abbrev pub crates : Crates
crates = record { hex = hex; keccak = keccak; bs58_encode = encode_hex; k256 = k256; json = json }

-- A card that answers with the responses of a script, one for each command.
abbrev play : List Bytes → Result Bytes Text × List Bytes
play [] = (err (codes "card removed"), [])
play (r ∷ rs) = (ok r, rs)

abbrev pub script : Platform
script = record {
  State = List Bytes;
  establish = λ s. (ok tt, s);
  list_readers = λ n s. (ok (codes "Yubico YubiKey" ∷ []), s);
  connect_card = λ reader s. (ok tt, s);
  transmit_card = λ command capacity s. play s;
  print_flush = λ t s. (ok tt, s);
  read_line = λ s. (ok (codes "123456"), s);
}

abbrev pub playing : List Bytes → Session script
playing responses = record { device = responses; log = [] }

-- The status word 90 00, alone and behind a response.
abbrev pub done : Bytes
done = 0x90 ∷ 0x00 ∷ []

abbrev pub terminal : Terminal script
terminal = record {
  env_pin = λ s. (ok (codes "123456"), s);
  tty_prompt = λ s. s;
  tty_open = λ s. (ok tt, s);
  tty_read_line = λ s. (ok (codes "123456"), s);
}

-- A request is its id and its method; a response is its id.
abbrev from_slice : Bytes → Result (Request Value) Text
from_slice [] = err (codes "EOF while parsing a value")
from_slice (id ∷ method) = ok (record { id = id; method = method; params = object no_fields })

abbrev pub wire : Wire Value
wire = record { from_slice = from_slice; to_vec = λ r. ok (r.id ∷ []) }

abbrev pub host : Host
host = record {
  crates = crates;
  platform = script;
  terminal = terminal;
  wire = wire;
  version = codes "0.1.0";
}
