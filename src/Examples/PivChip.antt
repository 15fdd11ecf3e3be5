-- ===== src/Examples/PivChip.antt =====
-- A chip with the PIV applet, which counts wrong PINs: yubiwallet/src/piv.rs.
use crypto_rust_tools.Base.{
  ap, Bool, List, leb, err, length-append, ℕ, zero, suc, ◌+◌, ◌≤◌, ◌≡◌, ◌≢◌, refl, arith, true,
  false, Option, none, some, [], ◌∷◌, ◌++◌, map, Bytes, bytes_eq, bytes_eq_sound, Bool-cases, inl,
  inr, length, drop, get_or, replicate, ◌==◌, if◌then◌else◌, Result, ok,
}
use crypto_rust_tools.Text.{trim}
use crypto_rust_tools.Text.{Text, codes, as_bytes}
use crypto_rust_tools.Transport.{Platform, Session}
use crypto_rust_tools.Account.{Account, piv, ed25519, is_valid, all}
use crypto_rust_tools.Piv.Data.{pin_padded}
use crypto_rust_tools.Piv
use crypto_rust_tools.Base.Search.{matches_at}
use crypto_rust_tools.Piv.Card.Chip.{select_apdu, response_template, IsObjectOf, stored_object}
use crypto_rust_tools.Piv.Card.Applet.{
  Stored, Phase, fresh, selected, verified, Chip, chip, Applet, Answers, selects, verifies, refuses,
  blocks, signs, lacks, reads, lacks_object, HasApplet,
}
use crypto_rust_tools.Piv.Card.Applet.Refine.{sign_refines}
use crypto_rust_tools.Piv.Card.Applet.Runs.{Types, Yields}
use crypto_rust_tools.Piv.Card.Applet.Reading.{
  key_prefix, IsStored, entry, list_accounts-get_pubkey,
}
use crypto_rust_tools.Examples.Scripts.{message, key}

abbrev pub signature_of : ℕ → Option Bytes
signature_of slot = if slot == 0x9c then some (replicate 64 0x5a) else none

abbrev reference : Bytes
reference = 0x31 ∷ 0x32 ∷ 0x33 ∷ 0x34 ∷ 0x35 ∷ 0x36 ∷ 0xff ∷ 0xff ∷ []

-- A certificate in the slot 9a.
abbrev stored : Stored
stored = record { cert = 0x30 ∷ (key_prefix ++ key); key = key }

abbrev cert_of : Option Stored → Bytes
cert_of none = []
cert_of (some o) = o.cert

abbrev object_in : Bool → Option Stored
object_in true = some stored
object_in false = none

-- By the last byte of the tag.
abbrev pub object_for : ℕ → Bytes
object_for low =
    if low == 0x05 then stored_object stored.cert ++ (0x90 ∷ 0x00 ∷ []) else 0x6a ∷ 0x82 ∷ []

abbrev pub applet : Applet
applet = record {
  pin = reference;
  limit = 3;
  info = [];
  signature = λ slot m. signature_of slot;
  object = λ slot. object_in (slot == 0x9a);
  missing1 = 0x6a;
  missing2 = 0x80;
  after = λ slot. selected;
}

abbrev pub authenticated : ℕ → ℕ → Option Bytes → Bytes × Chip
authenticated n slot none = (0x6a ∷ 0x80 ∷ [], chip verified n)
authenticated n slot (some sig) = (response_template sig ++ (0x90 ∷ 0x00 ∷ []), chip selected n)

abbrev pub compared : ℕ → Bytes → Bytes × Chip
compared zero command = (0x69 ∷ 0x83 ∷ [], chip selected zero)
compared (suc n) command =
    if bytes_eq (drop 5 command) reference
    then (0x90 ∷ 0x00 ∷ [], chip verified 3)
    else (0x63 ∷ (0xc0 + n) ∷ [], chip selected n)

abbrev pub reply : Phase → ℕ → Bytes → Bytes × Chip
reply fresh n command =
    if bytes_eq command select_apdu
    then (0x90 ∷ 0x00 ∷ [], chip selected n)
    else (0x6d ∷ 0x00 ∷ [], chip fresh n)
reply selected n command =
    if get_or command 1 0 == 0x20
    then compared n command
    else (object_for (get_or command 11 0), chip selected n)
reply verified n command = authenticated n (get_or command 3 0) (signature_of (get_or command 3 0))

-- What does not fit in the buffer is the error of PC/SC.
abbrev pub replied : ℕ → Bytes × Chip → Result Bytes Text × Chip
replied capacity (resp, d) =
    if leb (length resp) capacity then (ok resp, d) else (err (codes "InsufficientBuffer"), d)

abbrev pub names : ℕ → Result (List Text) Text
names capacity =
    if leb 16 capacity then ok (codes "Yubico YubiKey" ∷ []) else err (codes "InsufficientBuffer")

abbrev pub chip_platform : Platform
chip_platform = record {
  State = Chip;
  establish = λ s. (ok tt, s);
  list_readers = λ n s. (names n, s);
  connect_card = λ reader s. (ok tt, chip fresh s.tries);
  transmit_card = λ command capacity s. replied capacity (reply s.phase s.tries command);
  print_flush = λ t s. (ok tt, s);
  read_line = λ s. (ok (codes "123456"), s);
}

bytes_eq-ne : {xs ys : Bytes} → xs ≢ ys → bytes_eq xs ys ≡ false
bytes_eq-ne {xs} {ys} h = elim (Bool-cases (bytes_eq xs ys)) [
  | inl e ↦ absurd (h (bytes_eq_sound xs ys e))
  | inr e ↦ e
]

-- The slot 9a is known by the last byte of the tag of its object.
low_of_slot : (slot low : ℕ) → IsObjectOf slot low → (low == 0x05) ≡ (slot == 0x9a)
low_of_slot slot low (inl h) = ground (arith, h)
low_of_slot slot low (inr (inl h)) = ground (arith, h)
low_of_slot slot low (inr (inr (inl h))) = ground (arith, h)
low_of_slot slot low (inr (inr (inr (inl h)))) = ground (arith, h)
low_of_slot slot low (inr (inr (inr (inr h)))) = ground (arith, h)

object_for-some :
    (b : Bool) (o : Stored)
    → object_in b ≡ some o
    → (if b then stored_object stored.cert ++ (0x90 ∷ 0x00 ∷ []) else 0x6a ∷ 0x82 ∷ [])
      ≡ stored_object o.cert ++ (0x90 ∷ 0x00 ∷ [])
object_for-some true o h = ap (λ x. stored_object (cert_of x) ++ (0x90 ∷ 0x00 ∷ [])) h
object_for-some false o h = absurd (cc h)

object_for-none :
    (b : Bool)
    → object_in b ≡ none
    → (if b then stored_object stored.cert ++ (0x90 ∷ 0x00 ∷ []) else 0x6a ∷ 0x82 ∷ [])
      ≡ 0x6a ∷ 0x82 ∷ []
object_for-none true h = absurd (cc h)
object_for-none false h = refl

reply_lem :
    {c d : Chip} {command body : Bytes} {sw1 sw2 : ℕ}
    → Answers applet c command body sw1 sw2 d
    → reply c.phase c.tries command ≡ (body ++ (sw1 ∷ sw2 ∷ []), d)
reply_lem (selects n) = refl
reply_lem (verifies n) = refl
reply_lem (refuses n bytes b l u e) = rw (bytes_eq-ne e)
reply_lem (blocks padded l) = refl
reply_lem (signs n slot m sig z e) = rw e
reply_lem (lacks n slot m z e) = rw e
reply_lem (reads n slot low o h e) =
    rw (low_of_slot slot low h, object_for-some (slot == 0x9a) o e) refl
reply_lem (lacks_object n slot low h e) =
    rw (low_of_slot slot low h, object_for-none (slot == 0x9a) e) refl

named : (n : ℕ) (s : Chip) → 16 ≤ n → names n ≡ ok (codes "Yubico YubiKey" ∷ [])
named n s z = ground arith

replied_fits :
    (n : ℕ) (body : Bytes) (sw1 sw2 : ℕ) (d : Chip)
    → length body + 2 ≤ n
    → replied n (body ++ (sw1 ∷ sw2 ∷ []), d) ≡ (ok (body ++ (sw1 ∷ sw2 ∷ [])), d)
replied_fits n body sw1 sw2 d z = let l = length-append body (sw1 ∷ sw2 ∷ []) in ground (arith, l)

pub has_applet : HasApplet chip_platform applet
has_applet = record {
  At = λ c s. s ≡ c;
  establishes = λ c s h. (s, refl, h);
  readers_size = 16;
  lists = λ c n s z h. (codes "Yubico YubiKey", [], s, rw (named n s z) refl, h);
  connects = λ c reader s h. (chip fresh s.tries, refl, rw h);
  answers = λ n s z h st. (_, rw (h, reply_lem st) (replied_fits n _ _ _ _ z), refl);
}

pub has_applet_size : has_applet.readers_size ≤ 2048
unfolding has_applet
has_applet_size = omega arith

-- A wrong PIN, with three tries left.
abbrev pub wrong_pin : Text
wrong_pin = codes "111111"

abbrev pub account : Account
account = record { applet = piv; slot = 0x9c; curve = ed25519 }

abbrev pub new_session : Session chip_platform
new_session = record { device = chip fresh 3; log = [] }

pub valid_slot : is_valid 0x9c ≡ true
unfolding is_valid
valid_slot = refl

abbrev pub wrong_padded : Bytes
wrong_padded = 0x31 ∷ 0x31 ∷ 0x31 ∷ 0x31 ∷ 0x31 ∷ 0x31 ∷ 0xff ∷ 0xff ∷ []

pub padded_form : pin_padded wrong_pin ≡ ok wrong_padded
unfolding pin_padded codes as_bytes
padded_form = refl

pub six_bytes : (6 ≤ length (as_bytes wrong_pin)) × (length (as_bytes wrong_pin) ≤ 8)
unfolding codes as_bytes
six_bytes = (omega arith, omega arith)

pub at_start : has_applet.At (chip fresh 3) new_session.device
unfolding has_applet
at_start = refl

-- The user types the right one at the prompt.
typed : Types has_applet (codes "123456")
unfolding codes trim has_applet
typed = record {
  line = codes "123456";
  trimmed = refl;
  prompts = λ c message s h. (s, refl, h);
  enters = λ c s h. (s, refl, h);
}

right_length : (6 ≤ length (as_bytes (codes "123456"))) × (length (as_bytes (codes "123456")) ≤ 8)
unfolding codes as_bytes
right_length = (omega arith, omega arith)

message_size : length message ≤ 65000
unfolding codes as_bytes
message_size = omega arith

sign_refines_example :
    Yields has_applet
      (chip selected 3)
      (ok (replicate 64 0x5a))
      (Piv.Card.sign chip_platform account message none new_session)
unfolding has_applet as_bytes codes
sign_refines_example =
    sign_refines has_applet account message none (codes "123456") (chip fresh 3) new_session refl
      valid_slot (inr (refl, typed)) right_length.0 right_length.1 message_size (omega arith)
      (omega arith) (omega arith) refl (omega arith) at_start

abbrev key_account : Account
key_account = record { applet = piv; slot = 0x9a; curve = ed25519 }

key_slot : is_valid 0x9a ≡ true
unfolding is_valid
key_slot = refl

all-IsStored : (slot : ℕ) → IsStored (applet.object slot)
unfolding matches_at
all-IsStored slot = stored_in (slot == 0x9a)
  where
    stored_in : (b : Bool) → IsStored (object_in b)
    stored_in true = (
      omega arith,
      record { pre = 0x30 ∷ []; post = []; splits = refl; sized = refl; is_first = (refl, tt) },
    )
    stored_in false = tt

list_accounts-get_pubkey_example :
    Yields has_applet
      (chip selected 3)
      (ok (map (entry applet) all))
      (Piv.Card.list_accounts chip_platform new_session)
    × Yields has_applet
        (chip selected 3)
        (ok key)
        (Piv.Card.get_pubkey chip_platform key_account new_session)
unfolding has_applet
list_accounts-get_pubkey_example =
    list_accounts-get_pubkey has_applet key_account (chip fresh 3) new_session refl key_slot
      (omega arith) (omega arith) all-IsStored at_start
