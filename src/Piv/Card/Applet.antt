-- ===== src/Piv/Card/Applet.antt =====
-- The PIV applet as NIST SP 800-73 documents it, for yubiwallet/src/piv.rs: a state machine with
-- the retry counter of the PIN, the steps it takes on the commands of `sign`, and what a signing
-- request to it amounts to.
pub mod Runs
pub mod Refine
pub mod Reading
use crypto_rust_tools.Base.{
  ℕ, zero, suc, ◌+◌, ◌-◌, ◌*◌, ◌≤◌, ◌<◌, ◌≡◌, ◌≢◌, Option, none, some, List, [], ◌∷◌, ◌++◌, Bytes,
  length, replicate, bytes_eq, if◌then◌else◌, Result, ok, err,
}
use crypto_rust_tools.Text.{Text, codes, decimal}
use crypto_rust_tools.Error.{Error, card, status_word_message}
use crypto_rust_tools.Transport.{Platform}
use crypto_rust_tools.Piv.Card.Chip.{
  select_apdu, verify_apdu, authenticate_apdu, response_template, get_data_apdu, IsObjectOf,
  stored_object,
}

-- Since the connection: nothing, the applet is selected, its PIN is verified.
pub data Phase : Type 0 where
  fresh selected verified : Phase

-- `tries`: how many wrong PINs in a row the chip still takes.
pub record Chip : Type 0 where
  pub phase : Phase
  pub tries : ℕ

abbrev pub chip : Phase → ℕ → Chip
chip p n = record { phase = p; tries = n }

-- What a slot's data object holds: a certificate, and the Ed25519 key in it.
pub record Stored : Type 0 where
  pub cert : Bytes
  pub key : Bytes

-- What differs between chips: the padded PIN, the initial retry counter, the answer to SELECT, the
-- signatures by the keys in the slots, the data objects of the slots, the status word for a slot without a key, and whether the
-- PIN counts as verified after a signature.
pub record Applet : Type 0 where
  pub pin : Bytes
  pub limit : ℕ
  pub info : Bytes
  pub signature : ℕ → Bytes → Option Bytes
  pub object : ℕ → Option Stored
  pub missing1 : ℕ
  pub missing2 : ℕ
  pub after : ℕ → Phase

-- `Answers a c command resp d`: the chip in the state `c` answers the command by the response, data
-- and status word, and is then in the state `d`. A reference PIN has six to eight bytes, and is
-- filled up with FF.
pub data Answers (a : Applet) : Chip → Bytes → Bytes → ℕ → ℕ → Chip → Type 0 where
  selects : (n : ℕ) → Answers a (chip fresh n) select_apdu a.info 0x90 0x00 (chip selected n)
  verifies :
      (n : ℕ)
      → Answers a (chip selected (suc n)) (verify_apdu a.pin) [] 0x90 0x00 (chip verified a.limit)
  refuses :
      (n : ℕ) (bytes : Bytes)
      → n < 16
      → 6 ≤ length bytes
      → length bytes ≤ 8
      → bytes ++ replicate (8 - length bytes) 0xff ≢ a.pin
      → Answers a
          (chip selected (suc n))
          (verify_apdu (bytes ++ replicate (8 - length bytes) 0xff))
          []
          0x63
          (0xc0 + n)
          (chip selected n)
  blocks :
      (padded : Bytes)
      → length padded ≡ 8
      → Answers a (chip selected 0) (verify_apdu padded) [] 0x69 0x83 (chip selected 0)
  signs :
      (n slot : ℕ) (message sig : Bytes)
      → length message ≤ 65000
      → a.signature slot message ≡ some sig
      → Answers a
          (chip verified n)
          (authenticate_apdu slot message)
          (response_template sig)
          0x90
          0x00
          (chip (a.after slot) n)
  lacks :
      (n slot : ℕ) (message : Bytes)
      → length message ≤ 65000
      → a.signature slot message ≡ none
      → Answers a
          (chip verified n)
          (authenticate_apdu slot message)
          []
          a.missing1
          a.missing2
          (chip verified n)
  reads :
      (n slot low : ℕ) (o : Stored)
      → IsObjectOf slot low
      → a.object slot ≡ some o
      → Answers a
          (chip selected n)
          (get_data_apdu low)
          (stored_object o.cert)
          0x90
          0x00
          (chip selected n)
  lacks_object :
      (n slot low : ℕ)
      → IsObjectOf slot low
      → a.object slot ≡ none
      → Answers a (chip selected n) (get_data_apdu low) [] 0x6a 0x82 (chip selected n)

-- There is a reader with a card in it that has this applet. `At c s`: in the state `s` of the
-- platform the chip is in the state `c`. A connection resets all but the retry counter. A call
-- succeeds only with a buffer that its result fits in: the names of the readers have `readers_size`
-- bytes.
pub record HasApplet (P : Platform) (a : Applet) : Type 1 where
  pub At : Chip → P.State → Type 0
  pub readers_size : ℕ
  pub establishes :
      (c : Chip) (s : P.State) → At c s → (t : P.State) × (P.establish s ≡ (ok tt, t)) × At c t
  pub lists :
      (c : Chip) (n : ℕ) (s : P.State)
      → readers_size ≤ n
      → At c s
      → (reader : Text) × (readers : List Text) × (t : P.State) × (P.list_readers n s
          ≡ (ok (reader ∷ readers), t))
        × At c t
  pub connects :
      (c : Chip) (reader : Text) (s : P.State)
      → At c s
      → (t : P.State) × (P.connect_card reader s ≡ (ok tt, t)) × At (chip fresh c.tries) t
  pub answers :
      {c d : Chip} {command body : Bytes} {sw1 sw2 : ℕ} (n : ℕ) (s : P.State)
      → length body + 2 ≤ n
      → At c s
      → Answers a c command body sw1 sw2 d
      → (t : P.State) × (P.transmit_card command n s ≡ (ok (body ++ (sw1 ∷ sw2 ∷ [])), t)) × At d t

-- An Ed25519 signature has 64 bytes.
abbrev pub IsSized : Option Bytes → Type 0
IsSized none = Unit
IsSized (some sig) = length sig ≡ 64

-- A request for a signature, seen from outside: the result, and the chip behind it.
module _ (a : Applet) where
  abbrev pub signed : ℕ → ℕ → Option Bytes → Result Bytes Error × Chip
  signed n slot (some sig) = (ok sig, chip (a.after slot) n)
  signed n slot none =
      let status = a.missing1 * 256 + a.missing2 in
      (err (card status (status_word_message status)), chip verified n)

  -- No retry left: the PIN is not even compared.
  abbrev pub request : ℕ → Bytes → ℕ → Bytes → Result Bytes Error × Chip
  request zero padded slot message = (
    err (card 0x6983 (codes "PIN verification failed. Authentication method blocked (PIN locked)")),
    chip selected 0,
  )
  request (suc n) padded slot message =
      if bytes_eq padded a.pin then signed a.limit slot (a.signature slot message) else (
        err (card (0x63c0 + n) (codes "PIN verification failed. Retries left: " ++ decimal n)),
        chip selected n,
      )
