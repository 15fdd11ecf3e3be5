-- ===== src/Apdu.antt =====
-- yubiwallet/src/apdu.rs: construction of command APDUs, and the exchange with the card.
pub mod ShortForm
pub mod ExtendedForm
pub mod Response
pub mod Protocol
pub mod Service
pub mod Attempts
use crypto_rust_tools.Base.{ℕ, ◌+◌, ◌-◌, ◌*◌, ◌/◌, ◌%◌, Option, none, some, List, [], ◌∷◌, ◌++◌}
use crypto_rust_tools.Base.{Bytes, length, get_or, take, Result, ok, err, ltb, ◌==◌, if◌then◌else◌}
use crypto_rust_tools.Text.{Text}
use crypto_rust_tools.Error.{
  Error, pcsc, no_readers, short_response, card, data_too_long, status_word_message,
}
use crypto_rust_tools.Transport.{Platform, Session, M, ◌>>=◌, ◌>>◌, lift, call, exchange}

abbrev pub cla : ℕ
cla = 0x00

abbrev pub ins_select : ℕ
ins_select = 0xa4

abbrev pub ins_verify : ℕ
ins_verify = 0x20

abbrev pub ins_pso : ℕ
ins_pso = 0x2a

abbrev pub ins_internal_authenticate : ℕ
ins_internal_authenticate = 0x88

abbrev pub ins_get_public_key : ℕ
ins_get_public_key = 0x47

abbrev pub ins_general_authenticate : ℕ
ins_general_authenticate = 0x87

abbrev pub ins_get_data : ℕ
ins_get_data = 0xcb

-- The last step of `build_apdu`: `Le`, if there is one, behind the command so far.
abbrev push_le : Option ℕ → Bytes → Bytes
push_le none cmd = cmd
push_le (some le) cmd = cmd ++ (le ∷ [])

abbrev le_is_none : Option ℕ → Bytes
le_is_none none = 0x00 ∷ []
le_is_none (some le) = []

-- `d.len() as u8` is exact here, behind the guard.
unfoldable pub build_apdu : ℕ → ℕ → ℕ → ℕ → Option Bytes → Option ℕ → Result Bytes Error
build_apdu c ins p1 p2 (some d) le =
    if ltb 255 (length d)
    then err (data_too_long (length d))
    else ok (push_le le ((c ∷ ins ∷ p1 ∷ p2 ∷ []) ++ ((length d % 256) ∷ d)))
build_apdu c ins p1 p2 none le = ok (push_le le ((c ∷ ins ∷ p1 ∷ p2 ∷ []) ++ le_is_none le))

abbrev push_le_ext : Option ℕ → Bytes
push_le_ext none = []
push_le_ext (some le) = (le / 256 % 256) ∷ (le % 256) ∷ []

-- `>> 8` is `/ 256`; `as u8` and `& 0xFF` are `% 256`.
unfoldable pub build_apdu_ext : ℕ → ℕ → ℕ → ℕ → Bytes → Option ℕ → Bytes
build_apdu_ext c ins p1 p2 d le =
    (c ∷ ins ∷ p1 ∷ p2 ∷ 0x00 ∷ (length d / 256 % 256) ∷ (length d % 256) ∷ [])
    ++ (d ++ push_le_ext le)

-- What `transmit` makes of a response: the status word is its last two bytes.
unfoldable pub check_response : Bytes → Result Bytes Error
check_response resp =
    let n = length resp in
    let status = get_or resp (n - 2) 0 * 256 + get_or resp (n - 1) 0 in
    if ltb n 2
    then err short_response
    else if status == 0x9000
    then ok (take (n - 2) resp)
    else err (card status (status_word_message status))

-- The reader that `connect` chooses is the first.
abbrev pub first_reader : List Text → Result Text Error
first_reader [] = err no_readers
first_reader (r ∷ rs) = ok r

module _ (P : Platform) where
  unfoldable pub connect : M P (Unit {0})
  connect = do
    call pcsc P.establish
    readers ← call pcsc (P.list_readers 2048)
    reader ← lift (first_reader readers)
    call pcsc (P.connect_card reader)

  unfoldable pub transmit : Bytes → ℕ → M P Bytes
  transmit command capacity = do resp ← exchange command capacity; lift (check_response resp)

  unfoldable pub send : ℕ → ℕ → ℕ → ℕ → Option Bytes → Option ℕ → ℕ → M P Bytes
  send c ins p1 p2 d le capacity = do
    cmd ← lift (build_apdu c ins p1 p2 d le)
    transmit cmd capacity
