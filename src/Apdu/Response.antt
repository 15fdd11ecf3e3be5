-- ===== src/Apdu/Response.antt =====
-- yubiwallet/src/apdu.rs, `transmit`: which responses are a success, and what the others become.
use crypto_rust_tools.Base.{
  ℕ, ◌+◌, ◌-◌, ◌*◌, ◌≤◌, ◌<◌, ◌≡◌, ◌≢◌, ◌↔◌, ◌⊎◌, inl, inr, ◌∙◌, refl, ap, arith, [], ◌∷◌, ◌++◌,
}
use crypto_rust_tools.Base.{
  Bytes, AreBytes, length, length-append, ok, err, ltb, ◌==◌, if◌then◌else◌,
}
use crypto_rust_tools.Base.{get_or-append_length, take-append_length, All-append_right, Bool-cases}
use crypto_rust_tools.Error.{Error, card, short_response, status_word_message}
use crypto_rust_tools.Apdu.{check_response}

-- A response of two bytes or more is data and the two bytes of its status word.
pub record Response (resp : Bytes) : Type 0 where
  pub body : Bytes
  pub sw1 : ℕ
  pub sw2 : ℕ
  pub splits : resp ≡ body ++ (sw1 ∷ sw2 ∷ [])

pub Response_of_length : (resp : Bytes) → 2 ≤ length resp → Response resp
Response_of_length [] h = absurd (omega arith)
Response_of_length (a ∷ []) h = absurd (omega arith)
Response_of_length (a ∷ b ∷ []) h = record { body = []; sw1 = a; sw2 = b; splits = refl }
Response_of_length (a ∷ b ∷ c ∷ resp) h =
    let r = Response_of_length (b ∷ c ∷ resp) (omega arith) in
    record { body = a ∷ r.body; sw1 = r.sw1; sw2 = r.sw2; splits = ap (λ t. a ∷ t) r.splits }

-- The function on a response that is split already.
pub check_response_split :
    (body : Bytes) (sw1 sw2 : ℕ)
    → check_response (body ++ (sw1 ∷ sw2 ∷ [])) ≡ (
        if sw1 * 256 + sw2 == 0x9000
        then ok body
        else err (card (sw1 * 256 + sw2) (status_word_message (sw1 * 256 + sw2))))
unfolding check_response
check_response_split body sw1 sw2 =
    let n : length (body ++ (sw1 ∷ sw2 ∷ [])) ≡ length body + 2 =
      length-append body (sw1 ∷ sw2 ∷ []) in
    rw
      (
        n,
        get_or-append_length body (sw1 ∷ sw2 ∷ []) 0 (length body + 2 - 2) 0 (omega arith),
        get_or-append_length body (sw1 ∷ sw2 ∷ []) 0 (length body + 2 - 1) 1 (omega arith),
        take-append_length body (sw1 ∷ sw2 ∷ []) (length body + 2 - 2) (omega arith),
      )
      (ground arith)

check_response_short : (resp : Bytes) → length resp < 2 → check_response resp ≡ err short_response
unfolding check_response
check_response_short resp h = ground arith

Response-IsU8 : {resp : Bytes} (r : Response resp) → AreBytes resp → (r.sw1 < 256) × (r.sw2 < 256)
Response-IsU8 r b =
    let t = All-append_right (λ x. x < 256) r.body (r.sw1 ∷ r.sw2 ∷ []) (rw r.splits at b) in
    (t.0, t.1.0)

-- `check_response`, by which `transmit` ends, succeeds exactly when the response, a sequence of
-- bytes, ends in the status word 90 00, and it returns the bytes in front of it.
pub check_response-eq-ok_iff :
    (resp body : Bytes)
    → AreBytes resp
    → (check_response resp ≡ ok body) ↔ (resp ≡ body ++ (0x90 ∷ 0x00 ∷ []))
check_response-eq-ok_iff resp body b = (sound, complete)
  where
    complete : resp ≡ body ++ (0x90 ∷ 0x00 ∷ []) → check_response resp ≡ ok body
    complete e = rw e (check_response_split body 0x90 0x00)

    long : (r : Response resp) → check_response resp ≡ ok body → resp ≡ body ++ (0x90 ∷ 0x00 ∷ [])
    long r h =
        let (u, l) = Response-IsU8 r b in
        let e = check_response_split r.body r.sw1 r.sw2 in
        let k : (r.sw1 ≡ 0x90) × (r.sw2 ≡ 0) × (r.body ≡ body) = ground (arith, r.splits, e, h) in
        r.splits ∙ cc (k.0, k.1, k.2)

    sound : check_response resp ≡ ok body → resp ≡ body ++ (0x90 ∷ 0x00 ∷ [])
    sound h = elim (Bool-cases (ltb (length resp) 2)) [
      | inl s ↦ absurd (ground (arith, check_response_short resp (ground arith)))
      | inr s ↦ long (Response_of_length resp (ground arith)) h
    ]

-- Every other response is an error: the one for short responses below two bytes, and else the one
-- that carries the status word with its message.
pub check_response-eq-err :
    (resp : Bytes) {e : Error}
    → check_response resp ≡ err e
    → ((length resp < 2) × (e ≡ short_response))
      ⊎ ((r : Response resp) × (r.sw1 * 256 + r.sw2 ≢ 0x9000)
          × (e ≡ card (r.sw1 * 256 + r.sw2) (status_word_message (r.sw1 * 256 + r.sw2))))
check_response-eq-err resp {e} h = elim (Bool-cases (ltb (length resp) 2)) [
  | inl s ↦ inl (ground arith, ground (arith, check_response_short resp (ground arith)))
  | inr s ↦
      let r = Response_of_length resp (ground arith) in
      let k = check_response_split r.body r.sw1 r.sw2 in
      inr (r, ground (arith, r.splits, k, h), ground (arith, r.splits, k, h))
]
