-- ===== src/Host/Methods/Failures.antt =====
-- yubiwallet-host/src/main.rs, `dispatch`: the error codes that a client can meet.
use crypto_rust_tools.Base.{Bool, true, false, if◌then◌else◌, Bytes, List, [], ◌∷◌}
use crypto_rust_tools.Base.{Result, ok, err, map_err, ◌>>=◌, Result-cases, Option-cases, inl, inr}
use crypto_rust_tools.Text.{Text, codes, text_eq, split, trim_start_0x}
use crypto_rust_tools.Error.{Error}
use crypto_rust_tools.External.{Crates}
use crypto_rust_tools.Transport.{Platform, Session, Act, and_then, lift, relabel, rewrap}
use crypto_rust_tools.Account.{Account, parse_applet, parse_slot, parse_curve}
use crypto_rust_tools.Wallet.{get_pubkey, sign_with_pin, as_array}
use crypto_rust_tools.Eth.{ethereum_signature}
use crypto_rust_tools.Host.Accounts.{Failure, parse_parts, parse_account}
use crypto_rust_tools.Host.Methods.{
  Terminal, fail, bad_request, card_err, read_pin, param_str, param_hex, param_account, pin_failed,
  signature_json, exactly, sign_secp256k1, sign_ed25519, dispatch,
}

-- The codes of the protocol.
pub data IsCode : Text → Type 0 where
  bad_request_code : IsCode (codes "BAD_REQUEST")
  unknown_account_code : IsCode (codes "UNKNOWN_ACCOUNT")
  card_error_code : IsCode (codes "CARD_ERROR")
  pin_failed_code : IsCode (codes "PIN_FAILED")
  unsupported_method_code : IsCode (codes "UNSUPPORTED_METHOD")

-- A failure, if it is one, has a code of the protocol.
abbrev pub HasCode : {A : Type 0} → Result A Failure → Type 0
HasCode (ok a) = Unit {0}
HasCode (err f) = IsCode f.code

HasCode-map_err :
    {A E : Type 0} (g : E → Failure) (r : Result A E)
    → ((e : E) → IsCode (g e).code)
    → HasCode (map_err g r)
HasCode-map_err g (ok a) h = tt
HasCode-map_err g (err e) h = h e

HasCode->>= :
    {A B : Type 0} (r : Result A Failure) (f : A → Result B Failure)
    → HasCode r
    → ((a : A) → HasCode (f a))
    → HasCode (r >>= f)
HasCode->>= (ok a) f h k = k a
HasCode->>= (err e) f h k = h

parse_parts-HasCode : (id : Text) (parts : List Text) → HasCode (parse_parts id parts)
parse_parts-HasCode id [] = unknown_account_code
parse_parts-HasCode id (a ∷ []) = unknown_account_code
parse_parts-HasCode id (a ∷ s ∷ []) = unknown_account_code
parse_parts-HasCode id (a ∷ s ∷ c ∷ d ∷ parts) = unknown_account_code
parse_parts-HasCode id (a ∷ s ∷ c ∷ []) =
    HasCode->>= (map_err _ (parse_applet a)) _
      (HasCode-map_err _ (parse_applet a) λ e. unknown_account_code)
      λ applet.
        HasCode->>= (map_err _ (parse_slot applet s)) _
          (HasCode-map_err _ (parse_slot applet s) λ e. unknown_account_code)
          λ slot.
            HasCode->>= (map_err _ (parse_curve c)) _
              (HasCode-map_err _ (parse_curve c) λ e. unknown_account_code) λ curve. tt

module _ (C : Crates) (params : C.json.Value) where
  param_str-HasCode : (key : Text) → HasCode (param_str C params key)
  unfolding param_str
  param_str-HasCode key = elim (Option-cases (C.json.get_str params key)) [
    | inl n ↦ rw n bad_request_code
    | inr (t, e) ↦ rw e tt
  ]

  param_account-HasCode : HasCode (param_account C params)
  unfolding param_account parse_account
  param_account-HasCode = elim (Result-cases (param_str C params (codes "account_id"))) [
    | inl (id, e) ↦ rw (e, HasCode) (parse_parts-HasCode id (split b':' id))
    | inr (f, e) ↦ rw (e, HasCode) (rw e at (param_str-HasCode (codes "account_id")))
  ]

  param_hex-HasCode : (key : Text) → HasCode (param_hex C params key)
  unfolding param_hex
  param_hex-HasCode key = elim (Result-cases (param_str C params key)) [
    | inl (t, e) ↦
        rw (e, HasCode) (HasCode-map_err _ (C.hex.decode (trim_start_0x t)) λ x. bad_request_code)
    | inr (f, e) ↦ rw (e, HasCode) (rw e at (param_str-HasCode key))
  ]

module _ {P : Platform} where
  -- The same of a computation: a failure of its result has a code.
  abbrev pub Coded : {A : Type 0} → Result A Failure × Session P → Type 0
  Coded r = HasCode r.0

  Coded-and_then :
      {A B : Type 0} (r : Result A Failure × Session P) (f : A → Act P B Failure)
      → Coded r
      → ((a : A) (t : Session P) → Coded (f a t))
      → Coded (and_then r f)
  Coded-and_then (ok a, t) f h k = k a t
  Coded-and_then (err e, t) f h k = h

  Coded-rewrap :
      {A E : Type 0} (g : E → Failure) (r : Result A E × Session P)
      → ((e : E) → IsCode (g e).code)
      → Coded (rewrap g r)
  Coded-rewrap g (r, t) h = HasCode-map_err g r h

card_err-IsCode : (e : Error) → IsCode (card_err e).code
unfolding card_err
card_err-IsCode e = card_error_code

module _ (C : Crates) (P : Platform) (T : Terminal P) (params : C.json.Value) (s : Session P) where
  sign_ed25519-Coded : Coded (sign_ed25519 C P T params s)
  unfolding sign_ed25519
  sign_ed25519-Coded =
      Coded-and_then (lift (param_account C params) s) _ (param_account-HasCode C params) λ acc s1.
        Coded-and_then (lift (param_hex C params (codes "message")) s1) _
          (param_hex-HasCode C params (codes "message"))
          λ message s2.
            Coded-and_then (relabel (pin_failed C P T) (read_pin P T) s2) _
              (Coded-rewrap (pin_failed C P T) (read_pin P T s2) λ e. pin_failed_code)
              λ pin s3.
                Coded-and_then (relabel card_err (sign_with_pin P acc message pin) s3) _
                  (Coded-rewrap card_err (sign_with_pin P acc message pin s3) card_err-IsCode)
                  λ sig s4. tt

  sign_secp256k1-Coded : Coded (sign_secp256k1 C P T params s)
  unfolding sign_secp256k1
  sign_secp256k1-Coded =
      Coded-and_then (lift (param_account C params) s) _ (param_account-HasCode C params) λ acc s1.
        Coded-and_then (lift (param_hex C params (codes "prehash")) s1) _
          (param_hex-HasCode C params (codes "prehash"))
          λ prehash s2.
            Coded-and_then
              (lift (exactly C P T 32 (bad_request (codes "prehash must be 32 bytes")) prehash) s2)
              _ (HasCode-map_err _ (as_array 32 prehash) λ e. bad_request_code)
              λ hash s3.
                Coded-and_then (relabel card_err (get_pubkey C.hex P acc) s3) _
                  (Coded-rewrap card_err (get_pubkey C.hex P acc s3) card_err-IsCode)
                  λ pubkey s4. signing acc hash pubkey s4
    where
      signing :
          (acc : Account) (hash pubkey : Bytes) (s4 : Session P)
          → Coded (
              and_then (relabel (pin_failed C P T) (read_pin P T) s4) λ pin s5.
                and_then (relabel card_err (sign_with_pin P acc hash pin) s5) λ rs_vec s6.
                  and_then
                    (lift
                      (exactly C P T 64
                        (fail (codes "CARD_ERROR") (codes "expected 64-byte R||S"))
                        rs_vec)
                      s6)
                    λ rs s7.
                      and_then
                        (lift (map_err card_err (ethereum_signature C.k256 pubkey hash rs 0)) s7)
                        λ sig. lift (ok (signature_json C P T sig)))
      signing acc hash pubkey s4 =
          Coded-and_then (relabel (pin_failed C P T) (read_pin P T) s4) _
            (Coded-rewrap (pin_failed C P T) (read_pin P T s4) λ e. pin_failed_code)
            λ pin s5.
              Coded-and_then (relabel card_err (sign_with_pin P acc hash pin) s5) _
                (Coded-rewrap card_err (sign_with_pin P acc hash pin s5) card_err-IsCode)
                λ rs_vec s6.
                  Coded-and_then (lift (exactly C P T 64 _ rs_vec) s6) _
                    (HasCode-map_err _ (as_array 64 rs_vec) λ e. card_error_code)
                    λ rs s7.
                      Coded-and_then
                        (lift (map_err card_err (ethereum_signature C.k256 pubkey hash rs 0)) s7) _
                        (HasCode-map_err card_err (ethereum_signature C.k256 pubkey hash rs 0)
                          card_err-IsCode)
                        λ sig s8. tt

  choose :
      (b : Bool) (k m : Act P C.json.Value Failure)
      → Coded (k s)
      → Coded (m s)
      → Coded ((if b then k else m) s)
  choose true k m h g = h
  choose false k m h g = g

  -- Whatever the method and its parameters, a request that fails is answered with one of the codes
  -- BAD_REQUEST, UNKNOWN_ACCOUNT, CARD_ERROR, PIN_FAILED and UNSUPPORTED_METHOD.
  pub dispatch-Coded : (version method : Text) → Coded (dispatch C P T version method params s)
  unfolding dispatch
  dispatch-Coded version method = choose (text_eq method (codes "get_info")) _ _ tt (
      choose (text_eq method (codes "list_accounts")) _ _ tt (
        choose (text_eq method (codes "get_status")) _ _ tt (
          choose (text_eq method (codes "sign_secp256k1")) _ _ sign_secp256k1-Coded (
            choose (text_eq method (codes "sign_ed25519")) _ _ sign_ed25519-Coded
              unsupported_method_code))))
