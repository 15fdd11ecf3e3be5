-- ===== src/Host/Methods/Attempts.antt =====
-- yubiwallet-host/src/main.rs: how many PINs a request presents to the card.
use crypto_rust_tools.Base.{ℕ, ◌≤◌, arith, List, [], ◌∷◌, ◌++◌, Result, ok, err, map_err}
use crypto_rust_tools.Text.{Text, codes, text_eq, trim}
use crypto_rust_tools.External.{Crates}
use crypto_rust_tools.Transport.{Platform, Session, ◌>>=◌, lift}
use crypto_rust_tools.Transport.Attempts.{
  behind, Meter, AtMost, AtMost-pure, AtMost-bind, AtMost-lift, AtMost-rewrap, AtMost-weaken,
  AtMost-trans, AtMost-if,
}
use crypto_rust_tools.Account.{sig, aut}
use crypto_rust_tools.Eth.{ethereum_signature}
use crypto_rust_tools.OpenPgp
use crypto_rust_tools.Piv
use crypto_rust_tools.Wallet
use crypto_rust_tools.Host.Methods.{
  Terminal, card_err, exactly, pin_failed, signature_json, fail, bad_request, ask, read_tty,
  choose_pin, read_pin, param_account, param_hex, openpgp_entries, list_accounts, sign_secp256k1,
  sign_ed25519, dispatch,
}

-- The terminal adds nothing to what is spent.
pub record Unmetered {P : Platform} (M : Meter P) (T : Terminal P) : Type 0 where
  pub env_pin-le : (s : Session P) → M.spent (behind s (T.env_pin s.device)) ≤ M.spent s
  pub tty_prompt-le :
      (s : Session P) → M.spent (record s { device = T.tty_prompt s.device }) ≤ M.spent s
  pub tty_open-le : (s : Session P) → M.spent (behind s (T.tty_open s.device)) ≤ M.spent s
  pub tty_read_line-le : (s : Session P) → M.spent (behind s (T.tty_read_line s.device)) ≤ M.spent s

module _ {P : Platform} (M : Meter P) (T : Terminal P) (U : Unmetered M T) where
  ask_lem :
      {A : Type 0} (f : P.State → Result A Text × P.State) (s : Session P)
      → M.spent (behind s (f s.device)) ≤ M.spent s
      → AtMost M 0 s (ask P T f s)
  ask_lem f s h = record { bounded = omega (arith, h) }

  read_tty_lem : (s : Session P) → AtMost M 0 s (read_tty P T s)
  unfolding read_tty
  read_tty_lem s =
      let prompted : Session P = record s { device = T.tty_prompt s.device } in
      let opened =
        AtMost-rewrap {M = M} 0 prompted
          (λ e. codes "no PIN source (set YUBIWALLET_PIN or run with a tty): " ++ e) _
          (ask_lem T.tty_open prompted (U.tty_open-le prompted)) in
      let h =
        AtMost-bind {M = M} 0 0 prompted _
          (λ _. ask P T T.tty_read_line >>= λ line. lift (ok (trim line))) opened
          λ _ t.
            AtMost-bind 0 0 t _ _ (ask_lem T.tty_read_line t (U.tty_read_line-le t))
              λ line u. AtMost-pure 0 u (ok (trim line)) in
      record { bounded = omega (arith, h.bounded, U.tty_prompt-le s) }

  choose_pin_lem : (r : Result Text Text × Session P) → AtMost M 0 r.1 (choose_pin P T r)
  unfolding choose_pin
  choose_pin_lem (ok (c ∷ p), s) = AtMost-pure 0 s _
  choose_pin_lem (ok [], s) = read_tty_lem s
  choose_pin_lem (err e, s) = read_tty_lem s

  read_pin-AtMost : (s : Session P) → AtMost M 0 s (read_pin P T s)
  unfolding read_pin
  read_pin-AtMost s =
      AtMost-trans 0 0 s (ask P T T.env_pin s) _ (ask_lem T.env_pin s (U.env_pin-le s))
        (choose_pin_lem (ask P T T.env_pin s))

module _ (C : Crates) {P : Platform} (M : Meter P) where
  openpgp_entries-AtMost :
      (slots : List (Text × ℕ)) (s : Session P) → AtMost M 0 s (openpgp_entries C P slots s)
  unfolding openpgp_entries
  openpgp_entries-AtMost [] s = AtMost-pure 0 s _
  openpgp_entries-AtMost ((name, slot) ∷ slots) s =
      let h = OpenPgp.Card.Attempts.detect_account-AtMost M C.hex slot s in
      let k = openpgp_entries-AtMost slots (OpenPgp.Card.detect_account C.hex P slot s).1 in
      record { bounded = omega (arith, h.bounded, k.bounded) }

  list_accounts-AtMost : (s : Session P) → AtMost M 0 s (list_accounts C P s)
  unfolding list_accounts
  list_accounts-AtMost s =
      let h = openpgp_entries-AtMost ((codes "sig", sig) ∷ (codes "aut", aut) ∷ []) s in
      let k =
        Piv.Card.Attempts.list_accounts-AtMost M
          (openpgp_entries C P ((codes "sig", sig) ∷ (codes "aut", aut) ∷ []) s).1 in
      record { bounded = omega (arith, h.bounded, k.bounded) }

  module _ (T : Terminal P) (U : Unmetered M T) where
    sign_secp256k1-AtMost :
        (params : C.json.Value) (s : Session P) → AtMost M 1 s (sign_secp256k1 C P T params s)
    unfolding sign_secp256k1
    sign_secp256k1-AtMost params s = AtMost-lift 1 s (param_account C params) _ λ acc.
        AtMost-lift 1 s (param_hex C params (codes "prehash")) _ λ prehash.
          AtMost-lift 1 s
            (exactly C P T 32 (bad_request (codes "prehash must be 32 bytes")) prehash) _
            λ hash.
              AtMost-bind 0 1 s _ _
                (AtMost-rewrap 0 s card_err _ (Wallet.Attempts.get_pubkey-AtMost M C.hex acc s))
                λ pubkey t.
                  AtMost-bind 0 1 t _ _
                    (AtMost-rewrap 0 t (pin_failed C P T) _ (read_pin-AtMost M T U t))
                    λ pin u.
                      AtMost-bind 1 0 u _ _
                        (AtMost-rewrap 1 u card_err _
                          (Wallet.Attempts.sign_with_pin-AtMost M acc hash pin u))
                        λ rs_vec v.
                          AtMost-lift 0 v
                            (exactly C P T 64
                              (fail (codes "CARD_ERROR") (codes "expected 64-byte R||S")) rs_vec)
                            _
                            λ rs.
                              AtMost-lift 0 v
                                (map_err card_err (ethereum_signature C.k256 pubkey hash rs 0)) _
                                λ signed. AtMost-pure 0 v (ok (signature_json C P T signed))

    sign_ed25519-AtMost :
        (params : C.json.Value) (s : Session P) → AtMost M 1 s (sign_ed25519 C P T params s)
    unfolding sign_ed25519
    sign_ed25519-AtMost params s = AtMost-lift 1 s (param_account C params) _ λ acc.
        AtMost-lift 1 s (param_hex C params (codes "message")) _ λ message.
          AtMost-bind 0 1 s _ _ (AtMost-rewrap 0 s (pin_failed C P T) _ (read_pin-AtMost M T U s))
            λ pin t.
              AtMost-bind 1 0 t _ _
                (AtMost-rewrap 1 t card_err _
                  (Wallet.Attempts.sign_with_pin-AtMost M acc message pin t))
                λ signed u. AtMost-pure 0 u _

    -- A request, whatever its method and parameters, presents a PIN to the card once at most.
    pub dispatch-AtMost :
        (version method : Text) (params : C.json.Value) (s : Session P)
        → AtMost M 1 s (dispatch C P T version method params s)
    unfolding dispatch
    dispatch-AtMost version method params s =
        let listed = AtMost-weaken 0 1 s _ (omega arith) (list_accounts-AtMost s) in
        AtMost-if 1 s (text_eq method (codes "get_info")) _ _ (AtMost-pure 1 s _) (
          AtMost-if 1 s (text_eq method (codes "list_accounts")) _ _
            (record { bounded = listed.bounded })
            (AtMost-if 1 s (text_eq method (codes "get_status")) _ _
              (record { bounded = listed.bounded })
              (AtMost-if 1 s (text_eq method (codes "sign_secp256k1")) _ _
                (sign_secp256k1-AtMost params s)
                (AtMost-if 1 s (text_eq method (codes "sign_ed25519")) _ _
                  (sign_ed25519-AtMost params s) (AtMost-pure 1 s _)))))
