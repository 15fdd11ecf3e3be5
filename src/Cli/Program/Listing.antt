-- ===== src/Cli/Program/Listing.antt =====
-- yubiwallet/src/main.rs: when the listing of all accounts succeeds.
use crypto_rust_tools.Base.{ℕ, ◌+◌, ◌==◌, if◌then◌else◌, List, [], ◌∷◌, ◌++◌, Bool, true, false}
use crypto_rust_tools.Base.{
  ◌≡◌, refl, ap, ◌∙◌, Bytes, Result, ok, err, map_err, map_ok, Option-cases, inl, inr,
}
use crypto_rust_tools.Text.{Text, codes}
use crypto_rust_tools.Error.{Error, to_string}
use crypto_rust_tools.Transport.{Platform, Session}
use crypto_rust_tools.Account.{Curve, sig, aut}
use crypto_rust_tools.OpenPgp.Card.{detect_account}
use crypto_rust_tools.Piv
use crypto_rust_tools.Piv.Card.{SlotInfo}
use crypto_rust_tools.Wallet.KeySizes.{detect_account-IsKeyOf}
use crypto_rust_tools.Cli.Console.{Screen, and_next, pure, say, print_on}
use crypto_rust_tools.Cli.Program.{
  Tools, show_slot, list_slot, list_keys, slot_line, no_keys, run_list,
}
use crypto_rust_tools.Cli.Program.Output.{show_address-IsKeyOf}

module _ (P : Platform) (T : Tools P) where
  -- A step that succeeds and leaves the session as it is.
  pub record Prints {A : Type 0} (s : Screen P) (r : Result A Text × Screen P) : Type 0 where
    pub value : A
    pub after : Screen P
    pub result : r ≡ (ok value, after)
    pub same_session : after.session ≡ s.session

  show_slot-Prints :
      (slot : ℕ) (s t : Session P) (screen : Screen P) (r : Result (Curve × Bytes) Error)
      → detect_account T.hex P slot s ≡ (r, t)
      → Prints screen (show_slot P T r screen)
  unfolding show_slot
  show_slot-Prints slot s t screen (err e) h = record {
    value = tt;
    after = _;
    result = refl;
    same_session = refl;
  }
  show_slot-Prints slot s t screen (ok (curve, pk)) h =
      let (shown, e) =
        show_address-IsKeyOf P T curve pk (detect_account-IsKeyOf T.hex P slot s t h) in
      rw e (record { value = tt; after = _; result = refl; same_session = refl })

  -- The session behind the two OpenPGP slots.
  abbrev pub after_slot : ℕ → Session P → Session P
  after_slot slot s = (detect_account T.hex P slot s).1

  list_slot_lem :
      (name : Text) (slot : ℕ) (s : Screen P)
      → (t : Screen P) × (list_slot P T name slot s ≡ (ok tt, t))
        × (t.session ≡ after_slot slot s.session)
  unfolding list_slot
  list_slot_lem name slot s =
      let found = detect_account T.hex P slot s.session in
      let screen = record (print_on s (codes "OpenPGP (" ++ (name ++ codes " slot):"))) {
        session = found.1;
      } in
      let p = show_slot-Prints slot s.session found.1 screen found.0 refl in
      (p.after, p.result, p.same_session)

  list_keys-Prints :
      (infos : List SlotInfo) (found : ℕ) (s : Screen P) → Prints s (list_keys P T infos found s)
  unfolding list_keys
  list_keys-Prints [] found s = record {
    value = found;
    after = s;
    result = refl;
    same_session = refl;
  }
  list_keys-Prints (info ∷ infos) found s = elim (Option-cases info.ed25519_pubkey) [
    | inl n ↦ rw (n, list_keys) (list_keys-Prints infos found s)
    | inr (pk, e) ↦
        let p = list_keys-Prints infos (found + 1) (print_on s (slot_line P T info.slot pk)) in
        rw (e, list_keys)
          (record {
            value = p.value;
            after = p.after;
            result = p.result;
            same_session = p.same_session;
          })
  ]

  closing :
      (b : Bool) (s : Screen P) → ((if b then say (no_keys P T) else pure (ok tt)) s).0 ≡ ok tt
  closing true s = refl
  closing false s = refl

  tail_result :
      (listing : Result (List SlotInfo) Error) (s : Screen P)
      → (and_next
          (map_err to_string listing, s)
          λ infos t.
            and_next
              (list_keys P T infos 0 t)
              λ found u. (if found == 0 then say (no_keys P T) else pure (ok tt)) u).0
        ≡ map_ok (λ _. tt) (map_err to_string listing)
  tail_result (err e) s = refl
  tail_result (ok infos) s =
      let p = list_keys-Prints infos 0 s in rw p.result (closing (p.value == 0) p.after)

  -- `list` succeeds exactly if the listing of the PIV slots does, in the session behind the two
  -- OpenPGP slots, and fails with its error: no slot without a key, or with one, makes it fail.
  pub run_list_lem :
      (s : Screen P)
      → (run_list P T s).0
        ≡ map_ok
            (λ _. tt)
            (map_err to_string
              (Piv.Card.list_accounts P (after_slot aut (after_slot sig s.session))).0)
  unfolding run_list
  run_list_lem s =
      let (t, e, at_t) = list_slot_lem (codes "SIG") sig s in
      let (u, f, at_u) = list_slot_lem (codes "AUT") aut t in
      let there : u.session ≡ after_slot aut (after_slot sig s.session) =
        at_u ∙ ap (after_slot aut) at_t in
      rw (e, f, there) (tail_result _ _)
