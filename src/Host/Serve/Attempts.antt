-- ===== src/Host/Serve/Attempts.antt =====
-- yubiwallet-host/src/main.rs, `main`: how many PINs the host presents to the card.
use crypto_rust_tools.Base.{
  ◌+◌, ◌^◌, ◌<◌, ◌≤◌, ◌≡◌, arith, none, some, List, [], ◌∷◌, ◌++◌, Bytes, All, length, Result, ok,
  err,
}
use crypto_rust_tools.Text.{Text}
use crypto_rust_tools.Transport.{Session}
use crypto_rust_tools.Transport.Attempts.{attempts, Meter, AtMost, AtMost-pure, verify_meter}
use crypto_rust_tools.Host.Frames.{read_message}
use crypto_rust_tools.Host.Methods.Attempts.{Unmetered, dispatch-AtMost}
use crypto_rust_tools.Host.Serve.{Host, Request, handle_request, handle, serve}
use crypto_rust_tools.Host.Serve.Loop.{frames, answer_all, serve-frames}

module _ (h : Host) (M : Meter h.platform) (U : Unmetered M h.terminal) where
  handle_request-AtMost :
      (r : Result (Request h.crates.json.Value) Text) (s : Session h.platform)
      → AtMost M 1 s (handle_request h r s)
  handle_request-AtMost (err e) s = AtMost-pure 1 s _
  handle_request-AtMost (ok req) s = record {
    bounded = (dispatch-AtMost h.crates M h.terminal U h.version req.method req.params s).bounded;
  }

  handle-AtMost : (msg : Bytes) (s : Session h.platform) → AtMost M 1 s (handle h msg s)
  unfolding handle
  handle-AtMost msg s = handle_request-AtMost (h.wire.from_slice msg) s

  pub answer_all-AtMost :
      (ms : List Bytes) (s : Session h.platform) → AtMost M (length ms) s (answer_all h ms s)
  unfolding answer_all
  answer_all-AtMost [] s = AtMost-pure 0 s _
  answer_all-AtMost (m ∷ ms) s =
      let first = handle-AtMost m s in
      let others = answer_all-AtMost ms (handle h m s).1 in
      record { bounded = omega (arith, first.bounded, others.bounded) }

module _ (h : Host) where
  unmetered : Unmetered (verify_meter h.platform) h.terminal
  unfolding verify_meter
  unmetered = record {
    env_pin-le = λ s. omega arith;
    tty_prompt-le = λ s. omega arith;
    tty_open-le = λ s. omega arith;
    tty_read_line-le = λ s. omega arith;
  }

  answer_all-attempts :
      (ms : List Bytes) (s : Session h.platform)
      → attempts (answer_all h ms s).1.log ≤ attempts s.log + length ms
  unfolding verify_meter
  answer_all-attempts ms s = (answer_all-AtMost h (verify_meter h.platform) unmetered ms s).bounded

  -- On the frames of messages below 2 ^ 32 bytes, and an end of the input that is no frame, the host
  -- ends, and the card has had one VERIFY command for each message at most, whatever the messages
  -- are.
  pub serve-attempts :
      (ms : List Bytes) (tail : Bytes) (s : Session h.platform)
      → All (λ m. length m < 2 ^ 32) ms
      → read_message tail ≡ none
      → (out : Bytes) × (t : Session h.platform) × (serve h (frames ms ++ tail) s ≡ some (out, t))
        × (attempts t.log ≤ attempts s.log + length ms)
  serve-attempts ms tail s a e = (
    (answer_all h ms s).0,
    (answer_all h ms s).1,
    serve-frames h ms tail s a e,
    answer_all-attempts ms s,
  )
