-- ===== src/Host/Serve/Loop.antt =====
-- yubiwallet-host/src/main.rs, `main`: the loop ends, and answers every frame in its order.
use crypto_rust_tools.Base.{
  ℕ, zero, suc, ◌^◌, ◌<◌, ◌≡◌, ap, ◌∙◌, arith, none, some, Option-cases, inl, inr,
}
use crypto_rust_tools.Base.{List, [], ◌∷◌, ◌++◌, append-nil, append_assoc, Bytes, All, length}
use crypto_rust_tools.Transport.{Session}
use crypto_rust_tools.Host.Frames.{
  read_message, write_message, read_message-write_message, read_message_takes,
}
use crypto_rust_tools.Host.Serve.{Host, handle, serve_loop, serve}

-- The frames of some messages, one behind the other.
abbrev pub frames : List Bytes → Bytes
frames [] = []
frames (m ∷ ms) = write_message m ++ frames ms

module _ (h : Host) where
  abbrev S : Type 0
  S = Session h.platform

  serve_loop_step :
      (fuel : ℕ) (input out msg rest : Bytes) (s : S)
      → read_message input ≡ some (msg, rest)
      → serve_loop h (suc fuel) input out s
        ≡ serve_loop h fuel rest (out ++ write_message (handle h msg s).0) (handle h msg s).1
  unfolding serve_loop
  serve_loop_step fuel input out msg rest s e = rw (e, serve_loop)

  serve_loop_done :
      (fuel : ℕ) (input out : Bytes) (s : S)
      → read_message input ≡ none
      → serve_loop h (suc fuel) input out s ≡ some (out, s)
  unfolding serve_loop
  serve_loop_done fuel input out s e = rw (e, serve_loop)

  serve_loop_ends :
      (fuel : ℕ) (input out : Bytes) (s : S)
      → length input < fuel
      → (r : Bytes × S) × (serve_loop h fuel input out s ≡ some r)
  serve_loop_ends zero input out s l = absurd (omega arith)
  serve_loop_ends (suc fuel) input out s l = elim (Option-cases (read_message input)) [
    | inl n ↦ ((out, s), serve_loop_done fuel input out s n)
    | inr ((msg, rest), e) ↦ rw (serve_loop_step fuel input out msg rest s e) (
        serve_loop_ends fuel rest (out ++ write_message (handle h msg s).0) (handle h msg s).1
          (omega (arith, read_message_takes input msg rest e)))
  ]

  -- The host comes to an end on every input.
  pub serve_total : (input : Bytes) (s : S) → (r : Bytes × S) × (serve h input s ≡ some r)
  unfolding serve
  serve_total input s = serve_loop_ends (suc (length input)) input [] s (omega arith)

  -- What is written for some messages, and the session behind them: each is handled in the
  -- session that the one before it left.
  unfoldable pub answer_all : List Bytes → S → Bytes × S
  answer_all [] s = ([], s)
  answer_all (m ∷ ms) s =
      let (reply, t) = handle h m s in
      let (replies, u) = answer_all ms t in (write_message reply ++ replies, u)

  serve_loop-frames :
      (ms : List Bytes) (tail out : Bytes) (s : S) (fuel : ℕ)
      → All (λ m. length m < 2 ^ 32) ms
      → read_message tail ≡ none
      → length (frames ms ++ tail) < fuel
      → serve_loop h fuel (frames ms ++ tail) out s
        ≡ some (out ++ (answer_all ms s).0, (answer_all ms s).1)
  unfolding answer_all
  serve_loop-frames ms tail out s zero a e l = absurd (omega arith)
  serve_loop-frames [] tail out s (suc fuel) a e l =
      rw append-nil (serve_loop_done fuel tail out s e)
  serve_loop-frames (m ∷ ms) tail out s (suc fuel) (b, a) e l =
      let input = (write_message m ++ frames ms) ++ tail in
      let regroup = append_assoc (write_message m) (frames ms) tail in
      let read : read_message input ≡ some (m, frames ms ++ tail) =
        rw regroup (read_message-write_message m (frames ms ++ tail) b) in
      let (reply, t) = handle h m s in
      serve_loop_step fuel input out m (frames ms ++ tail) s read
      ∙ serve_loop-frames ms tail (out ++ write_message reply) t fuel a e
          (omega (arith, read_message_takes input m (frames ms ++ tail) read))
      ∙ ap (λ x. some (x, (answer_all ms t).1))
          (append_assoc out (write_message reply) (answer_all ms t).0)

  -- On the frames of messages below 2 ^ 32 bytes, and an end of the input that is no frame, the
  -- host writes one frame for each message, in their order, and ends.
  pub serve-frames :
      (ms : List Bytes) (tail : Bytes) (s : S)
      → All (λ m. length m < 2 ^ 32) ms
      → read_message tail ≡ none
      → serve h (frames ms ++ tail) s ≡ some (answer_all ms s)
  unfolding serve
  serve-frames ms tail s a e =
      serve_loop-frames ms tail [] s (suc (length (frames ms ++ tail))) a e (omega arith)
