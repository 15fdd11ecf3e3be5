-- ===== src/Chains/Solana/Output.antt =====
-- yubiwallet/examples/sol_surfpool.rs: what a run signs and sends.
use crypto_rust_tools.Base.{
  ℕ, ◌≡◌, ◌≢◌, ◌⊎◌, inl, inr, Bool-cases, ◌∙◌, ap, arith, List, [], ◌∷◌, Bytes, length, Option,
  some, ◌==◌,
}
use crypto_rust_tools.Base.{refl, ◌++◌, get_elem?}
use crypto_rust_tools.Base.{ok}
use crypto_rust_tools.Text.{Text, codes}
use crypto_rust_tools.External.{Hex, Base64}
use crypto_rust_tools.Transport.{Platform, Session}
use crypto_rust_tools.Account.{piv, ed25519, parse_slot}
use crypto_rust_tools.Wallet
use crypto_rust_tools.Wallet.{as_array}
use crypto_rust_tools.Chains.Encoding.{arg}
use crypto_rust_tools.Chains.Readers.{whole}
use crypto_rust_tools.Chains.Steps.{unwrap_option-eq-ok, lift-eq-ok, unwrap-eq-ok, call-eq-ok}
use crypto_rust_tools.Chains.Solana.{recipient_b58, compact_u16, compact_loop, message, transaction}
use crypto_rust_tools.Chains.Solana.Rpc.{Node, json_str}
use crypto_rust_tools.Chains.Solana.Decoding.{read_transfer, intended, read_transfer-transaction}
use crypto_rust_tools.Chains.Solana.Calls.{Base58, b58, prepare, broadcast}
use crypto_rust_tools.Chains.Solana.Answers.{
  as_array_size, b58_size, b58-eq-ok, Answered, funding, block_query, sending, IsVerdict,
  prepare-Answered, broadcast-Answered,
}
use crypto_rust_tools.Chains.Solana.Program.{account_at, main}

decodes_lem :
    (sig from to blockhash : Bytes)
    → length from ≡ 32
    → length to ≡ 32
    → length blockhash ≡ 32
    → (length sig ≢ 64)
      ⊎ (whole (read_transfer (transaction sig (message from to blockhash)))
          ≡ some (intended sig from to blockhash))
decodes_lem sig from to blockhash f t h = elim (Bool-cases (length sig == 64)) [
  | inl e ↦ inr (read_transfer-transaction sig from to blockhash (ground arith) f t h)
  | inr e ↦ inl (λ k. ground arith)
]

module _ (H : Hex) (B : Base58) (S : Base64) (node : Node) (env : Option Text) (P : Platform) where
  -- A run in which the node has answered the three calls in their order, and the card has signed
  -- between the second and the third. The transaction in the third is read as the transfer.
  pub record IsSent (slot_str : Text) (slot : ℕ) (s t : Session P) (line : Text) : Type 0 where
    pub from : Bytes
    pub to : Bytes
    pub blockhash : Bytes
    pub sig : Bytes
    pub tx : Bytes
    pub signed_bytes : Bytes
    pub u : Session P
    pub funded : Text
    pub hash_answer : Text
    pub hash_text : Text
    pub send_answer : Text
    pub read :
        Wallet.get_pubkey H P (record { applet = piv; slot = slot; curve = ed25519 }) s
        ≡ (ok from, u)
    pub receiver : B.decode (codes "So11111111111111111111111111111111111111112") ≡ ok to
    pub airdropped : Answered node [] (funding B S node env from) funded
    pub hash_asked :
        Answered node (funding B S node env from ∷ []) (block_query B S node env) hash_answer
    pub hash_shown : json_str hash_answer (codes "blockhash") ≡ some hash_text
    pub hash_read : B.decode hash_text ≡ ok blockhash
    pub signed :
        Wallet.sign P (record { applet = piv; slot = slot; curve = ed25519 }) signed_bytes u
        ≡ (ok sig, t)
    pub shape : tx ≡ 0x01 ∷ (sig ++ signed_bytes)
    pub decodes :
        (length sig ≢ 64) ⊎ (whole (read_transfer tx) ≡ some (intended sig from to blockhash))
    pub broadcast_to :
        Answered node
          (funding B S node env from ∷ block_query B S node env ∷ [])
          (sending B S node env tx)
          send_answer
    pub printed : IsVerdict B S node env slot_str from send_answer line

  IsSent-steps :
      (slot_str : Text) (slot : ℕ) (s u t : Session P) (line : Text)
      (pk from to blockhash sig : Bytes)
      → Wallet.get_pubkey H P (account_at slot) s ≡ (ok pk, u)
      → as_array 32 pk ≡ ok from
      → b58 B recipient_b58 ≡ ok to
      → prepare B S node env from ≡ ok blockhash
      → Wallet.sign P (account_at slot) (message from to blockhash) u ≡ (ok sig, t)
      → broadcast B S node env slot_str from (transaction sig (message from to blockhash)) ≡ ok line
      → IsSent slot_str slot s t line
  unfolding transaction compact_u16 compact_loop
  IsSent-steps slot_str slot s u t line pk from to blockhash sig read shaped receiver latest_hash
        signed sent =
      let (same, size) = as_array_size 32 pk from shaped in
      let (funded, answer, shown, e1, e2, e3, e4, hash_size) =
        prepare-Answered B S node env from blockhash latest_hash in
      let (last, e5, e6) =
        broadcast-Answered B S node env slot_str from (transaction sig (message from to blockhash))
          line sent in
      record {
        from = from;
        to = to;
        blockhash = blockhash;
        sig = sig;
        tx = transaction sig (message from to blockhash);
        signed_bytes = message from to blockhash;
        u = u;
        funded = funded;
        hash_answer = answer;
        hash_text = shown;
        send_answer = last;
        read = rw same at read;
        receiver = b58-eq-ok B recipient_b58 to receiver;
        airdropped = e1;
        hash_asked = e2;
        hash_shown = e3;
        hash_read = e4;
        signed = signed;
        shape = refl;
        decodes =
            decodes_lem sig from to blockhash size (b58_size B recipient_b58 to receiver) hash_size;
        broadcast_to = e5;
        printed = e6;
      }

  -- A run that ends without a panic has read a PIV slot from its first argument and the slot's key from
  -- the card, has had an answer of the node to requestAirdrop for this key and then to
  -- getLatestBlockhash, has had the card sign with this slot the message of a transaction, and has then
  -- had an answer to sendTransaction with this transaction in base64: one signature, the card's, and
  -- the message. If the signature has 64 bytes, the transaction is read as the transfer from the key to
  -- the recipient with the block hash of the node's answer. The line has the identifier in the node's
  -- answer, or this answer.
  pub main-IsSent :
      (args : List Text) (s t : Session P) (line : Text)
      → main H B S node env P args s ≡ (ok line, t)
      → (slot_str : Text) × (slot : ℕ) × (get_elem? args 1 ≡ some slot_str)
        × (parse_slot piv slot_str ≡ ok slot)
        × IsSent slot_str slot s t line
  unfolding main
  main-IsSent args s t line h =
      let (slot_str, given, h1) = lift-eq-ok (arg args 1) _ s h in
      let (slot, parsed, h2) = unwrap-eq-ok (parse_slot piv slot_str) _ s h1 in
      let (pk, u, read, h3) = call-eq-ok (Wallet.get_pubkey H P (account_at slot)) _ s h2 in
      let (from, shaped, h4) = unwrap-eq-ok (as_array 32 pk) _ u h3 in
      let (to, receiver, h5) = lift-eq-ok (b58 B recipient_b58) _ u h4 in
      let (blockhash, latest_hash, h6) = lift-eq-ok (prepare B S node env from) _ u h5 in
      let (sig, v, signed, h7) =
        call-eq-ok (Wallet.sign P (account_at slot) (message from to blockhash)) _ u h6 in
      (
        slot_str,
        slot,
        unwrap_option-eq-ok (get_elem? args 1) given,
        parsed,
        IsSent-steps slot_str slot s u t line pk from to blockhash sig read shaped receiver
            latest_hash (signed ∙ ap (λ w. (ok sig, w)) (ap (λ p. p.1) h7)) (ap (λ p. p.0) h7),
      )
