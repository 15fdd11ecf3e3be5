-- ===== src/Chains/Solana/Answers.antt =====
-- yubiwallet/examples/sol_surfpool.rs: the requests that the node gets, and its answers.
use crypto_rust_tools.Base.{
  ℕ, ◌≡◌, ◌⊎◌, inl, inr, ◌∙◌, ap, arith, List, [], ◌∷◌, Bytes, length, Option, some,
}
use crypto_rust_tools.Base.{refl, sym, ◌++◌, none, Option-cases, Result, err, map_ok, ok-injective}
use crypto_rust_tools.Base.{ok, >>=-eq-ok, map_err-eq-ok}
use crypto_rust_tools.Text.{Text, codes, as_bytes, decimal, trim}
use crypto_rust_tools.External.{Base64}
use crypto_rust_tools.Wallet.{as_array}
use crypto_rust_tools.Chains.Encoding.{unwrap, unwrap_option}
use crypto_rust_tools.Chains.Steps.{unwrap_option-eq-ok}
use crypto_rust_tools.Chains.Solana.Rpc.{
  Node, address_of, body_of, request, call_of, payload, rpc, json_str,
}
use crypto_rust_tools.Chains.Solana.Calls.{
  Base58, b58, airdrop, latest, send, verdict, prepare, broadcast,
}

pub as_array_size : (n : ℕ) (b c : Bytes) → as_array n b ≡ ok c → (b ≡ c) × (length c ≡ n)
unfolding as_array
as_array_size n b c h = ground (arith, h)

pub b58_size : (B : Base58) (s : Text) (c : Bytes) → b58 B s ≡ ok c → length c ≡ 32
unfolding b58
b58_size B s c h =
    let (bytes, _, h1) = >>=-eq-ok (unwrap (B.decode s)) _ h in
    (as_array_size 32 bytes c (map_err-eq-ok _ (as_array 32 bytes) h1)).1

-- An HTTP request of JSON-RPC 2.0 to the address of the node.
abbrev pub endpoint : Option Text → Text
endpoint none = codes "127.0.0.1:8899"
endpoint (some addr) = addr

abbrev json_rpc : Text → Text → Text
json_rpc method params =
    codes "{\"jsonrpc\":\"2.0\",\"id\":1,\"method\":\""
    ++ (method ++ (codes "\",\"params\":" ++ (params ++ codes "}")))

abbrev pub post : Option Text → Text → Text → Text × Text
post env method params = (
  endpoint env,
  codes "POST / HTTP/1.1"
      ++ (13
          ∷ 10
          ∷ (codes "Host: "
              ++ (endpoint env
                  ++ (13
                      ∷ 10
                      ∷ (codes "Content-Type: application/json"
                          ++ (13
                              ∷ 10
                              ∷ (codes "Content-Length: "
                                  ++ (decimal (length (as_bytes (json_rpc method params)))
                                      ++ (13
                                          ∷ 10
                                          ∷ (codes "Connection: close"
                                              ++ (13
                                                  ∷ 10
                                                  ∷ 13
                                                  ∷ 10
                                                  ∷ json_rpc method params))))))))))),
)

call_of-post :
    (env : Option Text) (method params : Text) → call_of env method params ≡ post env method params
unfolding call_of request body_of address_of
call_of-post none method params = refl
call_of-post (some addr) method params = refl

map_ok-eq-ok :
    {A B E : Type 0} (f : A → B) (r : Result A E) {b : B}
    → map_ok f r ≡ ok b
    → (a : A) × (r ≡ ok a) × (b ≡ f a)
map_ok-eq-ok f (ok a) h = (a, refl, ok-injective _ _ (sym h))
map_ok-eq-ok f (err e) h = absurd (cc h)

-- The node's answer to a call, behind the blank line.
abbrev pub Answered : Node → List (Text × Text) → Text × Text → Text → Type 0
Answered node before call a = (resp : Text) × (node before call ≡ ok resp) × (a ≡ payload resp)

rpc-Answered :
    (node : Node) (before : List (Text × Text)) (call : Text × Text) (a : Text)
    → rpc node before call ≡ ok a
    → Answered node before call a
unfolding rpc
rpc-Answered node before call a h = map_ok-eq-ok payload (node before call) h

pub b58-eq-ok : (B : Base58) (s : Text) (c : Bytes) → b58 B s ≡ ok c → B.decode s ≡ ok c
unfolding b58
b58-eq-ok B s c h =
    let (bytes, e, h1) = >>=-eq-ok (unwrap (B.decode s)) _ h in
    let same = (as_array_size 32 bytes c (map_err-eq-ok _ (as_array 32 bytes) h1)).0 in
    map_err-eq-ok _ (B.decode s) e ∙ ap ok same

module _ (B : Base58) (S : Base64) (node : Node) (env : Option Text) where
  -- The three calls.
  abbrev pub funding : Bytes → Text × Text
  funding from =
      post env (codes "requestAirdrop") (codes "[\"" ++ (B.encode from ++ codes "\", 1000000000]"))

  abbrev pub block_query : Text × Text
  block_query = post env (codes "getLatestBlockhash") (codes "[]")

  abbrev pub sending : Bytes → Text × Text
  sending tx =
      post env (codes "sendTransaction")
        (codes "[\"" ++ (S.encode tx ++ codes "\", {\"encoding\":\"base64\"}]"))

  pub prepare-Answered :
      (from hash : Bytes)
      → prepare B S node env from ≡ ok hash
      → (funded : Text) × (answer : Text) × (shown : Text) × Answered node [] (funding from) funded
        × Answered node (funding from ∷ []) block_query answer
        × (json_str answer (codes "blockhash") ≡ some shown)
        × (B.decode shown ≡ ok hash)
        × (length hash ≡ 32)
  unfolding prepare
  prepare-Answered from hash h =
      let (funded, e0, h1) = >>=-eq-ok (rpc node [] (airdrop B S node env from)) _ h in
      let (answer, e1, h2) =
        >>=-eq-ok (rpc node (airdrop B S node env from ∷ []) (latest B S node env)) _ h1 in
      let (shown, e2, h3) = >>=-eq-ok (unwrap_option (json_str answer (codes "blockhash"))) _ h2 in
      let f : airdrop B S node env from ≡ funding from = call_of-post env _ _ in
      let g : latest B S node env ≡ block_query = call_of-post env _ _ in
      (
        funded,
        answer,
        shown,
        rw f at (rpc-Answered node [] (airdrop B S node env from) funded e0),
        rw (f, g) at
            (rpc-Answered node (airdrop B S node env from ∷ []) (latest B S node env) answer e1),
        unwrap_option-eq-ok (json_str answer (codes "blockhash")) e2,
        b58-eq-ok B shown hash h3,
        b58_size B shown hash h3,
      )

  -- The line by the answer: the identifier of the transaction, or the answer as it is.
  abbrev pub IsVerdict : Text → Bytes → Text → Text → Type 0
  IsVerdict slot_str from answer line =
      ((id : Text) × (json_str answer (codes "result") ≡ some id)
        × (line
            ≡ codes "slot "
              ++ (slot_str ++ (b' ' ∷ (B.encode from ++ (codes " BROADCAST_OK tx=" ++ id))))))
      ⊎ ((json_str answer (codes "result") ≡ none)
          × (line
              ≡ codes "slot "
                ++ (slot_str ++ (b' ' ∷ (B.encode from ++ (codes " ERR " ++ trim answer))))))

  pub broadcast-Answered :
      (slot_str : Text) (from tx : Bytes) (line : Text)
      → broadcast B S node env slot_str from tx ≡ ok line
      → (answer : Text) × Answered node (funding from ∷ block_query ∷ []) (sending tx) answer
        × IsVerdict slot_str from answer line
  unfolding broadcast verdict
  broadcast-Answered slot_str from tx line h =
      let (answer, e, h1) =
        >>=-eq-ok
          (rpc node (airdrop B S node env from ∷ latest B S node env ∷ []) (send B S node env tx)) _
          h in
      let f : airdrop B S node env from ≡ funding from = call_of-post env _ _ in
      let g : latest B S node env ≡ block_query = call_of-post env _ _ in
      let k : send B S node env tx ≡ sending tx = call_of-post env _ _ in
      let shown = ok-injective _ _ (sym h1) in
      (
        answer,
        rw (f, g, k) at
            (rpc-Answered node (airdrop B S node env from ∷ latest B S node env ∷ [])
              (send B S node env tx) answer e),
        elim (Option-cases (json_str answer (codes "result"))) [
          | inl n ↦ inr (n, shown ∙ rw n refl)
          | inr (id, n) ↦ inl (id, n, shown ∙ rw n refl)
        ],
      )
