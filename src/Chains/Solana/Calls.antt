-- ===== src/Chains/Solana/Calls.antt =====
-- yubiwallet/examples/sol_surfpool.rs: the calls that `main` makes, and what it prints.
use crypto_rust_tools.Base.{Option, none, some, [], ◌∷◌, ◌++◌, Bytes, Result, ok, ◌>>=◌}
use crypto_rust_tools.Text.{Text, codes, trim}
use crypto_rust_tools.External.{Base64}
use crypto_rust_tools.Wallet.{as_array}
use crypto_rust_tools.Chains.Encoding.{Panic, unwrap, unwrap_option}
use crypto_rust_tools.Chains.Solana.Rpc.{Node, call_of, rpc, json_str}

-- `bs58`
pub record Base58 : Type 0 where
  pub encode : Bytes → Text
  pub decode : Text → Result Bytes Text

unfoldable pub b58 : Base58 → Text → Result Bytes Panic
b58 B s = do bytes ← unwrap (B.decode s); unwrap (as_array 32 bytes)

-- The parameters of the calls.
abbrev pub airdrop_params : Text → Text
airdrop_params from_b58 = codes "[\"" ++ (from_b58 ++ codes "\", 1000000000]")

abbrev pub send_params : Text → Text
send_params tx_b64 = codes "[\"" ++ (tx_b64 ++ codes "\", {\"encoding\":\"base64\"}]")

unfoldable pub verdict : Text → Text → Option Text → Text → Text
verdict slot_str from_b58 (some s) send =
    codes "slot " ++ (slot_str ++ (b' ' ∷ (from_b58 ++ (codes " BROADCAST_OK tx=" ++ s))))
verdict slot_str from_b58 none send =
    codes "slot " ++ (slot_str ++ (b' ' ∷ (from_b58 ++ (codes " ERR " ++ trim send))))

module _ (B : Base58) (S : Base64) (node : Node) (env : Option Text) where
  -- The three calls, in their order.
  abbrev pub airdrop : Bytes → Text × Text
  airdrop from = call_of env (codes "requestAirdrop") (airdrop_params (B.encode from))

  abbrev pub latest : Text × Text
  latest = call_of env (codes "getLatestBlockhash") (codes "[]")

  abbrev pub send : Bytes → Text × Text
  send tx = call_of env (codes "sendTransaction") (send_params (S.encode tx))

  -- The airdrop, and the block hash.
  unfoldable pub prepare : Bytes → Result Bytes Panic
  prepare from = do
    funded ← rpc node [] (airdrop from)
    bh_resp ← rpc node (airdrop from ∷ []) latest
    hash ← unwrap_option (json_str bh_resp (codes "blockhash"))
    b58 B hash

  unfoldable pub broadcast : Text → Bytes → Bytes → Result Text Panic
  broadcast slot_str from tx = do
    sent ← rpc node (airdrop from ∷ latest ∷ []) (send tx)
    ok (verdict slot_str (B.encode from) (json_str sent (codes "result")) sent)
