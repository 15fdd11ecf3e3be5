-- ===== src/Chains/Solana/Program.antt =====
-- yubiwallet/examples/sol_surfpool.rs: `main`. Its value is the line that it prints. The pause of eight
-- seconds after the airdrop is left out.
use crypto_rust_tools.Base.{ℕ, Option, List}
use crypto_rust_tools.Text.{Text}
use crypto_rust_tools.External.{Hex, Base64}
use crypto_rust_tools.Transport.{Platform, Act, ◌>>=◌, lift, relabel}
use crypto_rust_tools.Account.{Account, piv, ed25519, parse_slot}
use crypto_rust_tools.Wallet.{as_array, get_pubkey, sign}
use crypto_rust_tools.Chains.Encoding.{Panic, panicked, unwrap, arg}
use crypto_rust_tools.Chains.Solana.{recipient_b58, message, transaction}
use crypto_rust_tools.Chains.Solana.Rpc.{Node}
use crypto_rust_tools.Chains.Solana.Calls.{Base58, b58, prepare, broadcast}

abbrev pub account_at : ℕ → Account
account_at slot = record { applet = piv; slot = slot; curve = ed25519 }

module _ (H : Hex) (B : Base58) (S : Base64) (node : Node) (env : Option Text) (P : Platform) where
  unfoldable pub main : List Text → Act P Text Panic
  main args = do
    slot_str ← lift (arg args 1)
    slot ← lift (unwrap (parse_slot piv slot_str))
    pk ← relabel (λ _. panicked) (get_pubkey H P (account_at slot))
    from ← lift (unwrap (as_array 32 pk))
    to ← lift (b58 B recipient_b58)
    blockhash ← lift (prepare B S node env from)
    sig ← relabel (λ _. panicked) (sign P (account_at slot) (message from to blockhash))
    lift (broadcast B S node env slot_str from (transaction sig (message from to blockhash)))
