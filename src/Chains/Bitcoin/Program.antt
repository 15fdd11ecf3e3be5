-- ===== src/Chains/Bitcoin/Program.antt =====
-- yubiwallet/examples/btc_sign.rs: `main`. Its value is the lines that it prints.
use crypto_rust_tools.Base.{ℕ, ltb, if◌then◌else◌, List, [], ◌∷◌, ◌++◌, Bytes, length, ok}
use crypto_rust_tools.Text.{Text, codes}
use crypto_rust_tools.External.{Hex, K256}
use crypto_rust_tools.Transport.{Platform, Act, ◌>>=◌, lift, relabel}
use crypto_rust_tools.Account.{Account, open_pgp, secp256k1, parse_slot}
use crypto_rust_tools.Wallet.{get_pubkey, sign}
use crypto_rust_tools.Chains.Encoding.{Panic, panicked, unwrap, arg}
use crypto_rust_tools.Chains.Bitcoin.{
  Hashes, sha256d, hash160, compress, Spend, preimage, raw_tx, witness_signature, read_spend,
}

abbrev pub account_at : ℕ → Account
account_at slot = record { applet = open_pgp; slot = slot; curve = secp256k1 }

module _ (H : Hex) (K : K256) (F : Hashes) (P : Platform) where
  -- With no more than the slot: the address and the key.
  abbrev pub show_key : Bytes → Act P (List Text) Panic
  show_key cpk = do
    addr ← lift (unwrap (F.encode_v0 (hash160 F cpk)))
    lift (ok ((codes "addr=" ++ addr) ∷ (codes "cpk=" ++ H.encode cpk) ∷ []))

  unfoldable pub sign_spend : Account → Bytes → Spend → Act P (List Text) Panic
  sign_spend acc cpk spend = do
    rs ← relabel (λ _. panicked) (sign P acc (sha256d F (preimage F (hash160 F cpk) spend)))
    s ← lift (unwrap (K.from_slice rs))
    lift (ok (H.encode (raw_tx spend (witness_signature K s) cpk) ∷ []))

  unfoldable pub with_key : List Text → Account → Bytes → Act P (List Text) Panic
  with_key args acc cpk =
      if ltb (length args) 3
      then show_key cpk
      else (lift (read_spend H args) >>= λ spend. sign_spend acc cpk spend)

  unfoldable pub main : List Text → Act P (List Text) Panic
  main args = do
    slot_text ← lift (arg args 1)
    slot ← lift (unwrap (parse_slot open_pgp slot_text))
    pk ← relabel (λ _. panicked) (get_pubkey H P (account_at slot))
    cpk ← lift (compress pk)
    with_key args (account_at slot) cpk
