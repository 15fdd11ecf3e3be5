-- ===== src/Chains/Sui.antt =====
-- yubiwallet/examples/sui_sign.rs: the address of an Ed25519 slot of the PIV applet, and a signature
-- over a Sui transaction. The value of `main` is the line that it prints.
pub mod Output
use crypto_rust_tools.Base.{
  ℕ, Option, none, some, List, [], ◌∷◌, ◌++◌, Bytes, Result, ok, err, get_elem?,
}
use crypto_rust_tools.Text.{Text, codes, trim}
use crypto_rust_tools.External.{Hex, Base64}
use crypto_rust_tools.Transport.{Platform, Session, Act, and_then, ◌>>=◌, ◌>>◌, lift, relabel}
use crypto_rust_tools.Account.{Account, piv, ed25519, parse_slot}
use crypto_rust_tools.Wallet.{get_pubkey, sign}
use crypto_rust_tools.Chains.Encoding.{Panic, panicked, unwrap, arg}

abbrev pub account_at : ℕ → Account
account_at slot = record { applet = piv; slot = slot; curve = ed25519 }

-- `Blake2b256` over all that it is fed.
abbrev pub Blake2b256 : Type 0
Blake2b256 = Bytes → Bytes

unfoldable pub address : Hex → Blake2b256 → Bytes → Text
address H blake pk = codes "0x" ++ H.encode (blake (0x00 ∷ pk))

-- `msg`: the intent, for TransactionData, V0 and Sui, and the transaction.
unfoldable pub with_intent : Bytes → Bytes
with_intent tx = 0 ∷ 0 ∷ 0 ∷ tx

-- `ser`
unfoldable pub serialized : Bytes → Bytes → Bytes
serialized sig pk = 0x00 ∷ (sig ++ pk)

module _ (H : Hex) (S : Base64) (blake : Blake2b256) (P : Platform) where
  unfoldable pub sign_transaction : ℕ → Bytes → Text → Act P Text Panic
  sign_transaction slot pk txb64 = do
    tx ← lift (unwrap (S.decode (trim txb64)))
    sig ← relabel (λ _. panicked) (sign P (account_at slot) (blake (with_intent tx)))
    lift (ok (S.encode (serialized sig pk)))

  -- The `match` on the second argument.
  unfoldable pub with_key : Option Text → ℕ → Bytes → Act P Text Panic
  with_key none slot pk = lift (ok (address H blake pk))
  with_key (some txb64) slot pk = sign_transaction slot pk txb64

  unfoldable pub main : List Text → Act P Text Panic
  main args = do
    slot_text ← lift (arg args 1)
    slot ← lift (unwrap (parse_slot piv slot_text))
    pk ← relabel (λ _. panicked) (get_pubkey H P (account_at slot))
    with_key (get_elem? args 2) slot pk
