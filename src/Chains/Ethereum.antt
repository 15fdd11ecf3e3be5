-- ===== src/Chains/Ethereum.antt =====
-- yubiwallet/examples/ethereum.rs: a transfer on Sepolia, signed by an OpenPGP secp256k1 slot. The
-- command line is parsed already: it is the text of `--slot`.
pub mod Parity
pub mod Output
use crypto_rust_tools.Base.{
  ℕ, ◌+◌, ◌-◌, ◌*◌, Bool, true, false, Option, none, some, [], ◌∷◌, ◌++◌, Bytes, length, ◌==◌,
  if◌then◌else◌, Result, ok, err, map_err,
}
use crypto_rust_tools.Base.Search.{position}
use crypto_rust_tools.Text.{Text, codes, trim, decimal}
use crypto_rust_tools.Error.{Error, to_string}
use crypto_rust_tools.External.{Hex, Keccak, K256}
use crypto_rust_tools.Transport.{Platform, Session}
use crypto_rust_tools.Account.{Account, open_pgp, secp256k1, parse_slot}
use crypto_rust_tools.Eth.{EthSignature, address_from_pubkey, address_to_hex, ethereum_signature}
use crypto_rust_tools.Wallet
use crypto_rust_tools.Cli.Console.{Screen, Run, and_next, ◌>>=◌, ◌>>◌, pure, say, outcome_of}

-- The legacy transaction, with the constant fields of the program left out: a call with no data.
pub record TxLegacy : Type 0 where
  pub chain_id : ℕ
  pub nonce : ℕ
  pub gas_price : ℕ
  pub gas_limit : ℕ
  pub to : Bytes
  pub amount : ℕ

-- What the program uses of `alloy`, and of the standard library's numbers. `parse_wei` is the
-- parsing of an `f64`, times 1e18, as a `u128`. Each call of the node is made once.
pub record Alloy : Type 1 where
  pub Url : Type 0
  pub parse_url : Text → Result Url Text
  pub get_balance : Url → Bytes → Result ℕ Text
  pub get_transaction_count : Url → Bytes → Result ℕ Text
  pub get_gas_price : Url → Result ℕ Text
  pub parse_address : Text → Result Bytes Text
  pub parse_wei : Text → Result ℕ Text
  pub signature_hash : TxLegacy → Bytes
  -- the signed transaction, from the two halves of the signature and the parity
  pub encoded_2718 : TxLegacy → Bytes → Bytes → Bool → Bytes
  pub send_raw_transaction : Url → Bytes → Result Text Text

abbrev pub sepolia : ℕ
sepolia = 11155111

abbrev pub placeholder : Text
placeholder = codes "YOUR_INFURA_PROJECT_ID"

abbrev pub rpc_url : Text
rpc_url = codes "https://sepolia.infura.io/v3/YOUR_INFURA_PROJECT_ID"

unfoldable pub is_placeholder : Text → Bool
is_placeholder url = elim (position placeholder url) [ some i ↦ true | none ↦ false ]

unfoldable pub eth_account : Text → Result Account Text
eth_account slot_text = elim (parse_slot open_pgp slot_text) [
  | ok slot ↦ ok (record { applet = open_pgp; slot = slot; curve = secp256k1 })
  | err e ↦ err (to_string e)
]

-- `signed.v - CHAIN_ID * 2 - 35 == 1`, which does not go below 0 (Ethereum/Parity.antt).
unfoldable pub parity_of : ℕ → Bool
parity_of v = v - sepolia * 2 - 35 == 1

-- `try_into` of 64 bytes.
unfoldable pub as_rs : Bytes → Result Bytes Text
as_rs b = if length b == 64 then ok b else err (codes "expected 64-byte R||S")

unfoldable pub transfer : Bytes → ℕ → ℕ → ℕ → TxLegacy
transfer to amount nonce gas_price = record {
  chain_id = sepolia;
  nonce = nonce;
  gas_price = gas_price;
  gas_limit = 21000;
  to = to;
  amount = amount;
}

unfoldable pub state_line : ℕ → ℕ → ℕ → Text
state_line balance nonce gas_price =
    codes "Balance: "
    ++ (decimal balance
        ++ (codes " wei | nonce: "
            ++ (decimal nonce ++ (codes " | gas price: " ++ (decimal gas_price ++ codes " wei")))))

unfoldable pub sent_line : Result Text Text → Text
sent_line (ok hash) = codes "Broadcast! tx hash: " ++ hash
sent_line (err e) = codes "Broadcast failed: " ++ e

module _ (H : Hex) (keccak : Keccak) (K : K256) (A : Alloy) (P : Platform) where
  abbrev pub with_device : {B : Type 0} → Screen P → B × P.State → B × Screen P
  with_device s (b, d) = (b, record s { session = record s.session { device = d } })

  -- A call of the terminal.
  abbrev pub terminal : {B : Type 0} → (P.State → Result B Text × P.State) → Run P B
  terminal f s = with_device s (f s.session.device)

  unfoldable pub read_line : Text → Run P Text
  read_line message = do
    terminal (P.print_flush message)
    s ← terminal P.read_line
    pure (ok (trim s))

  -- Step 3: the transaction that the user asks for.
  unfoldable pub ask : ℕ → ℕ → Run P TxLegacy
  ask nonce gas_price = do
    to_text ← read_line (codes "Recipient address (0x...): ")
    to ← pure (A.parse_address to_text)
    amount_text ← read_line (codes "Amount (ETH): ")
    amount ← pure (A.parse_wei amount_text)
    pure (ok (transfer to amount nonce gas_price))

  -- Steps 4 and 5: the signature, and the broadcast.
  unfoldable pub sign_and_send : A.Url → Account → Bytes → TxLegacy → Run P (Unit {0})
  sign_and_send url account pubkey tx = do
    say (codes "Signing tx hash " ++ (H.encode (A.signature_hash tx) ++ codes " on YubiKey..."))
    answer ← outcome_of (Wallet.sign P account (A.signature_hash tx))
    bytes ← pure (map_err to_string answer)
    rs ← pure (as_rs bytes)
    signed ← pure (map_err to_string (ethereum_signature K pubkey (A.signature_hash tx) rs sepolia))
    let raw = A.encoded_2718 tx signed.r signed.s (parity_of signed.v)
    say (codes "Signed raw tx: 0x" ++ H.encode raw)
    say (sent_line (A.send_raw_transaction url raw))

  -- Steps 1 and 2: the sender, and the state of the chain.
  unfoldable pub ethereum_transaction : Text → Account → Run P (Unit {0})
  ethereum_transaction url_text account =
      if is_placeholder url_text
      then pure (err (codes "Set ETHEREUM_RPC_URL to a real RPC endpoint first."))
      else (do
        answer ← outcome_of (Wallet.get_pubkey H P account)
        pubkey ← pure (map_err to_string answer)
        from ← pure (map_err to_string (address_from_pubkey keccak pubkey))
        say (codes "Sender address (from YubiKey): " ++ address_to_hex H from)
        url ← pure (A.parse_url url_text)
        balance ← pure (A.get_balance url from)
        nonce ← pure (A.get_transaction_count url from)
        gas_price ← pure (A.get_gas_price url)
        say (state_line balance nonce gas_price)
        tx ← ask nonce gas_price
        sign_and_send url account pubkey tx)

  -- The exit code, and the line on the standard error if there is one.
  abbrev pub exit_of : Result (Unit {0}) Text × Screen P → (ℕ × Option Text) × Screen P
  exit_of (ok _, s) = ((0, none), s)
  exit_of (err e, s) = ((1, some (codes "Operation failed: " ++ e)), s)

  abbrev pub run_account : Text → Result Account Text → Screen P → (ℕ × Option Text) × Screen P
  run_account url_text (err e) s = ((1, some (codes "Invalid account selection: " ++ e)), s)
  run_account url_text (ok account) s = exit_of (ethereum_transaction url_text account s)

  -- `main` with another endpoint than that of the source, which is to be replaced.
  unfoldable pub run_at : Text → Text → Screen P → (ℕ × Option Text) × Screen P
  run_at url_text slot_text s = run_account url_text (eth_account slot_text) s

  unfoldable pub main : Text → Screen P → (ℕ × Option Text) × Screen P
  main slot_text s = run_at rpc_url slot_text s
