-- ===== src/Examples/OpenPgpRun.antt =====
-- yubiwallet/examples: a whole run of btc_sign, and a signing of ethereum.rs, on a card that plays a
-- script.
use crypto_rust_tools.Base.{
  some, get_elem?, ℕ, ◌≡◌, refl, arith, List, [], ◌∷◌, ◌++◌, Bytes, length, replicate, Result, ok,
}
use crypto_rust_tools.Text.{Text, codes}
use crypto_rust_tools.Transport.{Session}
use crypto_rust_tools.Account.{open_pgp, sig, parse_slot}
use crypto_rust_tools.Wallet
use crypto_rust_tools.Wallet.{as_array}
use crypto_rust_tools.Text.{as_bytes, text_eq, to_ascii_lowercase, trim}
use crypto_rust_tools.Base.{slice}
use crypto_rust_tools.Base.Search.{matches_at, position}
use crypto_rust_tools.Transport.{resolve, prompt}
use crypto_rust_tools.Account.{Account}
use crypto_rust_tools.Apdu.{build_apdu, check_response, connect, send, transmit}
use crypto_rust_tools.OpenPgp
use crypto_rust_tools.Eth.{
  low_s, ethereum_signature, try_recovery_ids, recovers, with_recovery_id, eip155_v,
}
use crypto_rust_tools.Base.{if◌then◌else◌}
use crypto_rust_tools.Cli.Console.{Screen}
use crypto_rust_tools.Chains.Ethereum.{Alloy, TxLegacy, transfer, as_rs, sign_and_send}
use crypto_rust_tools.Chains.Ethereum.Output.{IsSent, sign_and_send-IsSent}
use crypto_rust_tools.OpenPgp.Card.{get_pubkey_raw, get_pubkey_raw_on}
use crypto_rust_tools.OpenPgp.Data.{crt_tag, extract_pubkey, extract_secp256k1_pubkey}
use crypto_rust_tools.OpenPgp.Data.Keys.{secp256k1_response}
use crypto_rust_tools.Chains.Encoding.{Panic, parse_unsigned}
use crypto_rust_tools.Chains.Bitcoin
use crypto_rust_tools.Chains.Bitcoin.{Hashes, compress}
use crypto_rust_tools.Chains.Bitcoin.Output.{IsSigned, main-IsSigned}
use crypto_rust_tools.Examples.Fixtures.{hex, keccak, k256, point, script, playing, done}

-- Bitcoin: a spend with the key of the signature slot.
abbrev hashes : Hashes
hashes = record {
  sha256_of = keccak;
  ripemd160_of = λ b. replicate 20 0;
  encode_v0 = λ b. ok (hex.encode b);
}

abbrev point_card : Session script
point_card =
    playing
      (done ∷ (secp256k1_response point ++ done) ∷ done ∷ done ∷ (replicate 64 0x22 ++ done) ∷ [])

abbrev point_account : Account
point_account = Bitcoin.Program.account_at sig

abbrev point_state : Session script
point_state = (Wallet.get_pubkey hex script point_account point_card).1

point_read : Wallet.get_pubkey hex script point_account point_card ≡ (ok point, point_state)
unfolding Wallet.get_pubkey Wallet.get_pubkey_at OpenPgp.Card.get_pubkey get_pubkey_raw connect
    OpenPgp.Card.select send build_apdu transmit check_response get_pubkey_raw_on crt_tag
    extract_pubkey extract_secp256k1_pubkey position matches_at slice
point_read = refl

-- The hash of a hash, which is the same for every input.
abbrev digest : Bytes
digest = 32 ∷ replicate 31 0

abbrev point_signed_state : Session script
point_signed_state = (Wallet.sign script point_account digest point_state).1

point_signed :
    Wallet.sign script point_account digest point_state
    ≡ (ok (replicate 64 0x22), point_signed_state)
unfolding Wallet.get_pubkey Wallet.get_pubkey_at OpenPgp.Card.get_pubkey get_pubkey_raw connect
    OpenPgp.Card.select send build_apdu transmit check_response get_pubkey_raw_on crt_tag
    extract_pubkey extract_secp256k1_pubkey position matches_at slice Wallet.sign
    Wallet.sign_dispatch Wallet.sign_at OpenPgp.Card.sign OpenPgp.Card.sign_slot
    OpenPgp.Card.sign_sig resolve prompt codes as_bytes trim
point_signed = refl

abbrev spend_args : List Text
spend_args =
    codes "btc_sign"
    ∷ codes "sig"
    ∷ codes "sign"
    ∷ hex.encode (replicate 32 0xab)
    ∷ codes "1"
    ∷ codes "100000"
    ∷ hex.encode (0x00 ∷ 0x14 ∷ replicate 20 0x42)
    ∷ codes "90000"
    ∷ []

abbrev spend : Bitcoin.Spend
spend = record {
  txid_le = replicate 32 0xab;
  vout = 1;
  in_sat = 100000;
  dest_spk = 0x00 ∷ 0x14 ∷ replicate 20 0x42;
  out_sat = 90000;
}

slot_read : parse_slot open_pgp (codes "sig") ≡ ok sig
unfolding parse_slot codes text_eq to_ascii_lowercase trim
slot_read = refl

spend_read : Bitcoin.read_spend hex spend_args ≡ ok spend
unfolding Bitcoin.read_spend parse_unsigned codes
spend_read = refl

abbrev compressed : Bytes
compressed = 0x03 ∷ replicate 32 0x11

compress-point : compress point ≡ ok compressed
unfolding compress slice
compress-point = refl

abbrev bitcoin_lines : List Text
bitcoin_lines =
    hex.encode (Bitcoin.raw_tx spend ((0x30 ∷ replicate 64 0x22) ++ (0x01 ∷ [])) compressed) ∷ []

abbrev bitcoin_result : Result (List Text) Panic × Session script
bitcoin_result = Bitcoin.Program.main hex k256 hashes script spend_args point_card

bitcoin_run : bitcoin_result ≡ (ok bitcoin_lines, bitcoin_result.1)
unfolding Bitcoin.Program.main Bitcoin.Program.with_key Bitcoin.Program.sign_spend Bitcoin.sha256d
    Bitcoin.witness_signature low_s
bitcoin_run = rw (slot_read, point_read, compress-point, spend_read, point_signed) refl

main-IsSigned_example :
    (slot_text : Text) × (slot : ℕ) × (pk : Bytes) × (u : Session script) × (get_elem? spend_args 1
      ≡ some slot_text)
    × (parse_slot open_pgp slot_text ≡ ok slot)
    × (Wallet.get_pubkey hex script (Bitcoin.Program.account_at slot) point_card ≡ (ok pk, u))
    × (length pk ≡ 65)
    × IsSigned hex k256 hashes script spend_args slot
        (Bitcoin.Output.compressed pk)
        u
        bitcoin_result.1
        bitcoin_lines
main-IsSigned_example =
    main-IsSigned hex k256 hashes script spend_args point_card bitcoin_result.1 bitcoin_lines
      (omega arith) bitcoin_run

-- Ethereum: a transaction whose signature hash is that digest.
abbrev alloy : Alloy
alloy = record {
  Url = Text;
  parse_url = λ t. ok t;
  get_balance = λ url from. ok 5;
  get_transaction_count = λ url from. ok 0;
  get_gas_price = λ url. ok 7;
  parse_address = λ t. ok (replicate 20 0x11);
  parse_wei = λ t. ok 1000;
  signature_hash = λ tx. digest;
  encoded_2718 = λ tx r s parity. r ++ (s ++ ((if parity then 1 else 0) ∷ []));
  send_raw_transaction = λ url raw. ok (codes "0x1");
}

abbrev transaction : TxLegacy
transaction = transfer (replicate 20 0x11) 1000 0 7

abbrev screen : Screen script
screen = record { lines = []; session = point_state }

abbrev ethereum_result : Result (Unit {0}) Text × Screen script
ethereum_result =
    sign_and_send hex keccak k256 alloy script (codes "http://node") point_account point transaction
      screen

ethereum_run : ethereum_result ≡ (ok tt, ethereum_result.1)
unfolding sign_and_send ethereum_signature try_recovery_ids recovers with_recovery_id low_s eip155_v
    as_rs
ethereum_run = rw point_signed refl

sign_and_send-IsSent_example :
    IsSent hex keccak k256 alloy script
      (codes "http://node")
      point_account
      point
      transaction
      screen
      ethereum_result.1
sign_and_send-IsSent_example =
    sign_and_send-IsSent hex keccak k256 alloy script (codes "http://node") point_account point
      transaction screen ethereum_result.1 ethereum_run
