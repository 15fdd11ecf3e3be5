-- ===== src/Examples/Programs.antt =====
-- yubiwallet/src/main.rs and yubiwallet/examples at concrete inputs.
use crypto_rust_tools.Chains.Bitcoin.{outpoint}
use crypto_rust_tools.Base.{
  ℕ, ◌<◌, ◌≡◌, ◌↔◌, refl, arith, none, some, [], ◌∷◌, ◌++◌, Bytes, replicate, ok, map_ok, map_err,
}
use crypto_rust_tools.Text.{Text, codes}
use crypto_rust_tools.Error.{to_string}
use crypto_rust_tools.Account.{sig, aut}
use crypto_rust_tools.Piv
use crypto_rust_tools.Cli.{AccountArgs}
use crypto_rust_tools.Cli.Console.{Screen}
use crypto_rust_tools.Cli.Program.{Tools, run_list}
use crypto_rust_tools.Cli.Program.Listing.{after_slot, run_list_lem}
use crypto_rust_tools.Chains.Readers.{whole}
use crypto_rust_tools.Chains.Bitcoin.{Hashes, sha256d, Spend, outputs, preimage, raw_tx}
use crypto_rust_tools.Chains.Bitcoin.LongScripts.{read_output-outputs_long}
use crypto_rust_tools.Chains.Bitcoin.Decoding.{
  read_output, read_transaction, intended, read_transaction-raw_tx,
}
use crypto_rust_tools.Chains.Bitcoin.Commitment.{preimage-injective}
use crypto_rust_tools.Chains.Solana.Rpc.{json_str}
use crypto_rust_tools.Chains.Solana.Members.{IsMember, json_str-IsMember}
use crypto_rust_tools.Examples.Fixtures.{hex, keccak, script}
use crypto_rust_tools.Examples.Scripts.{card}

-- The command-line program.
abbrev tools : Tools script
tools = record {
  hex = hex;
  keccak = keccak;
  bs58_encode = hex.encode;
  base64_decode = λ t. ok t;
  next_line = λ s. (none, s);
}

abbrev args : AccountArgs
args = record { applet = codes "piv"; slot = codes "9a"; curve = codes "ed25519" }

abbrev blank : Screen script
blank = record { lines = []; session = card }

run_list_lem_example :
    (run_list script tools blank).0
    ≡ map_ok
        (λ _. tt)
        (map_err to_string
          (Piv.Card.list_accounts script
            (after_slot script tools aut (after_slot script tools sig card))).0)
run_list_lem_example = run_list_lem script tools blank

-- Bitcoin: a spend of one output to a script of 22 bytes.
abbrev spend : ℕ → Spend
spend out_sat = record {
  txid_le = replicate 32 0xab;
  vout = 1;
  in_sat = 100000;
  dest_spk = 0x00 ∷ 0x14 ∷ replicate 20 0x42;
  out_sat = out_sat;
}

read_transaction-raw_tx_example :
    whole (read_transaction (raw_tx (spend 90000) (replicate 71 0x30) (replicate 33 0x02)))
    ≡ some (intended (spend 90000) (replicate 71 0x30) (replicate 33 0x02))
read_transaction-raw_tx_example =
    read_transaction-raw_tx (spend 90000) (replicate 71 0x30) (replicate 33 0x02) refl (omega arith)
      (omega arith) (omega arith) (omega arith) (omega arith)

-- A spend to a script of 278 bytes, with a lock time behind the output.
abbrev long_spend : Spend
long_spend = record (spend 90000) { dest_spk = replicate 278 0x51 }

read_output-outputs_long_example :
    (read_output (outputs long_spend ++ (0 ∷ 0 ∷ 0 ∷ 0 ∷ []))
      ≡ some ((90000, replicate 22 0x51), replicate 256 0x51 ++ (0 ∷ 0 ∷ 0 ∷ 0 ∷ [])))
    × (22 < 278)
read_output-outputs_long_example =
    read_output-outputs_long long_spend (0 ∷ 0 ∷ 0 ∷ 0 ∷ []) (omega arith) (omega arith)
      (omega arith)

-- A hash of the length only, which does not tell two amounts apart.
abbrev hashes : Hashes
hashes = record {
  sha256_of = keccak;
  ripemd160_of = λ b. replicate 20 0;
  encode_v0 = λ b. ok (hex.encode b);
}

abbrev key_hash : Bytes
key_hash = replicate 20 0

same_preimage : preimage hashes key_hash (spend 90000) ≡ preimage hashes key_hash (spend 80000)
unfolding preimage sha256d outputs outpoint
same_preimage = refl

preimage-injective_example :
    ((spend 90000).txid_le ≡ (spend 80000).txid_le)
    × ((spend 90000).vout ≡ (spend 80000).vout)
    × (key_hash ≡ key_hash)
    × ((spend 90000).in_sat ≡ (spend 80000).in_sat)
    × (sha256d hashes (outputs (spend 90000)) ≡ sha256d hashes (outputs (spend 80000)))
preimage-injective_example =
    preimage-injective hashes (λ b. refl) key_hash key_hash (spend 90000) (spend 80000) refl refl
      refl refl (omega arith) (omega arith) (omega arith) (omega arith) same_preimage

-- Solana: the answer of a node.
abbrev answer : Text
answer = codes "{\"result\":{\"value\":{\"blockhash\":\"4uQe\",\"slot\":7}}}"

json_str-IsMember_example :
    (json_str answer (codes "blockhash") ≡ some (codes "4uQe"))
    ↔ IsMember answer (codes "blockhash") (codes "4uQe")
json_str-IsMember_example = json_str-IsMember answer (codes "blockhash") (codes "4uQe")
