-- ===== src/Examples/NativeHost.antt =====
-- yubiwallet-host/src/main.rs on a card that plays a script.
use crypto_rust_tools.Host.Frames.{read_exact}
use crypto_rust_tools.Host.Methods.{param_str}
use crypto_rust_tools.Base.{◌+◌, ◌≤◌, length, List, ◌≡◌, refl, arith, none, some, [], ◌∷◌, ◌++◌}
use crypto_rust_tools.Base.{Bytes, All, replicate, ok, err}
use crypto_rust_tools.Text.{codes}
use crypto_rust_tools.Transport.{Session}
use crypto_rust_tools.OpenPgp.Data.Keys.{secp256k1_response}
use crypto_rust_tools.Host.Frames.{read_message}
use crypto_rust_tools.Host.Accounts.{Failure, parse_account}
use crypto_rust_tools.Host.Methods.Listing.{IsListed, list_accounts-IsListed}
use crypto_rust_tools.Piv.Tlv.Items.{tlv}
use crypto_rust_tools.Piv.Data.{tag_data_object, tag_certificate, ed25519_spki_prefix}
use crypto_rust_tools.Examples.Scripts.{key}
use crypto_rust_tools.Host.Methods.{bad_request, param_account, sign_secp256k1}
use crypto_rust_tools.Host.Methods.{dispatch, list_accounts}
use crypto_rust_tools.Host.Methods.Failures.{Coded, dispatch-Coded}
use crypto_rust_tools.Host.Methods.Replies.{SignedBy, sign_secp256k1-SignedBy}
use crypto_rust_tools.Text.{split, text_eq, to_ascii_lowercase, trim, trim_start_0x, as_bytes}
use crypto_rust_tools.Account.{parse_applet, parse_slot, parse_curve}
use crypto_rust_tools.Transport.{resolve}
use crypto_rust_tools.Transport.Attempts.{attempts}
use crypto_rust_tools.Host.Serve.Attempts.{serve-attempts}
use crypto_rust_tools.Apdu.{build_apdu, check_response, connect, send, transmit}
use crypto_rust_tools.Wallet.{
  get_pubkey, get_pubkey_at, sign_with_pin, sign_dispatch, sign_at, as_array,
}
use crypto_rust_tools.OpenPgp
use crypto_rust_tools.OpenPgp.Card.{get_pubkey_raw, get_pubkey_raw_on, sign_slot, sign_sig}
use crypto_rust_tools.OpenPgp.Data.{crt_tag, extract_pubkey, extract_secp256k1_pubkey, check_point}
use crypto_rust_tools.Base.Search.{matches_at, position}
use crypto_rust_tools.Base.{slice}
use crypto_rust_tools.Host.Methods.{param_hex, read_pin}
use crypto_rust_tools.Eth.{
  ethereum_signature, try_recovery_ids, low_s, recovers, with_recovery_id, eip155_v,
}
use crypto_rust_tools.Host.Serve.{serve}
use crypto_rust_tools.Host.Serve.Loop.{frames, answer_all, serve_total, serve-frames}
use crypto_rust_tools.Examples.Fixtures.{
  crates, script, terminal, host, playing, done, point, Value, string, object, number, no_fields,
  field,
}

abbrev request : Bytes
request = 7 ∷ []

serve_total_example : (r : Bytes × Session script) × (serve host (5 ∷ []) (playing []) ≡ some r)
serve_total_example = serve_total host (5 ∷ []) (playing [])

no_frame : read_message (5 ∷ []) ≡ none
unfolding read_message read_exact
no_frame = refl

serve-frames_example :
    serve host (frames (request ∷ request ∷ []) ++ (5 ∷ [])) (playing [])
    ≡ some (answer_all host (request ∷ request ∷ []) (playing []))
serve-frames_example =
    serve-frames host (request ∷ request ∷ []) (5 ∷ []) (playing []) (omega arith) no_frame

-- A listing, and a request without parameters.
abbrev messages : List Bytes
messages = (7 ∷ codes "list_accounts") ∷ (8 ∷ codes "sign_ed25519") ∷ []

serve-attempts_example :
    (out : Bytes) × (t : Session script) × (serve host
        (frames messages ++ (5 ∷ []))
        (playing (done ∷ done ∷ []))
      ≡ some (out, t))
    × (attempts t.log ≤ attempts (playing (done ∷ done ∷ [])).log + length messages)
unfolding codes
serve-attempts_example =
    serve-attempts host messages (5 ∷ []) (playing (done ∷ done ∷ [])) (omega arith) no_frame

-- A card with a point in the signature slot and an Ed25519 certificate in the first PIV slot.
abbrev object_9a : Bytes
object_9a = tlv tag_data_object (tlv tag_certificate (0x30 ∷ (ed25519_spki_prefix ++ key)))

abbrev two_keys : Session script
two_keys = playing (
    done
    ∷ (secp256k1_response point ++ done)
    ∷ done
    ∷ (0x6a ∷ 0x88 ∷ [])
    ∷ done
    ∷ (object_9a ++ done)
    ∷ [])

list_accounts-IsListed_example :
    All (IsListed crates script) (list_accounts crates script two_keys).0
list_accounts-IsListed_example = list_accounts-IsListed crates script two_keys

abbrev missing : Failure
missing = bad_request (codes "missing param 'account_id'")

abbrev no_params : Value
no_params = object no_fields

no_account : param_account crates no_params ≡ err missing
unfolding param_account codes param_str
no_account = refl

-- A request for a signature of 32 bytes 22, and a card that signs it.
abbrev params : Value
params = object (
    field (codes "account_id") (string (codes "openpgp:sig:secp256k1")) (
      field (codes "prehash") (string (codes "0x" ++ crates.hex.encode (replicate 32 0x22)))
        no_fields))

abbrev card : Session script
card =
    playing
      (done ∷ (secp256k1_response point ++ done) ∷ done ∷ done ∷ (replicate 64 0x55 ++ done) ∷ [])

abbrev reply : Value
reply = object (
    field (codes "r") (string (crates.hex.encode (replicate 32 0x55))) (
      field (codes "s") (string (crates.hex.encode (replicate 32 0x55)))
        (field (codes "recovery_id") (number 1) no_fields)))

signed :
    sign_secp256k1 crates script terminal params card
    ≡ (ok reply, (sign_secp256k1 crates script terminal params card).1)
unfolding sign_secp256k1 codes param_account param_str parse_account split parse_applet text_eq
    to_ascii_lowercase trim parse_slot parse_curve param_hex trim_start_0x as_array get_pubkey
    get_pubkey_at OpenPgp.Card.get_pubkey get_pubkey_raw connect OpenPgp.Card.select send build_apdu
    transmit check_response get_pubkey_raw_on crt_tag extract_pubkey extract_secp256k1_pubkey
    position matches_at slice read_pin sign_with_pin sign_dispatch sign_at OpenPgp.Card.sign
    sign_slot sign_sig resolve as_bytes ethereum_signature try_recovery_ids low_s recovers
    with_recovery_id eip155_v check_point
signed = refl

sign_secp256k1-SignedBy_example : SignedBy crates script terminal params card reply
sign_secp256k1-SignedBy_example =
    sign_secp256k1-SignedBy crates script terminal params card reply
      (sign_secp256k1 crates script terminal params card).1 signed

dispatch-Coded_example :
    Coded (
      dispatch crates script terminal (codes "0.1.0") (codes "sign_ed25519") no_params (playing []))
dispatch-Coded_example =
    dispatch-Coded crates script terminal no_params (playing []) (codes "0.1.0")
      (codes "sign_ed25519")
