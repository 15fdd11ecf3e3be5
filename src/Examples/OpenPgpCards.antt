-- ===== src/Examples/OpenPgpCards.antt =====
-- yubiwallet/src/openpgp.rs and yubiwallet/src/lib.rs on a card that plays a script.
use crypto_rust_tools.Text.{as_bytes}
use crypto_rust_tools.Apdu.{build_apdu, check_response, connect, send, transmit}
use crypto_rust_tools.Wallet.{get_pubkey_at}
use crypto_rust_tools.OpenPgp.Data.{crt_tag, extract_pubkey}
use crypto_rust_tools.Base.Search.{matches_at, position}
use crypto_rust_tools.Base.{slice}
use crypto_rust_tools.Base.{ℕ, arith, inl, inr, ◌≡◌, refl, some, [], ◌∷◌, ◌++◌}
use crypto_rust_tools.Base.{Bytes, replicate, ok}
use crypto_rust_tools.Text.{codes}
use crypto_rust_tools.Transport.{Session}
use crypto_rust_tools.Apdu.Protocol.{Obeys}
use crypto_rust_tools.Account.{Account, open_pgp, ed25519, secp256k1, sig, aut}
use crypto_rust_tools.OpenPgp
use crypto_rust_tools.OpenPgp.Data.{
  ed25519_marker, secp256k1_marker, extract_ed25519_pubkey, extract_secp256k1_pubkey, detect,
}
use crypto_rust_tools.OpenPgp.Data.Keys.{
  secp256k1_response, point_with_marker, detect_misreads_point,
}
use crypto_rust_tools.OpenPgp.Card.{
  get_public_key_command, detect_account, get_pubkey_raw, get_pubkey_raw_on, select,
}
use crypto_rust_tools.OpenPgp.Card.Conduct.{
  verify_apdu, signature_apdu, authenticate_apdu, sign-Obeys, read_key_conduct,
}
use crypto_rust_tools.OpenPgp.Card.LongMessages.{Fails, sign_too_long}
use crypto_rust_tools.Wallet.{get_pubkey}
use crypto_rust_tools.Wallet.KeySizes.{IsKeyOf, get_pubkey-IsKeyOf}
use crypto_rust_tools.Examples.Fixtures.{hex, script, playing, done, point}
use crypto_rust_tools.Examples.Scripts.{pin, message, card, key}

abbrev wallet_account : ℕ → Account
wallet_account slot = record { applet = open_pgp; slot = slot; curve = secp256k1 }

abbrev verify : ℕ → Bytes
verify p2 = 0x00 ∷ 0x20 ∷ 0x00 ∷ p2 ∷ 6 ∷ 0x31 ∷ 0x32 ∷ 0x33 ∷ 0x34 ∷ 0x35 ∷ 0x36 ∷ []

pin_commands : (verify_apdu 0x81 pin ≡ ok (verify 0x81)) × (verify_apdu 0x82 pin ≡ ok (verify 0x82))
unfolding codes build_apdu as_bytes
pin_commands = (refl, refl)

abbrev signature_command : Bytes
signature_command = 0x00 ∷ 0x2a ∷ 0x9e ∷ 0x9a ∷ 2 ∷ 0x68 ∷ 0x69 ∷ 0x00 ∷ []

signature_apdu_message : signature_apdu message ≡ ok signature_command
unfolding codes build_apdu
signature_apdu_message = refl

abbrev authenticate_command : Bytes
authenticate_command = 0x00 ∷ 0x88 ∷ 0x00 ∷ 0x00 ∷ 2 ∷ 0x68 ∷ 0x69 ∷ 0x00 ∷ []

authenticate_apdu_message : authenticate_apdu message ≡ ok authenticate_command
unfolding codes build_apdu
authenticate_apdu_message = refl

sign-Obeys_example :
    Obeys card
      (OpenPgp.Card.Conduct.select_command ∷ verify 0x82 ∷ authenticate_command ∷ [])
      (OpenPgp.Card.sign script (wallet_account aut) message (some pin) card)
sign-Obeys_example =
    sign-Obeys script (wallet_account aut) message pin card
      (inr (refl, pin_commands.1, authenticate_apdu_message))

sign_too_long_example :
    Obeys card
      (OpenPgp.Card.Conduct.select_command ∷ verify 0x81 ∷ [])
      (OpenPgp.Card.sign script (wallet_account sig) (replicate 256 0x11) (some pin) card)
    × Fails (OpenPgp.Card.sign script (wallet_account sig) (replicate 256 0x11) (some pin) card)
sign_too_long_example =
    sign_too_long script (replicate 256 0x11) (omega arith) (wallet_account sig) pin card
      (inl (refl, pin_commands.0))

crt_tag_sig : OpenPgp.Data.crt_tag sig ≡ ok 0xb6
unfolding OpenPgp.Data.crt_tag
crt_tag_sig = refl

-- A point with 86 20 at the beginning of its coordinates.
abbrev unlucky_point : Bytes
unlucky_point = point_with_marker [] key (replicate 30 0)

detect_misreads_point_example :
    (extract_secp256k1_pubkey hex (secp256k1_response unlucky_point) ≡ ok unlucky_point)
    × (detect hex sig (secp256k1_response unlucky_point) ≡ ok (ed25519, key))
unfolding matches_at
detect_misreads_point_example =
    detect_misreads_point hex sig [] key (replicate 30 0) refl refl (refl, tt)

-- A card with a secp256k1 key in the signature slot.
abbrev point_card : Session script
point_card = playing (done ∷ (secp256k1_response point ++ done) ∷ [])

point_read :
    get_pubkey hex script (wallet_account sig) point_card
    ≡ (ok point, (get_pubkey hex script (wallet_account sig) point_card).1)
unfolding get_pubkey get_pubkey_at OpenPgp.Card.get_pubkey get_pubkey_raw connect select send
    build_apdu transmit check_response get_pubkey_raw_on crt_tag extract_pubkey
    extract_secp256k1_pubkey position matches_at slice
point_read = refl

get_pubkey-IsKeyOf_example : IsKeyOf secp256k1 point
get_pubkey-IsKeyOf_example =
    get_pubkey-IsKeyOf hex script (wallet_account sig) point_card
      (get_pubkey hex script (wallet_account sig) point_card).1 point_read
