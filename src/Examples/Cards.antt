-- ===== src/Examples/Cards.antt =====
-- yubiwallet/src/piv.rs on a card that plays a script.
use crypto_rust_tools.Text.{as_bytes}
use crypto_rust_tools.Apdu.{build_apdu, check_response, connect, send, transmit}
use crypto_rust_tools.Base.Search.{matches_at, position}
use crypto_rust_tools.Base.{slice}
use crypto_rust_tools.Base.{ℕ, ◌≡◌, inl, refl, none, some, List, [], ◌∷◌, ◌++◌, map}
use crypto_rust_tools.Base.{Bytes, ok, err}
use crypto_rust_tools.Text.{Text, codes}
use crypto_rust_tools.Error.{parse, unsupported}
use crypto_rust_tools.Transport.{Session}
use crypto_rust_tools.Apdu.Protocol.{Obeys}
use crypto_rust_tools.Account.{Account, piv, ed25519, secp256k1, all}
use crypto_rust_tools.Piv
use crypto_rust_tools.Piv.Tlv.Items.{tlv}
use crypto_rust_tools.Piv.Data.{tag_data_object, tag_certificate, ed25519_spki_prefix, pin_padded}
use crypto_rust_tools.Piv.Card.{SlotInfo, list_accounts}
use crypto_rust_tools.Piv.Card.Conduct.{
  verify_command, sign_command, read_command, sign_conduct, sign_conduct_bad_pin,
  get_pubkey_conduct, refused_early,
}
use crypto_rust_tools.Examples.Fixtures.{script, playing, done}
use crypto_rust_tools.Piv.Card.{select, list_slots, fetch_ed25519_pubkey}
use crypto_rust_tools.Piv.Data.{
  slot_object_tag, slot_object_low, extract_certificate, extract_ed25519_from_cert,
}
use crypto_rust_tools.Piv.Tlv.{
  ber_len, read_tlv, read_tlv_loop, tlv_at, read_ber_len, end_of, byte_at, read_ber_len_from,
  read_len_bytes,
}
use crypto_rust_tools.Apdu.{build_apdu_ext}
use crypto_rust_tools.Examples.Scripts.{pin, message, card, key}

abbrev padded : Bytes
padded = 0x31 ∷ 0x32 ∷ 0x33 ∷ 0x34 ∷ 0x35 ∷ 0x36 ∷ 0xff ∷ 0xff ∷ []

abbrev piv_account : Account
piv_account = record { applet = piv; slot = 0x9c; curve = ed25519 }

padded_form : pin_padded pin ≡ ok padded
unfolding pin_padded codes as_bytes
padded_form = refl

sign_conduct_example :
    Obeys card
      (Piv.Card.Conduct.select_command ∷ verify_command padded ∷ sign_command 0x9c message ∷ [])
      (Piv.Card.sign script piv_account message (some pin) card)
sign_conduct_example = sign_conduct script piv_account message pin card padded_form

abbrev long_pin : Text
long_pin = codes "123456789"

long_pin_refused : pin_padded long_pin ≡ err (parse (codes "PIV PIN must be at most 8 characters"))
unfolding pin_padded codes as_bytes
long_pin_refused = refl

abbrev sign_object : Bytes
sign_object = 0x5f ∷ 0xc1 ∷ 0x0a ∷ []

slot_object_tag_sign : Piv.Data.slot_object_tag 0x9c ≡ ok sign_object
unfolding Piv.Data.slot_object_tag
slot_object_tag_sign = refl

abbrev wrong_account : Account
wrong_account = record { applet = piv; slot = 0x9c; curve = secp256k1 }

refused_early_example :
    (m : Text) × (Piv.Card.sign script wrong_account message (some pin) card
      ≡ (err (unsupported m), card))
    × (Piv.Card.get_pubkey script wrong_account card ≡ (err (unsupported m), card))
refused_early_example = refused_early script wrong_account message (some pin) card (inl refl)

-- A card with a key in the first slot only.
abbrev object : Bytes
object = tlv tag_data_object (tlv tag_certificate (0x30 ∷ (ed25519_spki_prefix ++ key)))

abbrev one_key : Session script
one_key = playing (done ∷ (object ++ done) ∷ [])

abbrev empty_slot : ℕ → SlotInfo
empty_slot slot = record { slot = slot; ed25519_pubkey = none }

abbrev infos : List SlotInfo
infos =
    record { slot = 0x9a; ed25519_pubkey = some key }
    ∷ map empty_slot (
        0x9c ∷ 0x9d ∷ 0x9e ∷ 0x82 ∷ 0x83 ∷ 0x84 ∷ 0x85 ∷ 0x86 ∷ 0x87 ∷ 0x88 ∷ 0x89 ∷ 0x8a ∷ 0x8b
        ∷ 0x8c ∷ 0x8d ∷ 0x8e ∷ 0x8f ∷ 0x90 ∷ 0x91 ∷ 0x92 ∷ 0x93 ∷ 0x94 ∷ 0x95 ∷ [])

one_key_listing : list_accounts script one_key ≡ (ok infos, (list_accounts script one_key).1)
unfolding list_accounts connect select send build_apdu transmit check_response list_slots all
    fetch_ed25519_pubkey slot_object_tag ber_len extract_certificate read_tlv read_tlv_loop tlv_at
    read_ber_len end_of build_apdu_ext slice matches_at position extract_ed25519_from_cert
    slot_object_low byte_at read_ber_len_from read_len_bytes
one_key_listing = refl
