-- ===== src/Examples/Scripts.antt =====
-- A PIN, a message, a key, and a card that accepts two commands.
use crypto_rust_tools.Base.{[], ◌∷◌, Bytes, replicate}
use crypto_rust_tools.Text.{Text, codes}
use crypto_rust_tools.Transport.{Session}
use crypto_rust_tools.Examples.Fixtures.{script, playing, done}

abbrev pub pin : Text
pin = codes "123456"

abbrev pub message : Bytes
message = 0x68 ∷ 0x69 ∷ []

abbrev pub card : Session script
card = playing (done ∷ done ∷ [])

abbrev pub key : Bytes
key = replicate 32 0x42
