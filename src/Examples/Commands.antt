-- ===== src/Examples/Commands.antt =====
-- yubiwallet/src/apdu.rs at concrete commands and responses.
use crypto_rust_tools.Base.{◌+◌, ◌*◌, ◌%◌, get_or, length}
use crypto_rust_tools.Base.{ℕ, ◌≡◌, ◌↔◌, refl, arith, none, some, [], ◌∷◌, ◌++◌}
use crypto_rust_tools.Base.{Bytes, length-replicate, replicate, ok, err}
use crypto_rust_tools.Error.{card, data_too_long, status_word_message}
use crypto_rust_tools.Apdu.{build_apdu, build_apdu_ext, check_response}
use crypto_rust_tools.Apdu.ShortForm.{decode_short, decode_short-build_apdu}
use crypto_rust_tools.Apdu.ExtendedForm.{decode_ext, decode_ext-build_apdu_ext, decode_ext_too_long}
use crypto_rust_tools.Apdu.Response.{check_response-eq-ok_iff}

-- VERIFY with the PIN 1234.
abbrev pin_bytes : Bytes
pin_bytes = 0x31 ∷ 0x32 ∷ 0x33 ∷ 0x34 ∷ []

abbrev verify : Bytes
verify = 0x00 ∷ 0x20 ∷ 0x00 ∷ 0x81 ∷ 0x04 ∷ pin_bytes

build_verify : build_apdu 0x00 0x20 0x00 0x81 (some pin_bytes) none ≡ ok verify
unfolding build_apdu
build_verify = refl

build_sign :
    build_apdu 0x00 0x2a 0x9e 0x9a (some (0x01 ∷ [])) (some 0x00)
    ≡ ok (0x00 ∷ 0x2a ∷ 0x9e ∷ 0x9a ∷ 0x01 ∷ 0x01 ∷ 0x00 ∷ [])
unfolding build_apdu
build_sign = refl

build_no_data :
    build_apdu 0x00 0x47 0x81 0x00 none none ≡ ok (0x00 ∷ 0x47 ∷ 0x81 ∷ 0x00 ∷ 0x00 ∷ [])
unfolding build_apdu
build_no_data = refl

build_too_long :
    build_apdu 0x00 0x2a 0x9e 0x9a (some (replicate 256 0)) none ≡ err (data_too_long 256)
unfolding build_apdu
build_too_long = refl

build_extended :
    build_apdu_ext 0x00 0xcb 0x3f 0xff (0x5c ∷ []) (some 0)
    ≡ 0x00 ∷ 0xcb ∷ 0x3f ∷ 0xff ∷ 0x00 ∷ 0x00 ∷ 0x01 ∷ 0x5c ∷ 0x00 ∷ 0x00 ∷ []
unfolding build_apdu_ext
build_extended = refl

-- The theorems at these commands.
decode_short-build_apdu_example :
    decode_short verify
    ≡ some (record { cla = 0x00; ins = 0x20; p1 = 0x00; p2 = 0x81; body = pin_bytes; le = none })
decode_short-build_apdu_example =
    decode_short-build_apdu 0x00 0x20 0x00 0x81 (some pin_bytes) none (λ e. cc e) build_verify

decode_ext-build_apdu_ext_example :
    decode_ext (build_apdu_ext 0x00 0xcb 0x3f 0xff (0x5c ∷ []) (some 0))
    ≡ some (record { cla = 0x00; ins = 0xcb; p1 = 0x3f; p2 = 0xff; body = 0x5c ∷ []; le = some 0 })
decode_ext-build_apdu_ext_example =
    decode_ext-build_apdu_ext 0x00 0xcb 0x3f 0xff (0x5c ∷ []) (some 0) (λ e. cc e) (omega arith)
      (λ n e. ground (arith, e))

decode_ext_too_long_example :
    let cmd = build_apdu_ext 0x00 0x87 0xe0 0x9c (replicate 65536 0) (some 0) in
    (get_or cmd 5 0 * 256 + get_or cmd 6 0 ≡ length {A = ℕ} (replicate 65536 0) % 65536)
    × (decode_ext cmd ≡ none)
decode_ext_too_long_example =
    decode_ext_too_long 0x00 0x87 0xe0 0x9c (replicate 65536 0) (some 0)
      (omega (arith, length-replicate {A = ℕ} 65536 0))

abbrev two_bytes : Bytes
two_bytes = 0x01 ∷ 0x02 ∷ 0x90 ∷ 0x00 ∷ []

check_response-eq-ok_iff_example :
    (check_response two_bytes ≡ ok (0x01 ∷ 0x02 ∷ []))
    ↔ (two_bytes ≡ (0x01 ∷ 0x02 ∷ []) ++ (0x90 ∷ 0x00 ∷ []))
check_response-eq-ok_iff_example =
    check_response-eq-ok_iff two_bytes (0x01 ∷ 0x02 ∷ []) (omega arith)

-- The response 0x63 0xc2: the PIN is wrong, and two attempts are left.
abbrev wrong_pin : Bytes
wrong_pin = 0x63 ∷ 0xc2 ∷ []

wrong_pin_refused : check_response wrong_pin ≡ err (card 0x63c2 (status_word_message 0x63c2))
unfolding check_response
wrong_pin_refused = refl
