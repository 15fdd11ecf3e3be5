-- ===== src/Suite/Apdu.antt =====
-- The tests of yubiwallet/src/apdu.rs.
use crypto_rust_tools.Base.{
  ◌+◌, ◌≡◌, refl, Bool, true, none, some, List, [], ◌∷◌, bytes_eq, length, take, replicate, ◌==◌,
}
use crypto_rust_tools.Apdu.{build_apdu, build_apdu_ext}
use crypto_rust_tools.Suite.{all_hold, unwraps_to, is_data_too_long}

unfoldable data_and_le_are_appended : Bool
data_and_le_are_appended =
    unwraps_to (build_apdu 0x00 0x2a 0x9e 0x9a (some (0xaa ∷ 0xbb ∷ [])) (some 0x00))
      (0x00 ∷ 0x2a ∷ 0x9e ∷ 0x9a ∷ 0x02 ∷ 0xaa ∷ 0xbb ∷ 0x00 ∷ [])

unfoldable no_data_no_le_appends_single_zero : Bool
no_data_no_le_appends_single_zero =
    unwraps_to (build_apdu 0x00 0xa4 0x04 0x00 none none) (0x00 ∷ 0xa4 ∷ 0x04 ∷ 0x00 ∷ 0x00 ∷ [])

unfoldable no_data_with_le_appends_only_le : Bool
no_data_with_le_appends_only_le =
    unwraps_to (build_apdu 0x00 0xcb 0x3f 0xff none (some 0x00))
      (0x00 ∷ 0xcb ∷ 0x3f ∷ 0xff ∷ 0x00 ∷ [])

unfoldable data_without_le_has_no_trailing_byte : Bool
data_without_le_has_no_trailing_byte =
    unwraps_to (build_apdu 0x00 0x20 0x00 0x81 (some (0x31 ∷ 0x32 ∷ [])) none)
      (0x00 ∷ 0x20 ∷ 0x00 ∷ 0x81 ∷ 0x02 ∷ 0x31 ∷ 0x32 ∷ [])

unfoldable oversized_data_is_rejected : Bool
oversized_data_is_rejected =
    let big = replicate 256 0 in
    is_data_too_long 256 (build_apdu 0x00 0x2a 0x00 0x00 (some big) none)

unfoldable extended_apdu_encodes_three_byte_lc : Bool
extended_apdu_encodes_three_byte_lc =
    bytes_eq (build_apdu_ext 0x00 0x87 0xe0 0x9a (0xaa ∷ 0xbb ∷ 0xcc ∷ []) (some 0))
      (0x00 ∷ 0x87 ∷ 0xe0 ∷ 0x9a ∷ 0x00 ∷ 0x00 ∷ 0x03 ∷ 0xaa ∷ 0xbb ∷ 0xcc ∷ 0x00 ∷ 0x00 ∷ [])

unfoldable extended_apdu_handles_data_over_255_bytes : Bool
extended_apdu_handles_data_over_255_bytes =
    let cmd = build_apdu_ext 0x00 0x87 0xe0 0x9a (replicate 300 0x11) none in
    all_hold (
      bytes_eq (take 7 cmd) (0x00 ∷ 0x87 ∷ 0xe0 ∷ 0x9a ∷ 0x00 ∷ 0x01 ∷ 0x2c ∷ [])
      ∷ (length cmd == 7 + 300)
      ∷ [])

abbrev tests : List Bool
tests =
    data_and_le_are_appended ∷ no_data_no_le_appends_single_zero ∷ no_data_with_le_appends_only_le
    ∷ data_without_le_has_no_trailing_byte ∷ oversized_data_is_rejected
    ∷ extended_apdu_encodes_three_byte_lc ∷ extended_apdu_handles_data_over_255_bytes ∷ []

-- All of them pass.
tests_pass : all_hold tests ≡ true
unfolding data_and_le_are_appended no_data_no_le_appends_single_zero no_data_with_le_appends_only_le
    data_without_le_has_no_trailing_byte oversized_data_is_rejected
    extended_apdu_encodes_three_byte_lc extended_apdu_handles_data_over_255_bytes build_apdu
    build_apdu_ext
tests_pass = refl
