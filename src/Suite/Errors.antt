-- ===== src/Suite/Errors.antt =====
-- The tests of yubiwallet/src/error.rs.
use crypto_rust_tools.Text.{decimal, hex4_upper}
use crypto_rust_tools.Base.Search.{matches_at, position}
use crypto_rust_tools.Base.{◌≡◌, refl, Bool, true, List, [], ◌∷◌}
use crypto_rust_tools.Text.{codes, text_eq}
use crypto_rust_tools.Error.{status_word_message}
use crypto_rust_tools.Suite.{all_hold, contains}

unfoldable pin_retry_count_is_decoded : Bool
pin_retry_count_is_decoded = all_hold (
    text_eq (status_word_message 0x63c2) (codes "PIN verification failed. Retries left: 2")
    ∷ text_eq (status_word_message 0x63c0) (codes "PIN verification failed. Retries left: 0")
    ∷ [])

unfoldable known_status_words_have_descriptions : Bool
known_status_words_have_descriptions = all_hold (
    contains (status_word_message 0x6983) (codes "blocked")
    ∷ contains (status_word_message 0x6982) (codes "Security status")
    ∷ contains (status_word_message 0x6985) (codes "Conditions of use")
    ∷ text_eq (status_word_message 0x9000) (codes "success")
    ∷ [])

unfoldable unknown_status_word_falls_back_to_hex : Bool
unknown_status_word_falls_back_to_hex =
    text_eq (status_word_message 0x1234) (codes "Card returned error status: 1234")

abbrev tests : List Bool
tests =
    pin_retry_count_is_decoded ∷ known_status_words_have_descriptions
    ∷ unknown_status_word_falls_back_to_hex ∷ []

-- All of them pass.
tests_pass : all_hold tests ≡ true
unfolding pin_retry_count_is_decoded text_eq status_word_message codes decimal
    known_status_words_have_descriptions position matches_at unknown_status_word_falls_back_to_hex
    hex4_upper
tests_pass = refl
