-- ===== src/Text.antt =====
-- The functions of Rust's `str` that the program calls. A text is the list of its characters, each
-- by its Unicode scalar value.
mod Chars
mod Format
unfoldable pub use Chars.*
unfoldable pub use Format.*
