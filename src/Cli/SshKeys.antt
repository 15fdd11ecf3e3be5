-- ===== src/Cli/SshKeys.antt =====
-- yubiwallet/src/main.rs, `ssh_ed25519_to_solana`: the address of a well-formed key.
use crypto_rust_tools.Base.{◌≡◌, arith, some, List, [], ◌∷◌, ◌++◌}
use crypto_rust_tools.Base.{Bytes, length, append-nil, take-append_length, slice, Result, ok}
use crypto_rust_tools.Text.{Text, codes, text_eq, split_whitespace}
use crypto_rust_tools.Cli.{key_of_blob, base64_part, ssh_ed25519_to_solana}

-- The blob of an Ed25519 key: the name of the key type and the key, each behind its length in four
-- bytes, the highest first.
abbrev pub ssh_blob : Bytes → Bytes
ssh_blob key =
    (0 ∷ 0 ∷ 0 ∷ 11 ∷ b's' ∷ b's' ∷ b'h' ∷ b'-' ∷ b'e' ∷ b'd' ∷ b'2' ∷ b'5' ∷ b'5' ∷ b'1' ∷ b'9' ∷ 0
      ∷ 0 ∷ 0 ∷ 32 ∷ [])
    ++ key

key_of_blob-ssh_blob : (key : Bytes) → length key ≡ 32 → key_of_blob (ssh_blob key) ≡ some key
unfolding key_of_blob slice
key_of_blob-ssh_blob key h =
    ground (arith, append-nil key, take-append_length key [] 32 (omega (arith, h)))

-- A line of `ssh-ed25519`, the base64 form of the blob of a key of 32 bytes, and any comment, is
-- turned into the base58 form of the key.
pub ssh_ed25519_to_solana-ssh_blob :
    (decode : Text → Result Bytes Text) (bs58_encode : Bytes → Text) (line blob : Text)
    (comment : List Text) (key : Bytes)
    → split_whitespace line ≡ codes "ssh-ed25519" ∷ blob ∷ comment
    → decode blob ≡ ok (ssh_blob key)
    → length key ≡ 32
    → ssh_ed25519_to_solana decode bs58_encode line ≡ ok (bs58_encode key)
unfolding ssh_ed25519_to_solana base64_part text_eq codes
ssh_ed25519_to_solana-ssh_blob decode bs58_encode line blob comment key e d h =
    rw (e, d, key_of_blob-ssh_blob key h)
