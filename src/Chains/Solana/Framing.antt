-- ===== src/Chains/Solana/Framing.antt =====
-- yubiwallet/examples/sol_surfpool.rs: the header of a request ends where its body begins.
use crypto_rust_tools.Base.{
  ℕ, ◌≤◌, ◌≡◌, refl, arith, Bool, true, false, not, ◌&&◌, Bool-cases, inl, inr, All-append, ◌==◌,
  [], ◌∷◌, ◌++◌, append_assoc, length, All,
}
use crypto_rust_tools.Base.Search.{matches_at, position_found, FirstAt}
use crypto_rust_tools.Text.{Text, codes, as_bytes, decimal, decimal_digits}
use crypto_rust_tools.Chains.Solana.Rpc.{crlf, request, payload, blank_line}
use crypto_rust_tools.Chains.Solana.Members.{drop_pattern}

-- A text of one line: it has no carriage return.
abbrev pub IsLine : Text → Type 0
IsLine = All (λ c. (c == 13) ≡ false)

FirstAt-append :
    (needle front next tail : Text)
    → FirstAt needle front (next ++ tail)
    → FirstAt needle next tail
    → FirstAt needle (front ++ next) tail
FirstAt-append needle [] next tail h k = k
FirstAt-append needle (x ∷ front) next tail (h, hs) k =
    (rw (append_assoc front next tail) h, FirstAt-append needle front next tail hs k)

line_lem : (line tail : Text) → IsLine line → FirstAt blank_line line tail
unfolding blank_line matches_at
line_lem [] tail h = tt
line_lem (c ∷ line) tail (h, hs) = (rw h refl, line_lem line tail hs)

crlf_lem : (c : ℕ) (tail : Text) → (c == 13) ≡ false → FirstAt blank_line crlf (c ∷ tail)
unfolding blank_line matches_at
crlf_lem c tail h = (rw h refl, (refl, tt))

digits_lem : (t : Text) → All (λ c. b'0' ≤ c) t → IsLine t
digits_lem [] h = tt
digits_lem (c ∷ t) (h, hs) = (ground arith, digits_lem t hs)

is_line : Text → Bool
is_line [] = true
is_line (c ∷ t) = not (c == 13) && is_line t

-- A text of the source is seen to be a line.
literal : (t : Text) → is_line t ≡ true → IsLine t
unfolding is_line
literal [] h = tt
literal (c ∷ t) h = elim (Bool-cases (c == 13)) [
  | inl e ↦ absurd (ground arith)
  | inr e ↦ (e, literal t (rw e at h))
]

begins_line : Text → Bool
begins_line [] = false
begins_line (c ∷ t) = not (c == 13)

after_crlf :
    (next tail : Text)
    → begins_line next ≡ true
    → FirstAt blank_line next tail
    → FirstAt blank_line (crlf ++ next) tail
unfolding begins_line
after_crlf [] tail h k = absurd (cc)
after_crlf (c ∷ next) tail h k =
    FirstAt-append blank_line crlf (c ∷ next) tail (crlf_lem c (next ++ tail) (ground arith)) k

-- A line, and what begins the next one.
next_line :
    (line next tail : Text)
    → IsLine line
    → begins_line next ≡ true
    → FirstAt blank_line next tail
    → FirstAt blank_line (line ++ (crlf ++ next)) tail
next_line line next tail l h k =
    FirstAt-append blank_line line (crlf ++ next) tail (line_lem line _ l)
      (after_crlf next tail h k)

-- The header, up to its last line, from its end.
abbrev connection : Text
connection = codes "Connection: close"

abbrev from_length : Text → Text
from_length size = (codes "Content-Length: " ++ size) ++ (crlf ++ connection)

abbrev from_type : Text → Text
from_type size = codes "Content-Type: application/json" ++ (crlf ++ from_length size)

abbrev from_host : Text → Text → Text
from_host addr size = (codes "Host: " ++ addr) ++ (crlf ++ from_type size)

abbrev header : Text → Text → Text
header addr size = codes "POST / HTTP/1.1" ++ (crlf ++ from_host addr size)

labelled : (label t : Text) → is_line label ≡ true → IsLine t → IsLine (label ++ t)
labelled label t h k = All-append (λ c. (c == 13) ≡ false) label t (literal label h) k

header_lem :
    (addr size tail : Text) → IsLine addr → IsLine size → FirstAt blank_line (header addr size) tail
unfolding codes is_line begins_line
header_lem addr size tail a s =
    next_line (codes "POST / HTTP/1.1") (from_host addr size) tail
      (literal (codes "POST / HTTP/1.1") refl) refl
      (next_line (codes "Host: " ++ addr) (from_type size) tail
        (labelled (codes "Host: ") addr refl a) refl
        (next_line (codes "Content-Type: application/json") (from_length size) tail
          (literal (codes "Content-Type: application/json") refl) refl
          (next_line (codes "Content-Length: " ++ size) connection tail
            (labelled (codes "Content-Length: ") size refl s) refl
            (line_lem connection tail (literal connection refl)))))

splits :
    (addr body : Text)
    → request addr body ≡ header addr (decimal (length (as_bytes body))) ++ (blank_line ++ body)
unfolding request codes
splits addr body = rw (append_assoc addr, append_assoc (decimal (length (as_bytes body)))) refl

-- What follows the blank line of a request is the body, if the address has no carriage return.
pub payload-request : (addr body : Text) → IsLine addr → payload (request addr body) ≡ body
unfolding payload
payload-request addr body a =
    let size = decimal (length (as_bytes body)) in
    let first = header_lem addr size (blank_line ++ body) a (digits_lem size (decimal_digits _)) in
    rw (splits addr body, position_found 13 (10 ∷ 13 ∷ 10 ∷ []) (header addr size) body first)
      (drop_pattern (header addr size) blank_line body)
