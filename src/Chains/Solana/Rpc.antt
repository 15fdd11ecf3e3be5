-- ===== src/Chains/Solana/Rpc.antt =====
-- yubiwallet/examples/sol_surfpool.rs: a JSON-RPC call over HTTP, and the member of its answer.
use crypto_rust_tools.Base.{
  ℕ, ◌+◌, Option, none, some, List, [], ◌∷◌, ◌++◌, length, take, drop, Result, map_ok,
}
use crypto_rust_tools.Base.Search.{position}
use crypto_rust_tools.Text.{Text, codes, as_bytes, decimal}
use crypto_rust_tools.Chains.Encoding.{Panic}

-- The node: its answer to a request, after the requests that it had before. A connection that fails
-- and an answer that is not UTF-8 are panics.
abbrev pub Node : Type 0
Node = List (Text × Text) → Text × Text → Result Text Panic

abbrev default_address : Text
default_address = codes "127.0.0.1:8899"

-- `addr`, from the environment's SOLANA_RPC.
unfoldable pub address_of : Option Text → Text
address_of none = default_address
address_of (some addr) = addr

abbrev pub crlf : Text
crlf = 13 ∷ 10 ∷ []

unfoldable pub body_of : Text → Text → Text
body_of method params =
    codes "{\"jsonrpc\":\"2.0\",\"id\":1,\"method\":\""
    ++ (method ++ (codes "\",\"params\":" ++ (params ++ codes "}")))

-- `req`
unfoldable pub request : Text → Text → Text
request addr body =
    codes "POST / HTTP/1.1"
    ++ (crlf
        ++ (codes "Host: "
            ++ (addr
                ++ (crlf
                    ++ (codes "Content-Type: application/json"
                        ++ (crlf
                            ++ (codes "Content-Length: "
                                ++ (decimal (length (as_bytes body))
                                    ++ (crlf
                                        ++ (codes "Connection: close"
                                            ++ (crlf ++ (crlf ++ body))))))))))))

abbrev pub blank_line : Text
blank_line = 13 ∷ 10 ∷ 13 ∷ 10 ∷ []

after_blank : Option ℕ → Text → Text
after_blank none resp = []
after_blank (some i) resp = drop (i + 4) resp

-- `resp.split_once("\r\n\r\n").map(|x| x.1).unwrap_or("")`
unfoldable pub payload : Text → Text
unfolding blank_line after_blank
payload resp = after_blank (position blank_line resp) resp

-- `?` on an option.
infixl 5 ◌>>=◌
abbrev ◌>>=◌ : {A B : Type 0} → Option A → (A → Option B) → Option B
none >>= f = none
some a >>= f = f a

-- The request of a call.
unfoldable pub call_of : Option Text → Text → Text → Text × Text
call_of env method params = (address_of env, request (address_of env) (body_of method params))

-- `rpc`, after the calls `before`.
unfoldable pub rpc : Node → List (Text × Text) → Text × Text → Result Text Panic
rpc node before call = map_ok payload (node before call)

-- `pat`
unfoldable pub member_pattern : Text → Text
member_pattern key = b'"' ∷ (key ++ codes "\":\"")

-- `&rest[..end]`
abbrev pub up_to_quote : Text → Option Text
up_to_quote rest = do end ← position (b'"' ∷ []) rest; some (take end rest)

unfoldable pub json_str : Text → Text → Option Text
json_str body key = do
  i ← position (member_pattern key) body
  up_to_quote (drop (i + length (member_pattern key)) body)
