-- ===== src/Host/Serve.antt =====
-- yubiwallet-host/src/main.rs: `handle`, `serialize` and the loop of `main`.
pub mod Loop
pub mod Attempts
use crypto_rust_tools.Base.{
  ℕ, zero, suc, Option, none, some, List, [], ◌∷◌, ◌++◌, Bytes, length, Result, ok, err,
}
use crypto_rust_tools.Text.{Text, codes}
use crypto_rust_tools.External.{Crates}
use crypto_rust_tools.Transport.{Platform, Session}
use crypto_rust_tools.Host.Accounts.{Failure}
use crypto_rust_tools.Host.Frames.{read_message, write_message}
use crypto_rust_tools.Host.Methods.{Terminal, bad_request, dispatch}

pub record Request (V : Type 0) : Type 0 where
  pub id : ℕ
  pub method : Text
  pub params : V

-- `Resp`, with `ErrObj` as a `Failure`.
pub record Response (V : Type 0) : Type 0 where
  pub id : ℕ
  pub result : Option V
  pub error : Option Failure

-- `serde_json::from_slice` and `serde_json::to_vec`, at the two types above.
pub record Wire (V : Type 0) : Type 0 where
  pub from_slice : Bytes → Result (Request V) Text
  pub to_vec : Response V → Result Bytes Text

abbrev or_default : Result Bytes Text → Bytes
or_default (ok b) = b
or_default (err e) = []

abbrev pub response_of : {V : Type 0} → ℕ → Result V Failure → Response V
response_of id (ok v) = record { id = id; result = some v; error = none }
response_of id (err f) = record { id = id; result = none; error = some f }

-- Everything that the host runs on.
pub record Host : Type 1 where
  pub crates : Crates
  pub platform : Platform
  pub terminal : Terminal platform
  pub wire : Wire crates.json.Value
  pub version : Text

module _ (h : Host) where
  open h use {crates, platform, terminal, wire, version}

  unfoldable pub serialize : ℕ → Result crates.json.Value Failure → Bytes
  serialize id result = or_default (wire.to_vec (response_of id result))

  abbrev finish : ℕ → Result crates.json.Value Failure × Session platform → Bytes × Session platform
  finish id (result, s) = (serialize id result, s)

  abbrev handle_request :
      Result (Request crates.json.Value) Text → Session platform → Bytes × Session platform
  handle_request (err e) s = (serialize 0 (err (bad_request e)), s)
  handle_request (ok req) s =
      finish req.id (dispatch crates platform terminal version req.method req.params s)

  unfoldable pub handle : Bytes → Session platform → Bytes × Session platform
  handle msg s = handle_request (wire.from_slice msg) s

  -- The loop of `main` over the input, with what is written behind `out`. Fuel: each round takes
  -- four bytes at least; `none` means that the fuel ran out.
  unfoldable pub serve_loop :
      ℕ → Bytes → Bytes → Session platform → Option (Bytes × Session platform)
  serve_loop zero input out s = none
  serve_loop (suc fuel) input out s = elim (read_message input) [
    | none ↦ some (out, s)
    | some (msg, rest) ↦
        serve_loop fuel rest (out ++ write_message (handle msg s).0) (handle msg s).1
  ]

  unfoldable pub serve : Bytes → Session platform → Option (Bytes × Session platform)
  unfolding serve_loop
  serve input s = serve_loop (suc (length input)) input [] s
