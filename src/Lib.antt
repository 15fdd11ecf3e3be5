-- ===== src/Lib.antt =====
-- yubiwallet: signing for several chains with keys on a YubiKey.
--
-- The program is a library (yubiwallet/src), a native-messaging host for browser extensions
-- (yubiwallet-host/src/main.rs), a command-line program (yubiwallet/src/main.rs) and WebAssembly
-- bindings (yubiwallet-wasm/src/lib.rs), and four example programs that build transactions
-- (yubiwallet/examples). An account is an applet of the card (OpenPGP or PIV), a
-- slot and a curve. `get_pubkey` and `sign` dispatch on the applet, whose module selects it,
-- verifies the PIN and sends the command, by the APDU layer, over the `pcsc` crate. The host reads
-- requests from frames, calls the library, and turns a card signature into an Ethereum signature.
--
-- The files, with the source that each models:
--   Base                helpers on lists, results and Boolean tests, and the search for a marker
--   Text                the functions of `str` and `format!` that the program calls
--   External            the crates `hex`, `sha3`, `k256`, `bs58` and `serde_json`, as records
--   Transport           the `pcsc` crate, the standard streams, and yubiwallet/src/pin.rs
--   Error               yubiwallet/src/error.rs
--   Apdu                yubiwallet/src/apdu.rs: build_apdu, build_apdu_ext, connect, transmit, send
--   Account             yubiwallet/src/account.rs
--   Piv                 yubiwallet/src/piv.rs: Tlv and Data are its pure helpers, Card its operations
--   OpenPgp             yubiwallet/src/openpgp.rs, in the same way
--   Eth                 yubiwallet/src/eth.rs
--   Wallet              yubiwallet/src/lib.rs
--   Host                yubiwallet-host/src/main.rs: Frames, Accounts, Methods, Serve
--   Wasm                yubiwallet-wasm/src/lib.rs
--   Cli                 yubiwallet/src/main.rs: Console is what it prints, Program the commands and main
--   Chains              yubiwallet/examples: Bitcoin is btc_sign.rs, Solana sol_surfpool.rs, Sui
--                       sui_sign.rs, Ethereum ethereum.rs; Readers and Steps serve the theorems
--   Suite               the unit tests of yubiwallet/src, as Booleans over the model
--   Examples            tests, and the theorems at concrete inputs
-- A module's children hold its theorems, and are named for what these are about. Functions have
-- the names of the source, except that a `FromStr` of a type is `parse_<type>`.
--
-- State. The only state is that of the card and of the terminal. A `Platform` is a type of states
-- with the calls of `pcsc` and of the standard streams on it, each of which may fail with a text;
-- nothing else is assumed of it. A `Session` is such a state with the exchanges made so far, and an
-- operation is a function from a session to a result and a session (`M`, with `?` as its bind).
-- The record of exchanges is written by `exchange` only and read by no operation. `Obeys` says of
-- a run which commands it sent: a plan, in its order, that is broken off at the first command that
-- the card does not accept, and that is complete, all accepted, if the result is a success.
-- `Serves` says of a platform that its calls succeed, each with a buffer that its result fits in, and
-- that its card answers each command by those before it, and `Reaches` of a run that it comes to a
-- value on such a card. A `Meter` counts what a run spends, with laws for the calls of a platform, and
-- `AtMost` bounds it (the modules Attempts); the VERIFY commands sent are counted so. The command-line
-- program and ethereum.rs carry a `Screen`: a session, and the lines printed so far. The other examples have
-- the lines that they print as their value, and a panic as their error.
--
-- Piv.Card.Chip has the commands and answers of a PIV card byte by byte, with a coding of lengths of its
-- own, and the proof that piv.rs builds these commands for messages of at most 65000 bytes.
-- Piv.Card.Applet is a PIV applet as NIST SP 800-73 documents it: the state of a chip (fresh, selected
-- or verified, and the tries left for the PIN), its steps on the commands that the program sends
-- (`Answers`), and what a signing request amounts to (`request`). `HasApplet` says that the card of a
-- platform takes these steps, for each buffer that the answer fits in, and `Yields` of a run that it comes to a result and leaves the chip in
-- a state. The status word for a slot without a key, and the phase behind a signature, depend on the
-- card and are parameters of the applet.
--
-- Numbers are natural numbers, with the wrap-around of `as u8`, `as u32` and of the u64 arithmetic
-- of a release build written out; `usize` has 64 bits. A text is a list of Unicode scalar values.
--
-- Fuel. `read_tlv_loop` has the length of the buffer as fuel, since each round moves forward by
-- two bytes at least, and `serve_loop` one more than the length of the input, since each frame
-- takes four bytes at least, so it is enough on every input; a round of `decimal` divides by ten.
-- `compact_u16` has ten rounds of seven bits for the 64 bits of a usize.
--
-- Parameters. `IsHex` (what is encoded is decoded again, two lower-case digits a byte), `IsKeccak`
-- (32 bytes) and `IsK256` (`normalize_s` returns a signature that it leaves as it is, and a
-- signature has 64 bytes) are documented behaviour of the crates. The loop of the host takes its
-- whole input, and what it writes is written. The JSON of requests and responses is a parameter of
-- the host, and the base64 engine one of the programs that use it. Of the examples, the hash
-- functions, bech32, base58, the alloy crate and the Solana node are parameters; the node answers a
-- request by those before it, and each call of an Ethereum node is made once. The tests of eth.rs have
-- the signing keys of k256 as a parameter, with `IsSigner` for its laws.
--
-- Not modelled: the parser of the command line (the clap crate); the lifetime of card contexts and
-- buffers; the pause of sol_surfpool.rs; the parsing of an amount of Ether as a floating-point number
-- (a parameter); yubiwallet/tests/chains.rs, which compares other crates with known addresses; what the
-- OpenPGP applet does on a wrong PIN, which cards answer in different ways; and the TypeScript clients and shell scripts of integration.
pub mod Account
pub mod Apdu
pub mod Base
pub mod Chains
pub mod Cli
pub mod Error
pub mod Eth
mod Examples
pub mod External
pub mod Host
pub mod OpenPgp
pub mod Piv
pub mod Suite
pub mod Text
pub mod Transport
pub mod Wallet
pub mod Wasm
