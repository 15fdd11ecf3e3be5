-- ===== src/Host/Accounts.antt =====
-- yubiwallet-host/src/main.rs: account identifiers, and the JSON of one account.
pub mod RoundTrip
use crypto_rust_tools.Base.{
  ℕ, Option, none, some, List, [], ◌∷◌, ◌++◌, Bytes, Result, ok, err, map_err, ◌>>=◌,
}
use crypto_rust_tools.Text.{Text, codes, split}
use crypto_rust_tools.External.{Hex, Keccak, Json}
use crypto_rust_tools.Error.{Error, to_string}
use crypto_rust_tools.Account.{
  Account, Applet, Curve, ed25519, secp256k1, parse_applet, parse_slot, parse_curve,
}
use crypto_rust_tools.Eth.{address_from_pubkey, address_to_hex}

-- The error of a method: its code and its message.
pub record Failure : Type 0 where
  pub code : Text
  pub message : Text

abbrev pub bad : Text → Failure
bad m = record { code = codes "UNKNOWN_ACCOUNT"; message = m }

-- The three parts behind `p.len() == 3`.
abbrev pub parse_parts : Text → List Text → Result Account Failure
parse_parts id (a ∷ s ∷ c ∷ []) = do
  applet ← map_err (λ e. bad (to_string e)) (parse_applet a)
  slot ← map_err (λ e. bad (to_string e)) (parse_slot applet s)
  curve ← map_err (λ e. bad (to_string e)) (parse_curve c)
  ok (record { applet = applet; slot = slot; curve = curve })
parse_parts id _ =
    err (bad (codes "bad account_id '" ++ (id ++ codes "' (want applet:slot:curve)")))

unfoldable pub parse_account : Text → Result Account Failure
parse_account id = parse_parts id (split b':' id)

-- `curve_str`
unfoldable pub curve_name : Curve → Text
curve_name ed25519 = codes "ed25519"
curve_name secp256k1 = codes "secp256k1"

unfoldable pub family_name : Curve → Text
family_name ed25519 = codes "solana"
family_name secp256k1 = codes "evm"

-- `format!("{applet}:{slot}:{curve_str}")`
unfoldable pub account_id : Text → Text → Curve → Text
unfolding curve_name
account_id applet slot curve = applet ++ (b':' ∷ (slot ++ (b':' ∷ curve_name curve)))

abbrev or_empty : Result Text Error → Text
or_empty (ok t) = t
or_empty (err e) = []

abbrev map_address : Hex → Result Bytes Error → Result Text Error
map_address H (ok a) = ok (address_to_hex H a)
map_address H (err e) = err e

module _ (H : Hex) (keccak : Keccak) (bs58_encode : Bytes → Text) (J : Json) where
  unfoldable pub account_address : Curve → Bytes → Text
  account_address ed25519 pk = bs58_encode pk
  account_address secp256k1 pk = or_empty (map_address H (address_from_pubkey keccak pk))

  unfoldable pub account_json : Text → Text → Curve → Bytes → J.Value
  account_json applet slot curve pk = J.object (
      (codes "id", J.string (account_id applet slot curve))
      ∷ (codes "family", J.string (family_name curve))
      ∷ (codes "curve", J.string (curve_name curve))
      ∷ (codes "applet", J.string applet)
      ∷ (codes "slot", J.string slot)
      ∷ (codes "address", J.string (account_address curve pk))
      ∷ (codes "pubkey", J.string (H.encode pk))
      ∷ [])
