-- ===== src/Chains/Solana/Members.antt =====
-- yubiwallet/examples/sol_surfpool.rs: what `json_str` finds.
use crypto_rust_tools.Base.{◌+◌, ◌≡◌, refl, sym, ◌∙◌, ap, some, ◌↔◌, inl, inr}
use crypto_rust_tools.Base.{
  [], ◌∷◌, ◌++◌, append_assoc, length, length-append, drop, take-append_length, drop-append_length,
  Option-cases,
}
use mathlib.Core.Option.{some-injective}
use crypto_rust_tools.Base.Search.{position, position_found, position_sound, Found, FirstAt}
use crypto_rust_tools.Text.{Text, codes}
use crypto_rust_tools.Chains.Solana.Rpc.{member_pattern, up_to_quote, json_str}

abbrev quote : Text
quote = b'"' ∷ []

-- The value stands behind the first place of the pattern, and ends at the first quote.
pub record IsMember (body key value : Text) : Type 0 where
  pub front : Text
  pub rest : Text
  pub splits : body ≡ front ++ (member_pattern key ++ (value ++ (quote ++ rest)))
  pub is_first :
      FirstAt (member_pattern key) front (member_pattern key ++ (value ++ (quote ++ rest)))
  pub ends : FirstAt quote value (quote ++ rest)

up_to_quote_found :
    (value rest : Text)
    → FirstAt quote value (quote ++ rest)
    → up_to_quote (value ++ (quote ++ rest)) ≡ some value
up_to_quote_found value rest h =
    rw (position_found b'"' [] value rest h)
      (ap some (take-append_length value (quote ++ rest) (length value) refl))

pub drop_pattern :
    (front pat tail : Text) → drop (length front + length pat) (front ++ (pat ++ tail)) ≡ tail
drop_pattern front pat tail = rw (← append_assoc front pat tail) (
    drop-append_length (front ++ pat) tail (length front + length pat)
      (sym (length-append front pat)))

-- `json_str` goes on behind the first place of the pattern.
json_str_at :
    (key front tail : Text)
    → FirstAt (member_pattern key) front (member_pattern key ++ tail)
    → json_str (front ++ (member_pattern key ++ tail)) key ≡ up_to_quote tail
unfolding json_str member_pattern
json_str_at key front tail h =
    rw
      (
        position_found b'"' (key ++ codes "\":\"") front tail h,
        drop_pattern front (member_pattern key) tail,
      )
      refl

json_str_found : (body key value : Text) → IsMember body key value → json_str body key ≡ some value
json_str_found body key value m =
    rw (m.splits, json_str_at key m.front _ m.is_first) (up_to_quote_found value m.rest m.ends)

up_to_quote_sound :
    (tail value : Text)
    → up_to_quote tail ≡ some value
    → (rest : Text) × (tail ≡ value ++ (quote ++ rest)) × FirstAt quote value (quote ++ rest)
up_to_quote_sound tail value h = elim (Option-cases (position quote tail)) [
  | inl e ↦ absurd (cc)
  | inr (q, e) ↦
      let f : Found quote tail q = position_sound quote tail q e in
      let found : up_to_quote tail ≡ some f.pre =
        rw f.splits (up_to_quote_found f.pre f.post f.is_first) in
      let same : f.pre ≡ value = some-injective _ _ (sym found ∙ h) in
      (f.post, rw same at f.splits, rw same at f.is_first)
]

json_str_sound : (body key value : Text) → json_str body key ≡ some value → IsMember body key value
unfolding json_str
json_str_sound body key value h = elim (Option-cases (position (member_pattern key) body)) [
  | inl e ↦ absurd (cc)
  | inr (p, e) ↦
      let f : Found (member_pattern key) body p = position_sound (member_pattern key) body p e in
      let tail = up_to_quote_sound f.post value (
        sym (json_str_at key f.pre f.post f.is_first)
        ∙ (ap (λ b. json_str b key) (sym f.splits) ∙ h)) in
      record {
        front = f.pre;
        rest = tail.0;
        splits = f.splits ∙ ap (λ t. f.pre ++ (member_pattern key ++ t)) tail.1;
        is_first = rw tail.1 at f.is_first;
        ends = tail.2;
      }
]

-- `json_str` returns a value exactly if the value stands behind the first place of the key with its
-- quotes, the colon and the opening quote, and ends at the first quote.
pub json_str-IsMember :
    (body key value : Text) → (json_str body key ≡ some value) ↔ IsMember body key value
json_str-IsMember body key value = (json_str_sound body key value, json_str_found body key value)
