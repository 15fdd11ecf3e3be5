-- ===== src/Chains/Bitcoin/Arguments.antt =====
-- yubiwallet/examples/btc_sign.rs: what the arguments from the fourth on name.
use crypto_rust_tools.Base.{ℕ, ◌≡◌, refl, sym, ◌∙◌, ap, List, Bytes}
use crypto_rust_tools.Base.{ok, err, Result, Option, ◌>>=◌, ok-injective, get_elem?, some, none}
use mathlib.Core.List.{reverse}
use crypto_rust_tools.Text.{Text}
use crypto_rust_tools.External.{Hex}
use crypto_rust_tools.Chains.Encoding.{Panic, parse_unsigned, unwrap, unwrap_option}
use crypto_rust_tools.Chains.Bitcoin.{Spend, read_spend}

-- A step of a reading that ends well.
given :
    {A B C : Type 0} (o : Option A) (f : A → Result B Panic) {b : B}
    → (unwrap_option o >>= f) ≡ ok b
    → ((a : A) → o ≡ some a → f a ≡ ok b → C)
    → C
given none f h k = absurd (cc h)
given (some a) f h k = k a refl h

decoded :
    {A B C E : Type 0} (r : Result A E) (f : A → Result B Panic) {b : B}
    → (unwrap r >>= f) ≡ ok b
    → ((a : A) → r ≡ ok a → f a ≡ ok b → C)
    → C
decoded (err e) f h k = absurd (cc h)
decoded (ok a) f h k = k a refl h

module _ (H : Hex) (args : List Text) where
  -- The arguments from the fourth on: the transaction id, the number of the output, its amount, the
  -- script that is paid, and the amount.
  pub record Names (spend : Spend) (txid : Bytes) : Type 0 where
    pub txid_text : Text
    pub vout_text : Text
    pub in_text : Text
    pub script_text : Text
    pub out_text : Text
    pub txid_given : get_elem? args 3 ≡ some txid_text
    pub vout_given : get_elem? args 4 ≡ some vout_text
    pub in_given : get_elem? args 5 ≡ some in_text
    pub script_given : get_elem? args 6 ≡ some script_text
    pub out_given : get_elem? args 7 ≡ some out_text
    pub txid_read : H.decode txid_text ≡ ok txid
    pub vout_read : parse_unsigned 32 vout_text ≡ some spend.vout
    pub in_read : parse_unsigned 64 in_text ≡ some spend.in_sat
    pub script_read : H.decode script_text ≡ ok spend.dest_spk
    pub out_read : parse_unsigned 64 out_text ≡ some spend.out_sat
    pub reversed : spend.txid_le ≡ reverse txid

  Names-asked :
      (spend : Spend) (txid_text vout_text in_text script_text out_text : Text)
      (txid dest_spk : Bytes) (vout in_sat out_sat : ℕ)
      → get_elem? args 3 ≡ some txid_text
      → H.decode txid_text ≡ ok txid
      → get_elem? args 4 ≡ some vout_text
      → parse_unsigned 32 vout_text ≡ some vout
      → get_elem? args 5 ≡ some in_text
      → parse_unsigned 64 in_text ≡ some in_sat
      → get_elem? args 6 ≡ some script_text
      → H.decode script_text ≡ ok dest_spk
      → get_elem? args 7 ≡ some out_text
      → parse_unsigned 64 out_text ≡ some out_sat
      → record {
        txid_le = reverse txid;
        vout = vout;
        in_sat = in_sat;
        dest_spk = dest_spk;
        out_sat = out_sat;
      }
        ≡ spend
      → (id : Bytes) × Names spend id
  Names-asked spend t0 t1 t2 t3 t4 txid dest_spk vout in_sat out_sat a0 b0 a1 b1 a2 b2 a3 b3 a4 b4
        same =
      (
        txid,
        record {
          txid_text = t0;
          vout_text = t1;
          in_text = t2;
          script_text = t3;
          out_text = t4;
          txid_given = a0;
          vout_given = a1;
          in_given = a2;
          script_given = a3;
          out_given = a4;
          txid_read = b0;
          vout_read = b1 ∙ ap (λ x. some (x.vout)) same;
          in_read = b2 ∙ ap (λ x. some (x.in_sat)) same;
          script_read = b3 ∙ ap (λ x. ok (x.dest_spk)) same;
          out_read = b4 ∙ ap (λ x. some (x.out_sat)) same;
          reversed = ap (λ x. x.txid_le) (sym same);
        },
      )

  pub read_spend-Names :
      (spend : Spend) → read_spend H args ≡ ok spend → (txid : Bytes) × Names spend txid
  unfolding read_spend
  read_spend-Names spend h = given (get_elem? args 3) _ h λ t0 a0 h0.
      decoded (H.decode t0) _ h0 λ txid b0 h1. given (get_elem? args 4) _ h1 λ t1 a1 h2.
        given (parse_unsigned 32 t1) _ h2 λ vout b1 h3. given (get_elem? args 5) _ h3 λ t2 a2 h4.
          given (parse_unsigned 64 t2) _ h4 λ in_sat b2 h5.
            given (get_elem? args 6) _ h5 λ t3 a3 h6. decoded (H.decode t3) _ h6 λ dest_spk b3 h7.
              given (get_elem? args 7) _ h7 λ t4 a4 h8.
                given (parse_unsigned 64 t4) _ h8 λ out_sat b4 h9.
                  Names-asked spend t0 t1 t2 t3 t4 txid dest_spk vout in_sat out_sat a0 b0 a1 b1 a2
                    b2 a3 b3 a4 b4 (ok-injective _ _ h9)
