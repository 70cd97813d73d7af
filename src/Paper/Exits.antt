-- ===== src/Paper/Exits.antt =====
-- settlement/paper.py: what a quote is, to which `_validate_close_inputs` has nothing to object.
use defi_engine.Base.{
  ◌≡◌, refl, ◌^◌, ℕ, String, true, false, Option, none, some, List, [], ◌∷◌, ◌++◌, is_nil,
  str_eq→eq,
}
use defi_engine.Base.Int.{pos}
use defi_engine.Base.Text.{parse_int, codes, strip}
use defi_engine.Base.Time.{Instant}
use defi_engine.Env.{Env}
use defi_engine.Settings.{usdc_mint}
use defi_engine.Truth.{Database, QuoteSnapshot, PaperPosition}
use defi_engine.Intent.{quote_timestamp, normalize_direction}
use defi_engine.Intent.Ready.{IsRecent, is_nil-age_codes, is_nil-append_five, is_nil-when}
use defi_engine.Paper.Guards.{is_text_iff, same_ℤ_iff, not-flip}
use defi_engine.Paper.Validation.{
  resolve_asset_decimals, close_size_codes, close_quote_codes, validate_close_inputs,
}

is_nil-append_three :
    (a b c : List String)
    → is_nil (a ++ (b ++ c)) ≡ true
    → (is_nil a ≡ true) × (is_nil b ≡ true) × (is_nil c ≡ true)
is_nil-append_three [] [] c h = (refl, refl, h)
is_nil-append_three (x ∷ a) b c h = cc
is_nil-append_three [] (x ∷ b) c h = cc

module _ (E : Env) where
  -- The quote sells the whole of a position that is open, for USDC, at most five minutes before the
  -- close, which has a reason.
  pub record ExitFits (db : Database E) (position : PaperPosition E) (quote : QuoteSnapshot E)
      (at : Instant) (close_reason : String) : Type 0 where
    pub reasoned : is_nil (strip (codes close_reason)) ≡ false
    pub positive : E.le position.net_quantity E.float_zero ≡ false
    pub sells : normalize_direction quote.request_direction ≡ some "token_to_usdc"
    pub same_mint : quote.input_mint ≡ position.mint
    pub pays_usdc : quote.output_mint ≡ usdc_mint
    pub whole :
        (decimals : ℕ) × (resolve_asset_decimals E db position.mint ≡ some decimals)
        × (parse_int (some quote.input_amount)
            ≡ some (E.to_int (E.mul position.net_quantity (E.of_int (pos (10 ^ decimals))))))
    pub recent : IsRecent (quote_timestamp E quote) at

  close_size_codes-nil :
      (o : Option ℕ) (position : PaperPosition E) (quote : QuoteSnapshot E)
      → is_nil (close_size_codes E o position quote) ≡ true
      → (decimals : ℕ) × (o ≡ some decimals)
        × (parse_int (some quote.input_amount)
            ≡ some (E.to_int (E.mul position.net_quantity (E.of_int (pos (10 ^ decimals))))))
  unfolding parse_int
  close_size_codes-nil none position quote h = cc
  close_size_codes-nil (some decimals) position quote h = (
    decimals,
    refl,
    (same_ℤ_iff (parse_int (some quote.input_amount)) _).0 ((not-flip _).0 ((is_nil-when _ _).0 h)),
  )

  pub validate_close_inputs-ExitFits :
      (db : Database E) (position : PaperPosition E) (quote : QuoteSnapshot E) (at : Instant)
      (close_reason : String)
      → is_nil (validate_close_inputs E db position (some quote) at close_reason) ≡ true
      → ExitFits db position quote at close_reason
  unfolding validate_close_inputs close_quote_codes
  validate_close_inputs-ExitFits db position quote at close_reason h =
      let (a, b, rest) = is_nil-append_three _ _ _ h in
      let parts = is_nil-append_five _ _ _ _ _ in
      let (c, d, e, f, g) = parts.0 rest in
      record {
        reasoned = (is_nil-when _ _).0 a;
        positive = (is_nil-when _ _).0 b;
        sells =
            (is_text_iff (normalize_direction quote.request_direction) _).0
              ((not-flip _).0 ((is_nil-when _ _).0 c));
        same_mint = str_eq→eq _ _ ((not-flip _).0 ((is_nil-when _ _).0 d));
        pays_usdc = str_eq→eq _ _ ((not-flip _).0 ((is_nil-when _ _).0 e));
        whole = close_size_codes-nil (resolve_asset_decimals E db position.mint) position quote f;
        recent =
            (is_nil-age_codes "close_quote_timestamp_missing" "close_quote_after_attempt"
                "close_quote_stale" (quote_timestamp E quote) at).0
              g;
      }
