-- ===== src/Paper/Metrics.antt =====
-- settlement/paper.py: the amounts of a fill and of a close, as floats.
use defi_engine.Base.{ℕ, ◌^◌, String, ◌||◌, not, Option, none, some, if◌then◌else◌, is_text}
use defi_engine.Base.Int.{ℤ}
use defi_engine.Base.Text.{parse_int}
use defi_engine.Env.{Env}
use defi_engine.Truth.{QuoteSnapshot}
use defi_engine.Intent.{none_or_zero}

-- _USDC_DECIMALS
abbrev pub usdc_decimals : ℕ
usdc_decimals = 6

module _ (E : Env) where
  open E use {Float, float_zero, int_div, sub, div, le}

  pub record FillMetrics : Type 0 where
    pub cash_usdc : Float
    pub net_quantity : Float
    pub fill_price_usdc : Float

  pub record CloseMetrics : Type 0 where
    pub cash_usdc : Float
    pub net_quantity : Float
    pub fill_price_usdc : Float
    pub realized_pnl_usdc : Float

  abbrev fill_metrics_of : Option ℤ → Option ℤ → ℕ → Option FillMetrics
  fill_metrics_of (some input_amount) (some output_amount) decimals =
      let cash_usdc = int_div input_amount (10 ^ usdc_decimals) in
      let net_quantity = int_div output_amount (10 ^ decimals) in
      if none_or_zero (some output_amount) || le net_quantity float_zero
      then none
      else some (record {
        cash_usdc = cash_usdc;
        net_quantity = net_quantity;
        fill_price_usdc = div cash_usdc net_quantity;
      })
  fill_metrics_of _ _ decimals = none

  -- `_build_fill_metrics`
  unfoldable pub build_fill_metrics : QuoteSnapshot E → ℕ → Option FillMetrics
  unfolding parse_int
  build_fill_metrics quote decimals =
      fill_metrics_of (parse_int (some quote.input_amount)) (parse_int quote.output_amount) decimals

  abbrev pub close_metrics_of : Option ℤ → Option ℤ → ℕ → Float → Option CloseMetrics
  close_metrics_of (some input_amount) (some output_amount) decimals cost_basis_usdc =
      let net_quantity = int_div input_amount (10 ^ decimals) in
      let cash_usdc = int_div output_amount (10 ^ usdc_decimals) in
      if none_or_zero (some input_amount) || le net_quantity float_zero
      then none
      else some (record {
        cash_usdc = cash_usdc;
        net_quantity = net_quantity;
        fill_price_usdc = div cash_usdc net_quantity;
        realized_pnl_usdc = sub cash_usdc cost_basis_usdc;
      })
  close_metrics_of _ _ decimals cost_basis_usdc = none

  -- `_build_close_metrics`
  unfoldable pub build_close_metrics : QuoteSnapshot E → ℕ → Float → Option CloseMetrics
  unfolding parse_int
  build_close_metrics quote decimals cost_basis_usdc =
      close_metrics_of (parse_int (some quote.input_amount)) (parse_int quote.output_amount)
        decimals cost_basis_usdc

  abbrev cash_or_zero : Option ℤ → Float
  cash_or_zero none = float_zero
  cash_or_zero (some n) = int_div n (10 ^ usdc_decimals)

  -- `_derive_attempt_cash_usdc`
  unfoldable pub derive_attempt_cash_usdc : Option (QuoteSnapshot E) → Option String → Float
  unfolding parse_int
  derive_attempt_cash_usdc none direction = float_zero
  derive_attempt_cash_usdc (some quote) direction =
      if not (is_text direction "usdc_to_token")
      then float_zero
      else cash_or_zero (parse_int (some quote.input_amount))
