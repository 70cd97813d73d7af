-- ===== src/Backtest/Amounts.antt =====
-- settlement/backtest.py: sides, cash, fees and the application of a fill to a position.
use defi_engine.Base.{
  ℕ, ◌^◌, String, ◌&&◌, ◌||◌, Option, none, some, ltb, ◌==◌, if◌then◌else◌, str_eq, is_none, best,
  select,
}
use defi_engine.Base.Int.{ℤ}
use defi_engine.Base.Text.{codes, strip, lower, same_codes}
use defi_engine.Env.{Env}
use defi_engine.Truth.{Database, Result, return, value_error, ◌>>◌, raise_if, BacktestPosition}
use defi_engine.Paper.{usdc_decimals}

-- `_normalize_side`
unfoldable pub normalize_side : String → Option String
unfolding strip
normalize_side value =
    let normalized = lower (strip (codes value)) in
    if same_codes normalized (codes "buy")
    then some "buy"
    else if same_codes normalized (codes "sell")
    then some "sell"
    else none

module _ (E : Env) where
  open E use {Float, float_zero, int_div, add, sub, mul, div, lt, le}

  -- `_current_cash`
  unfoldable pub current_cash : Database E → ℕ → Float → Float
  current_cash db session_id fallback =
      elim (best
        (λ a b. ltb a.created_at b.created_at || (a.created_at == b.created_at && ltb a.id b.id))
        (select (λ row. row.session_id == session_id) db.backtest_reports)) [
          | none ↦ fallback
          | some report ↦ report.cash_usdc
        ]

  -- `_compute_fee_usdc`
  unfoldable pub compute_fee_usdc : String → ℤ → ℤ → ℤ → Float
  compute_fee_usdc side input_amount output_amount fee_bps =
      let notional =
        int_div (if str_eq side "buy" then input_amount else output_amount) (10 ^ usdc_decimals) in
      mul notional (int_div fee_bps 10_000)

  -- The tuple of `_apply_fill`.
  pub record Applied : Type 0 where
    pub cash_after : Float
    pub net_quantity : Float
    pub cost_basis_usdc : Float
    pub realized_pnl_usdc : Float

  abbrev pub held : Option (BacktestPosition E) → (BacktestPosition E → Float) → Float
  held none get = float_zero
  held (some position) get = get position

  unfoldable pub apply_buy :
      Float → Option (BacktestPosition E) → ℤ → ℤ → ℕ → Float → Result Applied
  apply_buy previous_cash position input_amount output_amount decimals fee_usdc = do
    let notional_usdc = int_div input_amount (10 ^ usdc_decimals)
    let purchased_quantity = int_div output_amount (10 ^ decimals)
    raise_if (le purchased_quantity float_zero)
        (value_error "backtest_fill_output_quantity_invalid")
    let total_cash_required = add notional_usdc fee_usdc
    raise_if (lt previous_cash total_cash_required) (value_error "backtest_fill_cash_insufficient")
    return (record {
      cash_after = sub previous_cash total_cash_required;
      net_quantity = add (held position (λ p. p.net_quantity)) purchased_quantity;
      cost_basis_usdc = add (held position (λ p. p.cost_basis_usdc)) total_cash_required;
      realized_pnl_usdc = held position (λ p. p.realized_pnl_usdc);
    })

  unfoldable pub apply_sell :
      Float → Option (BacktestPosition E) → ℤ → ℤ → ℕ → Float → Result Applied
  apply_sell previous_cash position input_amount output_amount decimals fee_usdc = do
    let current_quantity = held position (λ p. p.net_quantity)
    let current_cost_basis = held position (λ p. p.cost_basis_usdc)
    let sell_quantity = int_div input_amount (10 ^ decimals)
    raise_if (le sell_quantity float_zero) (value_error "backtest_fill_input_quantity_invalid")
    raise_if (is_none position || le current_quantity float_zero)
        (value_error "backtest_fill_sell_without_position")
    raise_if (lt current_quantity sell_quantity)
        (value_error "backtest_fill_sell_quantity_exceeds_position")
    let proceeds_usdc = int_div output_amount (10 ^ usdc_decimals)
    let cost_portion = mul current_cost_basis (div sell_quantity current_quantity)
    let remaining_quantity = sub current_quantity sell_quantity
    let emptied = le remaining_quantity float_zero
    return (record {
      cash_after = sub (add previous_cash proceeds_usdc) fee_usdc;
      net_quantity = if emptied then float_zero else remaining_quantity;
      cost_basis_usdc = if emptied then float_zero else sub current_cost_basis cost_portion;
      realized_pnl_usdc =
          add (held position (λ p. p.realized_pnl_usdc))
            (sub (sub proceeds_usdc fee_usdc) cost_portion);
    })

  -- `_apply_fill`
  unfoldable pub apply_fill :
      String → Float → Option (BacktestPosition E) → ℤ → ℤ → ℕ → Float → Result Applied
  unfolding apply_buy apply_sell
  apply_fill side previous_cash position input_amount output_amount decimals fee_usdc =
      if str_eq side "buy"
      then apply_buy previous_cash position input_amount output_amount decimals fee_usdc
      else apply_sell previous_cash position input_amount output_amount decimals fee_usdc

  -- `_position_value_usdc`
  unfoldable pub position_value_usdc : BacktestPosition E → Float
  position_value_usdc position = elim position.last_mark_price_usdc [
    | none ↦ float_zero
    | some price ↦
        if le position.net_quantity float_zero then float_zero else mul position.net_quantity price
  ]
