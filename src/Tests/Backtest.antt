-- ===== src/Tests/Backtest.antt =====
-- The witnesses of the backtest owner's properties: a session with one buy, closed at its price.
use defi_engine.Base.{◌≡◌, refl, ◌+◌, none, some, [], ◌∷◌, find_first, best, select, update, str_eq}
use defi_engine.Base.Int.{pos}
use defi_engine.Base.Sort.{sort_by, insert_by}
use defi_engine.Base.Members.{All}
use defi_engine.Base.Text.{str_ℕ, str_ℤ, parse_int, int_of, parse_signed, strip}
use defi_engine.Base.Time.{Instant, naive, ensure_utc}
use defi_engine.Json.{object}
use defi_engine.Settings.{usdc_mint, default_sol_mint}
use defi_engine.Truth.{Database, Exception, Result, raise, ◌>>=◌, ◌>>◌, raise_if, or_raise}
use defi_engine.Paper.{resolve_asset_decimals}
use defi_engine.Backtest.{
  open_spot_session, validate_open_inputs, granularity_matches, backtest_session, record_fill,
  normalize_side, find_backtest_session, last_fill, find_backtest_position, current_cash,
  compute_fee_usdc, apply_fill, apply_buy, apply_sell, backtest_fill, recorded, positioned,
  marked_position, new_position, backtest_report, position_value_usdc, close_session, missing_marks,
  mark_price, close_backtest_rows, mark_rows, mark_row, backtest_close_report, closed_backtest,
  OpenRequest, FillRequest, FillReceipt, BacktestCloseRequest, BacktestCloseAnswer,
}
use defi_engine.Backtest.Order.{Earlier, record_fill-forward}
use defi_engine.Backtest.Ledger.{Recorded, record_fill-records}
use defi_engine.Backtest.Finality.{close_session-final}
use defi_engine.Samples.{sample_env, sample_db, noon}
use defi_engine.Tests.Runs.{the, answered}

abbrev open_request : OpenRequest sample_env
open_request = record {
  session_key = "replay";
  bucket_granularity = "15m";
  fee_bps = pos 10;
  slippage_bps = pos 50;
  latency_ms = pos 250;
  starting_cash_usdc = 100_000_000;
  instrument_family = "spot";
  venue = "jupiter_spot";
  base_currency = "USDC";
  mark_method = "replay_last_fill";
  metadata = object [];
  opened_at = some (naive noon);
}

abbrev replay : Database sample_env
replay = (open_spot_session sample_env open_request noon sample_db).1

abbrev buy : FillRequest sample_env
buy = record {
  session_id = 1;
  event_time = naive (noon + 60_000_000);
  mint = default_sol_mint;
  side = " Buy";
  input_amount = "10000000";
  output_amount = "100000000";
  fill_price_usdc = 100_000_000;
  replay_reference = "bucket-1";
  reason_codes = [];
}

abbrev bought : Database sample_env
bought = (record_fill sample_env buy replay).1

abbrev receipt : FillReceipt sample_env
unfolding ensure_utc str_eq find_first best select update strip parse_int int_of parse_signed str_ℤ
    str_ℕ usdc_mint sort_by insert_by ◌>>=◌ ◌>>◌ raise_if or_raise open_spot_session
    validate_open_inputs granularity_matches backtest_session record_fill normalize_side
    find_backtest_session last_fill resolve_asset_decimals find_backtest_position current_cash
    compute_fee_usdc apply_fill apply_buy apply_sell backtest_fill recorded positioned
    marked_position new_position backtest_report position_value_usdc
receipt = the (answered (record_fill sample_env buy replay).0) refl

record_fill-records_example : Recorded sample_env buy replay receipt bought
unfolding ensure_utc str_eq find_first best select update strip parse_int int_of parse_signed str_ℤ
    str_ℕ usdc_mint sort_by insert_by ◌>>=◌ ◌>>◌ raise_if or_raise open_spot_session
    validate_open_inputs granularity_matches backtest_session record_fill normalize_side
    find_backtest_session last_fill resolve_asset_decimals find_backtest_position current_cash
    compute_fee_usdc apply_fill apply_buy apply_sell backtest_fill recorded positioned
    marked_position new_position backtest_report position_value_usdc
record_fill-records_example = record_fill-records sample_env buy replay bought receipt refl

abbrev sell : FillRequest sample_env
sell = record buy {
  event_time = naive (noon + 120_000_000);
  side = "sell";
  input_amount = "40000000";
  output_amount = "5000000";
}

abbrev sold : Database sample_env
sold = (record_fill sample_env sell bought).1

abbrev sell_receipt : FillReceipt sample_env
unfolding ensure_utc str_eq find_first best select update strip parse_int int_of parse_signed str_ℤ
    str_ℕ usdc_mint sort_by insert_by ◌>>=◌ ◌>>◌ raise_if or_raise open_spot_session
    validate_open_inputs granularity_matches backtest_session record_fill normalize_side
    find_backtest_session last_fill resolve_asset_decimals find_backtest_position current_cash
    compute_fee_usdc apply_fill apply_buy apply_sell backtest_fill recorded positioned
    marked_position new_position backtest_report position_value_usdc
sell_receipt = the (answered (record_fill sample_env sell bought).0) refl

record_fill-forward_example :
    (t : Instant) × (ensure_utc (some sell.event_time) ≡ some t)
    × All (Earlier sample_env 1 t) bought.backtest_fills
unfolding ensure_utc str_eq find_first best select update strip parse_int int_of parse_signed str_ℤ
    str_ℕ usdc_mint sort_by insert_by ◌>>=◌ ◌>>◌ raise_if or_raise open_spot_session
    validate_open_inputs granularity_matches backtest_session record_fill normalize_side
    find_backtest_session last_fill resolve_asset_decimals find_backtest_position current_cash
    compute_fee_usdc apply_fill apply_buy apply_sell backtest_fill recorded positioned
    marked_position new_position backtest_report position_value_usdc
record_fill-forward_example = record_fill-forward sample_env sell bought sold sell_receipt refl

abbrev close_request : BacktestCloseRequest sample_env
close_request = record {
  session_id = 1;
  closed_at = naive (noon + 180_000_000);
  mark_prices_usdc = (default_sol_mint, 110_000_000) ∷ [];
  mark_reference = some "bucket-2";
  mark_method = none;
  reason_codes = [];
}

abbrev ended : Database sample_env
ended = (close_session sample_env close_request sold).1

abbrev close_answer : BacktestCloseAnswer sample_env
unfolding ensure_utc str_eq find_first best select update strip parse_int int_of parse_signed str_ℤ
    str_ℕ usdc_mint sort_by insert_by ◌>>=◌ ◌>>◌ raise_if or_raise open_spot_session
    validate_open_inputs granularity_matches backtest_session record_fill normalize_side
    find_backtest_session last_fill resolve_asset_decimals find_backtest_position current_cash
    compute_fee_usdc apply_fill apply_buy apply_sell backtest_fill recorded positioned
    marked_position new_position backtest_report position_value_usdc close_session missing_marks
    mark_price close_backtest_rows mark_rows mark_row backtest_close_report closed_backtest
close_answer = the (answered (close_session sample_env close_request sold).0) refl

close_session-final_example :
    ((e : Exception) × (◌≡◌ {A = Result (FillReceipt sample_env) × Database sample_env}
        (record_fill sample_env buy ended)
        (raise e, ended)))
    × ((e : Exception) × (◌≡◌ {A = Result (BacktestCloseAnswer sample_env) × Database sample_env}
          (close_session sample_env close_request ended)
          (raise e, ended)))
unfolding ensure_utc str_eq find_first best select update strip parse_int int_of parse_signed str_ℤ
    str_ℕ usdc_mint sort_by insert_by ◌>>=◌ ◌>>◌ raise_if or_raise open_spot_session
    validate_open_inputs granularity_matches backtest_session record_fill normalize_side
    find_backtest_session last_fill resolve_asset_decimals find_backtest_position current_cash
    compute_fee_usdc apply_fill apply_buy apply_sell backtest_fill recorded positioned
    marked_position new_position backtest_report position_value_usdc close_session missing_marks
    mark_price close_backtest_rows mark_rows mark_row backtest_close_report closed_backtest
close_session-final_example =
    close_session-final sample_env close_request sold ended close_answer buy close_request refl refl
      refl
