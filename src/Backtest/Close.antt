-- ===== src/Backtest/Close.antt =====
-- settlement/backtest.py: `close_session`, which marks the open positions and closes the session.
use Prim.Native.String.{◌++◌ as text_append}
use defi_engine.Base.{
  ℕ, String, Bool, not, ◌&&◌, Option, none, some, List, [], ◌∷◌, ◌++◌, map, ◌==◌, if◌then◌else◌,
  str_eq, truthy?, is_nil, is_none, select, update,
}
use defi_engine.Base.Sort.{sort_by}
use defi_engine.Base.Text.{join, str_ℕ}
use defi_engine.Base.Time.{Instant, DateTime, ensure_utc}
use defi_engine.Json.{Json, texts, object, text?}
use defi_engine.Env.{Env}
use defi_engine.Truth.{
  Database, finish, Result, return, value_error, ◌>>=◌, ◌>>◌, raise_if, or_raise, BacktestSession,
  BacktestPosition, BacktestSessionReport,
}
use defi_engine.Backtest.Amounts.{current_cash}
use defi_engine.Backtest.Record.{find_backtest_session}

-- `value or fallback`
abbrev pub text_or : Option String → String → String
text_or none fallback = fallback
text_or (some s) fallback = if truthy? (some s) then s else fallback

module _ (E : Env) where
  open E use {Float, float_zero, add, sub, mul, le, dumps, new_id}

  -- The arguments of `close_session`; marks and reasons that are not given are [].
  pub record BacktestCloseRequest : Type 0 where
    pub session_id : ℕ
    pub closed_at : DateTime
    pub mark_prices_usdc : List (String × Float)
    pub mark_reference : Option String
    pub mark_method : Option String
    pub reason_codes : List String

  unfoldable pub mark_price : List (String × Float) → String → Option Float
  mark_price [] mint = none
  mark_price ((k, price) ∷ rest) mint = if str_eq k mint then some price else mark_price rest mint

  abbrev pub is_held : BacktestPosition E → Bool
  is_held row = not (le row.net_quantity float_zero)

  unfoldable pub missing_marks : List (String × Float) → List (BacktestPosition E) → List String
  unfolding mark_price
  missing_marks prices rows =
      map (λ row. row.mint) (select (λ row. is_none (mark_price prices row.mint)) rows)

  -- The three sums of the loop.
  pub record Totals : Type 0 where
    pub position_value : Float
    pub realized : Float
    pub unrealized : Float

  abbrev price_or_zero : Option Float → Float
  price_or_zero none = float_zero
  price_or_zero (some price) = price

  -- One pass of the loop: the sums, and the marked row. Every held row has a price there.
  unfoldable pub mark_row :
      Instant
      → String
      → BacktestCloseRequest
      → BacktestPosition E
      → Totals
      → Totals × BacktestPosition E
  unfolding mark_price
  mark_row at method request row totals =
      let realized = add totals.realized row.realized_pnl_usdc in
      if not (is_held row)
      then (record totals { realized = realized }, record row { unrealized_pnl_usdc = float_zero })
      else let price = price_or_zero (mark_price request.mark_prices_usdc row.mint) in
        let value = mul row.net_quantity price in
        let unrealized = sub value row.cost_basis_usdc in
        (
          record {
            position_value = add totals.position_value value;
            realized = realized;
            unrealized = add totals.unrealized unrealized;
          },
          record row {
            unrealized_pnl_usdc = unrealized;
            last_mark_source = some method;
            last_mark_reference = request.mark_reference;
            last_mark_price_usdc = some price;
            last_marked_at = some at;
            updated_at = at;
          },
        )

  -- The loop over the positions; the rows are written back by their keys.
  unfoldable pub mark_rows :
      Instant
      → String
      → BacktestCloseRequest
      → List (BacktestPosition E)
      → Totals
      → List (BacktestPosition E)
      → Totals × List (BacktestPosition E)
  unfolding mark_row update
  mark_rows at method request [] totals table = (totals, table)
  mark_rows at method request (row ∷ rows) totals table =
      let (sums, marked) = mark_row at method request row totals in
      mark_rows at method request rows sums (update (λ r. r.id == row.id) (λ _. marked) table)

  unfoldable pub backtest_close_report :
      Database E
      → Instant
      → String
      → Float
      → Totals
      → BacktestCloseRequest
      → BacktestSessionReport E
  backtest_close_report db at method cash totals request = record {
    id = new_id (map (λ row. row.id) db.backtest_reports);
    session_id = request.session_id;
    report_type = "session_close";
    cash_usdc = cash;
    position_value_usdc = totals.position_value;
    equity_usdc = add cash totals.position_value;
    realized_pnl_usdc = totals.realized;
    unrealized_pnl_usdc = totals.unrealized;
    mark_method = method;
    mark_inputs_json = dumps (
        object (
          ("mark_reference", text? request.mark_reference)
          ∷ (
            "mark_prices_usdc",
            object (map (λ (mint, price). (mint, Json.float price)) request.mark_prices_usdc),
          )
          ∷ []));
    reason_codes_json = dumps (texts request.reason_codes);
    created_at = at;
  }

  unfoldable pub closed_backtest :
      Instant → Float → BacktestCloseRequest → BacktestSession E → BacktestSession E
  closed_backtest at cash request owner = record owner {
    status = "closed";
    closed_at = some at;
    ending_cash_usdc = some cash;
    reason_codes_json = dumps (texts request.reason_codes);
  }

  pub record BacktestCloseAnswer : Type 0 where
    pub session_id : ℕ
    pub report_id : ℕ
    pub session_status : String
    pub cash_usdc : Float
    pub position_value_usdc : Float
    pub equity_usdc : Float
    pub realized_pnl_usdc : Float
    pub unrealized_pnl_usdc : Float
    pub reason_codes : List String

  -- The writes of an accepted close.
  unfoldable pub close_backtest_rows :
      Database E
      → BacktestSession E
      → Instant
      → List (BacktestPosition E)
      → BacktestCloseRequest
      → BacktestCloseAnswer × Database E
  unfolding current_cash mark_rows backtest_close_report closed_backtest update
  close_backtest_rows db owner at positions request =
      let method = text_or request.mark_method owner.mark_method in
      let cash = current_cash E db request.session_id owner.starting_cash_usdc in
      let start : Totals = record {
        position_value = float_zero;
        realized = float_zero;
        unrealized = float_zero;
      } in
      let (totals, table) = mark_rows at method request positions start db.backtest_positions in
      let report = backtest_close_report db at method cash totals request in
      (
        record {
          session_id = request.session_id;
          report_id = report.id;
          session_status = "closed";
          cash_usdc = report.cash_usdc;
          position_value_usdc = report.position_value_usdc;
          equity_usdc = report.equity_usdc;
          realized_pnl_usdc = report.realized_pnl_usdc;
          unrealized_pnl_usdc = report.unrealized_pnl_usdc;
          reason_codes = request.reason_codes;
        },
        record db {
          backtest_positions = table;
          backtest_reports = db.backtest_reports ++ report ∷ [];
          backtest_sessions =
              update (λ row. row.id == owner.id) (closed_backtest at cash request)
                db.backtest_sessions;
        },
      )

  -- `close_session`
  unfoldable pub close_session :
      BacktestCloseRequest → Database E → Result BacktestCloseAnswer × Database E
  unfolding ensure_utc find_backtest_session missing_marks sort_by close_backtest_rows join
  close_session request db = finish db (do
    at ← or_raise (ensure_utc (some request.closed_at)) (value_error "backtest_close_time_missing")
    owner ←
        or_raise (find_backtest_session E db request.session_id)
          (value_error (text_append "backtest_session_missing:" (str_ℕ request.session_id)))
    raise_if (not (str_eq owner.status "open"))
        (value_error (text_append "backtest_session_not_open:" owner.status))
    let positions =
        sort_by (λ row. row.mint)
          (select (λ row. row.session_id == request.session_id) db.backtest_positions)
    let open_positions = select is_held positions
    let missing = missing_marks request.mark_prices_usdc open_positions
    raise_if (not (is_nil open_positions) && not (truthy? request.mark_reference))
        (value_error "backtest_close_mark_reference_missing")
    raise_if (not (is_nil missing)) (
        value_error
          (text_append "backtest_close_mark_price_missing:" (join "," (sort_by (λ m. m) missing))))
    return (close_backtest_rows db owner at positions request))
