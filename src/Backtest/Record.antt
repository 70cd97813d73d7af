-- ===== src/Backtest/Record.antt =====
-- settlement/backtest.py: `record_fill`, which replays one fill into an open backtest session.
use Prim.Native.String.{◌++◌ as text_append}
use defi_engine.Base.{
  ℕ, String, Bool, false, not, ◌||◌, ◌&&◌, Option, none, some, List, [], ◌∷◌, ◌++◌, map, ltb, leb,
  ◌==◌, if◌then◌else◌, str_eq, find_first, truthy, best, select, update,
}
use defi_engine.Base.Int.{ℤ, pos, nonpositive}
use defi_engine.Base.Text.{parse_int, str_ℕ, str_ℤ}
use defi_engine.Base.Time.{Instant, DateTime, ensure_utc}
use defi_engine.Json.{Json, texts, object}
use defi_engine.Env.{Env}
use defi_engine.Settings.{usdc_mint}
use defi_engine.Truth.{
  Database, finish, Result, return, value_error, ◌>>=◌, ◌>>◌, raise_if, or_raise, BacktestSession,
  BacktestFill, BacktestPosition, BacktestSessionReport,
}
use defi_engine.Paper.{resolve_asset_decimals}
use defi_engine.Backtest.Amounts.{
  normalize_side, current_cash, compute_fee_usdc, Applied, apply_fill, position_value_usdc,
}

module _ (E : Env) where
  open E use {Float, float_zero, add, le, dumps, new_id}

  -- The arguments of `record_fill`; reasons that are not given are [].
  pub record FillRequest : Type 0 where
    pub session_id : ℕ
    pub event_time : DateTime
    pub mint : String
    pub side : String
    pub input_amount : String
    pub output_amount : String
    pub fill_price_usdc : Float
    pub replay_reference : String
    pub reason_codes : List String

  unfoldable pub find_backtest_session : Database E → ℕ → Option (BacktestSession E)
  find_backtest_session db id = find_first (λ row. row.id == id) db.backtest_sessions

  -- The fills of a session, and the last of them.
  unfoldable pub last_fill : Database E → ℕ → Option (BacktestFill E)
  last_fill db session_id =
      best (λ a b. ltb a.event_time b.event_time || (a.event_time == b.event_time && ltb a.id b.id))
        (select (λ row. row.session_id == session_id) db.backtest_fills)

  -- The event time is not after that of the last fill.
  abbrev pub goes_back : Instant → Option (BacktestFill E) → Bool
  goes_back event_time none = false
  goes_back event_time (some fill) = leb event_time fill.event_time

  unfoldable pub find_backtest_position : Database E → ℕ → String → Option (BacktestPosition E)
  find_backtest_position db session_id mint =
      find_first (λ row. row.session_id == session_id && str_eq row.mint mint) db.backtest_positions

  -- A parsed amount that is positive.
  abbrev pub positive : Option ℤ → Option ℤ
  positive none = none
  positive (some n) = if nonpositive n then none else some n

  unfoldable pub backtest_fill :
      Database E
      → BacktestSession E
      → Instant
      → String
      → ℤ
      → ℤ
      → Float
      → FillRequest
      → BacktestFill E
  unfolding str_ℤ
  backtest_fill db owner event_time side input_amount output_amount fee_usdc request = record {
    id = new_id (map (λ row. row.id) db.backtest_fills);
    session_id = request.session_id;
    event_time = event_time;
    replay_reference = request.replay_reference;
    mint = request.mint;
    side = side;
    input_amount = str_ℤ input_amount;
    output_amount = str_ℤ output_amount;
    fill_price_usdc = request.fill_price_usdc;
    fee_bps = owner.fee_bps;
    fee_usdc = fee_usdc;
    slippage_bps = owner.slippage_bps;
    latency_ms = owner.latency_ms;
    reason_codes_json = dumps (texts request.reason_codes);
    created_at = event_time;
  }

  -- The position after the fill: the old row with new values, or a new row.
  unfoldable pub marked_position :
      ℕ → Instant → Applied E → FillRequest → BacktestPosition E → BacktestPosition E
  marked_position fill_id event_time applied request position = record position {
    net_quantity = applied.net_quantity;
    cost_basis_usdc = applied.cost_basis_usdc;
    last_fill_id = fill_id;
    last_mark_source = some "fill_replay";
    last_mark_reference = some request.replay_reference;
    last_mark_price_usdc = some request.fill_price_usdc;
    last_marked_at = some event_time;
    realized_pnl_usdc = applied.realized_pnl_usdc;
    unrealized_pnl_usdc = float_zero;
    updated_at = event_time;
  }

  unfoldable pub new_position :
      Database E → ℕ → Instant → Applied E → FillRequest → BacktestPosition E
  new_position db fill_id event_time applied request = record {
    id = new_id (map (λ row. row.id) db.backtest_positions);
    session_id = request.session_id;
    mint = request.mint;
    net_quantity = applied.net_quantity;
    cost_basis_usdc = applied.cost_basis_usdc;
    last_fill_id = fill_id;
    last_mark_source = some "fill_replay";
    last_mark_reference = some request.replay_reference;
    last_mark_price_usdc = some request.fill_price_usdc;
    last_marked_at = some event_time;
    realized_pnl_usdc = applied.realized_pnl_usdc;
    unrealized_pnl_usdc = float_zero;
    updated_at = event_time;
  }

  -- The position and the table that it stands in.
  unfoldable pub positioned :
      Database E
      → ℕ
      → Instant
      → Applied E
      → FillRequest
      → Option (BacktestPosition E)
      → BacktestPosition E × List (BacktestPosition E)
  unfolding marked_position new_position update
  positioned db fill_id event_time applied request none =
      let position = new_position db fill_id event_time applied request in
      (position, db.backtest_positions ++ position ∷ [])
  positioned db fill_id event_time applied request (some old) =
      let mark = marked_position fill_id event_time applied request in
      (mark old, update (λ row. row.id == old.id) mark db.backtest_positions)

  unfoldable pub backtest_report :
      Database E
      → ℕ
      → Instant
      → Applied E
      → BacktestPosition E
      → FillRequest
      → BacktestSessionReport E
  unfolding position_value_usdc
  backtest_report db fill_id event_time applied position request =
      let value = position_value_usdc E position in
      record {
        id = new_id (map (λ row. row.id) db.backtest_reports);
        session_id = request.session_id;
        report_type = "session_snapshot";
        cash_usdc = applied.cash_after;
        position_value_usdc = value;
        equity_usdc = add applied.cash_after value;
        realized_pnl_usdc = position.realized_pnl_usdc;
        unrealized_pnl_usdc = float_zero;
        mark_method = "fill_replay";
        mark_inputs_json = dumps (
            object (
              ("replay_reference", Json.text request.replay_reference)
              ∷ ("fill_id", Json.num (pos fill_id))
              ∷ ("fill_price_usdc", Json.float request.fill_price_usdc)
              ∷ []));
        reason_codes_json = dumps (texts request.reason_codes);
        created_at = event_time;
      }

  pub record FillReceipt : Type 0 where
    pub session_id : ℕ
    pub fill_id : ℕ
    pub position_id : ℕ
    pub report_id : ℕ
    pub side : String
    pub cash_usdc : Float
    pub position_value_usdc : Float
    pub equity_usdc : Float
    pub realized_pnl_usdc : Float
    pub unrealized_pnl_usdc : Float
    pub reason_codes : List String

  -- The writes of a fill that passed every check.
  unfoldable pub recorded :
      Database E
      → BacktestFill E
      → Applied E
      → Option (BacktestPosition E)
      → FillRequest
      → FillReceipt × Database E
  unfolding positioned backtest_report
  recorded db fill applied position request =
      let (marked, positions) = positioned db fill.id fill.event_time applied request position in
      let report = backtest_report db fill.id fill.event_time applied marked request in
      (
        record {
          session_id = request.session_id;
          fill_id = fill.id;
          position_id = marked.id;
          report_id = report.id;
          side = fill.side;
          cash_usdc = report.cash_usdc;
          position_value_usdc = report.position_value_usdc;
          equity_usdc = report.equity_usdc;
          realized_pnl_usdc = report.realized_pnl_usdc;
          unrealized_pnl_usdc = report.unrealized_pnl_usdc;
          reason_codes = request.reason_codes;
        },
        record db {
          backtest_fills = db.backtest_fills ++ fill ∷ [];
          backtest_positions = positions;
          backtest_reports = db.backtest_reports ++ report ∷ [];
        },
      )

  -- `record_fill`
  unfoldable pub record_fill : FillRequest → Database E → Result FillReceipt × Database E
  unfolding ensure_utc normalize_side find_backtest_session last_fill resolve_asset_decimals
      usdc_mint parse_int find_backtest_position current_cash compute_fee_usdc apply_fill
      backtest_fill recorded
  record_fill request db = finish db (do
    event_time ←
        or_raise (ensure_utc (some request.event_time))
          (value_error "backtest_fill_event_time_missing")
    raise_if (not (truthy request.replay_reference))
        (value_error "backtest_fill_replay_reference_missing")
    side ←
        or_raise (normalize_side request.side)
          (value_error (text_append "backtest_fill_side_unsupported:" request.side))
    raise_if (le request.fill_price_usdc float_zero) (value_error "backtest_fill_price_invalid")
    owner ←
        or_raise (find_backtest_session db request.session_id)
          (value_error (text_append "backtest_session_missing:" (str_ℕ request.session_id)))
    raise_if (not (str_eq owner.status "open"))
        (value_error (text_append "backtest_session_not_open:" owner.status))
    raise_if (goes_back event_time (last_fill db request.session_id))
        (value_error "backtest_fill_event_time_non_monotonic")
    decimals ←
        or_raise
          (if str_eq request.mint usdc_mint then none else resolve_asset_decimals E db request.mint)
          (value_error (text_append "backtest_fill_mint_unsupported:" request.mint))
    input_amount ←
        or_raise (positive (parse_int (some request.input_amount)))
          (value_error "backtest_fill_input_amount_invalid")
    output_amount ←
        or_raise (positive (parse_int (some request.output_amount)))
          (value_error "backtest_fill_output_amount_invalid")
    let position = find_backtest_position db request.session_id request.mint
    let previous_cash = current_cash E db request.session_id owner.starting_cash_usdc
    let fee_usdc = compute_fee_usdc E side input_amount output_amount owner.fee_bps
    applied ← apply_fill E side previous_cash position input_amount output_amount decimals fee_usdc
    let fill = backtest_fill db owner event_time side input_amount output_amount fee_usdc request
    return (recorded db fill applied position request))
