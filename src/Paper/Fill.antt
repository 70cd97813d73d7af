-- ===== src/Paper/Fill.antt =====
-- settlement/paper.py: the four rows of a fill, and `simulate_fill`, which settles one execution
-- intent or records why not.
use defi_engine.Base.{
  ℕ, String, true, false, Option, none, some, [], ◌∷◌, ◌==◌, if◌then◌else◌, find_first, is_nil,
  truthy?,
}
use defi_engine.Base.Int.{ℤ, pos}
use defi_engine.Base.Text.{parse_int, str_ℤ}
use defi_engine.Base.Time.{Instant, DateTime, ensure_utc, or_else}
use defi_engine.Json.{Json, texts, object}
use defi_engine.Env.{Env}
use defi_engine.Truth.{
  Database, finish, Result, return, raise, type_error, value_error, ◌>>=◌, or_raise, not_null,
  ExecutionIntent, QuoteSnapshot, PaperSession, PaperFill, PaperPosition, PaperSessionReport,
}
use defi_engine.Intent.{find_quote}
use defi_engine.Paper.Validation.{resolve_asset_decimals, validate_inputs}
use defi_engine.Paper.Metrics.{FillMetrics, build_fill_metrics}
use defi_engine.Paper.Store.{
  build_session_key, insert_session, insert_fill, insert_position, insert_report, next_session_id,
  next_fill_id, next_position_id, next_report_id,
}
use defi_engine.Paper.Skip.{FillAnswer, persist_skipped_session}

-- `value or "0"`
abbrev pub text_or_zero : Option String → String
text_or_zero none = "0"
text_or_zero (some s) = if truthy? (some s) then s else "0"

-- `str(...)` of an optional integer.
abbrev pub str_opt_ℤ : Option ℤ → String
str_opt_ℤ none = "None"
str_opt_ℤ (some n) = str_ℤ n

module _ (E : Env) where
  open E use {Float, float_zero, dumps}

  unfoldable pub open_session : Database E → String → Instant → ℤ → FillMetrics E → PaperSession E
  open_session db session_key attempted_at size metrics = record {
    id = next_session_id E db;
    session_key = session_key;
    status = "open";
    base_currency = "USDC";
    quote_size_lamports = size;
    opened_at = attempted_at;
    closed_at = none;
    starting_cash_usdc = metrics.cash_usdc;
    ending_cash_usdc = some float_zero;
    reason_codes_json = dumps (texts []);
    created_at = attempted_at;
  }

  -- The fill of an entry. Optional fields of the intent go into NOT NULL columns.
  unfoldable pub entry_fill :
      Database E
      → ℕ
      → Instant
      → ExecutionIntent E
      → QuoteSnapshot E
      → FillMetrics E
      → Result (PaperFill E)
  unfolding str_ℤ
  entry_fill db session_id attempted_at intent quote metrics = do
    risk_verdict_id ← not_null intent.risk_verdict_id
    policy_trace_id ← not_null intent.policy_trace_id
    condition_snapshot_id ← not_null intent.condition_snapshot_id
    source_feature_run_id ← not_null intent.source_feature_run_id
    policy_state ← not_null intent.policy_state
    risk_state ← not_null intent.risk_state
    request_direction ← not_null intent.request_direction
    input_mint ← not_null intent.input_mint
    output_mint ← not_null intent.output_mint
    fill_side ← not_null intent.intent_side
    return (record {
      id = next_fill_id E db;
      session_id = session_id;
      execution_intent_id = some intent.id;
      risk_verdict_id = risk_verdict_id;
      policy_trace_id = policy_trace_id;
      condition_snapshot_id = condition_snapshot_id;
      source_feature_run_id = source_feature_run_id;
      quote_snapshot_id = quote.id;
      policy_state = policy_state;
      risk_state = risk_state;
      request_direction = request_direction;
      input_mint = input_mint;
      output_mint = output_mint;
      input_amount = str_opt_ℤ intent.quote_size_lamports;
      output_amount = text_or_zero intent.quoted_output_amount;
      fill_price_usdc = metrics.fill_price_usdc;
      price_impact_pct = quote.price_impact_pct;
      slippage_bps = quote.slippage_bps;
      fill_side = fill_side;
      fill_role = intent.intent_role;
      created_at = attempted_at;
    })

  unfoldable pub entry_position :
      Database E → ℕ → ℕ → Instant → QuoteSnapshot E → FillMetrics E → PaperPosition E
  entry_position db session_id fill_id attempted_at quote metrics = record {
    id = next_position_id E db;
    session_id = session_id;
    mint = quote.output_mint;
    net_quantity = metrics.net_quantity;
    cost_basis_usdc = metrics.cash_usdc;
    last_fill_id = fill_id;
    last_mark_source = some "fill_quote";
    last_mark_quote_snapshot_id = some quote.id;
    last_mark_price_usdc = some metrics.fill_price_usdc;
    last_marked_at = some attempted_at;
    realized_pnl_usdc = float_zero;
    unrealized_pnl_usdc = float_zero;
    updated_at = attempted_at;
  }

  unfoldable pub entry_report :
      Database E → ℕ → Instant → QuoteSnapshot E → FillMetrics E → PaperSessionReport E
  entry_report db session_id attempted_at quote metrics = record {
    id = next_report_id E db;
    session_id = session_id;
    report_type = "session_snapshot";
    cash_usdc = float_zero;
    position_value_usdc = metrics.cash_usdc;
    equity_usdc = metrics.cash_usdc;
    realized_pnl_usdc = float_zero;
    unrealized_pnl_usdc = float_zero;
    mark_method = "fill_quote";
    mark_inputs_json = dumps (
        object (
          ("quote_snapshot_id", Json.num (pos quote.id))
          ∷ ("fill_price_usdc", Json.float metrics.fill_price_usdc)
          ∷ ("mark_source", Json.text "quote_snapshot")
          ∷ []));
    reason_codes_json = dumps (texts []);
    created_at = attempted_at;
  }

  -- The four rows of a fill, and the answer once they are committed.
  unfoldable pub settle :
      Database E
      → String
      → Instant
      → ExecutionIntent E
      → QuoteSnapshot E
      → FillMetrics E
      → Result (FillAnswer E × Database E)
  unfolding open_session insert_session entry_fill insert_fill entry_position insert_position
      entry_report insert_report parse_int
  settle db session_key attempted_at intent quote metrics = do
    size ←
        or_raise (parse_int (some quote.input_amount))
          (value_error "invalid literal for int() with base 10")
    let paper_session = open_session db session_key attempted_at size metrics
    db₁ ← insert_session E db paper_session
    fill ← entry_fill db₁ paper_session.id attempted_at intent quote metrics
    db₂ ← insert_fill E db₁ fill
    let position = entry_position db₂ paper_session.id fill.id attempted_at quote metrics
    let db₃ = insert_position E db₂ position
    let report = entry_report db₃ paper_session.id attempted_at quote metrics
    let answer : FillAnswer E = record {
      filled = true;
      session_id = paper_session.id;
      session_key = paper_session.session_key;
      session_status = paper_session.status;
      fill_id = some fill.id;
      position_id = some position.id;
      report_id = some report.id;
      execution_intent_id = some intent.id;
      risk_verdict_id = intent.risk_verdict_id;
      quote_snapshot_id = some quote.id;
      policy_state = intent.policy_state;
      risk_state = intent.risk_state;
      reason = "Paper settlement created a quote-backed paper fill from explicit execution intent.";
      reason_codes = [];
      is_scaffold = false;
    }
    return (answer, insert_report E db₃ report)

  -- The keyword call without `execution_intent`, which has no default.
  abbrev missing_argument : Result (FillAnswer E × Database E)
  missing_argument = raise (
      type_error
        "_persist_skipped_session() missing 1 required keyword-only argument: 'execution_intent'")

  abbrev pub settle_metrics :
      Database E
      → String
      → Instant
      → ExecutionIntent E
      → QuoteSnapshot E
      → Option (FillMetrics E)
      → Result (FillAnswer E × Database E)
  settle_metrics db session_key attempted_at intent quote none = missing_argument
  settle_metrics db session_key attempted_at intent quote (some metrics) =
      settle db session_key attempted_at intent quote metrics

  abbrev pub settle_decimals :
      Database E
      → String
      → Instant
      → ExecutionIntent E
      → QuoteSnapshot E
      → Option ℕ
      → Result (FillAnswer E × Database E)
  settle_decimals db session_key attempted_at intent quote none = missing_argument
  settle_decimals db session_key attempted_at intent quote (some decimals) =
      settle_metrics db session_key attempted_at intent quote (build_fill_metrics E quote decimals)

  -- `simulate_fill` behind the two lookups.
  unfoldable pub settle_intent :
      Database E
      → String
      → Instant
      → Option (ExecutionIntent E)
      → Option (QuoteSnapshot E)
      → Result (FillAnswer E × Database E)
  unfolding settle build_fill_metrics validate_inputs resolve_asset_decimals persist_skipped_session
  settle_intent db session_key attempted_at (some intent) (some quote) =
      let reason_codes = validate_inputs E (some intent) (some quote) attempted_at in
      if is_nil reason_codes
      then settle_decimals db session_key attempted_at intent quote
          (resolve_asset_decimals E db quote.output_mint)
      else persist_skipped_session E db session_key attempted_at (some intent) (some quote)
          reason_codes
  settle_intent db session_key attempted_at intent quote =
      persist_skipped_session E db session_key attempted_at intent quote
        (validate_inputs E intent quote attempted_at)

  unfoldable pub find_intent : Database E → ℕ → Option (ExecutionIntent E)
  find_intent db id = find_first (λ row. row.id == id) db.intents

  abbrev pub quote_of : Database E → Option (ExecutionIntent E) → Option (QuoteSnapshot E)
  quote_of db none = none
  quote_of db (some intent) = elim intent.quote_snapshot_id [
    | none ↦ none
    | some id ↦ find_quote E db id
  ]

  -- `simulate_fill`, with the clock's time for a missing `settlement_attempted_at`.
  unfoldable pub simulate_fill :
      ℕ → Option DateTime → Instant → Database E → Result (FillAnswer E) × Database E
  unfolding build_session_key find_intent find_quote settle_intent
  simulate_fill execution_intent_id settlement_attempted_at now db =
      let attempted_at = or_else (ensure_utc settlement_attempted_at) now in
      let session_key = build_session_key execution_intent_id attempted_at in
      let intent = find_intent db execution_intent_id in
      finish db (settle_intent db session_key attempted_at intent (quote_of db intent))
