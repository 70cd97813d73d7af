-- ===== src/Paper/Close.antt =====
-- settlement/paper.py: `simulate_close`, which closes an open paper session from an exit quote.
use Prim.Native.String.{◌++◌ as text_append}
use defi_engine.Base.{
  update, ℕ, String, Bool, true, false, not, Option, none, some, List, [], ◌∷◌, ltb, ◌==◌, str_eq,
  find_first, is_nil, best, select,
}
use defi_engine.Base.Int.{pos}
use defi_engine.Base.Text.{join}
use defi_engine.Base.Time.{Instant, DateTime, ensure_utc, or_else}
use defi_engine.Json.{Json, texts, object}
use defi_engine.Env.{Env}
use defi_engine.Truth.{
  Database, finish, Result, return, runtime_error, ◌>>=◌, ◌>>◌, raise_if, or_raise, QuoteSnapshot,
  PaperSession, PaperFill, PaperPosition, PaperSessionReport,
}
use defi_engine.Intent.{find_quote}
use defi_engine.Paper.Validation.{resolve_asset_decimals, validate_close_inputs, str_opt}
use defi_engine.Paper.Metrics.{CloseMetrics, build_close_metrics}
use defi_engine.Paper.Store.{insert_fill, insert_report, next_fill_id, next_report_id}

-- The arguments of `simulate_close` that are copied into the exit fill.
pub record CloseRequest : Type 0 where
  pub session_key : String
  pub quote_snapshot_id : ℕ
  pub policy_trace_id : ℕ
  pub risk_verdict_id : ℕ
  pub condition_snapshot_id : ℕ
  pub source_feature_run_id : String
  pub policy_state : String
  pub risk_state : String
  pub close_reason : String

module _ (E : Env) where
  open E use {Float, Encoded, float_zero, dumps}

  pub record CloseAnswer : Type 0 where
    pub closed : Bool
    pub session_id : ℕ
    pub session_key : String
    pub session_status : String
    pub fill_id : ℕ
    pub position_id : ℕ
    pub report_id : ℕ
    pub quote_snapshot_id : ℕ
    pub close_reason : String
    pub reason_codes : List String
    pub realized_pnl_usdc : Float
    pub ending_cash_usdc : Float
    pub is_scaffold : Bool

  unfoldable pub exit_fill :
      Database E
      → PaperSession E
      → Instant
      → QuoteSnapshot E
      → CloseMetrics E
      → CloseRequest
      → PaperFill E
  exit_fill db paper_session attempted_at quote metrics request = record {
    id = next_fill_id E db;
    session_id = paper_session.id;
    execution_intent_id = none;
    risk_verdict_id = request.risk_verdict_id;
    policy_trace_id = request.policy_trace_id;
    condition_snapshot_id = request.condition_snapshot_id;
    source_feature_run_id = request.source_feature_run_id;
    quote_snapshot_id = quote.id;
    policy_state = request.policy_state;
    risk_state = request.risk_state;
    request_direction = "token_to_usdc";
    input_mint = quote.input_mint;
    output_mint = quote.output_mint;
    input_amount = quote.input_amount;
    output_amount = str_opt quote.output_amount;
    fill_price_usdc = metrics.fill_price_usdc;
    price_impact_pct = quote.price_impact_pct;
    slippage_bps = quote.slippage_bps;
    fill_side = "sell";
    fill_role = "exit";
    created_at = attempted_at;
  }

  -- The assignments to the position and to the session.
  unfoldable pub closed_position :
      ℕ → Instant → QuoteSnapshot E → CloseMetrics E → PaperPosition E → PaperPosition E
  closed_position fill_id attempted_at quote metrics position = record position {
    net_quantity = float_zero;
    realized_pnl_usdc = metrics.realized_pnl_usdc;
    unrealized_pnl_usdc = float_zero;
    last_fill_id = fill_id;
    last_mark_source = some "close_quote";
    last_mark_quote_snapshot_id = some quote.id;
    last_mark_price_usdc = some metrics.fill_price_usdc;
    last_marked_at = some attempted_at;
    updated_at = attempted_at;
  }

  abbrev close_codes : CloseRequest → List String
  close_codes request = text_append "close_reason:" request.close_reason ∷ []

  unfoldable pub closed_session :
      Instant → CloseMetrics E → CloseRequest → PaperSession E → PaperSession E
  closed_session attempted_at metrics request paper_session = record paper_session {
    status = "closed";
    closed_at = some attempted_at;
    ending_cash_usdc = some metrics.cash_usdc;
    reason_codes_json = dumps (texts (close_codes request));
  }

  unfoldable pub close_report :
      Database E
      → PaperSession E
      → Instant
      → QuoteSnapshot E
      → CloseMetrics E
      → CloseRequest
      → PaperSessionReport E
  close_report db paper_session attempted_at quote metrics request = record {
    id = next_report_id E db;
    session_id = paper_session.id;
    report_type = "session_close";
    cash_usdc = metrics.cash_usdc;
    position_value_usdc = float_zero;
    equity_usdc = metrics.cash_usdc;
    realized_pnl_usdc = metrics.realized_pnl_usdc;
    unrealized_pnl_usdc = float_zero;
    mark_method = "close_quote";
    mark_inputs_json = dumps (
        object (
          ("quote_snapshot_id", Json.num (pos quote.id))
          ∷ ("close_reason", Json.text request.close_reason)
          ∷ ("fill_price_usdc", Json.float metrics.fill_price_usdc)
          ∷ []));
    reason_codes_json = dumps (texts (close_codes request));
    created_at = attempted_at;
  }

  -- The writes of an accepted close.
  unfoldable pub close_rows :
      Database E
      → PaperSession E
      → PaperPosition E
      → Instant
      → QuoteSnapshot E
      → CloseMetrics E
      → CloseRequest
      → Result (CloseAnswer × Database E)
  unfolding exit_fill insert_fill closed_position closed_session close_report insert_report update
  close_rows db paper_session position attempted_at quote metrics request = do
    let fill = exit_fill db paper_session attempted_at quote metrics request
    db₁ ← insert_fill E db fill
    let db₂ = record db₁ {
      paper_positions =
          update (λ row. row.id == position.id) (closed_position fill.id attempted_at quote metrics)
            db₁.paper_positions;
      paper_sessions =
          update (λ row. row.id == paper_session.id) (closed_session attempted_at metrics request)
            db₁.paper_sessions;
    }
    let report = close_report db₂ paper_session attempted_at quote metrics request
    let answer : CloseAnswer = record {
      closed = true;
      session_id = paper_session.id;
      session_key = paper_session.session_key;
      session_status = "closed";
      fill_id = fill.id;
      position_id = position.id;
      report_id = report.id;
      quote_snapshot_id = quote.id;
      close_reason = request.close_reason;
      reason_codes = close_codes request;
      realized_pnl_usdc = metrics.realized_pnl_usdc;
      ending_cash_usdc = metrics.cash_usdc;
      is_scaffold = false;
    }
    return (answer, insert_report E db₂ report)

  unfoldable pub find_session : Database E → String → Option (PaperSession E)
  find_session db session_key =
      find_first (λ row. str_eq row.session_key session_key) db.paper_sessions

  unfoldable pub latest_position : Database E → ℕ → Option (PaperPosition E)
  latest_position db session_id =
      best (λ a b. ltb a.id b.id) (select (λ row. row.session_id == session_id) db.paper_positions)

  -- `simulate_close`, with the clock's time for a missing `settlement_attempted_at`.
  unfoldable pub simulate_close :
      CloseRequest → Option DateTime → Instant → Database E → Result CloseAnswer × Database E
  unfolding find_session latest_position find_quote validate_close_inputs resolve_asset_decimals
      build_close_metrics close_rows join
  simulate_close request settlement_attempted_at now db = finish db (do
    let attempted_at = or_else (ensure_utc settlement_attempted_at) now
    paper_session ←
        or_raise (find_session db request.session_key)
          (runtime_error (text_append "Unknown paper session: " request.session_key))
    raise_if (not (str_eq paper_session.status "open")) (
        runtime_error
          (text_append "Paper session is not open and cannot be closed: " request.session_key))
    position ← or_raise (latest_position db paper_session.id) (
        runtime_error
          (text_append "Open paper session has no position to close: " request.session_key))
    let quote? = find_quote E db request.quote_snapshot_id
    let reason_codes = validate_close_inputs E db position quote? attempted_at request.close_reason
    raise_if (not (is_nil reason_codes)) (
        runtime_error (
          text_append "Paper close rejected because the exit quote was incompatible: "
            (join ", " reason_codes)))
    decimals ← or_raise (resolve_asset_decimals E db position.mint) (
        runtime_error (text_append "Missing token decimals for open position mint: " position.mint))
    quote ← or_raise quote? (runtime_error "")
    metrics ←
        or_raise (build_close_metrics E quote decimals position.cost_basis_usdc)
          (runtime_error "Exit quote amounts were invalid for close settlement.")
    close_rows db paper_session position attempted_at quote metrics request)
