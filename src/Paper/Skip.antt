-- ===== src/Paper/Skip.antt =====
-- settlement/paper.py: the answer of `simulate_fill`, and the session and report of a settlement that
-- is skipped.
use defi_engine.Base.{ℕ, String, Bool, false, Option, none, some, List, []}
use defi_engine.Base.Int.{ℤ, pos}
use defi_engine.Base.Text.{parse_int}
use defi_engine.Base.Time.{Instant}
use defi_engine.Json.{texts, object}
use defi_engine.Env.{Env}
use defi_engine.Truth.{
  Database, Result, return, ◌>>=◌, ExecutionIntent, QuoteSnapshot, PaperSession, PaperSessionReport,
}
use defi_engine.Intent.{normalize_direction}
use defi_engine.Paper.Metrics.{derive_attempt_cash_usdc}
use defi_engine.Paper.Store.{
  summarize_skip, insert_session, insert_report, next_session_id, next_report_id,
}

abbrev or_zero : Option ℤ → ℤ
or_zero none = pos 0
or_zero (some n) = n

module _ (E : Env) where
  open E use {Float, float_zero, dumps}

  -- The dict of `simulate_fill`, filled or skipped.
  pub record FillAnswer : Type 0 where
    pub filled : Bool
    pub session_id : ℕ
    pub session_key : String
    pub session_status : String
    pub fill_id : Option ℕ
    pub position_id : Option ℕ
    pub report_id : Option ℕ
    pub execution_intent_id : Option ℕ
    pub risk_verdict_id : Option ℕ
    pub quote_snapshot_id : Option ℕ
    pub policy_state : Option String
    pub risk_state : Option String
    pub reason : String
    pub reason_codes : List String
    pub is_scaffold : Bool

  abbrev skip_direction : Option (ExecutionIntent E) → Option (QuoteSnapshot E) → Option String
  skip_direction (some intent) quote = normalize_direction intent.request_direction
  skip_direction none (some quote) = normalize_direction quote.request_direction
  skip_direction none none = normalize_direction none

  abbrev input_of : Option (QuoteSnapshot E) → Option ℤ
  input_of none = none
  input_of (some quote) = parse_int (some quote.input_amount)

  abbrev intent_id : Option (ExecutionIntent E) → Option ℕ
  intent_id none = none
  intent_id (some intent) = some intent.id

  abbrev verdict_id : Option (ExecutionIntent E) → Option ℕ
  verdict_id none = none
  verdict_id (some intent) = intent.risk_verdict_id

  abbrev quote_id : Option (QuoteSnapshot E) → Option ℕ
  quote_id none = none
  quote_id (some quote) = some quote.id

  unfoldable pub skipped_session :
      Database E
      → String
      → Instant
      → Option (ExecutionIntent E)
      → Option (QuoteSnapshot E)
      → List String
      → PaperSession E
  unfolding normalize_direction derive_attempt_cash_usdc parse_int
  skipped_session db session_key attempted_at intent quote reason_codes =
      let cash = derive_attempt_cash_usdc E quote (skip_direction intent quote) in
      record {
        id = next_session_id E db;
        session_key = session_key;
        status = "skipped";
        base_currency = "USDC";
        quote_size_lamports = or_zero (input_of quote);
        opened_at = attempted_at;
        closed_at = some attempted_at;
        starting_cash_usdc = cash;
        ending_cash_usdc = some cash;
        reason_codes_json = dumps (texts reason_codes);
        created_at = attempted_at;
      }

  unfoldable pub skipped_report : Database E → PaperSession E → List String → PaperSessionReport E
  skipped_report db paper_session reason_codes = record {
    id = next_report_id E db;
    session_id = paper_session.id;
    report_type = "session_close";
    cash_usdc = paper_session.starting_cash_usdc;
    position_value_usdc = float_zero;
    equity_usdc = paper_session.starting_cash_usdc;
    realized_pnl_usdc = float_zero;
    unrealized_pnl_usdc = float_zero;
    mark_method = "none";
    mark_inputs_json = dumps (object []);
    reason_codes_json = dumps (texts reason_codes);
    created_at = paper_session.created_at;
  }

  -- `_persist_skipped_session`. The answer is built before the report is flushed, so it has no
  -- report id.
  unfoldable pub persist_skipped_session :
      Database E
      → String
      → Instant
      → Option (ExecutionIntent E)
      → Option (QuoteSnapshot E)
      → List String
      → Result (FillAnswer × Database E)
  unfolding skipped_session skipped_report insert_session insert_report summarize_skip
  persist_skipped_session db session_key attempted_at intent quote reason_codes = do
    let paper_session = skipped_session db session_key attempted_at intent quote reason_codes
    db' ← insert_session E db paper_session
    let answer : FillAnswer = record {
      filled = false;
      session_id = paper_session.id;
      session_key = paper_session.session_key;
      session_status = paper_session.status;
      fill_id = none;
      position_id = none;
      report_id = none;
      execution_intent_id = intent_id intent;
      risk_verdict_id = verdict_id intent;
      quote_snapshot_id = quote_id quote;
      policy_state = none;
      risk_state = none;
      reason = summarize_skip reason_codes;
      reason_codes = reason_codes;
      is_scaffold = false;
    }
    return (answer, insert_report E db' (skipped_report db' paper_session reason_codes))
