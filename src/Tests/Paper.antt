-- ===== src/Tests/Paper.antt =====
-- The witnesses of the settlement owner's properties.
use defi_engine.Base.{
  inl, ◌≡◌, refl, ◌↔◌, arith, ◌+◌, String, true, some, [], find_first, best, select, str_eq, is_nil,
}
use defi_engine.Base.Int.{pos}
use defi_engine.Base.Text.{str_ℕ, str_ℤ, parse_int, int_of, parse_signed, strip}
use defi_engine.Base.Text.RoundTrip.{int_of-str}
use defi_engine.Base.Time.{Instant, naive, stamp, ensure_utc}
use defi_engine.Json.{get}
use defi_engine.Settings.{usdc_mint}
use defi_engine.Truth.{
  Database, Result, return, raise, type_error, ◌>>=◌, ◌>>◌, raise_if, or_raise, ExecutionIntent,
  QuoteSnapshot,
}
use defi_engine.Policy.{
  evaluate, load_global_regime_policy_config, validate_required_regimes, missing_from, lookup,
  select_condition_run, decide_run, load_snapshot, evaluate_snapshot, decide, trace_row, add_trace,
}
use defi_engine.Risk.{
  evaluate_global_regime, judge, select_policy_trace, load_feature_run, evaluate_policy_trace,
  parse_freshness_authorization, read_lanes, lane, blocks, verdict_row, add_verdict,
  evaluate_authorized, decode_json_array,
}
use defi_engine.Intent.{
  create_spot_intent, find_verdict, find_quote, evaluate_inputs, intent_row, intent_key_taken,
  add_intent, build_intent_key, serialize_intent, summarize_intent, risk_codes, quote_codes,
  mint_codes, age_codes, quote_timestamp, normalize_direction, intent_side,
}
use defi_engine.Paper.{
  simulate_fill, settle_intent, settle, build_fill_metrics, validate_inputs, resolve_asset_decimals,
  build_session_key, find_intent, match_codes, reference_codes, side_codes, amount_codes,
  open_session, insert_session, session_key_taken, entry_fill, insert_fill, foreign_keys_hold,
  entry_position, insert_position, entry_report, insert_report, FillAnswer, FillMetrics,
}
use defi_engine.Paper.Checks.{Matches, validate_inputs-nil}
use defi_engine.Paper.Rows.{Filled, settle-returns}
use defi_engine.Paper.Settles.{Settled, simulate_fill-settles, simulate_fill-unknown_decimals}
use defi_engine.Paper.Fillable.{Referenced, Priced, simulate_fill-fills}
use defi_engine.Paper.Completes.{filled_amount}
use defi_engine.Samples.{sample_env, sample_db, noon}
use defi_engine.Tests.Runs.{the, head, answered, intended, filled}

abbrev attempt : Instant
attempt = noon + 90_000_000

abbrev sample_intent : ExecutionIntent sample_env
unfolding evaluate load_global_regime_policy_config validate_required_regimes missing_from lookup
    str_eq ◌>>=◌ ◌>>◌ raise_if or_raise select_condition_run decide_run load_snapshot
    evaluate_snapshot decide trace_row add_trace best select find_first evaluate_global_regime judge
    select_policy_trace load_feature_run evaluate_policy_trace parse_freshness_authorization
    read_lanes lane blocks get verdict_row add_verdict evaluate_authorized create_spot_intent
    find_verdict find_quote evaluate_inputs intent_row intent_key_taken add_intent build_intent_key
    stamp str_ℕ serialize_intent decode_json_array summarize_intent risk_codes quote_codes
    mint_codes age_codes quote_timestamp ensure_utc parse_int int_of parse_signed strip
    normalize_direction intent_side usdc_mint
sample_intent = the (head intended.intents) refl

abbrev sample_quote : QuoteSnapshot sample_env
sample_quote = the (head sample_db.quotes) refl

matches : Matches sample_env sample_intent sample_quote attempt
unfolding evaluate load_global_regime_policy_config validate_required_regimes missing_from lookup
    str_eq ◌>>=◌ ◌>>◌ raise_if or_raise select_condition_run decide_run load_snapshot
    evaluate_snapshot decide trace_row add_trace best select find_first evaluate_global_regime judge
    select_policy_trace load_feature_run evaluate_policy_trace parse_freshness_authorization
    read_lanes lane blocks get verdict_row add_verdict evaluate_authorized create_spot_intent
    find_verdict find_quote evaluate_inputs intent_row intent_key_taken add_intent build_intent_key
    stamp str_ℕ serialize_intent decode_json_array summarize_intent risk_codes quote_codes
    mint_codes age_codes quote_timestamp ensure_utc parse_int int_of parse_signed strip
    normalize_direction intent_side usdc_mint
matches = record {
  same_quote = refl;
  has_verdict = (1, refl);
  has_trace = (1, refl);
  buys = refl;
  side = refl;
  same_input = refl;
  same_output = refl;
  same_size = refl;
  same_quoted = refl;
  recent = (omega arith, omega arith);
}

validate_inputs-nil_example :
    (is_nil (validate_inputs sample_env (some sample_intent) (some sample_quote) attempt) ≡ true)
    ↔ ((intent : ExecutionIntent sample_env) × (quote : QuoteSnapshot sample_env) × (some
            sample_intent
          ≡ some intent)
        × (some sample_quote ≡ some quote)
        × (intent.intent_state ≡ "ready")
        × Matches sample_env intent quote attempt)
validate_inputs-nil_example =
    validate_inputs-nil sample_env (some sample_intent) (some sample_quote) attempt

abbrev sample_answer : FillAnswer sample_env
unfolding evaluate load_global_regime_policy_config validate_required_regimes missing_from lookup
    str_eq ◌>>=◌ ◌>>◌ raise_if or_raise select_condition_run decide_run load_snapshot
    evaluate_snapshot decide trace_row add_trace best select find_first evaluate_global_regime judge
    select_policy_trace load_feature_run evaluate_policy_trace parse_freshness_authorization
    read_lanes lane blocks get verdict_row add_verdict evaluate_authorized create_spot_intent
    find_verdict find_quote evaluate_inputs intent_row intent_key_taken add_intent build_intent_key
    stamp str_ℕ serialize_intent decode_json_array summarize_intent risk_codes quote_codes
    mint_codes age_codes quote_timestamp ensure_utc parse_int int_of parse_signed strip
    normalize_direction intent_side usdc_mint simulate_fill settle_intent settle build_fill_metrics
    validate_inputs resolve_asset_decimals build_session_key find_intent match_codes reference_codes
    side_codes amount_codes open_session insert_session session_key_taken entry_fill insert_fill
    foreign_keys_hold entry_position insert_position entry_report insert_report str_ℤ
sample_answer =
    the (answered (simulate_fill sample_env 1 (some (naive attempt)) noon intended).0) refl

simulate_fill-settles_example : Settled sample_env 1 attempt intended sample_answer filled
unfolding evaluate load_global_regime_policy_config validate_required_regimes missing_from lookup
    str_eq ◌>>=◌ ◌>>◌ raise_if or_raise select_condition_run decide_run load_snapshot
    evaluate_snapshot decide trace_row add_trace best select find_first evaluate_global_regime judge
    select_policy_trace load_feature_run evaluate_policy_trace parse_freshness_authorization
    read_lanes lane blocks get verdict_row add_verdict evaluate_authorized create_spot_intent
    find_verdict find_quote evaluate_inputs intent_row intent_key_taken add_intent build_intent_key
    stamp str_ℕ serialize_intent decode_json_array summarize_intent risk_codes quote_codes
    mint_codes age_codes quote_timestamp ensure_utc parse_int int_of parse_signed strip
    normalize_direction intent_side usdc_mint simulate_fill settle_intent settle build_fill_metrics
    validate_inputs resolve_asset_decimals build_session_key find_intent match_codes reference_codes
    side_codes amount_codes open_session insert_session session_key_taken entry_fill insert_fill
    foreign_keys_hold entry_position insert_position entry_report insert_report str_ℤ
simulate_fill-settles_example =
    simulate_fill-settles sample_env 1 (some (naive attempt)) noon intended filled sample_answer
      refl

abbrev sample_metrics : FillMetrics sample_env
unfolding build_fill_metrics parse_int int_of parse_signed strip
sample_metrics = the (build_fill_metrics sample_env sample_quote 9) refl

abbrev sample_key : String
sample_key = build_session_key 1 attempt

sample-Referenced : Referenced sample_env intended sample_intent
unfolding evaluate load_global_regime_policy_config validate_required_regimes missing_from lookup
    str_eq ◌>>=◌ ◌>>◌ raise_if or_raise select_condition_run decide_run load_snapshot
    evaluate_snapshot decide trace_row add_trace best select find_first evaluate_global_regime judge
    select_policy_trace load_feature_run evaluate_policy_trace parse_freshness_authorization
    read_lanes lane blocks get verdict_row add_verdict evaluate_authorized create_spot_intent
    find_verdict find_quote evaluate_inputs intent_row intent_key_taken add_intent build_intent_key
    stamp str_ℕ serialize_intent decode_json_array summarize_intent risk_codes quote_codes
    mint_codes age_codes quote_timestamp ensure_utc parse_int int_of parse_signed strip
    normalize_direction intent_side usdc_mint simulate_fill settle_intent settle build_fill_metrics
    validate_inputs resolve_asset_decimals build_session_key find_intent match_codes reference_codes
    side_codes amount_codes open_session insert_session session_key_taken entry_fill insert_fill
    foreign_keys_hold entry_position insert_position entry_report insert_report str_ℤ
sample-Referenced = record {
  verdict = 1;
  trace = 1;
  condition = 7;
  run = "feat";
  policy_state = "eligible_long";
  risk_state = "allowed";
  has_verdict = refl;
  has_trace = refl;
  has_condition = refl;
  has_run = refl;
  has_policy_state = refl;
  has_risk_state = refl;
  verdicts = inl refl;
  traces = inl refl;
  conditions = inl refl;
  runs = inl refl;
}

sample-Priced : Priced sample_env intended sample_quote
unfolding evaluate load_global_regime_policy_config validate_required_regimes missing_from lookup
    str_eq ◌>>=◌ ◌>>◌ raise_if or_raise select_condition_run decide_run load_snapshot
    evaluate_snapshot decide trace_row add_trace best select find_first evaluate_global_regime judge
    select_policy_trace load_feature_run evaluate_policy_trace parse_freshness_authorization
    read_lanes lane blocks get verdict_row add_verdict evaluate_authorized create_spot_intent
    find_verdict find_quote evaluate_inputs intent_row intent_key_taken add_intent build_intent_key
    stamp str_ℕ serialize_intent decode_json_array summarize_intent risk_codes quote_codes
    mint_codes age_codes quote_timestamp ensure_utc parse_int int_of parse_signed strip
    normalize_direction intent_side usdc_mint simulate_fill settle_intent settle build_fill_metrics
    validate_inputs resolve_asset_decimals build_session_key find_intent match_codes reference_codes
    side_codes amount_codes open_session insert_session session_key_taken entry_fill insert_fill
    foreign_keys_hold entry_position insert_position entry_report insert_report str_ℤ
sample-Priced = record {
  decimals = 9;
  input = pos 10_000_000;
  output = pos 100_000_000;
  known = refl;
  spends = refl;
  gains = refl;
  not_zero = refl;
  positive = refl;
}

simulate_fill-fills_example :
    (answer : FillAnswer sample_env) × (db' : Database sample_env) × (◌≡◌
      {A = Result (FillAnswer sample_env) × Database sample_env}
      (simulate_fill sample_env 1 (some (naive attempt)) noon intended)
      (return answer, db'))
    × (answer.filled ≡ true)
unfolding evaluate load_global_regime_policy_config validate_required_regimes missing_from lookup
    str_eq ◌>>=◌ ◌>>◌ raise_if or_raise select_condition_run decide_run load_snapshot
    evaluate_snapshot decide trace_row add_trace best select find_first evaluate_global_regime judge
    select_policy_trace load_feature_run evaluate_policy_trace parse_freshness_authorization
    read_lanes lane blocks get verdict_row add_verdict evaluate_authorized create_spot_intent
    find_verdict find_quote evaluate_inputs intent_row intent_key_taken add_intent build_intent_key
    stamp str_ℕ serialize_intent decode_json_array summarize_intent risk_codes quote_codes
    mint_codes age_codes quote_timestamp ensure_utc parse_int int_of parse_signed strip
    normalize_direction intent_side usdc_mint simulate_fill settle_intent settle build_fill_metrics
    validate_inputs resolve_asset_decimals build_session_key find_intent match_codes reference_codes
    side_codes amount_codes open_session insert_session session_key_taken entry_fill insert_fill
    foreign_keys_hold entry_position insert_position entry_report insert_report str_ℤ
simulate_fill-fills_example =
    simulate_fill-fills sample_env 1 (some (naive attempt)) noon intended sample_intent sample_quote
      refl refl refl matches sample-Referenced sample-Priced refl

abbrev unknown : Database sample_env
unknown = record intended { tokens = [] }

simulate_fill-unknown_decimals_example :
    simulate_fill sample_env 1 (some (naive attempt)) noon unknown ≡ (
      raise (
          type_error
            "_persist_skipped_session() missing 1 required keyword-only argument: 'execution_intent'"),
      unknown,
    )
unfolding evaluate load_global_regime_policy_config validate_required_regimes missing_from lookup
    str_eq ◌>>=◌ ◌>>◌ raise_if or_raise select_condition_run decide_run load_snapshot
    evaluate_snapshot decide trace_row add_trace best select find_first evaluate_global_regime judge
    select_policy_trace load_feature_run evaluate_policy_trace parse_freshness_authorization
    read_lanes lane blocks get verdict_row add_verdict evaluate_authorized create_spot_intent
    find_verdict find_quote evaluate_inputs intent_row intent_key_taken add_intent build_intent_key
    stamp str_ℕ serialize_intent decode_json_array summarize_intent risk_codes quote_codes
    mint_codes age_codes quote_timestamp ensure_utc parse_int int_of parse_signed strip
    normalize_direction intent_side usdc_mint simulate_fill settle_intent settle build_fill_metrics
    validate_inputs resolve_asset_decimals build_session_key find_intent match_codes reference_codes
    side_codes amount_codes open_session insert_session session_key_taken entry_fill insert_fill
    foreign_keys_hold entry_position insert_position entry_report insert_report str_ℤ
simulate_fill-unknown_decimals_example =
    simulate_fill-unknown_decimals sample_env 1 (some (naive attempt)) noon unknown sample_intent
      sample_quote refl refl refl matches refl

sample_filled :
    Filled sample_env sample_key attempt sample_intent sample_quote intended sample_answer filled
unfolding evaluate load_global_regime_policy_config validate_required_regimes missing_from lookup
    str_eq ◌>>=◌ ◌>>◌ raise_if or_raise select_condition_run decide_run load_snapshot
    evaluate_snapshot decide trace_row add_trace best select find_first evaluate_global_regime judge
    select_policy_trace load_feature_run evaluate_policy_trace parse_freshness_authorization
    read_lanes lane blocks get verdict_row add_verdict evaluate_authorized create_spot_intent
    find_verdict find_quote evaluate_inputs intent_row intent_key_taken add_intent build_intent_key
    stamp str_ℕ serialize_intent decode_json_array summarize_intent risk_codes quote_codes
    mint_codes age_codes quote_timestamp ensure_utc parse_int int_of parse_signed strip
    normalize_direction intent_side usdc_mint simulate_fill settle_intent settle build_fill_metrics
    validate_inputs resolve_asset_decimals build_session_key find_intent match_codes reference_codes
    side_codes amount_codes open_session insert_session session_key_taken entry_fill insert_fill
    foreign_keys_hold entry_position insert_position entry_report insert_report str_ℤ
sample_filled =
    settle-returns sample_env intended filled sample_key attempt sample_intent sample_quote 9
      sample_metrics sample_answer refl refl refl

filled_amount_example :
    parse_int (some sample_filled.fill.input_amount) ≡ parse_int (some sample_quote.input_amount)
unfolding evaluate load_global_regime_policy_config validate_required_regimes missing_from lookup
    str_eq ◌>>=◌ ◌>>◌ raise_if or_raise select_condition_run decide_run load_snapshot
    evaluate_snapshot decide trace_row add_trace best select find_first evaluate_global_regime judge
    select_policy_trace load_feature_run evaluate_policy_trace parse_freshness_authorization
    read_lanes lane blocks get verdict_row add_verdict evaluate_authorized create_spot_intent
    find_verdict find_quote evaluate_inputs intent_row intent_key_taken add_intent build_intent_key
    stamp str_ℕ serialize_intent decode_json_array summarize_intent risk_codes quote_codes
    mint_codes age_codes quote_timestamp ensure_utc parse_int int_of parse_signed strip
    normalize_direction intent_side usdc_mint simulate_fill settle_intent settle build_fill_metrics
    validate_inputs resolve_asset_decimals build_session_key find_intent match_codes reference_codes
    side_codes amount_codes open_session insert_session session_key_taken entry_fill insert_fill
    foreign_keys_hold entry_position insert_position entry_report insert_report str_ℤ
filled_amount_example =
    filled_amount sample_env sample_key attempt sample_intent sample_quote intended filled
      sample_answer 10_000_000 matches sample_filled refl

int_of-str_example : int_of (str_ℕ 1_905) ≡ some (pos 1_905)
int_of-str_example = int_of-str 1_905
