-- ===== src/Tests/Closing.antt =====
-- The witnesses of the properties of a close.
use Prim.Native.String.{◌++◌ as text_append}
use defi_engine.Base.{update, ◌≡◌, refl, ◌+◌, none, some, find_first, best, select, str_eq}
use defi_engine.Base.Text.{str_ℕ, str_ℤ, parse_int, int_of, parse_signed, strip}
use defi_engine.Base.Time.{naive, stamp, ensure_utc}
use defi_engine.Json.{get}
use defi_engine.Settings.{usdc_mint}
use defi_engine.Truth.{raise, runtime_error, ◌>>=◌, ◌>>◌, raise_if, or_raise}
use defi_engine.Policy.{
  evaluate, load_global_regime_policy_config, validate_required_regimes, missing_from, lookup,
  select_condition_run, decide_run, load_snapshot, evaluate_snapshot, decide, trace_row, add_trace,
}
use defi_engine.Risk.{
  evaluate_global_regime, judge, select_policy_trace, load_feature_run, evaluate_policy_trace,
  parse_freshness_authorization, read_lanes, lane, blocks, verdict_row, add_verdict,
  evaluate_authorized, decode_json_array,
}
use defi_engine.Intent.{
  create_spot_intent, find_verdict, find_quote, evaluate_inputs, intent_row, intent_key_taken,
  add_intent, build_intent_key, serialize_intent, summarize_intent, risk_codes, quote_codes,
  mint_codes, age_codes, quote_timestamp, normalize_direction, intent_side,
}
use defi_engine.Paper.{
  simulate_fill, settle_intent, settle, build_fill_metrics, validate_inputs, resolve_asset_decimals,
  build_session_key, find_intent, match_codes, reference_codes, side_codes, amount_codes,
  open_session, insert_session, session_key_taken, entry_fill, insert_fill, foreign_keys_hold,
  entry_position, insert_position, entry_report, insert_report, simulate_close, find_session,
  latest_position, validate_close_inputs, close_quote_codes, build_close_metrics, close_rows,
  exit_fill, closed_position, closed_session, close_report, CloseAnswer,
}
use defi_engine.Paper.Closes.{simulate_close-final}
use defi_engine.Paper.Closures.{Closed, simulate_close-closes}
use defi_engine.Samples.{sample_env, noon}
use defi_engine.Tests.Runs.{the, answered, filled, closed, request}

abbrev sample_closed : CloseAnswer sample_env
unfolding evaluate load_global_regime_policy_config validate_required_regimes missing_from lookup
    str_eq ◌>>=◌ ◌>>◌ raise_if or_raise select_condition_run decide_run load_snapshot
    evaluate_snapshot decide trace_row add_trace best select find_first evaluate_global_regime judge
    select_policy_trace load_feature_run evaluate_policy_trace parse_freshness_authorization
    read_lanes lane blocks get verdict_row add_verdict evaluate_authorized create_spot_intent
    find_verdict find_quote evaluate_inputs intent_row intent_key_taken add_intent build_intent_key
    stamp str_ℕ serialize_intent decode_json_array summarize_intent risk_codes quote_codes
    mint_codes age_codes quote_timestamp ensure_utc parse_int int_of parse_signed strip
    normalize_direction intent_side usdc_mint simulate_fill settle_intent settle build_fill_metrics
    validate_inputs resolve_asset_decimals build_session_key find_intent match_codes reference_codes
    side_codes amount_codes open_session insert_session session_key_taken entry_fill insert_fill
    foreign_keys_hold entry_position insert_position entry_report insert_report simulate_close
    find_session latest_position validate_close_inputs close_quote_codes build_close_metrics
    close_rows exit_fill closed_position closed_session close_report update str_ℤ
sample_closed =
    the
      (answered
        (simulate_close sample_env request (some (naive (noon + 180_000_000))) noon filled).0)
      refl

simulate_close-closes_example :
    Closed sample_env request (noon + 180_000_000) filled sample_closed closed
unfolding evaluate load_global_regime_policy_config validate_required_regimes missing_from lookup
    str_eq ◌>>=◌ ◌>>◌ raise_if or_raise select_condition_run decide_run load_snapshot
    evaluate_snapshot decide trace_row add_trace best select find_first evaluate_global_regime judge
    select_policy_trace load_feature_run evaluate_policy_trace parse_freshness_authorization
    read_lanes lane blocks get verdict_row add_verdict evaluate_authorized create_spot_intent
    find_verdict find_quote evaluate_inputs intent_row intent_key_taken add_intent build_intent_key
    stamp str_ℕ serialize_intent decode_json_array summarize_intent risk_codes quote_codes
    mint_codes age_codes quote_timestamp ensure_utc parse_int int_of parse_signed strip
    normalize_direction intent_side usdc_mint simulate_fill settle_intent settle build_fill_metrics
    validate_inputs resolve_asset_decimals build_session_key find_intent match_codes reference_codes
    side_codes amount_codes open_session insert_session session_key_taken entry_fill insert_fill
    foreign_keys_hold entry_position insert_position entry_report insert_report simulate_close
    find_session latest_position validate_close_inputs close_quote_codes build_close_metrics
    close_rows exit_fill closed_position closed_session close_report update str_ℤ
simulate_close-closes_example =
    simulate_close-closes sample_env request (some (naive (noon + 180_000_000))) noon filled closed
      sample_closed refl

simulate_close-final_example :
    simulate_close sample_env request none (noon + 240_000_000) closed ≡ (
      raise (
          runtime_error
            (text_append "Paper session is not open and cannot be closed: " request.session_key)),
      closed,
    )
unfolding evaluate load_global_regime_policy_config validate_required_regimes missing_from lookup
    str_eq ◌>>=◌ ◌>>◌ raise_if or_raise select_condition_run decide_run load_snapshot
    evaluate_snapshot decide trace_row add_trace best select find_first evaluate_global_regime judge
    select_policy_trace load_feature_run evaluate_policy_trace parse_freshness_authorization
    read_lanes lane blocks get verdict_row add_verdict evaluate_authorized create_spot_intent
    find_verdict find_quote evaluate_inputs intent_row intent_key_taken add_intent build_intent_key
    stamp str_ℕ serialize_intent decode_json_array summarize_intent risk_codes quote_codes
    mint_codes age_codes quote_timestamp ensure_utc parse_int int_of parse_signed strip
    normalize_direction intent_side usdc_mint simulate_fill settle_intent settle build_fill_metrics
    validate_inputs resolve_asset_decimals build_session_key find_intent match_codes reference_codes
    side_codes amount_codes open_session insert_session session_key_taken entry_fill insert_fill
    foreign_keys_hold entry_position insert_position entry_report insert_report simulate_close
    find_session latest_position validate_close_inputs close_quote_codes build_close_metrics
    close_rows exit_fill closed_position closed_session close_report update str_ℤ
simulate_close-final_example =
    simulate_close-final sample_env request (some (naive (noon + 180_000_000))) noon filled closed
      sample_closed request none (noon + 240_000_000) refl refl
