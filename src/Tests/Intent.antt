-- ===== src/Tests/Intent.antt =====
-- The witnesses of the intent owner's properties.
use defi_engine.Base.{true, ◌≡◌, refl, ◌↔◌, is_nil, ◌+◌, some, find_first, best, select, str_eq}
use defi_engine.Base.Text.{str_ℕ, parse_int, int_of, parse_signed, strip}
use defi_engine.Base.Time.{naive, stamp, ensure_utc}
use defi_engine.Json.{get}
use defi_engine.Settings.{usdc_mint}
use defi_engine.Truth.{
  ExecutionIntent, ◌>>=◌, ◌>>◌, raise_if, or_raise, RiskGlobalRegimeGate, QuoteSnapshot,
}
use defi_engine.Policy.{
  evaluate, load_global_regime_policy_config, validate_required_regimes, missing_from, lookup,
  select_condition_run, decide_run, load_snapshot, evaluate_snapshot, decide, trace_row, add_trace,
}
use defi_engine.Risk.{
  evaluate_global_regime, judge, select_policy_trace, load_feature_run, evaluate_policy_trace,
  parse_freshness_authorization, read_lanes, lane, blocks, verdict_row, add_verdict,
  evaluate_authorized, decode_json_array,
}
use defi_engine.Intent.{
  create_spot_intent, find_verdict, find_quote, evaluate_inputs, intent_row, intent_key_taken,
  add_intent, build_intent_key, serialize_intent, summarize_intent, risk_codes, quote_codes,
  mint_codes, age_codes, quote_timestamp, normalize_direction, intent_side, IntentAnswer,
}
use defi_engine.Paper.{validate_inputs}
use defi_engine.Pipeline.Settleable.{ready_intent-settleable}
use defi_engine.Intent.Ready.{IsRecent, RiskAllows, QuoteFits, evaluate_inputs-ready}
use defi_engine.Intent.Created.{Answered, create_spot_intent-ready}
use defi_engine.Samples.{sample_env, sample-IsCodec, sample_settings, sample_db, noon}
use defi_engine.Tests.Runs.{the, head, answered, judged, intended}

abbrev sample_verdict : RiskGlobalRegimeGate sample_env
unfolding evaluate load_global_regime_policy_config validate_required_regimes missing_from lookup
    str_eq ◌>>=◌ ◌>>◌ raise_if or_raise select_condition_run decide_run load_snapshot
    evaluate_snapshot decide trace_row add_trace best select find_first evaluate_global_regime judge
    select_policy_trace load_feature_run evaluate_policy_trace parse_freshness_authorization
    read_lanes lane blocks get verdict_row add_verdict evaluate_authorized
sample_verdict = the (head judged.risk_verdicts) refl

abbrev sample_quote : QuoteSnapshot sample_env
sample_quote = the (head sample_db.quotes) refl

evaluate_inputs-ready_example :
    ((evaluate_inputs sample_env sample_settings
        (some sample_verdict)
        (some sample_quote)
        (noon + 60_000_000)).intent_state
      ≡ "ready")
    ↔ ((risk : RiskGlobalRegimeGate sample_env) × (quote : QuoteSnapshot sample_env) × (some
            sample_verdict
          ≡ some risk)
        × (some sample_quote ≡ some quote)
        × RiskAllows sample_env risk
        × QuoteFits sample_env sample_settings quote (noon + 60_000_000))
evaluate_inputs-ready_example =
    evaluate_inputs-ready sample_env sample_settings (some sample_verdict) (some sample_quote)
      (noon + 60_000_000)

abbrev sample_answer : IntentAnswer sample_env
unfolding evaluate load_global_regime_policy_config validate_required_regimes missing_from lookup
    str_eq ◌>>=◌ ◌>>◌ raise_if or_raise select_condition_run decide_run load_snapshot
    evaluate_snapshot decide trace_row add_trace best select find_first evaluate_global_regime judge
    select_policy_trace load_feature_run evaluate_policy_trace parse_freshness_authorization
    read_lanes lane blocks get verdict_row add_verdict evaluate_authorized create_spot_intent
    find_verdict find_quote evaluate_inputs intent_row intent_key_taken add_intent build_intent_key
    stamp str_ℕ serialize_intent decode_json_array summarize_intent risk_codes quote_codes
    mint_codes age_codes quote_timestamp ensure_utc parse_int int_of parse_signed strip
    normalize_direction intent_side usdc_mint
sample_answer =
    the
      (answered
        (create_spot_intent sample_env sample_settings 1 1 (some (naive (noon + 60_000_000))) noon
          judged).0)
      refl

create_spot_intent-ready_example :
    Answered sample_env sample_settings 1 1 (noon + 60_000_000) judged sample_answer
unfolding evaluate load_global_regime_policy_config validate_required_regimes missing_from lookup
    str_eq ◌>>=◌ ◌>>◌ raise_if or_raise select_condition_run decide_run load_snapshot
    evaluate_snapshot decide trace_row add_trace best select find_first evaluate_global_regime judge
    select_policy_trace load_feature_run evaluate_policy_trace parse_freshness_authorization
    read_lanes lane blocks get verdict_row add_verdict evaluate_authorized create_spot_intent
    find_verdict find_quote evaluate_inputs intent_row intent_key_taken add_intent build_intent_key
    stamp str_ℕ serialize_intent decode_json_array summarize_intent risk_codes quote_codes
    mint_codes age_codes quote_timestamp ensure_utc parse_int int_of parse_signed strip
    normalize_direction intent_side usdc_mint
create_spot_intent-ready_example =
    create_spot_intent-ready sample_env sample-IsCodec sample_settings 1 1
      (some (naive (noon + 60_000_000))) noon judged intended sample_answer refl

ready_intent-settleable_example :
    (row : ExecutionIntent sample_env) × (intended ≡ add_intent sample_env judged row)
    × ((is_nil (validate_inputs sample_env (some row) (some sample_quote) (noon + 90_000_000))
          ≡ true)
        ↔ IsRecent (quote_timestamp sample_env sample_quote) (noon + 90_000_000))
unfolding evaluate load_global_regime_policy_config validate_required_regimes missing_from lookup
    str_eq ◌>>=◌ ◌>>◌ raise_if or_raise select_condition_run decide_run load_snapshot
    evaluate_snapshot decide trace_row add_trace best select find_first evaluate_global_regime judge
    select_policy_trace load_feature_run evaluate_policy_trace parse_freshness_authorization
    read_lanes lane blocks get verdict_row add_verdict evaluate_authorized create_spot_intent
    find_verdict find_quote evaluate_inputs intent_row intent_key_taken add_intent build_intent_key
    stamp str_ℕ serialize_intent decode_json_array summarize_intent risk_codes quote_codes
    mint_codes age_codes quote_timestamp ensure_utc parse_int int_of parse_signed strip
    normalize_direction intent_side usdc_mint
ready_intent-settleable_example =
    ready_intent-settleable sample_env sample_settings 1 1 (some (naive (noon + 60_000_000))) noon
      judged intended sample_answer sample_quote (noon + 90_000_000) refl refl refl
