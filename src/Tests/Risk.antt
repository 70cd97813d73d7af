-- ===== src/Tests/Risk.antt =====
-- The witnesses of the risk owner's properties.
use defi_engine.Base.{
  ◌≡◌, refl, ◌↔◌, true, false, Option, some, [], ◌∷◌, find_first, best, select, str_eq, is_nil,
}
use defi_engine.Base.Int.{ℤ, pos}
use defi_engine.Json.{Json, Fields, get, object, fields}
use defi_engine.Truth.{
  ◌>>=◌, ◌>>◌, raise_if, or_raise, PolicyGlobalRegimeTrace, FeatureMaterializationRun,
}
use defi_engine.Policy.{
  evaluate, load_global_regime_policy_config, validate_required_regimes, missing_from, lookup,
  evaluate_snapshot, decide, trace_row, select_condition_run, decide_run, load_snapshot, add_trace,
}
use defi_engine.Risk.{
  evaluate_policy_trace, check_trade, evaluate_global_regime, judge, select_policy_trace,
  load_feature_run, int_value, FreshnessAuthorization, parse_freshness_authorization, read_lanes,
  lane, blocks, serialize_verdict, verdict_row, add_verdict, evaluate_authorized,
}
use defi_engine.Risk.Lanes.{IsExact, parse_freshness-IsExact}
use defi_engine.Risk.Decisions.{
  Clears, Carries, evaluate_policy_trace-allowed, evaluate_policy_trace-reasons, judge_answer,
}
use defi_engine.Risk.Trades.{LetThrough, check_trade-allowed}
use defi_engine.Samples.{sample_env, sample-IsCodec, sample_db, noon, receipt_json, lane_json}
use defi_engine.Tests.Runs.{the, head, traced}

abbrev sample_trace : PolicyGlobalRegimeTrace sample_env
unfolding evaluate load_global_regime_policy_config validate_required_regimes missing_from lookup
    str_eq ◌>>=◌ ◌>>◌ raise_if or_raise select_condition_run decide_run load_snapshot
    evaluate_snapshot decide trace_row add_trace best select find_first
sample_trace = the (head traced.policy_traces) refl

abbrev sample_feature_run : FeatureMaterializationRun sample_env
sample_feature_run = the (head sample_db.feature_runs) refl

evaluate_policy_trace-allowed_example :
    ((evaluate_policy_trace sample_env sample_trace (some sample_feature_run)).risk_state
      ≡ "allowed")
    ↔ Clears sample_env sample_trace (some sample_feature_run)
evaluate_policy_trace-allowed_example =
    evaluate_policy_trace-allowed sample_env sample_trace (some sample_feature_run)

evaluate_policy_trace-reasons_example :
    is_nil (evaluate_policy_trace sample_env sample_trace (some sample_feature_run)).reason_codes
    ≡ false
evaluate_policy_trace-reasons_example =
    evaluate_policy_trace-reasons sample_env sample_trace (some sample_feature_run)

judge_answer_example :
    Carries sample_env
      (evaluate_policy_trace sample_env sample_trace
        (load_feature_run sample_env traced sample_trace.source_feature_run_id))
      (judge sample_env traced noon sample_trace).0
judge_answer_example = judge_answer sample_env sample-IsCodec traced noon sample_trace

check_trade-allowed_example :
    (v : Json sample_env.Float) × (id : ℤ) × (◌≡◌ {A = Option (Json sample_env.Float)}
      (some (Json.num (pos 1)))
      (some v))
    × (int_value sample_env v ≡ some id)
    × LetThrough sample_env id noon traced
        (check_trade sample_env (some (Json.num (pos 1))) noon traced).0
        (check_trade sample_env (some (Json.num (pos 1))) noon traced).1
unfolding evaluate load_global_regime_policy_config validate_required_regimes missing_from lookup
    str_eq ◌>>=◌ ◌>>◌ raise_if or_raise select_condition_run decide_run load_snapshot
    evaluate_snapshot decide trace_row add_trace best select find_first check_trade
    evaluate_global_regime judge select_policy_trace load_feature_run evaluate_policy_trace
    parse_freshness_authorization read_lanes lane blocks get serialize_verdict verdict_row
    add_verdict evaluate_authorized
check_trade-allowed_example =
    check_trade-allowed sample_env (some (Json.num (pos 1))) noon traced refl

abbrev sample_raw : Fields sample_env.Float
sample_raw = fields (
    ("required_lanes", object (("jupiter-quotes", lane_json true) ∷ []))
    ∷ ("authorized", Json.bool true)
    ∷ [])

abbrev sample_lanes : Fields sample_env.Float
sample_lanes = fields (("jupiter-quotes", lane_json true) ∷ [])

abbrev sample_authorization : FreshnessAuthorization sample_env
sample_authorization = record {
  authorized = true;
  blocking_lanes = [];
  required_lane_states =
      (
        "jupiter-quotes",
        record {
          required_for_authorization = true;
          downstream_eligible = true;
          freshness_state = "healthy_recent";
          latest_error_summary = Json.null;
        },
      )
      ∷ [];
}

parse_freshness-IsExact_example : IsExact sample_env sample_lanes sample_authorization
unfolding parse_freshness_authorization read_lanes lane blocks get str_eq
parse_freshness-IsExact_example =
    parse_freshness-IsExact sample_env sample_feature_run (some (receipt_json true)) sample_raw
      sample_lanes sample_authorization refl refl refl refl
