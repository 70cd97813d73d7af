-- ===== src/Tests/Policy.antt =====
-- The witnesses of the policy owner's properties.
use defi_engine.Base.{
  ◌≡◌, refl, ◌↔◌, inl, true, false, none, some, find_first, best, select, str_eq,
}
use defi_engine.Truth.{
  return, ◌>>=◌, ◌>>◌, raise_if, or_raise, ConditionScoringRun, ConditionGlobalRegimeSnapshot,
}
use defi_engine.Policy.{
  GlobalRegimePolicyRule, LoadedPolicyConfig, load_global_regime_policy_config,
  validate_required_regimes, missing_from, lookup, evaluate, evaluate_snapshot, decide, flag,
  EvaluatedPolicyDecision, trace_row, PolicyReceipt, select_condition_run, decide_run,
  load_snapshot, add_trace,
}
use defi_engine.Policy.Eligibility.{decide-eligible_long, decide-eligible_short}
use defi_engine.Policy.Traces.{Persisted, evaluate-persists}
use defi_engine.Policy.Required.{evaluate_snapshot-decides}
use defi_engine.Samples.{sample_env, sample_source, sample_db, noon, bias_map, rule}
use defi_engine.Tests.Runs.{the, head, answered, traced}

abbrev sample_snapshot : ConditionGlobalRegimeSnapshot sample_env
sample_snapshot = the (head sample_db.condition_snapshots) refl

abbrev sample_run : ConditionScoringRun sample_env
sample_run = the (head sample_db.condition_runs) refl

abbrev long_rule : GlobalRegimePolicyRule
long_rule = rule "long_friendly" true false

abbrev loaded : LoadedPolicyConfig
loaded = record { config = bias_map; config_hash = "hash" }

loads : load_global_regime_policy_config sample_source ≡ return loaded
unfolding load_global_regime_policy_config validate_required_regimes missing_from lookup str_eq
    ◌>>=◌ or_raise
loads = refl

decide-eligible_long_example :
    ((decide sample_env sample_snapshot long_rule).0 ≡ "eligible_long") ↔ (
      (flag sample_snapshot.blocked_flag ≡ false)
      × (sample_snapshot.semantic_regime ≡ "long_friendly")
      × (long_rule.allow_new_long_hypotheses ≡ true))
decide-eligible_long_example = decide-eligible_long sample_env sample_snapshot long_rule

abbrev short_snapshot : ConditionGlobalRegimeSnapshot sample_env
short_snapshot = record sample_snapshot { semantic_regime = "short_friendly" }

abbrev short_rule : GlobalRegimePolicyRule
short_rule = rule "short_friendly" false true

decide-eligible_short_example :
    ((decide sample_env short_snapshot short_rule).0 ≡ "eligible_short") ↔ (
      (flag short_snapshot.blocked_flag ≡ false)
      × (short_snapshot.semantic_regime ≡ "short_friendly")
      × (short_rule.allow_new_short_hypotheses ≡ true))
decide-eligible_short_example = decide-eligible_short sample_env short_snapshot short_rule

evaluate_snapshot-decides_example :
    (decision : EvaluatedPolicyDecision sample_env) × (evaluate_snapshot sample_env sample_snapshot
        sample_run loaded
      ≡ return decision)
    × (lookup sample_snapshot.semantic_regime loaded.config.regimes ≡ some decision.rule)
evaluate_snapshot-decides_example =
    evaluate_snapshot-decides sample_env sample_source loaded sample_snapshot sample_run loads
      (inl refl)

abbrev receipt : PolicyReceipt sample_env
unfolding evaluate load_global_regime_policy_config validate_required_regimes missing_from lookup
    str_eq ◌>>=◌ ◌>>◌ raise_if or_raise select_condition_run decide_run load_snapshot
    evaluate_snapshot decide trace_row add_trace best select find_first
receipt = the (answered (evaluate sample_env sample_source none noon sample_db).0) refl

evaluate-persists_example : Persisted sample_env sample_source none noon sample_db receipt traced
unfolding evaluate load_global_regime_policy_config validate_required_regimes missing_from lookup
    str_eq ◌>>=◌ ◌>>◌ raise_if or_raise select_condition_run decide_run load_snapshot
    evaluate_snapshot decide trace_row add_trace best select find_first
evaluate-persists_example =
    evaluate-persists sample_env sample_source none noon sample_db traced receipt refl
