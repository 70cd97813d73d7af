-- ===== src/Policy/Evaluator.antt =====
-- policy/global_regime_v1.py: GlobalRegimePolicyEvaluator. One evaluation selects a condition run,
-- loads its snapshot, decides the policy state and persists the trace.
use Prim.Native.String.{◌++◌ as text_append}
use defi_engine.Base.{
  ℕ, String, Bool, true, false, not, ◌&&◌, ◌||◌, Option, none, some, List, [], ◌∷◌, ◌++◌, map, ltb,
  ◌==◌, if◌then◌else◌, str_eq, truthy?, contains, select, best, find_first,
}
use defi_engine.Base.Int.{ℤ, pos}
use defi_engine.Base.Time.{Instant, isoformat}
use defi_engine.Json.{Json, object, texts, text?}
use defi_engine.Env.{Env}
use defi_engine.Truth.{
  Database, finish, Result, return, runtime_error, ◌>>=◌, ◌>>◌, raise_if, or_raise,
  ConditionScoringRun, ConditionGlobalRegimeSnapshot, PolicyGlobalRegimeTrace,
}
use defi_engine.Policy.Config.{
  GlobalRegimePolicyRule, LoadedPolicyConfig, PolicySource, lookup, no_trade_regimes,
  load_global_regime_policy_config,
}

-- `bool(flag)` and `int(flag)`
abbrev pub flag : ℕ → Bool
flag n = not (n == 0)

abbrev pub int_of_bool : Bool → ℕ
int_of_bool true = 1
int_of_bool false = 0

abbrev pub reason : String → String → String
reason prefix detail = text_append prefix detail

-- `key.desc()` on an optional and on a plain time: `true` if the second row comes first.
abbrev pub later? : Option Instant → Option Instant → Bool
later? none none = false
later? none (some t) = true
later? (some s) none = false
later? (some s) (some t) = ltb s t

abbrev pub same_time? : Option Instant → Option Instant → Bool
same_time? none none = true
same_time? (some s) (some t) = s == t
same_time? _ _ = false

module _ (E : Env) where
  open E use {Float, Encoded, dumps, new_id}

  pub record EvaluatedPolicyDecision : Type 0 where
    pub policy_state : String
    pub reason_codes : List String
    pub rule : GlobalRegimePolicyRule
    pub trace_payload : Json Float

  -- The `if`/`elif` chain of `_evaluate_snapshot`: the policy state, and the codes that follow the
  -- first one.
  unfoldable pub decide :
      ConditionGlobalRegimeSnapshot E → GlobalRegimePolicyRule → String × List String
  decide snapshot rule =
      if flag snapshot.blocked_flag
      then (
        "no_trade",
        "condition_blocked" ∷ elim snapshot.blocking_reason [
          | none ↦ []
          | some r ↦
              if truthy? snapshot.blocking_reason
              then reason "condition_blocking_reason:" r ∷ []
              else []
        ],
      )
      else if contains snapshot.semantic_regime no_trade_regimes
      then ("no_trade", "semantic_regime_forces_no_trade" ∷ [])
      else if str_eq snapshot.semantic_regime "long_friendly"
      then (if rule.allow_new_long_hypotheses
          then ("eligible_long", "yaml_allows_new_long_hypotheses" ∷ [])
          else ("no_trade", "yaml_disallows_new_long_hypotheses" ∷ []))
      else if str_eq snapshot.semantic_regime "short_friendly"
      then (if rule.allow_new_short_hypotheses
          then ("eligible_short", "yaml_allows_new_short_hypotheses" ∷ [])
          else ("no_trade", "yaml_disallows_new_short_hypotheses" ∷ []))
      else ("no_trade", "semantic_regime_unmapped" ∷ [])

  unfoldable pub trace_payload_of :
      ConditionGlobalRegimeSnapshot E
      → ConditionScoringRun E
      → LoadedPolicyConfig
      → GlobalRegimePolicyRule
      → String
      → List String
      → Json Float
  trace_payload_of snapshot run loaded rule policy_state reason_codes = object (
      (
        "policy_input",
        object (
            ("condition_set", Json.text loaded.config.condition_set)
            ∷ ("version", Json.num loaded.config.version)
            ∷ ("status", Json.text loaded.config.status)
            ∷ ("config_hash", Json.text loaded.config_hash)
            ∷ []),
      )
      ∷ (
        "condition_input",
        object (
            ("condition_run_id", Json.text run.run_id)
            ∷ ("condition_snapshot_id", Json.num (pos snapshot.id))
            ∷ ("source_feature_run_id", Json.text snapshot.source_feature_run_id)
            ∷ ("bucket_start_utc", Json.text (isoformat snapshot.bucket_start_utc))
            ∷ ("semantic_regime", Json.text snapshot.semantic_regime)
            ∷ ("confidence", Json.float snapshot.confidence)
            ∷ ("blocked_flag", Json.bool (flag snapshot.blocked_flag))
            ∷ ("blocking_reason", text? snapshot.blocking_reason)
            ∷ ("macro_context_state", text? snapshot.macro_context_state)
            ∷ ("model_family", Json.text run.model_family)
            ∷ []),
      )
      ∷ (
        "selected_rule",
        object (
            ("advisory_bias", Json.text rule.advisory_bias)
            ∷ ("allow_new_long_hypotheses", Json.bool rule.allow_new_long_hypotheses)
            ∷ ("allow_new_short_hypotheses", Json.bool rule.allow_new_short_hypotheses)
            ∷ ("notes", Json.text rule.notes)
            ∷ []),
      )
      ∷ ("policy_state", Json.text policy_state)
      ∷ ("reason_codes", texts reason_codes)
      ∷ [])

  -- `_evaluate_snapshot`
  unfoldable pub evaluate_snapshot :
      ConditionGlobalRegimeSnapshot E
      → ConditionScoringRun E
      → LoadedPolicyConfig
      → Result EvaluatedPolicyDecision
  unfolding decide lookup
  evaluate_snapshot snapshot run loaded = do
    rule ← or_raise (lookup snapshot.semantic_regime loaded.config.regimes) (
        runtime_error
          (reason "Policy config has no rule for semantic_regime=" snapshot.semantic_regime))
    let decided = decide snapshot rule
    let reason_codes = reason "semantic_regime:" snapshot.semantic_regime ∷ decided.1
    return (record {
      policy_state = decided.0;
      reason_codes = reason_codes;
      rule = rule;
      trace_payload = trace_payload_of snapshot run loaded rule decided.0 reason_codes;
    })

  -- `_select_condition_run`
  unfoldable pub select_condition_run : Database E → Option String → Result (ConditionScoringRun E)
  unfolding find_first best
  select_condition_run db (some run_id) =
      or_raise (find_first (λ run. str_eq run.run_id run_id) db.condition_runs)
        (runtime_error "No condition runs exist for policy evaluation.")
  select_condition_run db none =
      or_raise
        (best
          (λ a b.
            later? a.finished_at b.finished_at
            || (same_time? a.finished_at b.finished_at && ltb a.started_at b.started_at))
          db.condition_runs)
        (runtime_error "No condition runs exist for policy evaluation.")

  -- `_load_snapshot`
  unfoldable pub load_snapshot : Database E → String → Option (ConditionGlobalRegimeSnapshot E)
  unfolding best select
  load_snapshot db run_id =
      best (λ a b. ltb a.created_at b.created_at)
        (select (λ row. str_eq row.condition_run_id run_id) db.condition_snapshots)

  -- The row of `_persist_trace`, with the key that the database gives it.
  unfoldable pub trace_row :
      Database E
      → Instant
      → ConditionGlobalRegimeSnapshot E
      → ConditionScoringRun E
      → LoadedPolicyConfig
      → EvaluatedPolicyDecision
      → PolicyGlobalRegimeTrace E
  trace_row db now snapshot run loaded decision = record {
    id = new_id (map (λ row. row.id) db.policy_traces);
    condition_run_id = run.run_id;
    condition_snapshot_id = snapshot.id;
    source_feature_run_id = snapshot.source_feature_run_id;
    bucket_start_utc = snapshot.bucket_start_utc;
    semantic_regime = snapshot.semantic_regime;
    condition_confidence = snapshot.confidence;
    macro_context_state = snapshot.macro_context_state;
    condition_blocked_flag = snapshot.blocked_flag;
    condition_blocking_reason = snapshot.blocking_reason;
    policy_state = decision.policy_state;
    advisory_bias = decision.rule.advisory_bias;
    allow_new_long_hypotheses = int_of_bool decision.rule.allow_new_long_hypotheses;
    allow_new_short_hypotheses = int_of_bool decision.rule.allow_new_short_hypotheses;
    config_hash = loaded.config_hash;
    config_version = loaded.config.version;
    config_status = loaded.config.status;
    reason_codes_json = dumps (texts decision.reason_codes);
    trace_json = dumps decision.trace_payload;
    created_at = now;
  }

  -- `_persist_trace`
  unfoldable pub add_trace : Database E → PolicyGlobalRegimeTrace E → Database E
  add_trace db row = record db { policy_traces = db.policy_traces ++ row ∷ [] }

  pub record PolicyReceipt : Type 0 where
    pub trace_id : ℕ
    pub condition_run_id : String
    pub condition_snapshot_id : ℕ
    pub source_feature_run_id : String
    pub bucket_start_utc : String
    pub semantic_regime : String
    pub policy_state : String
    pub reason_codes : List String
    pub config_hash : String
    pub config_version : ℤ
    pub config_status : String

  abbrev pub receipt_of : PolicyGlobalRegimeTrace E → EvaluatedPolicyDecision → PolicyReceipt
  receipt_of row decision = record {
    trace_id = row.id;
    condition_run_id = row.condition_run_id;
    condition_snapshot_id = row.condition_snapshot_id;
    source_feature_run_id = row.source_feature_run_id;
    bucket_start_utc = isoformat row.bucket_start_utc;
    semantic_regime = row.semantic_regime;
    policy_state = row.policy_state;
    reason_codes = decision.reason_codes;
    config_hash = row.config_hash;
    config_version = row.config_version;
    config_status = row.config_status;
  }

  -- The checks of `evaluate` on what it loaded, up to the decision.
  unfoldable pub decide_run :
      Database E
      → LoadedPolicyConfig
      → ConditionScoringRun E
      → Result (ConditionGlobalRegimeSnapshot E × EvaluatedPolicyDecision)
  unfolding evaluate_snapshot load_snapshot
  decide_run db loaded run = do
    raise_if (not (str_eq run.condition_set loaded.config.condition_set))
        (runtime_error "Policy config condition_set does not match the selected condition receipt.")
    raise_if (not (str_eq run.status "success")) (
        runtime_error (
          reason "Latest condition run is not successful: "
            (text_append run.run_id (text_append " status=" run.status))))
    snapshot ←
        or_raise (load_snapshot db run.run_id)
          (runtime_error (reason "Latest successful condition run has no snapshot: " run.run_id))
    decision ← evaluate_snapshot snapshot run loaded
    return (snapshot, decision)

  -- `evaluate`, at the time `now` of `_persist_trace`.
  unfoldable pub evaluate :
      PolicySource → Option String → Instant → Database E → Result PolicyReceipt × Database E
  unfolding load_global_regime_policy_config select_condition_run decide_run trace_row add_trace
  evaluate source condition_run_id now db = finish db (do
    loaded ← load_global_regime_policy_config source
    run ← select_condition_run db condition_run_id
    (snapshot, decision) ← decide_run db loaded run
    let row = trace_row db now snapshot run loaded decision
    return (receipt_of row decision, add_trace db row))
