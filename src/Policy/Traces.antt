-- ===== src/Policy/Traces.antt =====
-- policy/global_regime_v1.py: what a completed evaluation has persisted.
use mathlib.Core.Path.{subst}
use defi_engine.Base.{
  ◌≡◌, refl, sym, ap, ◌∙◌, String, Bool, true, false, not, Option, some, str_eq→eq,
}
use defi_engine.Base.Time.{Instant}
use defi_engine.Env.{Env}
use defi_engine.Truth.{Database, Result, return, ConditionScoringRun, ConditionGlobalRegimeSnapshot}
use defi_engine.Truth.Returns.{
  bind-returns, then-returns, raise_if-returns, or_raise-returns, finish-returns, return-pair,
}
use defi_engine.Policy.Config.{
  LoadedPolicyConfig, PolicySource, lookup, load_global_regime_policy_config,
}
use defi_engine.Policy.Evaluator.{
  EvaluatedPolicyDecision, decide, evaluate_snapshot, decide_run, load_snapshot,
  select_condition_run, trace_row, add_trace, evaluate, PolicyReceipt, receipt_of,
}

not-false : (b : Bool) → not b ≡ false → b ≡ true
not-false true h = refl
not-false false h = cc

module _ (E : Env) where
  -- A decision on a snapshot, by a rule of the configuration.
  pub record Decided (loaded : LoadedPolicyConfig) (run : ConditionScoringRun E)
      (snapshot : ConditionGlobalRegimeSnapshot E) (decision : EvaluatedPolicyDecision E)
      (db : Database E) : Type 0 where
    pub matches : run.condition_set ≡ loaded.config.condition_set
    pub succeeded : run.status ≡ "success"
    pub found : load_snapshot E db run.run_id ≡ some snapshot
    pub ruled : lookup snapshot.semantic_regime loaded.config.regimes ≡ some decision.rule
    pub decided : decision.policy_state ≡ (decide E snapshot decision.rule).0

  pub evaluate_snapshot-returns :
      (snapshot : ConditionGlobalRegimeSnapshot E) (run : ConditionScoringRun E)
      (loaded : LoadedPolicyConfig) (decision : EvaluatedPolicyDecision E)
      → evaluate_snapshot E snapshot run loaded ≡ return decision
      → (lookup snapshot.semantic_regime loaded.config.regimes ≡ some decision.rule)
        × (decision.policy_state ≡ (decide E snapshot decision.rule).0)
  unfolding evaluate_snapshot
  evaluate_snapshot-returns snapshot run loaded decision h =
      let (rule, found, rest) = bind-returns _ _ _ h in
      let looked = or_raise-returns _ _ _ found in
      let same : decision.rule ≡ rule = cc in
      let state : decision.policy_state ≡ (decide E snapshot rule).0 = cc in
      (
        looked ∙ ap some (sym same),
        subst (λ r. decision.policy_state ≡ (decide E snapshot r).0) (sym same) state,
      )

  decide_run-returns :
      (db : Database E) (loaded : LoadedPolicyConfig) (run : ConditionScoringRun E)
      (snapshot : ConditionGlobalRegimeSnapshot E) (decision : EvaluatedPolicyDecision E)
      → decide_run E db loaded run ≡ return (snapshot, decision)
      → Decided loaded run snapshot decision db
  unfolding decide_run
  decide_run-returns db loaded run snapshot decision h =
      let (same_set, h₁) = then-returns _ _ _ h in
      let (status, h₂) = then-returns _ _ _ h₁ in
      let (snapshot', loads, h₃) = bind-returns _ _ _ h₂ in
      let (decision', evaluates, h₄) = bind-returns _ _ _ h₃ in
      let found = or_raise-returns _ _ _ loads in
      let (ruled, decided) = evaluate_snapshot-returns snapshot' run loaded decision' evaluates in
      let same_snapshot : snapshot ≡ snapshot' = cc in
      let same_decision : decision ≡ decision' = cc in
      let holds : Decided loaded run snapshot' decision' db = record {
        matches = str_eq→eq _ _ (not-false _ (raise_if-returns _ _ same_set));
        succeeded = str_eq→eq _ _ (not-false _ (raise_if-returns _ _ status));
        found = found;
        ruled = ruled;
        decided = decided;
      } in
      subst (λ d. Decided loaded run snapshot d db) (sym same_decision)
        (subst (λ x. Decided loaded run x decision' db) (sym same_snapshot) holds)

  -- What a completed evaluation leaves: the row appended to the traces, and what it rests on.
  pub record Persisted (source : PolicySource) (condition_run_id : Option String) (now : Instant)
      (db : Database E) (receipt : PolicyReceipt E) (db' : Database E) : Type 0 where
    pub loaded : LoadedPolicyConfig
    pub run : ConditionScoringRun E
    pub snapshot : ConditionGlobalRegimeSnapshot E
    pub decision : EvaluatedPolicyDecision E
    pub loads : load_global_regime_policy_config source ≡ return loaded
    pub selects : select_condition_run E db condition_run_id ≡ return run
    pub decides : Decided loaded run snapshot decision db
    pub appends : db' ≡ add_trace E db (trace_row E db now snapshot run loaded decision)
    pub answers :
        (receipt.trace_id ≡ (trace_row E db now snapshot run loaded decision).id)
        × (receipt.policy_state ≡ decision.policy_state)
        × (receipt.reason_codes ≡ decision.reason_codes)

  persisted :
      (source : PolicySource) (condition_run_id : Option String) (now : Instant)
      (db db' : Database E) (receipt : PolicyReceipt E) (loaded : LoadedPolicyConfig)
      (run : ConditionScoringRun E) (snapshot : ConditionGlobalRegimeSnapshot E)
      (decision : EvaluatedPolicyDecision E)
      → load_global_regime_policy_config source ≡ return loaded
      → select_condition_run E db condition_run_id ≡ return run
      → Decided loaded run snapshot decision db
      → receipt ≡ receipt_of E (trace_row E db now snapshot run loaded decision) decision
      → db' ≡ add_trace E db (trace_row E db now snapshot run loaded decision)
      → Persisted source condition_run_id now db receipt db'
  unfolding trace_row
  persisted source condition_run_id now db db' receipt loaded run snapshot decision loads selects
        decides answered appended =
      record {
        loaded = loaded;
        run = run;
        snapshot = snapshot;
        decision = decision;
        loads = loads;
        selects = selects;
        decides = decides;
        appends = appended;
        answers = (
          ap (λ (r : PolicyReceipt E). r.trace_id) answered,
          ap (λ (r : PolicyReceipt E). r.policy_state) answered,
          ap (λ (r : PolicyReceipt E). r.reason_codes) answered,
        );
      }

  -- A completed evaluation loaded a valid policy, selected a successful condition run of the policy's
  -- condition set and that run's snapshot, decided by the policy's rule of the snapshot's regime, and
  -- appended exactly the trace of that decision to the database; the receipt names the trace.
  pub evaluate-persists :
      (source : PolicySource) (condition_run_id : Option String) (now : Instant)
      (db db' : Database E) (receipt : PolicyReceipt E)
      → ◌≡◌ {A = Result (PolicyReceipt E) × Database E}
          (evaluate E source condition_run_id now db)
          (return receipt, db')
      → Persisted source condition_run_id now db receipt db'
  unfolding evaluate
  evaluate-persists source condition_run_id now db db' receipt h =
      let h₀ = finish-returns db _ receipt db' h in
      let (loaded, loads, h₁) = bind-returns _ _ _ h₀ in
      let (run, selects, h₂) = bind-returns _ _ _ h₁ in
      let ((snapshot, decision), decides, h₃) = bind-returns _ _ _ h₂ in
      let (answered, appended) = return-pair _ _ _ _ h₃ in
      persisted source condition_run_id now db db' receipt loaded run snapshot decision loads
        selects (decide_run-returns db loaded run snapshot decision decides) (sym answered)
        (sym appended)
