-- ===== src/Pipeline/Keeps.antt =====
-- Every step keeps the provenance of the rows: policy, risk and intent.
use mathlib.Core.Path.{subst}
use defi_engine.Base.{
  ◌≡◌, refl, sym, ◌∙◌, ◌↔◌, inl, inr, String, Bool, true, false, Option, none, some, List, [], ◌∷◌,
  ◌++◌, arith,
}
use defi_engine.Base.Int.{ℤ}
use defi_engine.Base.Members.{Any, All-append_one, All-weaken, Any-append, find_first-Any, best-Any}
use defi_engine.Base.Time.{Instant}
use defi_engine.Json.{Json}
use defi_engine.Env.{Env}
use defi_engine.Settings.{Settings}
use defi_engine.Truth.{
  Database, PolicyGlobalRegimeTrace, RiskGlobalRegimeGate, ExecutionIntent, QuoteSnapshot,
  ConditionScoringRun, ConditionGlobalRegimeSnapshot,
}
use defi_engine.Truth.Returns.{owner-keeps}
use defi_engine.Policy.{
  PolicySource, evaluate, trace_row, add_trace, int_of_bool, LoadedPolicyConfig,
  EvaluatedPolicyDecision,
}
use defi_engine.Policy.Eligibility.{decide-eligible_long}
use defi_engine.Policy.Traces.{Decided, evaluate-persists}
use defi_engine.Risk.{
  evaluate_global_regime, check_trade, judge, select_policy_trace, verdict_row, add_verdict,
  evaluate_policy_trace, load_feature_run, RiskAnswer, build_ephemeral_verdict, check_id, int_value,
}
use defi_engine.Pipeline.Steps.{Capture, captured}
use defi_engine.Pipeline.Sources.{
  TraceSound, JudgedBy, VerdictSound, AllowedBy, QuotedBy, IntentSound, Provenance,
}
use defi_engine.Pipeline.Raises.{evaluate-raises}

int_of_bool_iff : (b : Bool) → (int_of_bool b ≡ 1) ↔ (b ≡ true)
int_of_bool_iff true = (λ _. refl, λ _. refl)
int_of_bool_iff false = (λ h. ground arith, λ h. cc)

module _ (E : Env) (settings : Settings E) where
  -- The trace of a decision says what the snapshot and the rule say.
  pub trace_row-TraceSound :
      (db : Database E) (now : Instant) (snapshot : ConditionGlobalRegimeSnapshot E)
      (run : ConditionScoringRun E) (loaded : LoadedPolicyConfig)
      (decision : EvaluatedPolicyDecision E)
      → Decided E loaded run snapshot decision db
      → TraceSound E (trace_row E db now snapshot run loaded decision)
  unfolding trace_row
  trace_row-TraceSound db now snapshot run loaded decision d =
      let exact = decide-eligible_long E snapshot decision.rule in
      let allow = int_of_bool_iff decision.rule.allow_new_long_hypotheses in
      (
        λ h.
            let (open_flag, long, allows) = exact.0 (sym d.decided ∙ h) in
            (open_flag, long, allow.1 allows),
        λ (open_flag, long, allows). d.decided ∙ exact.1 (open_flag, long, allow.0 allows),
      )

  add_trace-keeps :
      (db : Database E) (row : PolicyGlobalRegimeTrace E)
      → TraceSound E row
      → Provenance E settings db
      → Provenance E settings (add_trace E db row)
  unfolding add_trace
  add_trace-keeps db row sound p = record {
    traces = All-append_one (TraceSound E) db.policy_traces row p.traces sound;
    verdicts =
        All-weaken (VerdictSound E db.policy_traces) (VerdictSound E (db.policy_traces ++ row ∷ []))
          db.risk_verdicts (λ v any. Any-append (JudgedBy E v) db.policy_traces (row ∷ []) any)
          p.verdicts;
    intents = p.intents;
    fills = p.fills;
  }

  pub evaluate-keeps :
      (source : PolicySource) (condition_run_id : Option String) (now : Instant) (db : Database E)
      → Provenance E settings db
      → Provenance E settings (evaluate E source condition_run_id now db).1
  evaluate-keeps source condition_run_id now db p =
      owner-keeps (Provenance E settings) db (evaluate E source condition_run_id now db) p
        (evaluate-raises E source condition_run_id now db)
        (λ receipt db' h.
          let w = evaluate-persists E source condition_run_id now db db' receipt h in
          subst (Provenance E settings) (sym w.appends) (
            add_trace-keeps db (trace_row E db now w.snapshot w.run w.loaded w.decision)
              (trace_row-TraceSound db now w.snapshot w.run w.loaded w.decision w.decides) p))

  select-Any :
      (P : PolicyGlobalRegimeTrace E → Type 0) (db : Database E) (id? : Option ℤ)
      (trace : PolicyGlobalRegimeTrace E)
      → select_policy_trace E db id? ≡ some trace
      → P trace
      → Any P db.policy_traces
  unfolding select_policy_trace
  select-Any P db (some id) trace found holds =
      find_first-Any P _ db.policy_traces trace found holds
  select-Any P db none trace found holds = best-Any P _ db.policy_traces trace found holds

  more_verdicts :
      (i : ExecutionIntent E) (verdicts : List (RiskGlobalRegimeGate E))
      (row : RiskGlobalRegimeGate E) (quotes : List (QuoteSnapshot E))
      → IntentSound E settings verdicts quotes i
      → IntentSound E settings (verdicts ++ row ∷ []) quotes i
  more_verdicts i verdicts row quotes (inl rejected) = inl rejected
  more_verdicts i verdicts row quotes (inr (allowed, quoted)) =
      inr (Any-append (AllowedBy E i) verdicts (row ∷ []) allowed, quoted)

  more_quotes :
      (i : ExecutionIntent E) (verdicts : List (RiskGlobalRegimeGate E))
      (quotes more : List (QuoteSnapshot E))
      → IntentSound E settings verdicts quotes i
      → IntentSound E settings verdicts (quotes ++ more) i
  more_quotes i verdicts quotes more (inl rejected) = inl rejected
  more_quotes i verdicts quotes more (inr (allowed, quoted)) =
      inr (allowed, Any-append (QuotedBy E settings i) quotes more quoted)

  judge-keeps :
      (db : Database E) (id? : Option ℤ) (now : Instant) (trace : PolicyGlobalRegimeTrace E)
      → select_policy_trace E db id? ≡ some trace
      → Provenance E settings db
      → Provenance E settings (judge E db now trace).1
  unfolding judge add_verdict verdict_row
  judge-keeps db id? now trace found p =
      let row =
        verdict_row E db now trace
          (evaluate_policy_trace E trace (load_feature_run E db trace.source_feature_run_id)) in
      record {
        traces = p.traces;
        verdicts =
            All-append_one (VerdictSound E db.policy_traces) db.risk_verdicts row p.verdicts
              (select-Any (JudgedBy E row) db id? trace found (refl, refl));
        intents =
            All-weaken (IntentSound E settings db.risk_verdicts db.quotes)
              (IntentSound E settings (db.risk_verdicts ++ row ∷ []) db.quotes) db.intents
              (λ i sound. more_verdicts i db.risk_verdicts row db.quotes sound) p.intents;
        fills = p.fills;
      }

  pub evaluate_global_regime-keeps :
      (id? : Option ℤ) (now : Instant) (db : Database E)
      → Provenance E settings db
      → Provenance E settings (evaluate_global_regime E id? now db).1
  unfolding evaluate_global_regime
  evaluate_global_regime-keeps id? now db p = go (select_policy_trace E db id?) refl
    where
      go :
          (o : Option (PolicyGlobalRegimeTrace E))
          → select_policy_trace E db id? ≡ o
          → Provenance E settings
              (elim o as (λ _. RiskAnswer E × Database E) [
                | none ↦ (
                  build_ephemeral_verdict E
                      ("policy_trace_missing" ∷ [])
                      ("policy_trace_missing" ∷ [])
                      id?,
                  db,
                )
                | some trace ↦ judge E db now trace
              ]).1
      go none found = p
      go (some trace) found = judge-keeps db id? now trace found p

  check_id-keeps :
      (id? : Option ℤ) (now : Instant) (db : Database E)
      → Provenance E settings db
      → Provenance E settings (check_id E id? now db).1
  check_id-keeps none now db p = p
  check_id-keeps (some id) now db p = evaluate_global_regime-keeps (some id) now db p

  pub check_trade-keeps :
      (proposal : Option (Json E.Float)) (now : Instant) (db : Database E)
      → Provenance E settings db
      → Provenance E settings (check_trade E proposal now db).1
  unfolding check_trade
  check_trade-keeps none now db p = p
  check_trade-keeps (some Json.null) now db p = p
  check_trade-keeps (some v) now db p = check_id-keeps (int_value E v) now db p

  pub captured-keeps :
      (capture : Capture E) (db : Database E)
      → Provenance E settings db
      → Provenance E settings (captured E capture db)
  captured-keeps capture db p = record {
    traces = p.traces;
    verdicts = p.verdicts;
    intents =
        All-weaken (IntentSound E settings db.risk_verdicts db.quotes)
          (IntentSound E settings db.risk_verdicts (db.quotes ++ capture.new_quotes)) db.intents
          (λ i sound. more_quotes i db.risk_verdicts db.quotes capture.new_quotes sound) p.intents;
    fills = p.fills;
  }
