-- ===== src/Pipeline/Traced.antt =====
-- Every paper entry goes back to a ready intent, an allowed verdict and a trace that allows a long.
use defi_engine.Base.{◌≡◌, ◌∙◌, ◌⊎◌, inl, inr, none, List}
use defi_engine.Base.Members.{any_of, All, Any, All-weaken, All-Any}
use defi_engine.Env.{Env}
use defi_engine.Settings.{Settings}
use defi_engine.Truth.{
  Database, PolicyGlobalRegimeTrace, RiskGlobalRegimeGate, ExecutionIntent, PaperFill,
}
use defi_engine.Pipeline.Steps.{
  Step, captures, evaluates, judges, checks, proposes, fills, closes, Reachable, start, next,
}
use defi_engine.Pipeline.Sources.{
  AllowsLong, TraceSound, JudgedBy, VerdictSound, AllowedBy, IntentSound, SettledFrom, FillSound,
  Provenance,
}
use defi_engine.Pipeline.Keeps.{
  captured-keeps, evaluate-keeps, evaluate_global_regime-keeps, check_trade-keeps,
}
use defi_engine.Pipeline.Settling.{
  create_spot_intent-keeps, simulate_fill-keeps, simulate_close-keeps,
}

module _ (E : Env) (settings : Settings E) where
  Step-keeps :
      (db db' : Database E)
      → Step E settings db db'
      → Provenance E settings db
      → Provenance E settings db'
  Step-keeps _ _ (captures capture db) p = captured-keeps E settings capture db p
  Step-keeps _ _ (evaluates source id now db) p = evaluate-keeps E settings source id now db p
  Step-keeps _ _ (judges id now db) p = evaluate_global_regime-keeps E settings id now db p
  Step-keeps _ _ (checks proposal now db) p = check_trade-keeps E settings proposal now db p
  Step-keeps _ _ (proposes r q at now db) p = create_spot_intent-keeps E settings r q at now db p
  Step-keeps _ _ (fills i at now db) p = simulate_fill-keeps E settings i at now db p
  Step-keeps _ _ (closes request at now db) p = simulate_close-keeps E settings request at now db p

  -- Whatever the owners are called with and in whatever order, every policy trace is eligible to go
  -- long exactly when the condition, the regime and the permission that it records allow it, every
  -- verdict has its trace, every ready intent its allowing verdict and fitting quote, and every entry
  -- fill its ready intent.
  pub Reachable-Provenance : (db : Database E) → Reachable E settings db → Provenance E settings db
  Reachable-Provenance _ (start capture) = record {
    traces = tt;
    verdicts = tt;
    intents = tt;
    fills = tt;
  }
  Reachable-Provenance _ (next {db = before} {db' = after} reached step) =
      Step-keeps before after step (Reachable-Provenance before reached)

  -- The trace that an entry fill names, if it is one of an entry.
  abbrev pub LongTrace : PaperFill E → PolicyGlobalRegimeTrace E → Type 0
  LongTrace fill trace =
      (trace.id ≡ fill.policy_trace_id)
      × (trace.policy_state ≡ "eligible_long")
      × AllowsLong E trace

  abbrev pub Traced : List (PolicyGlobalRegimeTrace E) → PaperFill E → Type 0
  Traced traces fill = (fill.execution_intent_id ≡ none) ⊎ Any (LongTrace fill) traces

  verdict-traced :
      (db : Database E) (fill : PaperFill E) (intent : ExecutionIntent E)
      (verdict : RiskGlobalRegimeGate E)
      → All (TraceSound E) db.policy_traces
      → SettledFrom E fill intent
      → AllowedBy E intent verdict
      → VerdictSound E db.policy_traces verdict
      → Any (LongTrace fill) db.policy_traces
  verdict-traced db fill intent verdict sound settled allowed judged =
      All-Any (TraceSound E) (JudgedBy E verdict) (LongTrace fill) db.policy_traces
        (λ trace exact j.
          let state = j.1 ∙ allowed.0.eligible in
          let same : verdict.policy_trace_id ≡ fill.policy_trace_id = cc in
          (j.0 ∙ same, state, exact.0 state))
        sound judged

  intent-traced :
      (db : Database E) (fill : PaperFill E) (intent : ExecutionIntent E)
      → Provenance E settings db
      → SettledFrom E fill intent
      → IntentSound E settings db.risk_verdicts db.quotes intent
      → Any (LongTrace fill) db.policy_traces
  intent-traced db fill intent p settled (inl rejected) = absurd (rejected settled.1)
  intent-traced db fill intent p settled (inr (allowed, quoted)) = any_of db.risk_verdicts (
      All-Any (VerdictSound E db.policy_traces) (AllowedBy E intent)
        (λ verdict. Any (LongTrace fill) db.policy_traces) db.risk_verdicts
        (λ verdict judged allows.
          verdict-traced db fill intent verdict p.traces settled allows judged)
        p.verdicts allowed)

  fill-Traced :
      (db : Database E) (fill : PaperFill E)
      → Provenance E settings db
      → FillSound E db.intents fill
      → Traced db.policy_traces fill
  fill-Traced db fill p (inl exit) = inl exit
  fill-Traced db fill p (inr settled) = inr (
      any_of db.intents (
        All-Any (IntentSound E settings db.risk_verdicts db.quotes) (SettledFrom E fill)
          (λ intent. Any (LongTrace fill) db.policy_traces) db.intents
          (λ intent sound from. intent-traced db fill intent p from sound) p.intents settled))

  -- In every reachable database every paper fill is an exit, or the policy trace that it names was
  -- decided eligible_long: its condition was not blocked, its regime was long_friendly, and the rule
  -- of that regime allowed new long positions.
  pub fills-Traced :
      (db : Database E) → Reachable E settings db → All (Traced db.policy_traces) db.paper_fills
  fills-Traced db reached =
      let p = Reachable-Provenance db reached in
      All-weaken (FillSound E db.intents) (Traced db.policy_traces) db.paper_fills
        (λ fill sound. fill-Traced db fill p sound) p.fills
