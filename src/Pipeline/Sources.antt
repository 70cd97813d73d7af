-- ===== src/Pipeline/Sources.antt =====
-- What every row of the decision tables has behind it.
use defi_engine.Base.{◌≡◌, ◌≢◌, ◌↔◌, ◌⊎◌, false, none, some, List}
use defi_engine.Base.Members.{All, Any}
use defi_engine.Env.{Env}
use defi_engine.Settings.{Settings}
use defi_engine.Truth.{
  Database, PolicyGlobalRegimeTrace, RiskGlobalRegimeGate, ExecutionIntent, QuoteSnapshot,
  PaperFill,
}
use defi_engine.Policy.{flag}
use defi_engine.Intent.Ready.{RiskAllows, QuoteFits}

module _ (E : Env) where
  -- What an eligible_long trace says of its snapshot and its rule.
  abbrev pub AllowsLong : PolicyGlobalRegimeTrace E → Type 0
  AllowsLong trace =
      (flag trace.condition_blocked_flag ≡ false)
      × (trace.semantic_regime ≡ "long_friendly")
      × (trace.allow_new_long_hypotheses ≡ 1)

  abbrev pub TraceSound : PolicyGlobalRegimeTrace E → Type 0
  TraceSound trace = (trace.policy_state ≡ "eligible_long") ↔ AllowsLong trace

  -- The trace that a verdict judged.
  abbrev pub JudgedBy : RiskGlobalRegimeGate E → PolicyGlobalRegimeTrace E → Type 0
  JudgedBy verdict trace =
      (trace.id ≡ verdict.policy_trace_id) × (trace.policy_state ≡ verdict.policy_state)

  abbrev pub VerdictSound : List (PolicyGlobalRegimeTrace E) → RiskGlobalRegimeGate E → Type 0
  VerdictSound traces verdict = Any (JudgedBy verdict) traces

  -- The verdict and the quote that a ready intent was created from.
  abbrev pub AllowedBy : ExecutionIntent E → RiskGlobalRegimeGate E → Type 0
  AllowedBy intent verdict =
      RiskAllows E verdict
      × (intent.risk_verdict_id ≡ some verdict.id)
      × (intent.policy_trace_id ≡ some verdict.policy_trace_id)

  abbrev pub QuotedBy : Settings E → ExecutionIntent E → QuoteSnapshot E → Type 0
  QuotedBy settings intent quote =
      QuoteFits E settings quote intent.created_at × (intent.quote_snapshot_id ≡ some quote.id)

  abbrev pub IntentSound :
      Settings E
      → List (RiskGlobalRegimeGate E)
      → List (QuoteSnapshot E)
      → ExecutionIntent E
      → Type 0
  IntentSound settings verdicts quotes intent =
      (intent.intent_state ≢ "ready")
      ⊎ (Any (AllowedBy intent) verdicts × Any (QuotedBy settings intent) quotes)

  -- The intent that an entry fill settled.
  abbrev pub SettledFrom : PaperFill E → ExecutionIntent E → Type 0
  SettledFrom fill intent =
      (fill.execution_intent_id ≡ some intent.id)
      × (intent.intent_state ≡ "ready")
      × (intent.policy_trace_id ≡ some fill.policy_trace_id)

  abbrev pub FillSound : List (ExecutionIntent E) → PaperFill E → Type 0
  FillSound intents fill = (fill.execution_intent_id ≡ none) ⊎ Any (SettledFrom fill) intents

  pub record Provenance (settings : Settings E) (db : Database E) : Type 0 where
    pub traces : All TraceSound db.policy_traces
    pub verdicts : All (VerdictSound db.policy_traces) db.risk_verdicts
    pub intents : All (IntentSound settings db.risk_verdicts db.quotes) db.intents
    pub fills : All (FillSound db.intents) db.paper_fills
