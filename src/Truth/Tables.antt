-- ===== src/Truth/Tables.antt =====
-- The tables together. A session works on a copy of the database that `commit` puts in its place;
-- a session that is closed without a commit leaves the database as it was.
use defi_engine.Base.{List}
use defi_engine.Env.{Env}
use defi_engine.Truth.Upstream.{
  TokenRegistry, TokenMetadataSnapshot, QuoteSnapshot, FeatureMaterializationRun,
  ConditionScoringRun, ConditionGlobalRegimeSnapshot,
}
use defi_engine.Truth.Decisions.{PolicyGlobalRegimeTrace, RiskGlobalRegimeGate, ExecutionIntent}
use defi_engine.Truth.PaperRows.{PaperSession, PaperFill, PaperPosition, PaperSessionReport}
use defi_engine.Truth.BacktestRows.{
  BacktestSession, BacktestFill, BacktestPosition, BacktestSessionReport,
}
use defi_engine.Truth.Outcome.{Result, return, raise}

pub record Database (E : Env) : Type 0 where
  pub tokens : List TokenRegistry
  pub token_metadata : List TokenMetadataSnapshot
  pub quotes : List (QuoteSnapshot E)
  pub feature_runs : List (FeatureMaterializationRun E)
  pub condition_runs : List (ConditionScoringRun E)
  pub condition_snapshots : List (ConditionGlobalRegimeSnapshot E)
  pub policy_traces : List (PolicyGlobalRegimeTrace E)
  pub risk_verdicts : List (RiskGlobalRegimeGate E)
  pub intents : List (ExecutionIntent E)
  pub paper_sessions : List (PaperSession E)
  pub paper_fills : List (PaperFill E)
  pub paper_positions : List (PaperPosition E)
  pub paper_reports : List (PaperSessionReport E)
  pub backtest_sessions : List (BacktestSession E)
  pub backtest_fills : List (BacktestFill E)
  pub backtest_positions : List (BacktestPosition E)
  pub backtest_reports : List (BacktestSessionReport E)

-- What a session leaves: its result, and the database after its commit or, on a raise, before it.
abbrev pub finish {ℓ} :
    {E : Env} {A : Type ℓ} → Database E → Result (A × Database E) → Result A × Database E
finish db (return (a, db')) = (return a, db')
finish db (raise e) = (raise e, db)
