-- ===== src/Pipeline/Steps.antt =====
-- The operations of the owners of the paper path as a step relation on the database. Every owner opens its own session
-- on the truth store, so the calls interleave in any order and with any arguments.
use defi_engine.Base.{ℕ, String, Option, List, [], ◌++◌}
use defi_engine.Base.Int.{ℤ}
use defi_engine.Base.Time.{Instant, DateTime}
use defi_engine.Json.{Json}
use defi_engine.Env.{Env}
use defi_engine.Settings.{Settings}
use defi_engine.Truth.{
  Database, TokenRegistry, TokenMetadataSnapshot, QuoteSnapshot, FeatureMaterializationRun,
  ConditionScoringRun, ConditionGlobalRegimeSnapshot,
}
use defi_engine.Policy.{PolicySource, evaluate}
use defi_engine.Risk.{evaluate_global_regime, check_trade}
use defi_engine.Intent.{create_spot_intent}
use defi_engine.Paper.{simulate_fill, simulate_close, CloseRequest}

module _ (E : Env) where
  -- What the owners upstream write: anything, but a quote that was captured stays.
  pub record Capture : Type 0 where
    pub tokens : List TokenRegistry
    pub token_metadata : List TokenMetadataSnapshot
    pub new_quotes : List (QuoteSnapshot E)
    pub feature_runs : List (FeatureMaterializationRun E)
    pub condition_runs : List (ConditionScoringRun E)
    pub condition_snapshots : List (ConditionGlobalRegimeSnapshot E)

  abbrev pub captured : Capture → Database E → Database E
  captured capture db = record db {
    tokens = capture.tokens;
    token_metadata = capture.token_metadata;
    quotes = db.quotes ++ capture.new_quotes;
    feature_runs = capture.feature_runs;
    condition_runs = capture.condition_runs;
    condition_snapshots = capture.condition_snapshots;
  }

  -- One call of an owner, at a time `now` of the clock.
  pub data Step (settings : Settings E) : Database E → Database E → Type 0 where
    captures : (capture : Capture) (db : Database E) → Step settings db (captured capture db)
    evaluates :
        (source : PolicySource) (condition_run_id : Option String) (now : Instant) (db : Database E)
        → Step settings db (evaluate E source condition_run_id now db).1
    judges :
        (policy_trace_id : Option ℤ) (now : Instant) (db : Database E)
        → Step settings db (evaluate_global_regime E policy_trace_id now db).1
    checks :
        (proposal : Option (Json E.Float)) (now : Instant) (db : Database E)
        → Step settings db (check_trade E proposal now db).1
    proposes :
        (risk_verdict_id quote_snapshot_id : ℕ) (created_at : Option DateTime) (now : Instant)
        (db : Database E)
        → Step settings db
            (create_spot_intent E settings risk_verdict_id quote_snapshot_id created_at now db).1
    fills :
        (execution_intent_id : ℕ) (attempted_at : Option DateTime) (now : Instant) (db : Database E)
        → Step settings db (simulate_fill E execution_intent_id attempted_at now db).1
    closes :
        (request : CloseRequest) (attempted_at : Option DateTime) (now : Instant) (db : Database E)
        → Step settings db (simulate_close E request attempted_at now db).1

  -- A database in which none of the modelled owners has written yet.
  abbrev pub initial : Capture → Database E
  initial capture = record {
    tokens = capture.tokens;
    token_metadata = capture.token_metadata;
    quotes = capture.new_quotes;
    feature_runs = capture.feature_runs;
    condition_runs = capture.condition_runs;
    condition_snapshots = capture.condition_snapshots;
    policy_traces = [];
    risk_verdicts = [];
    intents = [];
    paper_sessions = [];
    paper_fills = [];
    paper_positions = [];
    paper_reports = [];
    backtest_sessions = [];
    backtest_fills = [];
    backtest_positions = [];
    backtest_reports = [];
  }

  -- The databases that the owners can bring about.
  pub data Reachable (settings : Settings E) : Database E → Type 0 where
    start : (capture : Capture) → Reachable settings (initial capture)
    next :
        {db db' : Database E}
        → Reachable settings db
        → Step settings db db'
        → Reachable settings db'
