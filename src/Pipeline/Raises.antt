-- ===== src/Pipeline/Raises.antt =====
-- An owner's call that raises leaves the database as it was.
use defi_engine.Base.{◌≡◌, ℕ, String, Option}
use defi_engine.Base.Time.{Instant, DateTime}
use defi_engine.Env.{Env}
use defi_engine.Settings.{Settings}
use defi_engine.Truth.{Database, Exception, raise}
use defi_engine.Truth.Returns.{finish-raises}
use defi_engine.Policy.{PolicySource, evaluate}
use defi_engine.Intent.{create_spot_intent}
use defi_engine.Paper.{simulate_fill, simulate_close, CloseRequest}

module _ (E : Env) where
  pub evaluate-raises :
      (source : PolicySource) (condition_run_id : Option String) (now : Instant) (db : Database E)
      (e : Exception)
      → (evaluate E source condition_run_id now db).0 ≡ raise e
      → (evaluate E source condition_run_id now db).1 ≡ db
  unfolding evaluate
  evaluate-raises source condition_run_id now db e h = finish-raises db _ e h

  pub create_spot_intent-raises :
      (settings : Settings E) (risk_verdict_id quote_snapshot_id : ℕ) (created_at : Option DateTime)
      (now : Instant) (db : Database E) (e : Exception)
      → (create_spot_intent E settings risk_verdict_id quote_snapshot_id created_at now db).0
        ≡ raise e
      → (create_spot_intent E settings risk_verdict_id quote_snapshot_id created_at now db).1 ≡ db
  unfolding create_spot_intent
  create_spot_intent-raises settings risk_verdict_id quote_snapshot_id created_at now db e h =
      finish-raises db _ e h

  pub simulate_fill-raises :
      (execution_intent_id : ℕ) (attempted_at : Option DateTime) (now : Instant) (db : Database E)
      (e : Exception)
      → (simulate_fill E execution_intent_id attempted_at now db).0 ≡ raise e
      → (simulate_fill E execution_intent_id attempted_at now db).1 ≡ db
  unfolding simulate_fill
  simulate_fill-raises execution_intent_id attempted_at now db e h = finish-raises db _ e h

  pub simulate_close-raises :
      (request : CloseRequest) (attempted_at : Option DateTime) (now : Instant) (db : Database E)
      (e : Exception)
      → (simulate_close E request attempted_at now db).0 ≡ raise e
      → (simulate_close E request attempted_at now db).1 ≡ db
  unfolding simulate_close
  simulate_close-raises request attempted_at now db e h = finish-raises db _ e h
