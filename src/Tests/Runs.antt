-- ===== src/Tests/Runs.antt =====
-- A run of the whole paper pipeline on the sample database, step by step.
use defi_engine.Base.{◌≡◌, ◌+◌, true, Option, is_none, false, some, none, List, [], ◌∷◌}
use defi_engine.Base.Time.{naive}
use defi_engine.Truth.{Database, return, Result, raise}
use defi_engine.Policy.{evaluate}
use defi_engine.Risk.{evaluate_global_regime}
use defi_engine.Intent.{create_spot_intent}
use defi_engine.Paper.{simulate_fill, simulate_close, CloseRequest}
use defi_engine.Samples.{sample_env, sample_source, sample_settings, sample_db, noon}

abbrev pub traced : Database sample_env
traced = (evaluate sample_env sample_source none noon sample_db).1

abbrev pub judged : Database sample_env
judged = (evaluate_global_regime sample_env none noon traced).1

abbrev pub intended : Database sample_env
intended =
    (create_spot_intent sample_env sample_settings 1 1 (some (naive (noon + 60_000_000))) noon
      judged).1

abbrev pub filled : Database sample_env
filled = (simulate_fill sample_env 1 (some (naive (noon + 90_000_000))) noon intended).1

abbrev pub request : CloseRequest
request = record {
  session_key = "paper_20240229T123626000000Z_intent1";
  quote_snapshot_id = 2;
  policy_trace_id = 1;
  risk_verdict_id = 1;
  condition_snapshot_id = 7;
  source_feature_run_id = "feat";
  policy_state = "eligible_long";
  risk_state = "allowed";
  close_reason = "take_profit";
}

abbrev pub closed : Database sample_env
closed = (simulate_close sample_env request (some (naive (noon + 180_000_000))) noon filled).1

pub impossible : true ≡ false → ⊥
impossible h = cc

-- The value of an option that has one.
abbrev pub the {ℓ} : {A : Type ℓ} (o : Option A) → is_none o ≡ false → A
the none h = absurd (impossible h)
the (some a) h = a

abbrev pub head {ℓ} : {A : Type ℓ} → List A → Option A
head [] = none
head (x ∷ xs) = some x

abbrev pub answered {ℓ} : {A : Type ℓ} → Result A → Option A
answered (return a) = some a
answered (raise e) = none
