-- ===== src/Risk/Trades.antt =====
-- risk/gate.py: a trade is let through only on a persisted verdict.
use defi_engine.Base.{◌≡◌, refl, true, Option, none, some, str_eq→eq, [], ◌∷◌}
use defi_engine.Base.Int.{ℤ}
use defi_engine.Base.Time.{Instant}
use defi_engine.Json.{Json}
use defi_engine.Env.{Env}
use defi_engine.Truth.{Database, PolicyGlobalRegimeTrace}
use defi_engine.Risk.Verdict.{evaluate_policy_trace}
use defi_engine.Risk.Gate.{
  RiskAnswer, verdict_row, add_verdict, serialize_verdict, build_ephemeral_verdict,
  select_policy_trace, load_feature_run, judge, evaluate_global_regime, int_value, check_id,
  check_trade,
}
use defi_engine.Risk.Decisions.{Clears, evaluate_policy_trace-allowed}

module _ (E : Env) where
  -- The proposal names a trace that clears, and its verdict is appended and answered.
  pub record LetThrough (id : ℤ) (now : Instant) (db : Database E) (answer : RiskAnswer E)
      (db' : Database E) : Type 0 where
    pub trace : PolicyGlobalRegimeTrace E
    pub found : select_policy_trace E db (some id) ≡ some trace
    pub clears : Clears E trace (load_feature_run E db trace.source_feature_run_id)
    pub persists :
        let evaluated =
          evaluate_policy_trace E trace (load_feature_run E db trace.source_feature_run_id) in
        db' ≡ add_verdict E db (verdict_row E db now trace evaluated)

  judge-allowed :
      (id : ℤ) (now : Instant) (db : Database E) (trace : PolicyGlobalRegimeTrace E)
      → select_policy_trace E db (some id) ≡ some trace
      → (judge E db now trace).0.allowed ≡ true
      → LetThrough id now db (judge E db now trace).0 (judge E db now trace).1
  unfolding judge serialize_verdict verdict_row
  judge-allowed id now db trace found h =
      let run? = load_feature_run E db trace.source_feature_run_id in
      record {
        trace = trace;
        found = found;
        clears =
            (evaluate_policy_trace-allowed E trace run?).0
              (str_eq→eq (evaluate_policy_trace E trace run?).risk_state "allowed" h);
        persists = refl;
      }

  evaluate_global_regime-allowed :
      (id : ℤ) (now : Instant) (db : Database E)
      → (evaluate_global_regime E (some id) now db).0.allowed ≡ true
      → LetThrough id now db
          (evaluate_global_regime E (some id) now db).0
          (evaluate_global_regime E (some id) now db).1
  unfolding evaluate_global_regime build_ephemeral_verdict
  evaluate_global_regime-allowed id now db h = go (select_policy_trace E db (some id)) refl h
    where
      answers : Option (PolicyGlobalRegimeTrace E) → RiskAnswer E × Database E
      answers o = elim o as (λ _. RiskAnswer E × Database E) [
        | none ↦ (
          build_ephemeral_verdict E ("policy_trace_missing" ∷ []) ("policy_trace_missing" ∷ [])
              (some id),
          db,
        )
        | some trace ↦ judge E db now trace
      ]

      go :
          (o : Option (PolicyGlobalRegimeTrace E))
          → select_policy_trace E db (some id) ≡ o
          → (answers o).0.allowed ≡ true
          → LetThrough id now db (answers o).0 (answers o).1
      go none found h = cc
      go (some trace) found h = judge-allowed id now db trace found h

  check_id-allowed :
      (v : Json E.Float) (id? : Option ℤ) (now : Instant) (db : Database E)
      → int_value E v ≡ id?
      → (check_id E id? now db).0.allowed ≡ true
      → (v' : Json E.Float) × (id : ℤ) × (◌≡◌ {A = Option (Json E.Float)} (some v) (some v'))
        × (int_value E v' ≡ some id)
        × LetThrough id now db (check_id E id? now db).0 (check_id E id? now db).1
  unfolding build_ephemeral_verdict
  check_id-allowed v none now db e h = cc
  check_id-allowed v (some id) now db e h =
      (v, id, refl, e, evaluate_global_regime-allowed id now db h)

  -- A proposed trade is allowed only if it names, by a value that reads as an integer, a persisted
  -- policy trace that clears, and then the verdict is in the database.
  pub check_trade-allowed :
      (proposal : Option (Json E.Float)) (now : Instant) (db : Database E)
      → (check_trade E proposal now db).0.allowed ≡ true
      → (v : Json E.Float) × (id : ℤ) × (proposal ≡ some v)
        × (int_value E v ≡ some id)
        × LetThrough id now db (check_trade E proposal now db).0 (check_trade E proposal now db).1
  unfolding check_trade build_ephemeral_verdict
  check_trade-allowed none now db h = cc
  check_trade-allowed (some Json.null) now db h = cc
  check_trade-allowed (some v) now db h = check_id-allowed v (int_value E v) now db refl h
