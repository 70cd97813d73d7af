-- ===== src/Risk/Gate.antt =====
-- risk/gate.py: RiskGate. A verdict on a persisted policy trace is evaluated, persisted and read
-- back as the answer.
use Prim.Native.String.{◌++◌ as text_append}
use defi_engine.Base.{
  ℕ, String, Bool, true, false, ◌&&◌, ◌||◌, Option, none, some, List, [], ◌∷◌, ◌++◌, map, ltb, ◌==◌,
  if◌then◌else◌, str_eq, best, find_first,
}
use defi_engine.Base.Int.{ℤ, pos, negsuc}
use defi_engine.Base.Text.{join, int_of, str_ℤ}
use defi_engine.Base.Time.{Instant, isoformat}
use defi_engine.Json.{Json, Items, nil, cons, texts}
use defi_engine.Env.{Env}
use defi_engine.Truth.{
  Database, PolicyGlobalRegimeTrace, RiskGlobalRegimeGate, FeatureMaterializationRun,
}
use defi_engine.Policy.{int_of_bool}
use defi_engine.Risk.Verdict.{EvaluatedRiskVerdict, evaluate_policy_trace}

-- `_summarize_reason`
unfoldable pub summarize_reason : String → List String → String
unfolding join
summarize_reason risk_state reason_codes =
    if str_eq risk_state "allowed"
    then "Risk gate found no hard vetoes for the selected policy trace."
    else if str_eq risk_state "no_trade"
    then text_append "Risk gate preserved a no-trade outcome: " (join ", " reason_codes)
    else text_append "Risk gate halted because repo-owned inputs were unresolved: "
        (join ", " reason_codes)

module _ (E : Env) where
  open E use {Float, Encoded, dumps, loads, str_of, trunc, new_id}

  -- The row of `_persist_verdict`.
  unfoldable pub verdict_row :
      Database E
      → Instant
      → PolicyGlobalRegimeTrace E
      → EvaluatedRiskVerdict E
      → RiskGlobalRegimeGate E
  verdict_row db now trace evaluated = record {
    id = new_id (map (λ row. row.id) db.risk_verdicts);
    policy_trace_id = trace.id;
    condition_run_id = trace.condition_run_id;
    condition_snapshot_id = trace.condition_snapshot_id;
    source_feature_run_id = trace.source_feature_run_id;
    bucket_start_utc = trace.bucket_start_utc;
    policy_state = trace.policy_state;
    risk_state = evaluated.risk_state;
    macro_context_state = trace.macro_context_state;
    condition_blocked_flag = trace.condition_blocked_flag;
    stale_data_authorized_flag = int_of_bool evaluated.stale_data_authorized;
    unresolved_input_flag = int_of_bool evaluated.unresolved_input;
    anomaly_signal_state = evaluated.anomaly_signal_state;
    reason_codes_json = dumps (texts evaluated.reason_codes);
    trace_json = dumps evaluated.trace_payload;
    created_at = now;
  }

  unfoldable pub add_verdict : Database E → RiskGlobalRegimeGate E → Database E
  add_verdict db row = record db { risk_verdicts = db.risk_verdicts ++ row ∷ [] }

  -- `str(item)` on a decoded JSON value.
  abbrev str_item : Json Float → String
  str_item (Json.text s) = s
  str_item Json.null = "None"
  str_item (Json.bool true) = "True"
  str_item (Json.bool false) = "False"
  str_item (Json.num n) = str_ℤ n
  str_item v = str_of v

  abbrev pub str_items : Items Float → List String
  str_items nil = []
  str_items (cons v rest) = str_item v ∷ str_items rest

  abbrev decoded_array : String → Option (Json Float) → List String
  decoded_array malformed (some (Json.arr l)) = str_items l
  decoded_array malformed _ = malformed ∷ []

  -- `_decode_json_array`, which three owners share but for the code of a malformed payload.
  unfoldable pub decode_json_array : String → Encoded → List String
  decode_json_array malformed encoded = decoded_array malformed (loads encoded)

  -- The dict that the gate answers with.
  pub record RiskAnswer : Type 0 where
    pub risk_verdict_id : Option ℕ
    pub allowed : Bool
    pub risk_state : String
    pub halted : Bool
    pub policy_trace_id : Option ℤ
    pub condition_run_id : Option String
    pub source_feature_run_id : Option String
    pub bucket_start_utc : Option String
    pub reason : String
    pub reason_codes : List String
    pub vetoes : List String
    pub anomaly_signal_state : String
    pub is_scaffold : Bool

  -- `_serialize_verdict`
  unfoldable pub serialize_verdict : RiskGlobalRegimeGate E → RiskAnswer
  unfolding decode_json_array summarize_reason
  serialize_verdict row =
      let reason_codes = decode_json_array "risk_verdict_payload_malformed" row.reason_codes_json in
      record {
        risk_verdict_id = some row.id;
        allowed = str_eq row.risk_state "allowed";
        risk_state = row.risk_state;
        halted = str_eq row.risk_state "halted";
        policy_trace_id = some (pos row.policy_trace_id);
        condition_run_id = some row.condition_run_id;
        source_feature_run_id = some row.source_feature_run_id;
        bucket_start_utc = some (isoformat row.bucket_start_utc);
        reason = summarize_reason row.risk_state reason_codes;
        reason_codes = reason_codes;
        vetoes = if str_eq row.risk_state "allowed" then [] else reason_codes;
        anomaly_signal_state = row.anomaly_signal_state;
        is_scaffold = false;
      }

  -- `_build_ephemeral_verdict`
  unfoldable pub build_ephemeral_verdict : List String → List String → Option ℤ → RiskAnswer
  unfolding summarize_reason
  build_ephemeral_verdict reason_codes vetoes policy_trace_id = record {
    risk_verdict_id = none;
    allowed = false;
    risk_state = "halted";
    halted = true;
    policy_trace_id = policy_trace_id;
    condition_run_id = none;
    source_feature_run_id = none;
    bucket_start_utc = none;
    reason = summarize_reason "halted" reason_codes;
    reason_codes = reason_codes;
    vetoes = vetoes;
    anomaly_signal_state = "not_owned";
    is_scaffold = false;
  }

  abbrev has_id : ℤ → ℕ → Bool
  has_id (pos n) id = id == n
  has_id (negsuc n) id = false

  -- `_select_policy_trace`
  unfoldable pub select_policy_trace : Database E → Option ℤ → Option (PolicyGlobalRegimeTrace E)
  select_policy_trace db (some id) = find_first (λ row. has_id id row.id) db.policy_traces
  select_policy_trace db none =
      best (λ a b. ltb a.created_at b.created_at || (a.created_at == b.created_at && ltb a.id b.id))
        db.policy_traces

  -- `_load_feature_run`
  unfoldable pub load_feature_run : Database E → String → Option (FeatureMaterializationRun E)
  load_feature_run db run_id = find_first (λ row. str_eq row.run_id run_id) db.feature_runs

  -- The verdict on a trace, and the database once its row is committed.
  unfoldable pub judge : Database E → Instant → PolicyGlobalRegimeTrace E → RiskAnswer × Database E
  unfolding load_feature_run evaluate_policy_trace verdict_row add_verdict serialize_verdict
  judge db now trace =
      let evaluated =
        evaluate_policy_trace E trace (load_feature_run db trace.source_feature_run_id) in
      let row = verdict_row db now trace evaluated in (serialize_verdict row, add_verdict db row)

  -- `evaluate_global_regime_v1`
  unfoldable pub evaluate_global_regime : Option ℤ → Instant → Database E → RiskAnswer × Database E
  unfolding select_policy_trace judge build_ephemeral_verdict
  evaluate_global_regime policy_trace_id now db = elim (select_policy_trace db policy_trace_id) [
    | none ↦ (
      build_ephemeral_verdict ("policy_trace_missing" ∷ []) ("policy_trace_missing" ∷ [])
          policy_trace_id,
      db,
    )
    | some trace ↦ judge db now trace
  ]

  -- `int(policy_trace_id)`; `none` is a TypeError or a ValueError.
  abbrev pub int_value : Json Float → Option ℤ
  int_value (Json.num n) = some n
  int_value (Json.bool b) = some (pos (int_of_bool b))
  int_value (Json.text s) = int_of s
  int_value (Json.float x) = trunc x
  int_value _ = none

  abbrev pub check_id : Option ℤ → Instant → Database E → RiskAnswer × Database E
  check_id none now db = (
    build_ephemeral_verdict ("trade_proposal_invalid_policy_trace_id" ∷ [])
        ("trade_proposal_invalid_policy_trace_id" ∷ []) none,
    db,
  )
  check_id (some id) now db = evaluate_global_regime (some id) now db

  -- `check_trade`, by the value under "policy_trace_id"; a missing key and None are `none`.
  unfoldable pub check_trade : Option (Json Float) → Instant → Database E → RiskAnswer × Database E
  unfolding evaluate_global_regime
  check_trade none now db = (
    build_ephemeral_verdict
        ("trade_proposal_missing_policy_trace_id" ∷ "settlement_surface_not_owned" ∷ [])
        ("trade_proposal_missing_policy_trace_id" ∷ []) none,
    db,
  )
  check_trade (some Json.null) now db = (
    build_ephemeral_verdict
        ("trade_proposal_missing_policy_trace_id" ∷ "settlement_surface_not_owned" ∷ [])
        ("trade_proposal_missing_policy_trace_id" ∷ []) none,
    db,
  )
  check_trade (some v) now db = check_id (int_value v) now db

-- `emergency_halt`: not owned yet.
unfoldable pub emergency_halt : Bool
emergency_halt = false
