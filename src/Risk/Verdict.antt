-- ===== src/Risk/Verdict.antt =====
-- risk/gate.py: what RiskGate decides on a policy trace and its feature run, before persistence.
use Prim.Native.String.{◌++◌ as text_append}
use defi_engine.Base.{
  String, Bool, true, false, not, Option, none, some, List, [], ◌∷◌, map, if◌then◌else◌, str_eq,
  truthy,
}
use defi_engine.Base.Int.{pos}
use defi_engine.Base.Time.{isoformat}
use defi_engine.Json.{Json, object, texts, text?}
use defi_engine.Env.{Env}
use defi_engine.Truth.{PolicyGlobalRegimeTrace, FeatureMaterializationRun}
use defi_engine.Policy.{flag}
use defi_engine.Risk.Freshness.{
  LaneState, FreshnessAuthorization, Parsed, parsed, failed, parse_freshness_authorization,
}

module _ (E : Env) where
  open E use {Float}

  pub record EvaluatedRiskVerdict : Type 0 where
    pub risk_state : String
    pub reason_codes : List String
    pub vetoes : List String
    pub stale_data_authorized : Bool
    pub unresolved_input : Bool
    pub anomaly_signal_state : String
    pub trace_payload : Json Float

  pub lane_json : LaneState E → Json Float
  lane_json l = object (
      ("required_for_authorization", Json.bool l.required_for_authorization)
      ∷ ("downstream_eligible", Json.bool l.downstream_eligible)
      ∷ ("freshness_state", Json.text l.freshness_state)
      ∷ ("latest_error_summary", l.latest_error_summary)
      ∷ [])

  unfoldable pub freshness_json : Bool → List String → List (String × LaneState E) → Json Float
  freshness_json authorized blocking states = object (
      ("authorized", Json.bool authorized)
      ∷ ("blocking_lanes", texts blocking)
      ∷ ("required_lanes", object (map (λ (l : String × LaneState E). (l.0, lane_json l.1)) states))
      ∷ [])

  -- `base_trace`, with the freshness authorization that every branch adds.
  unfoldable pub gate_trace : PolicyGlobalRegimeTrace E → Json Float → Json Float
  gate_trace trace freshness = object (
      (
        "policy_input",
        object (
            ("policy_trace_id", Json.num (pos trace.id))
            ∷ ("condition_run_id", Json.text trace.condition_run_id)
            ∷ ("condition_snapshot_id", Json.num (pos trace.condition_snapshot_id))
            ∷ ("source_feature_run_id", Json.text trace.source_feature_run_id)
            ∷ ("bucket_start_utc", Json.text (isoformat trace.bucket_start_utc))
            ∷ ("policy_state", Json.text trace.policy_state)
            ∷ ("macro_context_state", text? trace.macro_context_state)
            ∷ ("condition_blocked_flag", Json.bool (flag trace.condition_blocked_flag))
            ∷ ("condition_blocking_reason", text? trace.condition_blocking_reason)
            ∷ []),
      )
      ∷ ("anomaly_signal_state", Json.text "not_owned")
      ∷ ("freshness_authorization", freshness)
      ∷ [])

  -- A halt on an input that could not be resolved.
  abbrev unresolved : PolicyGlobalRegimeTrace E → String → EvaluatedRiskVerdict
  unresolved trace code = record {
    risk_state = "halted";
    reason_codes = code ∷ [];
    vetoes = code ∷ [];
    stale_data_authorized = false;
    unresolved_input = true;
    anomaly_signal_state = "not_owned";
    trace_payload = gate_trace trace (freshness_json false [] []);
  }

  abbrev blocked_codes : Option String → List String
  blocked_codes none = "condition_blocked_flag" ∷ []
  blocked_codes (some r) =
      if truthy r
      then "condition_blocked_flag" ∷ text_append "condition_blocking_reason:" r ∷ []
      else "condition_blocked_flag" ∷ []

  -- The part of `_evaluate_policy_trace` behind a freshness receipt that could be read.
  unfoldable pub evaluate_authorized :
      PolicyGlobalRegimeTrace E → FreshnessAuthorization E → EvaluatedRiskVerdict
  evaluate_authorized trace freshness =
      let trace_payload = gate_trace trace (
        freshness_json freshness.authorized freshness.blocking_lanes
          freshness.required_lane_states) in
      let lane_codes =
        map (text_append "required_lane_downstream_ineligible:") freshness.blocking_lanes in
      if not freshness.authorized
      then record {
        risk_state = "halted";
        reason_codes = lane_codes;
        vetoes = lane_codes;
        stale_data_authorized = false;
        unresolved_input = false;
        anomaly_signal_state = "not_owned";
        trace_payload = trace_payload;
      }
      else if flag trace.condition_blocked_flag
      then record {
        risk_state = "no_trade";
        reason_codes = blocked_codes trace.condition_blocking_reason;
        vetoes = "condition_blocked_flag" ∷ [];
        stale_data_authorized = true;
        unresolved_input = false;
        anomaly_signal_state = "not_owned";
        trace_payload = trace_payload;
      }
      else if str_eq trace.policy_state "no_trade"
      then record {
        risk_state = "no_trade";
        reason_codes = "policy_state:no_trade" ∷ [];
        vetoes = "policy_state:no_trade" ∷ [];
        stale_data_authorized = true;
        unresolved_input = false;
        anomaly_signal_state = "not_owned";
        trace_payload = trace_payload;
      }
      else record {
        risk_state = "allowed";
        reason_codes = text_append "policy_state:" trace.policy_state ∷ [];
        vetoes = [];
        stale_data_authorized = true;
        unresolved_input = false;
        anomaly_signal_state = "not_owned";
        trace_payload = trace_payload;
      }

  abbrev pub evaluate_parsed : PolicyGlobalRegimeTrace E → Parsed E → EvaluatedRiskVerdict
  evaluate_parsed trace (failed code) = unresolved trace code
  evaluate_parsed trace (parsed freshness) = evaluate_authorized trace freshness

  -- `_evaluate_policy_trace`
  unfoldable pub evaluate_policy_trace :
      PolicyGlobalRegimeTrace E → Option (FeatureMaterializationRun E) → EvaluatedRiskVerdict
  unfolding evaluate_authorized
  evaluate_policy_trace trace none = unresolved trace "missing_feature_run"
  evaluate_policy_trace trace (some run) =
      evaluate_parsed trace (parse_freshness_authorization E run)
