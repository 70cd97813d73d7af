-- ===== src/Truth/Decisions.antt =====
-- storage/truth/models.py: the rows of the three decision owners, policy, risk and intent. Flags
-- are the integers 0 and 1.
use defi_engine.Base.{ℕ, String, Option}
use defi_engine.Base.Int.{ℤ}
use defi_engine.Base.Time.{Instant}
use defi_engine.Env.{Env}

module _ (E : Env) where
  open E use {Float, Encoded}

  pub record PolicyGlobalRegimeTrace : Type 0 where
    pub id : ℕ
    pub condition_run_id : String
    pub condition_snapshot_id : ℕ
    pub source_feature_run_id : String
    pub bucket_start_utc : Instant
    pub semantic_regime : String
    pub condition_confidence : Float
    pub macro_context_state : Option String
    pub condition_blocked_flag : ℕ
    pub condition_blocking_reason : Option String
    pub policy_state : String
    pub advisory_bias : String
    pub allow_new_long_hypotheses : ℕ
    pub allow_new_short_hypotheses : ℕ
    pub config_hash : String
    pub config_version : ℤ
    pub config_status : String
    pub reason_codes_json : Encoded
    pub trace_json : Encoded
    pub created_at : Instant

  pub record RiskGlobalRegimeGate : Type 0 where
    pub id : ℕ
    pub policy_trace_id : ℕ
    pub condition_run_id : String
    pub condition_snapshot_id : ℕ
    pub source_feature_run_id : String
    pub bucket_start_utc : Instant
    pub policy_state : String
    pub risk_state : String
    pub macro_context_state : Option String
    pub condition_blocked_flag : ℕ
    pub stale_data_authorized_flag : ℕ
    pub unresolved_input_flag : ℕ
    pub anomaly_signal_state : String
    pub reason_codes_json : Encoded
    pub trace_json : Encoded
    pub created_at : Instant

  pub record ExecutionIntent : Type 0 where
    pub id : ℕ
    pub intent_key : String
    pub risk_verdict_id : Option ℕ
    pub policy_trace_id : Option ℕ
    pub condition_snapshot_id : Option ℕ
    pub source_feature_run_id : Option String
    pub quote_snapshot_id : Option ℕ
    pub bucket_start_utc : Option Instant
    pub intent_state : String
    pub venue : String
    pub settlement_model : String
    pub strategy_family : String
    pub policy_state : Option String
    pub risk_state : Option String
    pub request_direction : Option String
    pub intent_side : Option String
    pub intent_role : String
    pub entry_intent : String
    pub exit_intent : String
    pub stop_intent : String
    pub input_mint : Option String
    pub output_mint : Option String
    pub quote_size_lamports : Option ℤ
    pub quoted_output_amount : Option String
    pub reason_codes_json : Encoded
    pub trace_json : Encoded
    pub created_at : Instant
