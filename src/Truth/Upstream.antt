-- ===== src/Truth/Upstream.antt =====
-- storage/truth/models.py: the rows that other subsystems write and the modelled owners only read.
-- Columns that no modelled operation reads are left out.
use defi_engine.Base.{ℕ, String, Option}
use defi_engine.Base.Int.{ℤ}
use defi_engine.Base.Time.{Instant}
use defi_engine.Env.{Env}

pub record TokenRegistry : Type 0 where
  pub id : ℕ
  pub mint : String
  pub decimals : Option ℕ

pub record TokenMetadataSnapshot : Type 0 where
  pub id : ℕ
  pub mint : String
  pub decimals : Option ℕ
  pub captured_at : Instant

module _ (E : Env) where
  open E use {Float, Encoded}

  pub record QuoteSnapshot : Type 0 where
    pub id : ℕ
    pub input_mint : String
    pub output_mint : String
    pub input_amount : String
    pub output_amount : Option String
    pub price_impact_pct : Option Float
    pub slippage_bps : Option ℤ
    pub request_direction : Option String
    pub requested_at : Option Instant
    pub provider : String
    pub captured_at : Instant

  pub record FeatureMaterializationRun : Type 0 where
    pub id : ℕ
    pub run_id : String
    pub freshness_snapshot_json : Option Encoded

  pub record ConditionScoringRun : Type 0 where
    pub id : ℕ
    pub run_id : String
    pub condition_set : String
    pub model_family : String
    pub status : String
    pub started_at : Instant
    pub finished_at : Option Instant

  pub record ConditionGlobalRegimeSnapshot : Type 0 where
    pub id : ℕ
    pub condition_run_id : String
    pub source_feature_run_id : String
    pub bucket_start_utc : Instant
    pub semantic_regime : String
    pub confidence : Float
    pub blocked_flag : ℕ
    pub blocking_reason : Option String
    pub macro_context_state : Option String
    pub created_at : Instant
