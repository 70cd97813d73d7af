-- ===== src/Truth/PaperRows.antt =====
-- storage/truth/models.py: the rows of paper settlement.
use defi_engine.Base.{ℕ, String, Option}
use defi_engine.Base.Int.{ℤ}
use defi_engine.Base.Time.{Instant}
use defi_engine.Env.{Env}

module _ (E : Env) where
  open E use {Float, Encoded}

  pub record PaperSession : Type 0 where
    pub id : ℕ
    pub session_key : String
    pub status : String
    pub base_currency : String
    pub quote_size_lamports : ℤ
    pub opened_at : Instant
    pub closed_at : Option Instant
    pub starting_cash_usdc : Float
    pub ending_cash_usdc : Option Float
    pub reason_codes_json : Encoded
    pub created_at : Instant

  pub record PaperFill : Type 0 where
    pub id : ℕ
    pub session_id : ℕ
    pub execution_intent_id : Option ℕ
    pub risk_verdict_id : ℕ
    pub policy_trace_id : ℕ
    pub condition_snapshot_id : ℕ
    pub source_feature_run_id : String
    pub quote_snapshot_id : ℕ
    pub policy_state : String
    pub risk_state : String
    pub request_direction : String
    pub input_mint : String
    pub output_mint : String
    pub input_amount : String
    pub output_amount : String
    pub fill_price_usdc : Float
    pub price_impact_pct : Option Float
    pub slippage_bps : Option ℤ
    pub fill_side : String
    pub fill_role : String
    pub created_at : Instant

  pub record PaperPosition : Type 0 where
    pub id : ℕ
    pub session_id : ℕ
    pub mint : String
    pub net_quantity : Float
    pub cost_basis_usdc : Float
    pub last_fill_id : ℕ
    pub last_mark_source : Option String
    pub last_mark_quote_snapshot_id : Option ℕ
    pub last_mark_price_usdc : Option Float
    pub last_marked_at : Option Instant
    pub realized_pnl_usdc : Float
    pub unrealized_pnl_usdc : Float
    pub updated_at : Instant

  pub record PaperSessionReport : Type 0 where
    pub id : ℕ
    pub session_id : ℕ
    pub report_type : String
    pub cash_usdc : Float
    pub position_value_usdc : Float
    pub equity_usdc : Float
    pub realized_pnl_usdc : Float
    pub unrealized_pnl_usdc : Float
    pub mark_method : String
    pub mark_inputs_json : Encoded
    pub reason_codes_json : Encoded
    pub created_at : Instant
