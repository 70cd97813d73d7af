-- ===== src/Truth/BacktestRows.antt =====
-- storage/truth/models.py: the rows of the backtest replay ledger.
use defi_engine.Base.{ℕ, String, Option}
use defi_engine.Base.Int.{ℤ}
use defi_engine.Base.Time.{Instant}
use defi_engine.Env.{Env}

module _ (E : Env) where
  open E use {Float, Encoded}

  pub record BacktestSession : Type 0 where
    pub id : ℕ
    pub session_key : String
    pub status : String
    pub instrument_family : String
    pub venue : String
    pub base_currency : String
    pub bucket_granularity : String
    pub fee_bps : ℤ
    pub slippage_bps : ℤ
    pub latency_ms : ℤ
    pub mark_method : String
    pub metadata_json : Encoded
    pub starting_cash_usdc : Float
    pub ending_cash_usdc : Option Float
    pub opened_at : Instant
    pub closed_at : Option Instant
    pub reason_codes_json : Encoded
    pub created_at : Instant

  pub record BacktestFill : Type 0 where
    pub id : ℕ
    pub session_id : ℕ
    pub event_time : Instant
    pub replay_reference : String
    pub mint : String
    pub side : String
    pub input_amount : String
    pub output_amount : String
    pub fill_price_usdc : Float
    pub fee_bps : ℤ
    pub fee_usdc : Float
    pub slippage_bps : ℤ
    pub latency_ms : ℤ
    pub reason_codes_json : Encoded
    pub created_at : Instant

  pub record BacktestPosition : Type 0 where
    pub id : ℕ
    pub session_id : ℕ
    pub mint : String
    pub net_quantity : Float
    pub cost_basis_usdc : Float
    pub last_fill_id : ℕ
    pub last_mark_source : Option String
    pub last_mark_reference : Option String
    pub last_mark_price_usdc : Option Float
    pub last_marked_at : Option Instant
    pub realized_pnl_usdc : Float
    pub unrealized_pnl_usdc : Float
    pub updated_at : Instant

  pub record BacktestSessionReport : Type 0 where
    pub id : ℕ
    pub session_id : ℕ
    pub report_type : String
    pub cash_usdc : Float
    pub position_value_usdc : Float
    pub equity_usdc : Float
    pub realized_pnl_usdc : Float
    pub unrealized_pnl_usdc : Float
    pub mark_method : String
    pub mark_inputs_json : Encoded
    pub reason_codes_json : Encoded
    pub created_at : Instant
