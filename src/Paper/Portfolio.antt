-- ===== src/Paper/Portfolio.antt =====
-- settlement/paper.py: `get_portfolio_state`, the read side of paper settlement.
use defi_engine.Base.{
  ℕ, String, Bool, true, false, ◌||◌, ◌&&◌, Option, none, some, List, [], map, ltb, ◌==◌, str_eq,
  find_first, best, select,
}
use defi_engine.Base.Sort.{sort_by}
use defi_engine.Env.{Env}
use defi_engine.Truth.{Database, PaperSession, PaperPosition, PaperSessionReport}
use defi_engine.Risk.{decode_json_array}

module _ (E : Env) where
  open E use {Float, float_zero}

  pub record PositionView : Type 0 where
    pub mint : String
    pub net_quantity : Float
    pub cost_basis_usdc : Float
    pub last_fill_id : ℕ
    pub last_mark_source : Option String
    pub last_mark_quote_snapshot_id : Option ℕ
    pub last_mark_price_usdc : Option Float
    pub realized_pnl_usdc : Float
    pub unrealized_pnl_usdc : Float

  abbrev view : PaperPosition E → PositionView
  view row = record {
    mint = row.mint;
    net_quantity = row.net_quantity;
    cost_basis_usdc = row.cost_basis_usdc;
    last_fill_id = row.last_fill_id;
    last_mark_source = row.last_mark_source;
    last_mark_quote_snapshot_id = row.last_mark_quote_snapshot_id;
    last_mark_price_usdc = row.last_mark_price_usdc;
    realized_pnl_usdc = row.realized_pnl_usdc;
    unrealized_pnl_usdc = row.unrealized_pnl_usdc;
  }

  -- What is told of a session, absent from the answer if none is found.
  pub record SessionView : Type 0 where
    pub session_id : ℕ
    pub session_key : String
    pub session_status : String
    pub base_currency : String
    pub reason_codes : List String

  pub record PortfolioState : Type 0 where
    pub session_found : Bool
    pub session : Option SessionView
    pub positions : List PositionView
    pub cash_usdc : Float
    pub position_value_usdc : Float
    pub total_value_usdc : Float
    pub is_scaffold : Bool

  -- `_select_session`
  unfoldable pub select_session : Database E → Option String → Option (PaperSession E)
  select_session db (some session_key) =
      find_first (λ row. str_eq row.session_key session_key) db.paper_sessions
  select_session db none =
      best (λ a b. ltb a.created_at b.created_at || (a.created_at == b.created_at && ltb a.id b.id))
        db.paper_sessions

  unfoldable pub latest_report : Database E → ℕ → Option (PaperSessionReport E)
  latest_report db session_id =
      best (λ a b. ltb a.created_at b.created_at || (a.created_at == b.created_at && ltb a.id b.id))
        (select (λ row. row.session_id == session_id) db.paper_reports)

  abbrev report_value : Option (PaperSessionReport E) → (PaperSessionReport E → Float) → Float
  report_value none get = float_zero
  report_value (some report) get = get report

  -- `get_portfolio_state`
  unfoldable pub get_portfolio_state : Database E → Option String → PortfolioState
  unfolding select_session latest_report sort_by decode_json_array
  get_portfolio_state db session_key = elim (select_session db session_key) [
    | none ↦ record {
      session_found = false;
      session = none;
      positions = [];
      cash_usdc = float_zero;
      position_value_usdc = float_zero;
      total_value_usdc = float_zero;
      is_scaffold = false;
    }
    | some paper_session ↦
        let report = latest_report db paper_session.id in
        record {
          session_found = true;
          session = some (record {
            session_id = paper_session.id;
            session_key = paper_session.session_key;
            session_status = paper_session.status;
            base_currency = paper_session.base_currency;
            reason_codes =
                decode_json_array E "paper_session_payload_malformed"
                  paper_session.reason_codes_json;
          });
          positions = map view (
              sort_by (λ row. row.mint)
                (select (λ row. row.session_id == paper_session.id) db.paper_positions));
          cash_usdc = report_value report (λ r. r.cash_usdc);
          position_value_usdc = report_value report (λ r. r.position_value_usdc);
          total_value_usdc = report_value report (λ r. r.equity_usdc);
          is_scaffold = false;
        }
  ]
