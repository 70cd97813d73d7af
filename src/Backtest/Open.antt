-- ===== src/Backtest/Open.antt =====
-- settlement/backtest.py: `open_spot_session` and its validation.
use Prim.Native.String.{◌++◌ as text_append}
use defi_engine.Base.{
  ℕ, String, Bool, true, false, not, ◌||◌, ◌&&◌, Option, none, List, [], ◌∷◌, ◌++◌, map, leb, ltb,
  ◌==◌, if◌then◌else◌, str_eq, truthy, find_first, is_none,
}
use defi_engine.Base.Int.{ℤ, pos, negsuc, is_negative}
use defi_engine.Base.Text.{codes}
use defi_engine.Base.Time.{Instant, DateTime, ensure_utc, or_else}
use defi_engine.Json.{Json, texts}
use defi_engine.Env.{Env}
use defi_engine.Truth.{
  Database, finish, Result, return, value_error, ◌>>◌, raise_if, BacktestSession,
}

-- _GRANULARITY_PATTERN: digits, one of m, h and d, and the end or a last newline.
abbrev unit_and_end : List ℕ → Bool
unit_and_end (c ∷ []) = c == 109 || (c == 104 || c == 100)
unit_and_end (c ∷ d ∷ []) = d == 10 && (c == 109 || (c == 104 || c == 100))
unit_and_end _ = false

abbrev digits_then : Bool → List ℕ → Bool
digits_then some_digit [] = false
digits_then some_digit (c ∷ cs) =
    let rest = digits_then true cs in
    if leb 48 c && leb c 57 then rest else some_digit && unit_and_end (c ∷ cs)

unfoldable pub granularity_matches : String → Bool
granularity_matches s = digits_then false (codes s)

abbrev above_ten_thousand : ℤ → Bool
above_ten_thousand (pos n) = ltb 10_000 n
above_ten_thousand (negsuc n) = false

module _ (E : Env) where
  open E use {Float, float_zero, lt, dumps, new_id}

  pub record OpenRequest : Type 0 where
    pub session_key : String
    pub bucket_granularity : String
    pub fee_bps : ℤ
    pub slippage_bps : ℤ
    pub latency_ms : ℤ
    pub starting_cash_usdc : Float
    pub instrument_family : String
    pub venue : String
    pub base_currency : String
    pub mark_method : String
    pub metadata : Json Float
    pub opened_at : Option DateTime

  -- `_validate_open_inputs`
  unfoldable pub validate_open_inputs : OpenRequest → Result (Unit {0})
  unfolding granularity_matches
  validate_open_inputs request = do
    raise_if (not (truthy request.session_key)) (value_error "backtest_session_key_missing")
    raise_if (not (str_eq request.instrument_family "spot")) (
        value_error
          (text_append "backtest_instrument_family_unsupported:" request.instrument_family))
    raise_if (not (str_eq request.venue "jupiter_spot"))
        (value_error (text_append "backtest_venue_unsupported:" request.venue))
    raise_if (not (str_eq request.base_currency "USDC"))
        (value_error (text_append "backtest_base_currency_unsupported:" request.base_currency))
    raise_if (not (granularity_matches request.bucket_granularity)) (
        value_error (text_append "backtest_bucket_granularity_invalid:" request.bucket_granularity))
    raise_if (is_negative request.fee_bps || above_ten_thousand request.fee_bps)
        (value_error "backtest_fee_bps_invalid")
    raise_if (is_negative request.slippage_bps || above_ten_thousand request.slippage_bps)
        (value_error "backtest_slippage_bps_invalid")
    raise_if (is_negative request.latency_ms) (value_error "backtest_latency_ms_invalid")
    raise_if (lt request.starting_cash_usdc float_zero)
        (value_error "backtest_starting_cash_invalid")
    raise_if (not (truthy request.mark_method)) (value_error "backtest_mark_method_missing")
    return tt

  unfoldable pub backtest_session : Database E → Instant → OpenRequest → BacktestSession E
  backtest_session db opened_at request = record {
    id = new_id (map (λ row. row.id) db.backtest_sessions);
    session_key = request.session_key;
    status = "open";
    instrument_family = request.instrument_family;
    venue = request.venue;
    base_currency = request.base_currency;
    bucket_granularity = request.bucket_granularity;
    fee_bps = request.fee_bps;
    slippage_bps = request.slippage_bps;
    latency_ms = request.latency_ms;
    mark_method = request.mark_method;
    metadata_json = dumps request.metadata;
    starting_cash_usdc = request.starting_cash_usdc;
    ending_cash_usdc = none;
    opened_at = opened_at;
    closed_at = none;
    reason_codes_json = dumps (texts []);
    created_at = opened_at;
  }

  -- `open_spot_session`, which answers with fields of the new row.
  unfoldable pub open_spot_session :
      OpenRequest → Instant → Database E → Result (BacktestSession E) × Database E
  unfolding ensure_utc validate_open_inputs find_first backtest_session
  open_spot_session request now db =
      let opened_at = or_else (ensure_utc request.opened_at) now in
      let existing =
        find_first (λ row. str_eq row.session_key request.session_key) db.backtest_sessions in
      let row = backtest_session db opened_at request in
      finish db (do
        validate_open_inputs request
        raise_if (not (is_none existing))
            (value_error (text_append "backtest_session_key_exists:" request.session_key))
        return (row, record db { backtest_sessions = db.backtest_sessions ++ row ∷ [] }))
