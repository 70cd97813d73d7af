-- ===== src/Live/Readiness.antt =====
-- live_execution/readiness.py: the readiness decision from the latest metrics packet.
use defi_engine.Base.{
  String, Bool, true, false, not, Option, none, some, List, [], ◌∷◌, is_nil, if◌then◌else◌,
}
use defi_engine.Base.Checks.{failing}
use defi_engine.Base.Int.{ℤ, pos, less}
use defi_engine.Base.Time.{Instant, isoformat_utc}
use defi_engine.Json.{Json, Fields, end, get_or, object, obj, texts, fields, float, num}
use defi_engine.Json.Convert.{to_bool, to_float, to_int}
use defi_engine.Env.{Env}
use defi_engine.Truth.{Result, return, raise, ◌>>=◌, or_raise, value_error, attribute_error}

module _ (E : Env) where
  open E use {Float, float_zero, of_int, int_div, lt, le, loads, Encoded}

  -- The settings of micro-live execution.
  pub record LiveSettings : Type 0 where
    pub signer_pubkey : String
    pub kill_switch : Bool
    pub max_drawdown_pct : Float
    pub live_usdc_mint : String

  pub record Thresholds : Type 0 where
    pub minimum_rolling_win_rate : Float
    pub minimum_settled_trades : ℤ
    pub minimum_average_settled_trades_per_week : Float
    pub minimum_consecutive_trade_weeks : ℤ
    pub minimum_net_expectancy_after_cost : Float
    pub minimum_profit_factor : Float
    pub maximum_drawdown_pct : Float
    pub required_quote_health_ok : Bool
    pub maximum_unexplained_decision_gap_count : ℤ
    pub requires_candidate_comparison_accepted : Bool

  abbrev pub thresholds : LiveSettings → Thresholds
  thresholds s = record {
    minimum_rolling_win_rate = int_div (pos 8) 10;
    minimum_settled_trades = pos 20;
    minimum_average_settled_trades_per_week = of_int (pos 1);
    minimum_consecutive_trade_weeks = pos 4;
    minimum_net_expectancy_after_cost = float_zero;
    minimum_profit_factor = int_div (pos 3) 2;
    maximum_drawdown_pct = s.max_drawdown_pct;
    required_quote_health_ok = true;
    maximum_unexplained_decision_gap_count = pos 0;
    requires_candidate_comparison_accepted = true;
  }

  abbrev thresholds_json : Thresholds → Json Float
  thresholds_json t = object (
      ("minimum_rolling_win_rate", float t.minimum_rolling_win_rate)
      ∷ ("minimum_settled_trades", num t.minimum_settled_trades)
      ∷ ("minimum_average_settled_trades_per_week", float t.minimum_average_settled_trades_per_week)
      ∷ ("minimum_consecutive_trade_weeks", num t.minimum_consecutive_trade_weeks)
      ∷ ("minimum_net_expectancy_after_cost", float t.minimum_net_expectancy_after_cost)
      ∷ ("minimum_profit_factor", float t.minimum_profit_factor)
      ∷ ("maximum_drawdown_pct", float t.maximum_drawdown_pct)
      ∷ ("required_quote_health_ok", Json.bool t.required_quote_health_ok)
      ∷ ("maximum_unexplained_decision_gap_count", num t.maximum_unexplained_decision_gap_count)
      ∷ (
        "requires_candidate_comparison_accepted",
        Json.bool t.requires_candidate_comparison_accepted,
      )
      ∷ [])

  -- What the gate reads of a metrics packet, converted, with the default of a missing key.
  unfoldable pub float_metric : String → Float → Fields Float → Result Float
  float_metric key d m = to_float E (get_or key (float d) m)

  unfoldable pub int_metric : String → ℤ → Fields Float → Result ℤ
  int_metric key d m = to_int E (get_or key (num d) m)

  unfoldable pub flag_metric : String → Fields Float → Bool
  flag_metric key m = to_bool E (get_or key (Json.bool false) m)

  -- The ten tests on the values of a packet, and the code of each.
  unfoldable pub checks :
      Fields Float
      → Thresholds
      → Float
      → ℤ
      → Float
      → ℤ
      → Float
      → Float
      → Float
      → ℤ
      → List (Bool × String)
  unfolding flag_metric
  checks m t rate trades weekly weeks expectancy factor drawdown gaps =
      (lt rate t.minimum_rolling_win_rate, "rolling_win_rate_below_minimum")
      ∷ (less trades t.minimum_settled_trades, "settled_trades_below_minimum")
      ∷ (
        lt weekly t.minimum_average_settled_trades_per_week,
        "average_settled_trades_per_week_below_minimum",
      )
      ∷ (less weeks t.minimum_consecutive_trade_weeks, "consecutive_trade_weeks_below_minimum")
      ∷ (
        le expectancy t.minimum_net_expectancy_after_cost,
        "net_expectancy_after_cost_not_positive",
      )
      ∷ (lt factor t.minimum_profit_factor, "profit_factor_below_minimum")
      ∷ (lt t.maximum_drawdown_pct drawdown, "max_drawdown_pct_above_maximum")
      ∷ (not (flag_metric "quote_health_ok" m), "quote_health_not_ok")
      ∷ (less t.maximum_unexplained_decision_gap_count gaps, "unexplained_decision_gaps_present")
      ∷ (not (flag_metric "candidate_comparison_accepted" m), "candidate_comparison_not_accepted")
      ∷ []

  -- `_reason_codes`
  unfoldable pub reason_codes : Fields Float → Thresholds → Result (List String)
  unfolding float_metric int_metric failing checks
  reason_codes m t = do
    rate ← float_metric "rolling_win_rate" float_zero m
    trades ← int_metric "settled_trades" (pos 0) m
    weekly ← float_metric "average_settled_trades_per_week" float_zero m
    weeks ← int_metric "consecutive_trade_weeks" (pos 0) m
    expectancy ← float_metric "net_expectancy_after_cost" float_zero m
    factor ← float_metric "profit_factor" float_zero m
    drawdown ← float_metric "max_drawdown_pct" (of_int (pos 100)) m
    gaps ← int_metric "unexplained_decision_gap_count" (pos 1) m
    return (failing (checks m t rate trades weekly weeks expectancy factor drawdown gaps))

  -- `_decision`
  unfoldable pub decision :
      Bool → List String → Thresholds → Fields Float → String → Instant → Fields Float
  decision passed codes t metrics path now = fields (
      ("status", Json.text (if passed then "passed" else "failed"))
      ∷ ("passed", Json.bool passed)
      ∷ ("micro_live_candidate", Json.bool passed)
      ∷ ("reason_codes", texts codes)
      ∷ ("thresholds", thresholds_json t)
      ∷ ("metrics", obj metrics)
      ∷ ("metrics_path", Json.text path)
      ∷ ("evaluated_at_utc", Json.text (isoformat_utc now))
      ∷ [])

  -- A dictionary, as `.get` needs it.
  abbrev pub dictionary : Json Float → Result (Fields Float)
  dictionary (obj fs) = return fs
  dictionary _ = raise (attribute_error "object has no attribute 'get'")

  -- The content of a file that holds a JSON dictionary.
  unfoldable pub read_dictionary : Encoded → Result (Fields Float)
  read_dictionary content = do
    v ← or_raise (loads content) (value_error "JSONDecodeError")
    dictionary v

  -- The branch of `evaluate` with a metrics file.
  unfoldable pub evaluate_metrics :
      LiveSettings → String → Instant → Encoded → Result (Fields Float)
  unfolding reason_codes decision read_dictionary
  evaluate_metrics s path now content = do
    metrics ← read_dictionary content
    codes ← reason_codes metrics (thresholds s)
    return (decision (is_nil codes) codes (thresholds s) metrics path now)

  -- `evaluate`: `none` is a metrics file that does not exist.
  unfoldable pub evaluate_readiness :
      LiveSettings → String → Instant → Option Encoded → Result (Fields Float)
  unfolding evaluate_metrics decision
  evaluate_readiness s path now none =
      return (decision false ("live_readiness_metrics_missing" ∷ []) (thresholds s) end path now)
  evaluate_readiness s path now (some content) = evaluate_metrics s path now content
