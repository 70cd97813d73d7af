-- ===== src/Tests/Live.antt =====
-- The witnesses of the properties of micro-live execution: a ready metrics file, an arming, a pause
-- and a second arming, and a swap through all gates.
use defi_engine.Base.{
  ◌≡◌, refl, ◌↔◌, true, false, Option, none, some, List, [], ◌∷◌, truthy, str_eq,
}
use defi_engine.Base.Int.{pos}
use defi_engine.Json.{Json, Fields, fields, object, text, num, float, get, is_writable, has_key}
use defi_engine.Base.Time.{isoformat_utc}
use defi_engine.Base.Checks.{failing}
use defi_engine.Json.Convert.{to_bool, to_float, to_int}
use defi_engine.Truth.{◌>>=◌, or_raise, return}
use defi_engine.Live.{
  LiveSettings, ArmRequest, Venue, World, Clock, SwapRequest, evaluate_readiness, reason_codes,
  decision, evaluate_metrics, read_dictionary, checks, float_metric, int_metric, flag_metric,
  truth_of, status, execute_swap, run_swap, add_minutes,
}
use defi_engine.Live.Ready.{HoldsReady, evaluate_readiness-passed}
use defi_engine.Live.Refines.{
  Command, arming, pausing, idle, run, replay_commands, Shows, status-refines,
}
use defi_engine.Live.Guarded.{Unless, Permits, execute_swap-guarded}
use defi_engine.Live.Swaps.{Progress, run_swap-Progress}
use defi_engine.Samples.{sample_env, sample-IsObjectCodec, noon}
use defi_engine.Settings.{default_usdc_mint, default_sol_mint}
use defi_engine.Tests.Runs.{the, answered}

abbrev live_settings : LiveSettings sample_env
live_settings = record {
  signer_pubkey = "pubkey";
  kill_switch = false;
  max_drawdown_pct = 5_000_000;
  live_usdc_mint = default_usdc_mint;
}

-- A packet of metrics, with amounts in millionths.
abbrev metrics : Json sample_env.Float
metrics = object (
    ("rolling_win_rate", float 850_000)
    ∷ ("settled_trades", num (pos 25))
    ∷ ("average_settled_trades_per_week", num (pos 2))
    ∷ ("consecutive_trade_weeks", num (pos 6))
    ∷ ("net_expectancy_after_cost", float 10_000)
    ∷ ("profit_factor", float 1_700_000)
    ∷ ("max_drawdown_pct", float 3_000_000)
    ∷ ("quote_health_ok", Json.bool true)
    ∷ ("unexplained_decision_gap_count", num (pos 0))
    ∷ ("candidate_comparison_accepted", Json.bool true)
    ∷ [])

abbrev metrics_file : Option sample_env.Encoded
metrics_file = some (some metrics)

abbrev readiness : Fields sample_env.Float
unfolding evaluate_readiness evaluate_metrics read_dictionary reason_codes checks failing decision
    ◌>>=◌ or_raise float_metric int_metric flag_metric to_bool to_float to_int str_eq get
readiness =
    the
      (answered
        (evaluate_readiness sample_env live_settings "latest_metrics.json" noon metrics_file))
      refl

evaluate_readiness-passed_example :
    (truth_of sample_env "passed" readiness ≡ true)
    ↔ HoldsReady sample_env live_settings metrics_file
unfolding evaluate_readiness evaluate_metrics read_dictionary reason_codes checks failing decision
    ◌>>=◌ or_raise float_metric int_metric flag_metric to_bool to_float to_int str_eq get
evaluate_readiness-passed_example =
    evaluate_readiness-passed sample_env live_settings "latest_metrics.json" noon metrics_file
      readiness refl

abbrev request : ArmRequest sample_env
request = record {
  max_notional_usdc = 2_000_000;
  daily_loss_limit_usdc = 1_000_000;
  weekly_loss_limit_usdc = 2_000_000;
  ttl_minutes = pos 60;
}

abbrev commands : List (Command sample_env)
commands =
    arming (fields (("passed", Json.bool true) ∷ [])) request noon
    ∷ pausing "operator_pause" noon
    ∷ arming (fields (("passed", Json.bool true) ∷ [])) request noon
    ∷ []

status-refines_example :
    (d : Fields sample_env.Float) × (status sample_env noon (run sample_env commands none)
      ≡ return d)
    × Shows sample_env noon (replay_commands sample_env commands idle) d
unfolding is_writable has_key str_eq get isoformat_utc add_minutes
status-refines_example =
    status-refines sample_env sample-IsObjectCodec commands noon
      ((refl, refl), (tt, ((refl, refl), tt)))

abbrev venue : Venue sample_env
venue = record {
  order = λ i o a s t.
      return (fields (("transaction", text "unsigned") ∷ ("requestId", text "r1") ∷ []));
  sign = λ transaction id. return "signed";
  execute = λ transaction id.
      return (fields (("status", text "Success") ∷ ("signature", text "sig") ∷ []));
}

abbrev swap : SwapRequest
swap = record {
  input_mint = default_usdc_mint;
  output_mint = default_sol_mint;
  amount = pos 1_000_000;
  slippage_bps = pos 50;
}

abbrev clock : Clock
clock = record { evaluated_at = noon; checked_at = noon; executed_at = noon }

abbrev world : World sample_env
world = record { calls = []; ledger = [] }

execute_swap-guarded_example :
    Unless sample_env
      ((live_settings.kill_switch ≡ false)
        × HoldsReady sample_env live_settings metrics_file
        × Permits sample_env live_settings swap noon (replay_commands sample_env commands idle)
        × (truthy live_settings.signer_pubkey ≡ true))
      world
      (execute_swap sample_env live_settings venue swap clock metrics_file
        (run sample_env commands none)
        world)
unfolding is_writable has_key str_eq get isoformat_utc add_minutes
execute_swap-guarded_example =
    execute_swap-guarded sample_env sample-IsObjectCodec live_settings venue swap clock metrics_file
      commands world ((refl, refl), (tt, ((refl, refl), tt)))

run_swap-Progress_example :
    Progress sample_env venue swap clock "pubkey" world
      (run_swap sample_env venue swap clock "pubkey" world)
run_swap-Progress_example = run_swap-Progress sample_env venue swap clock "pubkey" world
