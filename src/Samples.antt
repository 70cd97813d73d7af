-- ===== src/Samples.antt =====
-- Small concrete inputs: an `Env` in which everything runs, a policy source, and a database with
-- one condition run, one fresh feature receipt and two quotes.
use defi_engine.Base.{
  ℕ, suc, ◌+◌, ◌-◌, ◌*◌, ◌/◌, refl, String, Bool, true, false, Option, none, some, List, [], ◌∷◌,
  ltb, leb, if◌then◌else◌, str_eq,
}
use defi_engine.Base.Int.{ℤ, pos, negsuc}
use defi_engine.Base.Time.{Instant, aware}
use defi_engine.Json.{Json, object}
use defi_engine.Env.{Env, IsCodec, IsObjectCodec}
use defi_engine.Settings.{
  Settings, default_token_universe, default_quote_amounts, default_usdc_mint, default_sol_mint,
}
use defi_engine.Truth.{Database}
use defi_engine.Policy.{GlobalRegimePolicyRule, GlobalRegimePolicyConfig, PolicySource}

-- Amounts in millionths, cut off at zero: enough for the samples, which hold no fractions below.
abbrev scaled : ℤ → ℕ
scaled (pos n) = n * 1_000_000
scaled (negsuc n) = 0

abbrev next_id : List ℕ → ℕ
next_id [] = 1
next_id (n ∷ ns) = let rest = next_id ns in if ltb n rest then rest else suc n

-- 2024-02-29T12:34:56Z
abbrev pub noon : Instant
noon = 1_709_210_096_000_000

abbrev pub sample_env : Env
sample_env = record {
  Float = ℕ;
  float_zero = 0;
  of_int = scaled;
  int_div = λ n k. scaled n / k;
  add = λ a b. a + b;
  sub = λ a b. a - b;
  mul = λ a b. a * b / 1_000_000;
  div = λ a b. a * 1_000_000 / b;
  lt = ltb;
  le = leb;
  to_int = λ x. pos (x / 1_000_000);
  trunc = λ x. some (pos (x / 1_000_000));
  float_of = λ s. none;
  is_finite = λ x. true;
  round4 = λ x. x;
  abs = λ x. x;
  fromisoformat = λ s.
      if str_eq s "2024-02-29T13:34:56+00:00" then some (aware (noon + 3_600_000_000)) else none;
  Encoded = Option (Json ℕ);
  dumps = some;
  loads = λ e. e;
  str_of = λ v. "";
  new_id = next_id;
}

pub sample-IsCodec : IsCodec sample_env
sample-IsCodec = record { loads-dumps = λ l. refl }

pub sample-IsObjectCodec : IsObjectCodec sample_env
sample-IsObjectCodec = record { loads-dumps_object = λ l h. refl }

abbrev pub rule : String → Bool → Bool → GlobalRegimePolicyRule
rule bias long short = record {
  advisory_bias = bias;
  allow_new_long_hypotheses = long;
  allow_new_short_hypotheses = short;
  notes = "";
}

-- global_regime_v1_bias_map.yaml
abbrev pub bias_map : GlobalRegimePolicyConfig
bias_map = record {
  version = pos 1;
  condition_set = "global_regime_v1";
  status = "runtime_policy_input";
  description = none;
  regimes =
      ("long_friendly", rule "long_friendly" true false)
      ∷ ("short_friendly", rule "short_friendly" false true)
      ∷ ("risk_off", rule "risk_off" false false)
      ∷ ("no_trade", rule "no_trade" false false)
      ∷ [];
}

abbrev pub sample_source : PolicySource
sample_source = record {
  path = "global_regime_v1_bias_map.yaml";
  file_text = some "version: 1";
  decode = λ t. some bias_map;
  sha256 = λ t. "hash";
}

abbrev pub sample_settings : Settings sample_env
sample_settings = record {
  token_universe = default_token_universe;
  quote_amounts_lamports = default_quote_amounts;
}

abbrev pub lane_json : Bool → Json ℕ
lane_json eligible = object (
    ("required_for_authorization", Json.bool true)
    ∷ ("downstream_eligible", Json.bool eligible)
    ∷ ("freshness_state", Json.text "healthy_recent")
    ∷ [])

abbrev pub receipt_json : Bool → Json ℕ
receipt_json eligible = object (
    ("required_lanes", object (("jupiter-quotes", lane_json eligible) ∷ []))
    ∷ ("authorized", Json.bool eligible)
    ∷ [])

abbrev pub sample_db : Database sample_env
sample_db = record {
  tokens = record { id = 1; mint = default_sol_mint; decimals = some 9 } ∷ [];
  token_metadata = [];
  quotes =
      record {
        id = 1;
        input_mint = default_usdc_mint;
        output_mint = default_sol_mint;
        input_amount = "10000000";
        output_amount = some "100000000";
        price_impact_pct = none;
        slippage_bps = some (pos 50);
        request_direction = some "usdc_to_token";
        requested_at = none;
        provider = "jupiter";
        captured_at = noon;
      }
      ∷ record {
        id = 2;
        input_mint = default_sol_mint;
        output_mint = default_usdc_mint;
        input_amount = "100000000";
        output_amount = some "12000000";
        price_impact_pct = none;
        slippage_bps = some (pos 50);
        request_direction = some "token_to_usdc";
        requested_at = none;
        provider = "jupiter";
        captured_at = noon + 120_000_000;
      }
      ∷ [];
  feature_runs =
      record { id = 1; run_id = "feat"; freshness_snapshot_json = some (some (receipt_json true)) }
      ∷ [];
  condition_runs =
      record {
        id = 1;
        run_id = "cond";
        condition_set = "global_regime_v1";
        model_family = "gaussian_hmm";
        status = "success";
        started_at = noon;
        finished_at = some noon;
      }
      ∷ [];
  condition_snapshots =
      record {
        id = 7;
        condition_run_id = "cond";
        source_feature_run_id = "feat";
        bucket_start_utc = noon;
        semantic_regime = "long_friendly";
        confidence = 900_000;
        blocked_flag = 0;
        blocking_reason = none;
        macro_context_state = some "available";
        created_at = noon;
      }
      ∷ [];
  policy_traces = [];
  risk_verdicts = [];
  intents = [];
  paper_sessions = [];
  paper_fills = [];
  paper_positions = [];
  paper_reports = [];
  backtest_sessions = [];
  backtest_fills = [];
  backtest_positions = [];
  backtest_reports = [];
}
