-- ===== src/Intent/Owner.antt =====
-- execution_intent/owner.py: ExecutionIntentOwner. `create_spot_intent` persists one intent, ready
-- or rejected, from a risk verdict and a quote.
use Prim.Native.String.{◌++◌ as text_append}
use defi_engine.Base.{
  ℕ, String, Bool, false, Option, none, some, List, [], ◌∷◌, ◌++◌, map, ◌==◌, if◌then◌else◌, str_eq,
  find_first, is_none, not,
}
use defi_engine.Base.Int.{ℤ}
use defi_engine.Base.Text.{parse_int, str_ℕ, join}
use defi_engine.Base.Time.{Instant, DateTime, ensure_utc, or_else, stamp}
use defi_engine.Json.{texts}
use defi_engine.Env.{Env}
use defi_engine.Settings.{Settings}
use defi_engine.Truth.{
  Database, finish, Result, return, integrity_error, ◌>>◌, raise_if, ExecutionIntent,
  RiskGlobalRegimeGate, QuoteSnapshot,
}
use defi_engine.Risk.{decode_json_array}
use defi_engine.Intent.Evaluation.{
  EvaluatedExecutionIntent, evaluate_inputs, normalize_direction, intent_side,
}

-- `_build_intent_key`
unfoldable pub build_intent_key : ℕ → ℕ → Instant → String
unfolding stamp str_ℕ
build_intent_key risk_verdict_id quote_snapshot_id created_at = text_append "exec_" (
    text_append (stamp created_at) (
      text_append "_risk"
        (text_append (str_ℕ risk_verdict_id) (text_append "_quote" (str_ℕ quote_snapshot_id)))))

-- `_summarize_reason`
unfoldable pub summarize_intent : String → List String → String
unfolding join
summarize_intent intent_state reason_codes =
    if str_eq intent_state "ready"
    then "Execution intent selected a bounded paper-only quote-backed spot entry for settlement."
    else text_append "Execution intent rejected the proposed spot action: " (join ", " reason_codes)

abbrev opt {ℓ κ} : {A : Type ℓ} {B : Type κ} → Option A → (A → B) → Option B
opt none f = none
opt (some a) f = some (f a)

abbrev opt_join {ℓ κ} : {A : Type ℓ} {B : Type κ} → Option A → (A → Option B) → Option B
opt_join none f = none
opt_join (some a) f = f a

abbrev provider_or_unknown : {E : Env} → Option (QuoteSnapshot E) → String
provider_or_unknown none = "unknown"
provider_or_unknown (some quote) = quote.provider

module _ (E : Env) where
  open E use {Float, dumps, new_id}

  -- The row that `create_spot_intent` persists.
  unfoldable pub intent_row :
      Database E
      → String
      → Option (RiskGlobalRegimeGate E)
      → Option (QuoteSnapshot E)
      → EvaluatedExecutionIntent E
      → Instant
      → ExecutionIntent E
  unfolding normalize_direction intent_side parse_int
  intent_row db intent_key risk quote evaluated created_at = record {
    id = new_id (map (λ row. row.id) db.intents);
    intent_key = intent_key;
    risk_verdict_id = opt risk (λ r. r.id);
    policy_trace_id = opt risk (λ r. r.policy_trace_id);
    condition_snapshot_id = opt risk (λ r. r.condition_snapshot_id);
    source_feature_run_id = opt risk (λ r. r.source_feature_run_id);
    quote_snapshot_id = opt quote (λ q. q.id);
    bucket_start_utc = opt risk (λ r. r.bucket_start_utc);
    intent_state = evaluated.intent_state;
    venue = provider_or_unknown quote;
    settlement_model = "paper_spot_v1";
    strategy_family = "global_regime_v1";
    policy_state = opt risk (λ r. r.policy_state);
    risk_state = opt risk (λ r. r.risk_state);
    request_direction = opt_join quote (λ q. normalize_direction q.request_direction);
    intent_side = opt_join quote (λ q. intent_side q.request_direction);
    intent_role = "entry";
    entry_intent = "quote_backed_spot_entry";
    exit_intent = "not_owned";
    stop_intent = "not_owned";
    input_mint = opt quote (λ q. q.input_mint);
    output_mint = opt quote (λ q. q.output_mint);
    quote_size_lamports = opt_join quote (λ q. parse_int (some q.input_amount));
    quoted_output_amount = opt_join quote (λ q. q.output_amount);
    reason_codes_json = dumps (texts evaluated.reason_codes);
    trace_json = dumps evaluated.trace_payload;
    created_at = created_at;
  }

  unfoldable pub add_intent : Database E → ExecutionIntent E → Database E
  add_intent db row = record db { intents = db.intents ++ row ∷ [] }

  -- The unique constraint on `intent_key`.
  unfoldable pub intent_key_taken : Database E → String → Bool
  intent_key_taken db key = not (is_none (find_first (λ row. str_eq row.intent_key key) db.intents))

  pub record IntentAnswer : Type 0 where
    pub execution_intent_id : ℕ
    pub intent_key : String
    pub intent_state : String
    pub ready : Bool
    pub risk_verdict_id : Option ℕ
    pub quote_snapshot_id : Option ℕ
    pub policy_trace_id : Option ℕ
    pub condition_snapshot_id : Option ℕ
    pub source_feature_run_id : Option String
    pub input_mint : Option String
    pub output_mint : Option String
    pub quote_size_lamports : Option ℤ
    pub quoted_output_amount : Option String
    pub intent_side : Option String
    pub intent_role : String
    pub settlement_model : String
    pub reason : String
    pub reason_codes : List String
    pub is_scaffold : Bool

  -- `_serialize_intent`
  unfoldable pub serialize_intent : ExecutionIntent E → IntentAnswer
  unfolding summarize_intent
  serialize_intent row =
      let reason_codes =
        decode_json_array E "execution_intent_payload_malformed" row.reason_codes_json in
      record {
        execution_intent_id = row.id;
        intent_key = row.intent_key;
        intent_state = row.intent_state;
        ready = str_eq row.intent_state "ready";
        risk_verdict_id = row.risk_verdict_id;
        quote_snapshot_id = row.quote_snapshot_id;
        policy_trace_id = row.policy_trace_id;
        condition_snapshot_id = row.condition_snapshot_id;
        source_feature_run_id = row.source_feature_run_id;
        input_mint = row.input_mint;
        output_mint = row.output_mint;
        quote_size_lamports = row.quote_size_lamports;
        quoted_output_amount = row.quoted_output_amount;
        intent_side = row.intent_side;
        intent_role = row.intent_role;
        settlement_model = row.settlement_model;
        reason = summarize_intent row.intent_state reason_codes;
        reason_codes = reason_codes;
        is_scaffold = false;
      }

  unfoldable pub find_verdict : Database E → ℕ → Option (RiskGlobalRegimeGate E)
  find_verdict db id = find_first (λ row. row.id == id) db.risk_verdicts

  unfoldable pub find_quote : Database E → ℕ → Option (QuoteSnapshot E)
  find_quote db id = find_first (λ row. row.id == id) db.quotes

  -- `create_spot_intent`, with the clock's time for a missing `intent_created_at`.
  unfoldable pub create_spot_intent :
      Settings E → ℕ → ℕ → Option DateTime → Instant → Database E → Result IntentAnswer × Database E
  unfolding build_intent_key find_verdict find_quote evaluate_inputs intent_row intent_key_taken
      add_intent serialize_intent
  create_spot_intent settings risk_verdict_id quote_snapshot_id intent_created_at now db =
      let created_at = or_else (ensure_utc intent_created_at) now in
      let intent_key = build_intent_key risk_verdict_id quote_snapshot_id created_at in
      let risk = find_verdict db risk_verdict_id in
      let quote = find_quote db quote_snapshot_id in
      let evaluated = evaluate_inputs E settings risk quote created_at in
      let row = intent_row db intent_key risk quote evaluated created_at in
      finish db (do
        raise_if (intent_key_taken db intent_key)
            (integrity_error "UNIQUE constraint failed: execution_intent_v1.intent_key")
        return (serialize_intent row, add_intent db row))
