-- ===== src/Intent/Evaluation.antt =====
-- execution_intent/owner.py: `_evaluate_inputs` and the helpers that it calls. Every guard that
-- fails adds its reason code; an intent is ready if there is none.
use Prim.Native.String.{◌++◌ as text_append}
use defi_engine.Base.{
  ◌-◌, String, Bool, true, false, not, ◌||◌, Option, none, some, List, [], ◌∷◌, ◌++◌, ltb,
  if◌then◌else◌, str_eq, contains, is_nil, ◌==◌,
}
use defi_engine.Base.Int.{ℤ, pos, eq_ℤ}
use defi_engine.Base.Text.{parse_int}
use defi_engine.Base.Time.{
  Instant, isoformat, isoformat_utc, naive, column, ensure_utc, or_next, five_minutes,
}
use defi_engine.Json.{Json, object, texts, text?, null}
use defi_engine.Env.{Env}
use defi_engine.Settings.{Settings, usdc_mint}
use defi_engine.Truth.{RiskGlobalRegimeGate, QuoteSnapshot}
use defi_engine.Policy.{flag}

-- `_normalize_direction`, which three owners share: _BUY_DIRECTIONS and _SELL_DIRECTIONS.
unfoldable pub normalize_direction : Option String → Option String
normalize_direction none = none
normalize_direction (some value) =
    if str_eq value "buy" || str_eq value "usdc_to_token"
    then some "usdc_to_token"
    else if str_eq value "sell" || str_eq value "token_to_usdc"
    then some "token_to_usdc"
    else none

-- `_intent_side`
unfoldable pub intent_side : Option String → Option String
unfolding normalize_direction
intent_side value = elim (normalize_direction value) [
  | none ↦ none
  | some direction ↦
      if str_eq direction "usdc_to_token"
      then some "buy"
      else if str_eq direction "token_to_usdc"
      then some "sell"
      else none
]

-- `if test: reason_codes.append(code)`
abbrev pub when : Bool → String → List String
when true code = code ∷ []
when false code = []

abbrev pub mem_ℤ : ℤ → List ℤ → Bool
mem_ℤ n [] = false
mem_ℤ n (m ∷ ms) = eq_ℤ n m || mem_ℤ n ms

-- The two tests on the age of a quote, with the codes that each owner gives them.
unfoldable pub age_codes : String → String → String → Option Instant → Instant → List String
age_codes missing after stale none attempted_at = missing ∷ []
age_codes missing after stale (some quoted_at) attempted_at =
    if ltb attempted_at quoted_at
    then after ∷ []
    else when (ltb five_minutes (attempted_at - quoted_at)) stale

abbrev pub direction_codes : Option String → List String
direction_codes none = "quote_request_direction_unsupported" ∷ []
direction_codes (some direction) =
    when (not (str_eq direction "usdc_to_token"))
      (text_append "quote_direction_incompatible:" direction)

abbrev pub size_codes : List ℤ → Option ℤ → List String
size_codes amounts none = "quote_input_amount_invalid" ∷ []
size_codes amounts (some n) = when (not (mem_ℤ n amounts)) "quote_size_not_configured"

abbrev pub none_or_zero : Option ℤ → Bool
none_or_zero none = true
none_or_zero (some n) = eq_ℤ n (pos 0)

module _ (E : Env) where
  open E use {Float}

  pub record EvaluatedExecutionIntent : Type 0 where
    pub intent_state : String
    pub reason_codes : List String
    pub trace_payload : Json Float

  -- `ensure_utc(captured_at) or ensure_utc(requested_at)`, which two owners share.
  unfoldable pub quote_timestamp : QuoteSnapshot E → Option Instant
  unfolding ensure_utc
  quote_timestamp quote =
      or_next (ensure_utc (some (naive quote.captured_at))) (ensure_utc (column quote.requested_at))

  unfoldable pub risk_codes : Option (RiskGlobalRegimeGate E) → List String
  risk_codes none = "risk_verdict_missing" ∷ []
  risk_codes (some risk) =
      when (not (str_eq risk.risk_state "allowed"))
        (text_append "risk_state_not_allowed:" risk.risk_state)
      ++ (when (flag risk.unresolved_input_flag) "risk_unresolved_input"
          ++ (when (not (risk.stale_data_authorized_flag == 1)) "risk_stale_data_not_authorized"
              ++ when (not (str_eq risk.policy_state "eligible_long"))
                  (text_append "policy_state_unsupported_for_spot_intent:" risk.policy_state)))

  -- The checks on the mints of a quote.
  unfoldable pub mint_codes : Settings E → QuoteSnapshot E → List String
  unfolding usdc_mint
  mint_codes settings quote =
      when
        (not (contains quote.input_mint settings.token_universe)
          || not (contains quote.output_mint settings.token_universe))
        "quote_outside_tracked_universe"
      ++ when (not (str_eq quote.input_mint usdc_mint) || str_eq quote.output_mint usdc_mint)
          "quote_not_supported_spot_buy_pair"

  unfoldable pub quote_codes : Settings E → Option (QuoteSnapshot E) → Instant → List String
  unfolding normalize_direction mint_codes age_codes quote_timestamp parse_int
  quote_codes settings none created_at = "quote_snapshot_missing" ∷ []
  quote_codes settings (some quote) created_at =
      direction_codes (normalize_direction quote.request_direction)
      ++ (mint_codes settings quote
          ++ (age_codes "quote_timestamp_missing" "execution_intent_quote_after_creation"
                "execution_intent_quote_stale" (quote_timestamp quote) created_at
              ++ (size_codes settings.quote_amounts_lamports (parse_int (some quote.input_amount))
                  ++ when (none_or_zero (parse_int quote.output_amount))
                      "quote_output_amount_invalid")))

  abbrev scope_json : Json Float
  scope_json = object (
      ("paper_only", Json.bool true)
      ∷ ("settlement_model", Json.text "paper_spot_v1")
      ∷ ("strategy_family", Json.text "global_regime_v1")
      ∷ ("entry_intent", Json.text "quote_backed_spot_entry")
      ∷ ("exit_intent", Json.text "not_owned")
      ∷ ("stop_intent", Json.text "not_owned")
      ∷ [])

  abbrev risk_json : Option (RiskGlobalRegimeGate E) → Json Float
  risk_json none = object (
      ("risk_verdict_id", null)
      ∷ ("policy_trace_id", null)
      ∷ ("policy_state", null)
      ∷ ("risk_state", null)
      ∷ ("bucket_start_utc", null)
      ∷ [])
  risk_json (some risk) = object (
      ("risk_verdict_id", Json.num (pos risk.id))
      ∷ ("policy_trace_id", Json.num (pos risk.policy_trace_id))
      ∷ ("policy_state", Json.text risk.policy_state)
      ∷ ("risk_state", Json.text risk.risk_state)
      ∷ ("bucket_start_utc", Json.text (isoformat risk.bucket_start_utc))
      ∷ [])

  abbrev time_json : Option Instant → Json Float
  time_json none = null
  time_json (some t) = Json.text (isoformat_utc t)

  abbrev quote_json : Option (QuoteSnapshot E) → Json Float
  quote_json none = object (
      ("quote_snapshot_id", null)
      ∷ ("provider", null)
      ∷ ("request_direction", null)
      ∷ ("input_mint", null)
      ∷ ("output_mint", null)
      ∷ ("input_amount", null)
      ∷ ("output_amount", null)
      ∷ [])
  quote_json (some quote) = object (
      ("quote_snapshot_id", Json.num (pos quote.id))
      ∷ ("provider", Json.text quote.provider)
      ∷ ("request_direction", text? (normalize_direction quote.request_direction))
      ∷ ("input_mint", Json.text quote.input_mint)
      ∷ ("output_mint", Json.text quote.output_mint)
      ∷ ("input_amount", Json.text quote.input_amount)
      ∷ ("output_amount", text? quote.output_amount)
      ∷ ("quote_timestamp_utc", time_json (quote_timestamp quote))
      ∷ [])

  unfoldable pub intent_trace :
      Option (RiskGlobalRegimeGate E) → Option (QuoteSnapshot E) → String → List String → Json Float
  intent_trace risk quote intent_state reason_codes = object (
      ("intent_scope", scope_json)
      ∷ ("risk_input", risk_json risk)
      ∷ ("quote_input", quote_json quote)
      ∷ (
        "decision",
        object
            (("intent_state", Json.text intent_state) ∷ ("reason_codes", texts reason_codes) ∷ []),
      )
      ∷ [])

  -- `_evaluate_inputs`
  unfoldable pub evaluate_inputs :
      Settings E
      → Option (RiskGlobalRegimeGate E)
      → Option (QuoteSnapshot E)
      → Instant
      → EvaluatedExecutionIntent
  unfolding risk_codes quote_codes
  evaluate_inputs settings risk quote created_at =
      let reason_codes = risk_codes risk ++ quote_codes settings quote created_at in
      let intent_state = if is_nil reason_codes then "ready" else "rejected" in
      record {
        intent_state = intent_state;
        reason_codes = reason_codes;
        trace_payload = intent_trace risk quote intent_state reason_codes;
      }
