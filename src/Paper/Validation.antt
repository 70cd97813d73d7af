-- ===== src/Paper/Validation.antt =====
-- settlement/paper.py: `_validate_inputs` and `_validate_close_inputs`, with the lookups and parsers
-- that they share.
use Prim.Native.String.{◌++◌ as text_append}
use defi_engine.Base.{
  ℕ, ◌^◌, String, Bool, true, false, not, ◌||◌, ◌&&◌, Option, none, some, List, [], ◌∷◌, ◌++◌, ltb,
  ◌==◌, if◌then◌else◌, str_eq, is_text, same_text, is_none, is_nil, find_first, best, select,
}
use defi_engine.Base.Int.{ℤ, pos, eq_ℤ}
use defi_engine.Base.Text.{parse_int, codes, strip}
use defi_engine.Base.Time.{Instant}
use defi_engine.Env.{Env}
use defi_engine.Settings.{usdc_mint}
use defi_engine.Truth.{
  Database, ExecutionIntent, QuoteSnapshot, PaperPosition, TokenRegistry, TokenMetadataSnapshot,
}
use defi_engine.Risk.{decode_json_array}
use defi_engine.Intent.{when, age_codes, quote_timestamp, normalize_direction}

-- An optional text in an f-string.
abbrev pub str_opt : Option String → String
str_opt none = "None"
str_opt (some s) = s

abbrev pub same_ℤ : Option ℤ → Option ℤ → Bool
same_ℤ none none = true
same_ℤ (some a) (some b) = eq_ℤ a b
same_ℤ _ _ = false

abbrev pub decimals_or {ℓ} : {A : Type ℓ} → Option A → (A → Option ℕ) → Option ℕ → Option ℕ
decimals_or none get rest = rest
decimals_or (some row) get rest = elim (get row) [ none ↦ rest | some d ↦ some d ]

module _ (E : Env) where
  open E use {float_zero, le, mul, of_int, to_int}

  -- `_resolve_asset_decimals`: the registry first, then the latest metadata snapshot.
  unfoldable pub resolve_asset_decimals : Database E → String → Option ℕ
  resolve_asset_decimals db mint =
      decimals_or (find_first (λ (row : TokenRegistry). str_eq row.mint mint) db.tokens)
        (λ row. row.decimals)
        (decimals_or
          (best
            (λ (a b : TokenMetadataSnapshot).
              ltb a.captured_at b.captured_at || (a.captured_at == b.captured_at && ltb a.id b.id))
            (select (λ row. str_eq row.mint mint) db.token_metadata))
          (λ row. row.decimals) none)

  -- The checks on a ready intent and its quote, which all run: what it refers to, ...
  unfoldable pub reference_codes : ExecutionIntent E → QuoteSnapshot E → List String
  reference_codes intent quote =
      when (elim intent.quote_snapshot_id [ none ↦ true | some id ↦ not (id == quote.id) ])
        "execution_intent_quote_snapshot_mismatch"
      ++ (when (is_none intent.risk_verdict_id) "execution_intent_risk_verdict_missing"
          ++ when (is_none intent.policy_trace_id) "execution_intent_policy_trace_missing")

  -- ... its direction and its side, ...
  unfoldable pub side_codes : ExecutionIntent E → List String
  side_codes intent =
      when (not (is_text intent.request_direction "usdc_to_token"))
        (text_append "execution_intent_direction_unsupported:" (str_opt intent.request_direction))
      ++ when (not (is_text intent.intent_side "buy"))
          (text_append "execution_intent_side_unsupported:" (str_opt intent.intent_side))

  -- ... its mints and its amounts, ...
  unfoldable pub amount_codes : ExecutionIntent E → QuoteSnapshot E → List String
  unfolding parse_int
  amount_codes intent quote =
      when (not (is_text intent.input_mint quote.input_mint)) "execution_intent_input_mint_mismatch"
      ++ (when (not (is_text intent.output_mint quote.output_mint))
            "execution_intent_output_mint_mismatch"
          ++ (when (not (same_ℤ intent.quote_size_lamports (parse_int (some quote.input_amount))))
                "execution_intent_quote_size_mismatch"
              ++ when (not (same_text intent.quoted_output_amount quote.output_amount))
                  "execution_intent_quote_output_mismatch"))

  -- ... and the age of the quote.
  unfoldable pub match_codes : ExecutionIntent E → QuoteSnapshot E → Instant → List String
  unfolding reference_codes side_codes amount_codes age_codes quote_timestamp
  match_codes intent quote attempted_at =
      reference_codes intent quote
      ++ (side_codes intent
          ++ (amount_codes intent quote
              ++ age_codes "execution_intent_quote_timestamp_missing"
                  "settlement_quote_after_attempt" "settlement_quote_stale"
                  (quote_timestamp E quote) attempted_at))

  abbrev pub quote_match_codes :
      ExecutionIntent E → Option (QuoteSnapshot E) → Instant → List String
  unfolding match_codes
  quote_match_codes intent none attempted_at = "execution_intent_quote_snapshot_missing" ∷ []
  quote_match_codes intent (some quote) attempted_at = match_codes intent quote attempted_at

  -- `_validate_inputs`, with its three early returns.
  unfoldable pub validate_inputs :
      Option (ExecutionIntent E) → Option (QuoteSnapshot E) → Instant → List String
  unfolding match_codes decode_json_array
  validate_inputs none quote attempted_at = "execution_intent_missing" ∷ []
  validate_inputs (some intent) quote attempted_at =
      if not (str_eq intent.intent_state "ready")
      then text_append "execution_intent_not_ready:" intent.intent_state
        ∷ decode_json_array E "paper_session_payload_malformed" intent.reason_codes_json
      else quote_match_codes intent quote attempted_at

  -- The size check of a close: the quote must sell exactly the position.
  abbrev pub close_size_codes : Option ℕ → PaperPosition E → QuoteSnapshot E → List String
  unfolding parse_int
  close_size_codes none position quote = "close_asset_decimals_missing" ∷ []
  close_size_codes (some decimals) position quote =
      when
        (not (
          same_ℤ (parse_int (some quote.input_amount))
            (some (to_int (mul position.net_quantity (of_int (pos (10 ^ decimals))))))))
        "close_quote_size_mismatch"

  unfoldable pub close_quote_codes :
      Database E → PaperPosition E → Option (QuoteSnapshot E) → Instant → List String
  unfolding normalize_direction usdc_mint resolve_asset_decimals age_codes quote_timestamp parse_int
  close_quote_codes db position none attempted_at = "close_quote_snapshot_missing" ∷ []
  close_quote_codes db position (some quote) attempted_at =
      when (not (is_text (normalize_direction quote.request_direction) "token_to_usdc"))
        (text_append "close_quote_direction_unsupported:" (str_opt quote.request_direction))
      ++ (when (not (str_eq quote.input_mint position.mint)) "close_quote_input_mint_mismatch"
          ++ (when (not (str_eq quote.output_mint usdc_mint)) "close_quote_output_not_usdc"
              ++ (close_size_codes (resolve_asset_decimals db position.mint) position quote
                  ++ age_codes "close_quote_timestamp_missing" "close_quote_after_attempt"
                      "close_quote_stale" (quote_timestamp E quote) attempted_at)))

  -- `_validate_close_inputs`
  unfoldable pub validate_close_inputs :
      Database E → PaperPosition E → Option (QuoteSnapshot E) → Instant → String → List String
  unfolding close_quote_codes strip
  validate_close_inputs db position quote attempted_at close_reason =
      when (is_nil (strip (codes close_reason))) "close_reason_missing"
      ++ (when (le position.net_quantity float_zero) "paper_position_not_open"
          ++ close_quote_codes db position quote attempted_at)
