-- ===== src/Paper/Checks.antt =====
-- settlement/paper.py: exactly when `_validate_inputs` finds nothing.
use mathlib.Core.Path.{subst}
use defi_engine.Base.{
  ◌≡◌, refl, ◌↔◌, ℕ, true, not, Option, none, some, arith, is_nil, str_eq, str_eq→eq, eq→str_eq,
  is_text, same_text,
}
use defi_engine.Base.Text.{parse_int}
use defi_engine.Base.Time.{Instant}
use defi_engine.Env.{Env}
use defi_engine.Truth.{ExecutionIntent, QuoteSnapshot}
use defi_engine.Intent.{age_codes, quote_timestamp}
use defi_engine.Intent.Ready.{IsRecent, is_nil-age_codes}
use defi_engine.Paper.Validation.{
  same_ℤ, reference_codes, side_codes, amount_codes, match_codes, validate_inputs,
}
use defi_engine.Paper.Guards.{
  is_nil-append_four, is_text_iff, same_text_iff, same_ℤ_iff, is_nil-whens, not-flip,
  references_iff,
}

module _ (E : Env) where
  -- An intent that agrees with its quote in every field that settlement relies on.
  pub record Matches (intent : ExecutionIntent E) (quote : QuoteSnapshot E) (at : Instant)
      : Type 0 where
    pub same_quote : intent.quote_snapshot_id ≡ some quote.id
    pub has_verdict : (id : ℕ) × (intent.risk_verdict_id ≡ some id)
    pub has_trace : (id : ℕ) × (intent.policy_trace_id ≡ some id)
    pub buys : intent.request_direction ≡ some "usdc_to_token"
    pub side : intent.intent_side ≡ some "buy"
    pub same_input : intent.input_mint ≡ some quote.input_mint
    pub same_output : intent.output_mint ≡ some quote.output_mint
    pub same_size : intent.quote_size_lamports ≡ parse_int (some quote.input_amount)
    pub same_quoted : intent.quoted_output_amount ≡ quote.output_amount
    pub recent : IsRecent (quote_timestamp E quote) at

  reference_codes-nil :
      (intent : ExecutionIntent E) (quote : QuoteSnapshot E)
      → (is_nil (reference_codes E intent quote) ≡ true) ↔ (
          (intent.quote_snapshot_id ≡ some quote.id)
          × ((id : ℕ) × (intent.risk_verdict_id ≡ some id))
          × ((id : ℕ) × (intent.policy_trace_id ≡ some id)))
  unfolding reference_codes
  reference_codes-nil intent quote =
      references_iff intent.quote_snapshot_id quote.id intent.risk_verdict_id intent.policy_trace_id
        "execution_intent_quote_snapshot_mismatch" "execution_intent_risk_verdict_missing"
        "execution_intent_policy_trace_missing"

  side_codes-nil :
      (intent : ExecutionIntent E)
      → (is_nil (side_codes E intent) ≡ true)
        ↔ ((intent.request_direction ≡ some "usdc_to_token") × (intent.intent_side ≡ some "buy"))
  unfolding side_codes
  side_codes-nil intent =
      let d = is_text intent.request_direction "usdc_to_token" in
      let t = is_text intent.intent_side "buy" in
      let buys = is_text_iff intent.request_direction "usdc_to_token" in
      let side = is_text_iff intent.intent_side "buy" in
      (
        λ h. (buys.0 (ground arith), side.0 (ground arith)),
        λ (p, q). let p' = buys.1 p in let q' = side.1 q in ground arith,
      )

  amount_codes-nil :
      (intent : ExecutionIntent E) (quote : QuoteSnapshot E)
      → (is_nil (amount_codes E intent quote) ≡ true) ↔ (
          (intent.input_mint ≡ some quote.input_mint)
          × (intent.output_mint ≡ some quote.output_mint)
          × (intent.quote_size_lamports ≡ parse_int (some quote.input_amount))
          × (intent.quoted_output_amount ≡ quote.output_amount))
  unfolding amount_codes
  amount_codes-nil intent quote =
      let a = is_text intent.input_mint quote.input_mint in
      let b = is_text intent.output_mint quote.output_mint in
      let c = same_ℤ intent.quote_size_lamports (parse_int (some quote.input_amount)) in
      let d = same_text intent.quoted_output_amount quote.output_amount in
      let parts =
        is_nil-whens (not a) (not b) (not c) (not d) "execution_intent_input_mint_mismatch"
          "execution_intent_output_mint_mismatch" "execution_intent_quote_size_mismatch"
          "execution_intent_quote_output_mismatch" in
      let a_iff = is_text_iff intent.input_mint quote.input_mint in
      let b_iff = is_text_iff intent.output_mint quote.output_mint in
      let c_iff = same_ℤ_iff intent.quote_size_lamports (parse_int (some quote.input_amount)) in
      let d_iff = same_text_iff intent.quoted_output_amount quote.output_amount in
      (
        λ h.
            let (p, q, r, t) = parts.0 h in
            (
              a_iff.0 ((not-flip a).0 p),
              b_iff.0 ((not-flip b).0 q),
              c_iff.0 ((not-flip c).0 r),
              d_iff.0 ((not-flip d).0 t),
            ),
        λ (p, q, r, t). parts.1 (
          (not-flip a).1 (a_iff.1 p),
          (not-flip b).1 (b_iff.1 q),
          (not-flip c).1 (c_iff.1 r),
          (not-flip d).1 (d_iff.1 t),
        ),
      )

  match_codes-nil :
      (intent : ExecutionIntent E) (quote : QuoteSnapshot E) (at : Instant)
      → (is_nil (match_codes E intent quote at) ≡ true) ↔ Matches intent quote at
  unfolding match_codes
  match_codes-nil intent quote at =
      let age =
        is_nil-age_codes "execution_intent_quote_timestamp_missing" "settlement_quote_after_attempt"
          "settlement_quote_stale" (quote_timestamp E quote) at in
      let parts =
        is_nil-append_four (reference_codes E intent quote) (side_codes E intent)
          (amount_codes E intent quote)
          (age_codes "execution_intent_quote_timestamp_missing" "settlement_quote_after_attempt"
            "settlement_quote_stale" (quote_timestamp E quote) at) in
      (
        λ h.
            let (p, q, r, t) = parts.0 h in
            let (same_quote, has_verdict, has_trace) = (reference_codes-nil intent quote).0 p in
            let (buys, side) = (side_codes-nil intent).0 q in
            let (same_input, same_output, same_size, same_quoted) =
              (amount_codes-nil intent quote).0 r in
            record {
              same_quote = same_quote;
              has_verdict = has_verdict;
              has_trace = has_trace;
              buys = buys;
              side = side;
              same_input = same_input;
              same_output = same_output;
              same_size = same_size;
              same_quoted = same_quoted;
              recent = age.0 t;
            },
        λ m. parts.1 (
          (reference_codes-nil intent quote).1 (m.same_quote, m.has_verdict, m.has_trace),
          (side_codes-nil intent).1 (m.buys, m.side),
          (amount_codes-nil intent quote).1
              (m.same_input, m.same_output, m.same_size, m.same_quoted),
          age.1 m.recent,
        ),
      )

  -- Settlement finds nothing to object to exactly if there is an intent and a quote, the intent is
  -- ready, and the quote agrees with the intent in every field and is recent.
  pub validate_inputs-nil :
      (intent? : Option (ExecutionIntent E)) (quote? : Option (QuoteSnapshot E)) (at : Instant)
      → (is_nil (validate_inputs E intent? quote? at) ≡ true) ↔ (
          (intent : ExecutionIntent E) × (quote : QuoteSnapshot E) × (intent? ≡ some intent)
          × (quote? ≡ some quote)
          × (intent.intent_state ≡ "ready")
          × Matches intent quote at)
  unfolding validate_inputs
  validate_inputs-nil none quote? at = (λ h. cc, λ (intent, quote, e, f, g, m). cc)
  validate_inputs-nil (some intent) none at =
      (λ h. ground arith, λ (intent', quote, e, f, g, m). cc)
  validate_inputs-nil (some intent) (some quote) at = (
    λ h.
        let ready : str_eq intent.intent_state "ready" ≡ true = ground arith in
        let nothing : is_nil (match_codes E intent quote at) ≡ true = ground arith in
        (
          intent,
          quote,
          refl,
          refl,
          str_eq→eq intent.intent_state "ready" ready,
          (match_codes-nil intent quote at).0 nothing,
        ),
    λ (intent', quote', e, f, g, m).
        let same_intent : intent' ≡ intent = cc in
        let same_quote : quote' ≡ quote = cc in
        let ready =
          eq→str_eq intent.intent_state "ready"
            (subst (λ (i : ExecutionIntent E). i.intent_state ≡ "ready") same_intent g) in
        let nothing = (match_codes-nil intent quote at).1 (
          subst (λ i. Matches i quote at) same_intent
            (subst (λ q. Matches intent' q at) same_quote m)) in
        ground arith,
  )
