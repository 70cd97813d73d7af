-- ===== src/Paper/Settles.antt =====
-- settlement/paper.py: what `simulate_fill` leaves, on every way that it can end.
use mathlib.Core.Path.{subst}
use defi_engine.Base.{
  ◌≡◌, refl, ◌⊎◌, inl, inr, ℕ, String, true, false, Option, none, some, Bool-cases, if-true,
  if-false, arith, is_nil,
}
use defi_engine.Base.Time.{Instant, DateTime, ensure_utc, or_else}
use defi_engine.Env.{Env}
use defi_engine.Truth.{Database, Result, return, raise, type_error, ExecutionIntent, QuoteSnapshot}
use defi_engine.Truth.Returns.{finish-returns}
use defi_engine.Paper.Validation.{resolve_asset_decimals, validate_inputs}
use defi_engine.Paper.Metrics.{FillMetrics, build_fill_metrics}
use defi_engine.Paper.Store.{build_session_key}
use defi_engine.Paper.Skip.{FillAnswer, persist_skipped_session}
use defi_engine.Paper.Fill.{
  settle_intent, settle_decimals, settle_metrics, simulate_fill, find_intent, quote_of,
}
use defi_engine.Paper.Checks.{Matches, validate_inputs-nil}
use defi_engine.Paper.Rows.{Skipped, Filled, skip-returns, settle-returns}

module _ (E : Env) where
  -- A completed attempt either skipped or filled.
  abbrev pub Settled : ℕ → Instant → Database E → FillAnswer E → Database E → Type 0
  Settled execution_intent_id at db answer db' =
      let session_key = build_session_key execution_intent_id at in
      let intent? = find_intent E db execution_intent_id in
      Skipped E session_key at intent? (quote_of E db intent?) db answer db'
      ⊎ ((intent : ExecutionIntent E) × (quote : QuoteSnapshot E) × (intent? ≡ some intent)
          × (quote_of E db intent? ≡ some quote)
          × (intent.intent_state ≡ "ready")
          × Matches E intent quote at
          × Filled E session_key at intent quote db answer db')

  settle_decimals-returns :
      (db db' : Database E) (session_key : String) (at : Instant) (intent : ExecutionIntent E)
      (quote : QuoteSnapshot E) (answer : FillAnswer E) (decimals? : Option ℕ)
      → resolve_asset_decimals E db quote.output_mint ≡ decimals?
      → settle_decimals E db session_key at intent quote decimals? ≡ return (answer, db')
      → Filled E session_key at intent quote db answer db'
  settle_decimals-returns db db' session_key at intent quote answer none known h = cc
  settle_decimals-returns db db' session_key at intent quote answer (some decimals) known h =
      valued (build_fill_metrics E quote decimals) refl h
    where
      valued :
          (metrics? : Option (FillMetrics E))
          → build_fill_metrics E quote decimals ≡ metrics?
          → settle_metrics E db session_key at intent quote metrics? ≡ return (answer, db')
          → Filled E session_key at intent quote db answer db'
      valued none e h = cc
      valued (some metrics) e h =
          settle-returns E db db' session_key at intent quote decimals metrics answer known e h

  checked :
      (intent : ExecutionIntent E) (quote : QuoteSnapshot E) (at : Instant)
      → is_nil (validate_inputs E (some intent) (some quote) at) ≡ true
      → (intent.intent_state ≡ "ready") × Matches E intent quote at
  checked intent quote at h =
      let (intent', quote', e, f, ready, m) =
        (validate_inputs-nil E (some intent) (some quote) at).0 h in
      let same_intent : intent' ≡ intent = cc in
      let same_quote : quote' ≡ quote = cc in
      (
        subst (λ (i : ExecutionIntent E). i.intent_state ≡ "ready") same_intent ready,
        subst (λ i. Matches E i quote at) same_intent
            (subst (λ q. Matches E intent' q at) same_quote m),
      )

  no_intent :
      (quote? : Option (QuoteSnapshot E)) (at : Instant)
      → is_nil (validate_inputs E none quote? at) ≡ false
  unfolding validate_inputs
  no_intent quote? at = refl

  no_quote :
      (intent : ExecutionIntent E) (at : Instant)
      → is_nil (validate_inputs E (some intent) none at) ≡ false
  unfolding validate_inputs
  no_quote intent at = ground arith

  settle_intent-returns :
      (db db' : Database E) (session_key : String) (at : Instant)
      (intent? : Option (ExecutionIntent E)) (quote? : Option (QuoteSnapshot E))
      (answer : FillAnswer E)
      → settle_intent E db session_key at intent? quote? ≡ return (answer, db')
      → Skipped E session_key at intent? quote? db answer db'
        ⊎ ((intent : ExecutionIntent E) × (quote : QuoteSnapshot E) × (intent? ≡ some intent)
            × (quote? ≡ some quote)
            × (intent.intent_state ≡ "ready")
            × Matches E intent quote at
            × Filled E session_key at intent quote db answer db')
  unfolding settle_intent
  settle_intent-returns db db' session_key at none quote? answer h =
      inl (skip-returns E db db' session_key at none quote? answer (no_intent quote? at) h)
  settle_intent-returns db db' session_key at (some intent) none answer h =
      inl (skip-returns E db db' session_key at (some intent) none answer (no_quote intent at) h)
  settle_intent-returns db db' session_key at (some intent) (some quote) answer h =
      let reasons = validate_inputs E (some intent) (some quote) at in
      let fills =
        settle_decimals E db session_key at intent quote
          (resolve_asset_decimals E db quote.output_mint) in
      let skips = persist_skipped_session E db session_key at (some intent) (some quote) reasons in
      elim (Bool-cases (is_nil reasons)) [
        | inl nothing ↦
            let (ready, m) = checked intent quote at nothing in
            inr (
              intent,
              quote,
              refl,
              refl,
              ready,
              m,
              settle_decimals-returns db db' session_key at intent quote answer
                  (resolve_asset_decimals E db quote.output_mint) refl
                  (if-true (is_nil reasons) fills skips (return (answer, db')) nothing h),
            )
        | inr something ↦ inl (
            skip-returns E db db' session_key at (some intent) (some quote) answer something
              (if-false (is_nil reasons) fills skips (return (answer, db')) something h))
      ]

  -- A settlement that completes either skipped the intent, because the checks objected, or filled
  -- it: then the intent is ready and agrees with its quote, the token's decimals are known, and
  -- exactly a session, a fill, a position and a report have been added.
  pub simulate_fill-settles :
      (execution_intent_id : ℕ) (settlement_attempted_at : Option DateTime) (now : Instant)
      (db db' : Database E) (answer : FillAnswer E)
      → ◌≡◌ {A = Result (FillAnswer E) × Database E}
          (simulate_fill E execution_intent_id settlement_attempted_at now db)
          (return answer, db')
      → Settled execution_intent_id (or_else (ensure_utc settlement_attempted_at) now) db answer db'
  unfolding simulate_fill
  simulate_fill-settles execution_intent_id settlement_attempted_at now db db' answer h =
      let at = or_else (ensure_utc settlement_attempted_at) now in
      let intent? = find_intent E db execution_intent_id in
      settle_intent-returns db db' (build_session_key execution_intent_id at) at intent?
        (quote_of E db intent?) answer (finish-returns db _ answer db' h)

  -- Where the source passes the decimals of an unknown token on: an intent that is ready and agrees
  -- with its quote, for a token without decimals, raises a TypeError and leaves nothing, not even
  -- the skipped session that the branch means to record.
  pub simulate_fill-unknown_decimals :
      (execution_intent_id : ℕ) (settlement_attempted_at : Option DateTime) (now : Instant)
      (db : Database E) (intent : ExecutionIntent E) (quote : QuoteSnapshot E)
      → find_intent E db execution_intent_id ≡ some intent
      → quote_of E db (some intent) ≡ some quote
      → intent.intent_state ≡ "ready"
      → Matches E intent quote (or_else (ensure_utc settlement_attempted_at) now)
      → resolve_asset_decimals E db quote.output_mint ≡ none
      → simulate_fill E execution_intent_id settlement_attempted_at now db ≡ (
        raise (
            type_error
              "_persist_skipped_session() missing 1 required keyword-only argument: 'execution_intent'"),
        db,
      )
  unfolding simulate_fill settle_intent
  simulate_fill-unknown_decimals execution_intent_id settlement_attempted_at now db intent quote
        found quoted ready m unknown =
      let nothing =
        (validate_inputs-nil E (some intent) (some quote)
            (or_else (ensure_utc settlement_attempted_at) now)).1
          (intent, quote, refl, refl, ready, m) in
      rw (found, quoted, nothing, unknown)
