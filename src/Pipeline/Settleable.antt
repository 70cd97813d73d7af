-- ===== src/Pipeline/Settleable.antt =====
-- execution_intent/owner.py and settlement/paper.py together: settlement accepts what the intent owner
-- made ready, as long as the quote is recent.
use mathlib.Core.Path.{subst}
use defi_engine.Base.{
  ◌≡◌, refl, sym, ap, ◌∙◌, ◌↔◌, ℕ, String, true, Option, some, is_nil, str_eq, str_eq→eq,
}
use defi_engine.Base.Time.{Instant, DateTime, ensure_utc, or_else}
use defi_engine.Env.{Env}
use defi_engine.Settings.{Settings}
use defi_engine.Truth.{
  Database, Result, return, ExecutionIntent, RiskGlobalRegimeGate, QuoteSnapshot,
}
use defi_engine.Intent.{
  create_spot_intent, find_verdict, find_quote, evaluate_inputs, intent_row, add_intent,
  build_intent_key, IntentAnswer, serialize_intent, normalize_direction, intent_side,
  quote_timestamp, EvaluatedExecutionIntent,
}
use defi_engine.Intent.Ready.{IsRecent, evaluate_inputs-ready}
use defi_engine.Intent.Created.{proposed, create-appends}
use defi_engine.Paper.{validate_inputs}
use defi_engine.Paper.Checks.{Matches, validate_inputs-nil}

intent_side-buys :
    (value : Option String)
    → normalize_direction value ≡ some "usdc_to_token"
    → intent_side value ≡ some "buy"
unfolding intent_side str_eq
intent_side-buys value e = rw (intent_side, e)

module _ (E : Env) where
  -- The row of a risk verdict and a buy quote agrees with that quote.
  row_Matches :
      (db : Database E) (key : String) (risk : RiskGlobalRegimeGate E) (quote : QuoteSnapshot E)
      (evaluated : EvaluatedExecutionIntent E) (created_at at : Instant)
      → normalize_direction quote.request_direction ≡ some "usdc_to_token"
      → IsRecent (quote_timestamp E quote) at
      → Matches E (intent_row E db key (some risk) (some quote) evaluated created_at) quote at
  unfolding intent_row
  row_Matches db key risk quote evaluated created_at at buys recent = record {
    same_quote = refl;
    has_verdict = (risk.id, refl);
    has_trace = (risk.policy_trace_id, refl);
    buys = buys;
    side = intent_side-buys quote.request_direction buys;
    same_input = refl;
    same_output = refl;
    same_size = refl;
    same_quoted = refl;
    recent = recent;
  }

  ready_Matches :
      (settings : Settings E) (db : Database E) (key : String)
      (risk? : Option (RiskGlobalRegimeGate E)) (quote? : Option (QuoteSnapshot E))
      (quote : QuoteSnapshot E) (created_at at : Instant)
      → quote? ≡ some quote
      → (evaluate_inputs E settings risk? quote? created_at).intent_state ≡ "ready"
      → IsRecent (quote_timestamp E quote) at
      → Matches E
          (intent_row E db key risk? quote?
            (evaluate_inputs E settings risk? quote? created_at)
            created_at)
          quote
          at
  ready_Matches settings db key risk? quote? quote created_at at quoted ready recent =
      let (risk, quote', same_risk, same_quote, allows, fits) =
        (evaluate_inputs-ready E settings risk? quote? created_at).0 ready in
      let evaluated = evaluate_inputs E settings risk? quote? created_at in
      let same : quote' ≡ quote = cc in
      let buys =
        subst
          (λ (q : QuoteSnapshot E). normalize_direction q.request_direction ≡ some "usdc_to_token")
          same fits.buys in
      subst (λ r. Matches E (intent_row E db key r quote? evaluated created_at) quote at)
        (sym same_risk)
        (subst (λ q. Matches E (intent_row E db key (some risk) q evaluated created_at) quote at)
          (sym quoted) (row_Matches db key risk quote evaluated created_at at buys recent))

  row_ready :
      (row : ExecutionIntent E) (answer : IntentAnswer E)
      → answer ≡ serialize_intent E row
      → answer.ready ≡ true
      → row.intent_state ≡ "ready"
  unfolding serialize_intent
  row_ready row answer answered ready =
      str_eq→eq row.intent_state "ready"
        (sym (ap (λ (a : IntentAnswer E). a.ready) answered) ∙ ready)

  row_state :
      (db : Database E) (key : String) (risk? : Option (RiskGlobalRegimeGate E))
      (quote? : Option (QuoteSnapshot E)) (evaluated : EvaluatedExecutionIntent E) (at : Instant)
      → (intent_row E db key risk? quote? evaluated at).intent_state ≡ evaluated.intent_state
  unfolding intent_row
  row_state db key risk? quote? evaluated at = refl

  -- When a completed call answers with a ready intent, the row that it appended passes every check
  -- of settlement against its quote exactly at the times at which the quote is still recent.
  pub ready_intent-settleable :
      (settings : Settings E) (risk_verdict_id quote_snapshot_id : ℕ)
      (intent_created_at : Option DateTime) (now : Instant) (db db' : Database E)
      (answer : IntentAnswer E) (quote : QuoteSnapshot E) (at : Instant)
      → ◌≡◌ {A = Result (IntentAnswer E) × Database E}
          (create_spot_intent E settings risk_verdict_id quote_snapshot_id intent_created_at now db)
          (return answer, db')
      → answer.ready ≡ true
      → find_quote E db quote_snapshot_id ≡ some quote
      → (row : ExecutionIntent E) × (db' ≡ add_intent E db row)
        × ((is_nil (validate_inputs E (some row) (some quote) at) ≡ true)
            ↔ IsRecent (quote_timestamp E quote) at)
  unfolding proposed
  ready_intent-settleable settings risk_verdict_id quote_snapshot_id intent_created_at now db db'
        answer quote at h ready quoted =
      let row = proposed E settings risk_verdict_id quote_snapshot_id intent_created_at now db in
      let (fresh, answered, appended) =
        create-appends E settings risk_verdict_id quote_snapshot_id intent_created_at now db db'
          answer h in
      let created_at = or_else (ensure_utc intent_created_at) now in
      let is_ready = row_ready row answer answered ready in
      let exact = validate_inputs-nil E (some row) (some quote) at in
      let key = build_intent_key risk_verdict_id quote_snapshot_id created_at in
      (
        row,
        appended,
        (
          λ nothing.
              let (i, q, e, f, g, m) = exact.0 nothing in
              let same : q ≡ quote = cc in
              subst (λ x. IsRecent (quote_timestamp E x) at) same m.recent,
          λ recent. exact.1 (
            row,
            quote,
            refl,
            refl,
            is_ready,
            ready_Matches settings db key (find_verdict E db risk_verdict_id)
                (find_quote E db quote_snapshot_id) quote created_at at quoted
                (sym (
                    row_state db key (find_verdict E db risk_verdict_id)
                      (find_quote E db quote_snapshot_id)
                      (evaluate_inputs E settings (find_verdict E db risk_verdict_id)
                        (find_quote E db quote_snapshot_id) created_at)
                      created_at)
                  ∙ is_ready)
                recent,
          ),
        ),
      )
