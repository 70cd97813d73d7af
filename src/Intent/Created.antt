-- ===== src/Intent/Created.antt =====
-- execution_intent/owner.py: what a completed `create_spot_intent` has persisted and answered.
use mathlib.Core.Path.{subst}
use defi_engine.Base.{◌≡◌, sym, ◌↔◌, ℕ, true, false, Option, some, str_eq→eq, eq→str_eq}
use defi_engine.Base.Time.{Instant, DateTime, ensure_utc, or_else}
use defi_engine.Env.{Env, IsCodec}
use defi_engine.Settings.{Settings}
use defi_engine.Truth.{
  Database, Result, return, ExecutionIntent, RiskGlobalRegimeGate, QuoteSnapshot,
}
use defi_engine.Truth.Returns.{then-returns, raise_if-returns, finish-returns, return-pair}
use defi_engine.Risk.Decisions.{decode-dumps}
use defi_engine.Intent.Evaluation.{evaluate_inputs}
use defi_engine.Intent.Owner.{
  build_intent_key, find_verdict, find_quote, intent_row, intent_key_taken, add_intent,
  serialize_intent, create_spot_intent, IntentAnswer,
}
use defi_engine.Intent.Ready.{RiskAllows, QuoteFits, evaluate_inputs-ready}

module _ (E : Env) where
  -- A verdict and a quote that the database has under these ids, on which an intent is ready.
  abbrev pub ReadyOn : Settings E → ℕ → ℕ → Instant → Database E → Type 0
  ReadyOn settings risk_verdict_id quote_snapshot_id created_at db =
      (risk : RiskGlobalRegimeGate E) × (quote : QuoteSnapshot E) × (find_verdict E db
          risk_verdict_id
        ≡ some risk)
      × (find_quote E db quote_snapshot_id ≡ some quote)
      × RiskAllows E risk
      × QuoteFits E settings quote created_at

  -- The answer is ready exactly then, and gives the reasons of the evaluation.
  abbrev pub Answered : Settings E → ℕ → ℕ → Instant → Database E → IntentAnswer E → Type 0
  Answered settings risk_verdict_id quote_snapshot_id created_at db answer =
      ((answer.ready ≡ true) ↔ ReadyOn settings risk_verdict_id quote_snapshot_id created_at db)
      × (answer.reason_codes
          ≡ (evaluate_inputs E settings (find_verdict E db risk_verdict_id)
              (find_quote E db quote_snapshot_id) created_at).reason_codes)

  -- The row of a call, which it appends if its key is new.
  unfoldable pub proposed :
      Settings E → ℕ → ℕ → Option DateTime → Instant → Database E → ExecutionIntent E
  unfolding find_verdict find_quote evaluate_inputs intent_row build_intent_key
  proposed settings risk_verdict_id quote_snapshot_id intent_created_at now db =
      let created_at = or_else (ensure_utc intent_created_at) now in
      let risk = find_verdict E db risk_verdict_id in
      let quote = find_quote E db quote_snapshot_id in
      intent_row E db (build_intent_key risk_verdict_id quote_snapshot_id created_at) risk quote
        (evaluate_inputs E settings risk quote created_at) created_at

  pub create-appends :
      (settings : Settings E) (risk_verdict_id quote_snapshot_id : ℕ)
      (intent_created_at : Option DateTime) (now : Instant) (db db' : Database E)
      (answer : IntentAnswer E)
      → ◌≡◌ {A = Result (IntentAnswer E) × Database E}
          (create_spot_intent E settings risk_verdict_id quote_snapshot_id intent_created_at now db)
          (return answer, db')
      → let row = proposed settings risk_verdict_id quote_snapshot_id intent_created_at now db in
        (intent_key_taken E db row.intent_key ≡ false)
        × (answer ≡ serialize_intent E row)
        × (db' ≡ add_intent E db row)
  unfolding create_spot_intent proposed intent_row
  create-appends settings risk_verdict_id quote_snapshot_id intent_created_at now db db' answer h =
      let h₀ = finish-returns db _ answer db' h in
      let (fresh, h₁) = then-returns _ _ _ h₀ in
      let (answered, appended) = return-pair _ _ _ _ h₁ in
      (raise_if-returns _ _ fresh, sym answered, sym appended)

  of_row :
      IsCodec E
      → (settings : Settings E) (risk_verdict_id quote_snapshot_id : ℕ)
        (intent_created_at : Option DateTime) (now : Instant) (db : Database E)
      → let created_at = or_else (ensure_utc intent_created_at) now in
        Answered settings risk_verdict_id quote_snapshot_id created_at db (
          serialize_intent E
            (proposed settings risk_verdict_id quote_snapshot_id intent_created_at now db))
  unfolding proposed intent_row serialize_intent
  of_row codec settings risk_verdict_id quote_snapshot_id intent_created_at now db =
      let created_at = or_else (ensure_utc intent_created_at) now in
      let evaluated =
        evaluate_inputs E settings (find_verdict E db risk_verdict_id)
          (find_quote E db quote_snapshot_id) created_at in
      let exact =
        evaluate_inputs-ready E settings (find_verdict E db risk_verdict_id)
          (find_quote E db quote_snapshot_id) created_at in
      (
        (
          λ h. exact.0 (str_eq→eq evaluated.intent_state "ready" h),
          λ h. eq→str_eq evaluated.intent_state "ready" (exact.1 h),
        ),
        decode-dumps E codec "execution_intent_payload_malformed" evaluated.reason_codes,
      )

  -- A completed call answers with a ready intent exactly if the database has, under the two ids, a
  -- risk verdict that allows the trade and a quote that fits at the intent's time. The reasons in
  -- the answer, read back from the JSON column, are those of the evaluation.
  pub create_spot_intent-ready :
      IsCodec E
      → (settings : Settings E) (risk_verdict_id quote_snapshot_id : ℕ)
        (intent_created_at : Option DateTime) (now : Instant) (db db' : Database E)
        (answer : IntentAnswer E)
      → ◌≡◌ {A = Result (IntentAnswer E) × Database E}
          (create_spot_intent E settings risk_verdict_id quote_snapshot_id intent_created_at now db)
          (return answer, db')
      → let created_at = or_else (ensure_utc intent_created_at) now in
        Answered settings risk_verdict_id quote_snapshot_id created_at db answer
  create_spot_intent-ready codec settings risk_verdict_id quote_snapshot_id intent_created_at now db
        db' answer h =
      let (fresh, answered, appended) =
        create-appends settings risk_verdict_id quote_snapshot_id intent_created_at now db db'
          answer h in
      subst
        (Answered settings risk_verdict_id quote_snapshot_id
          (or_else (ensure_utc intent_created_at) now) db)
        (sym answered)
        (of_row codec settings risk_verdict_id quote_snapshot_id intent_created_at now db)
