-- ===== src/Paper/Completes.antt =====
-- settlement/paper.py: a settlement that has everything it needs fills, and what the fill records.
use mathlib.Core.Path.{subst}
use defi_engine.Base.{◌≡◌, refl, sym, ap, ◌∙◌, ℕ, String, true, false, Option, some, [], ◌∷◌, ◌++◌}
use defi_engine.Base.Int.{ℤ, pos}
use defi_engine.Base.Text.{parse_int, int_of, str_ℕ, str_ℤ}
use defi_engine.Base.Text.RoundTrip.{int_of-str}
use defi_engine.Base.Time.{Instant, DateTime, ensure_utc, or_else}
use defi_engine.Env.{Env}
use defi_engine.Truth.{
  Database, finish, Result, return, raise, ◌>>=◌, ◌>>◌, raise_if, or_raise, ExecutionIntent,
  QuoteSnapshot, PaperFill,
}
use defi_engine.Truth.Returns.{bind-returns}
use defi_engine.Paper.Validation.{resolve_asset_decimals}
use defi_engine.Paper.Metrics.{FillMetrics, build_fill_metrics}
use defi_engine.Paper.Store.{
  build_session_key, insert_session, insert_fill, session_key_taken, foreign_keys_hold,
}
use defi_engine.Paper.Fill.{
  open_session, entry_fill, settle, settle_intent, simulate_fill, find_intent, quote_of, str_opt_ℤ,
  text_or_zero,
}
use defi_engine.Paper.Skip.{FillAnswer}
use defi_engine.Paper.Rows.{Filled}
use defi_engine.Paper.Checks.{Matches, validate_inputs-nil}

module _ (E : Env) where
  abbrev Completes : Result (FillAnswer E × Database E) → Type 0
  Completes (return (answer, db')) = answer.filled ≡ true
  Completes (raise e) = ⊥

  abbrev FillsAnswer : Result (FillAnswer E) → Type 0
  FillsAnswer (return answer) = answer.filled ≡ true
  FillsAnswer (raise e) = ⊥

  settle-Completes :
      (db : Database E) (session_key : String) (at : Instant) (intent : ExecutionIntent E)
      (quote : QuoteSnapshot E) (metrics : FillMetrics E) (size : ℤ) (fill : PaperFill E)
      → parse_int (some quote.input_amount) ≡ some size
      → session_key_taken E db session_key ≡ false
      → let paper_session = open_session E db session_key at size metrics in
        let db₁ : Database E = record db {
          paper_sessions = db.paper_sessions ++ paper_session ∷ [];
        } in
        entry_fill E db₁ paper_session.id at intent quote metrics ≡ return fill
        → foreign_keys_hold E
            (record db {
              paper_sessions =
                  db.paper_sessions ++ open_session E db session_key at size metrics ∷ [];
            })
            fill
          ≡ true
        → Completes (settle E db session_key at intent quote metrics)
  unfolding settle insert_session insert_fill open_session ◌>>=◌ ◌>>◌ raise_if or_raise
  settle-Completes db session_key at intent quote metrics size fill parsed fresh enters keys =
      rw (parsed, fresh, enters, keys) refl

  completed :
      (o : Result (FillAnswer E) × Database E)
      → FillsAnswer o.0
      → (answer : FillAnswer E) × (db' : Database E) × (◌≡◌ {A = Result (FillAnswer E) × Database E}
          o
          (return answer, db'))
        × (answer.filled ≡ true)
  completed (return answer, db') h = (answer, db', refl, h)
  completed (raise e, db') h = absurd h

  finish-Completes :
      (db : Database E) (r : Result (FillAnswer E × Database E))
      → Completes r
      → FillsAnswer (finish db r).0
  finish-Completes db (return (answer, db')) h = h
  finish-Completes db (raise e) h = absurd h

  -- The fill of a settlement whose steps all return.
  pub simulate_fill-completes :
      (execution_intent_id : ℕ) (settlement_attempted_at : Option DateTime) (now : Instant)
      (db : Database E) (intent : ExecutionIntent E) (quote : QuoteSnapshot E) (decimals : ℕ)
      (metrics : FillMetrics E) (size : ℤ) (fill : PaperFill E)
      → let at = or_else (ensure_utc settlement_attempted_at) now in
        let session_key = build_session_key execution_intent_id at in
        let paper_session = open_session E db session_key at size metrics in
        let db₁ : Database E = record db {
          paper_sessions = db.paper_sessions ++ paper_session ∷ [];
        } in
        find_intent E db execution_intent_id ≡ some intent
        → quote_of E db (some intent) ≡ some quote
        → intent.intent_state ≡ "ready"
        → Matches E intent quote at
        → resolve_asset_decimals E db quote.output_mint ≡ some decimals
        → build_fill_metrics E quote decimals ≡ some metrics
        → parse_int (some quote.input_amount) ≡ some size
        → session_key_taken E db session_key ≡ false
        → entry_fill E db₁ paper_session.id at intent quote metrics ≡ return fill
        → foreign_keys_hold E db₁ fill ≡ true
        → (answer : FillAnswer E) × (db' : Database E) × (◌≡◌
            {A = Result (FillAnswer E) × Database E}
            (simulate_fill E execution_intent_id settlement_attempted_at now db)
            (return answer, db'))
          × (answer.filled ≡ true)
  unfolding simulate_fill settle_intent
  simulate_fill-completes execution_intent_id settlement_attempted_at now db intent quote decimals
        metrics size fill found quoted ready m known valued parsed fresh enters keys =
      let at = or_else (ensure_utc settlement_attempted_at) now in
      let key = build_session_key execution_intent_id at in
      let nothing =
        (validate_inputs-nil E (some intent) (some quote) at).1
          (intent, quote, refl, refl, ready, m) in
      completed (simulate_fill E execution_intent_id settlement_attempted_at now db) (
        finish-Completes db
          (settle_intent E db key at (find_intent E db execution_intent_id)
            (quote_of E db (find_intent E db execution_intent_id)))
          (rw (found, quoted, nothing, known, valued)
            (settle-Completes db key at intent quote metrics size fill parsed fresh enters keys)))

  abbrev Amounts : ExecutionIntent E → Result (PaperFill E) → Type 0
  Amounts intent (return f) =
      (f.input_amount ≡ str_opt_ℤ intent.quote_size_lamports)
      × (f.output_amount ≡ text_or_zero intent.quoted_output_amount)
  Amounts intent (raise e) = Unit

  entry_fill-amounts :
      (db : Database E) (session_id : ℕ) (at : Instant) (intent : ExecutionIntent E)
      (quote : QuoteSnapshot E) (metrics : FillMetrics E) (fill : PaperFill E)
      → entry_fill E db session_id at intent quote metrics ≡ return fill
      → (fill.input_amount ≡ str_opt_ℤ intent.quote_size_lamports)
        × (fill.output_amount ≡ text_or_zero intent.quoted_output_amount)
  unfolding entry_fill
  entry_fill-amounts db session_id at intent quote metrics fill h =
      let (verdict_id, h₁, k₁) = bind-returns _ _ _ h in
      let (trace_id, h₂, k₂) = bind-returns _ _ _ k₁ in
      let (snapshot_id, h₃, k₃) = bind-returns _ _ _ k₂ in
      let (run_id, h₄, k₄) = bind-returns _ _ _ k₃ in
      let (policy_state, h₅, k₅) = bind-returns _ _ _ k₄ in
      let (risk_state, h₆, k₆) = bind-returns _ _ _ k₅ in
      let (direction, h₇, k₇) = bind-returns _ _ _ k₆ in
      let (input_mint, h₈, k₈) = bind-returns _ _ _ k₇ in
      let (output_mint, h₉, k₉) = bind-returns _ _ _ k₈ in
      let (side, h₁₀, k₁₀) = bind-returns _ _ _ k₉ in subst (Amounts intent) k₁₀ (refl, refl)

  -- The fill that a settlement records spends what its quote asked for: the amount printed into the
  -- fill reads back as the amount of the quote, if that is not negative.
  pub filled_amount :
      (session_key : String) (at : Instant) (intent : ExecutionIntent E) (quote : QuoteSnapshot E)
      (db db' : Database E) (answer : FillAnswer E) (amount : ℕ)
      → Matches E intent quote at
      → (filled : Filled E session_key at intent quote db answer db')
      → parse_int (some quote.input_amount) ≡ some (pos amount)
      → parse_int (some filled.fill.input_amount) ≡ parse_int (some quote.input_amount)
  unfolding parse_int str_ℤ
  filled_amount session_key at intent quote db db' answer amount m filled parsed =
      let (input, output) =
        entry_fill-amounts db filled.session_id at intent quote filled.metrics filled.fill
          filled.enters in
      let printed : filled.fill.input_amount ≡ str_ℕ amount =
        input ∙ ap (λ o. str_opt_ℤ o) (m.same_size ∙ parsed) in
      ap int_of printed ∙ (int_of-str amount ∙ sym parsed)
