-- ===== src/Pipeline/Settling.antt =====
-- Every step keeps the provenance of the rows: intent and settlement.
use mathlib.Core.Path.{subst}
use defi_engine.Base.{
  ◌≡◌, refl, sym, ap, ◌∙◌, inl, inr, ℕ, Option, some, Bool-cases, List, [], ◌∷◌, ◌++◌, str_eq,
  str_eq→eq, eq→str_eq,
}
use defi_engine.Base.Members.{All-append_one, All-weaken, Any-append, find_first-Any}
use defi_engine.Base.Time.{Instant, DateTime, ensure_utc, or_else}
use defi_engine.Env.{Env}
use defi_engine.Settings.{Settings}
use defi_engine.Truth.{
  Database, return, raise, Result, RiskGlobalRegimeGate, ExecutionIntent, QuoteSnapshot, PaperFill,
}
use defi_engine.Truth.Returns.{owner-keeps, bind-returns, or_raise-returns}
use defi_engine.Intent.{
  create_spot_intent, find_verdict, find_quote, evaluate_inputs, intent_row, add_intent,
  build_intent_key,
}
use defi_engine.Intent.Ready.{evaluate_inputs-ready}
use defi_engine.Intent.Created.{proposed, create-appends}
use defi_engine.Paper.{
  simulate_fill, simulate_close, CloseRequest, find_intent, entry_fill, FillMetrics, exit_fill,
  FillAnswer,
}
use defi_engine.Paper.Rows.{skipped_db, filled_db}
use defi_engine.Paper.Settles.{Settled, simulate_fill-settles}
use defi_engine.Paper.Closes.{simulate_close-steps, closed_db}
use defi_engine.Pipeline.Sources.{
  AllowedBy, QuotedBy, IntentSound, SettledFrom, FillSound, Provenance,
}
use defi_engine.Pipeline.Raises.{
  create_spot_intent-raises, simulate_fill-raises, simulate_close-raises,
}

module _ (E : Env) (settings : Settings E) where
  proposed_sound :
      (risk_verdict_id quote_snapshot_id : ℕ) (created_at : Option DateTime) (now : Instant)
      (db : Database E)
      → IntentSound E settings db.risk_verdicts db.quotes
          (proposed E settings risk_verdict_id quote_snapshot_id created_at now db)
  unfolding proposed intent_row find_verdict find_quote
  proposed_sound risk_verdict_id quote_snapshot_id created_at now db =
      go (find_verdict E db risk_verdict_id) (find_quote E db quote_snapshot_id) refl refl
    where
      go :
          (risk? : Option (RiskGlobalRegimeGate E)) (quote? : Option (QuoteSnapshot E))
          → find_verdict E db risk_verdict_id ≡ risk?
          → find_quote E db quote_snapshot_id ≡ quote?
          → let at = or_else (ensure_utc created_at) now in
            IntentSound E settings db.risk_verdicts db.quotes (
              intent_row E db
                (build_intent_key risk_verdict_id quote_snapshot_id at)
                risk?
                quote?
                (evaluate_inputs E settings risk? quote? at)
                at)
      go risk? quote? found quoted =
          let at = or_else (ensure_utc created_at) now in
          let evaluated = evaluate_inputs E settings risk? quote? at in
          elim (Bool-cases (str_eq evaluated.intent_state "ready")) [
            | inl ready ↦
                let (risk, quote, same_risk, same_quote, allows, fits) =
                  (evaluate_inputs-ready E settings risk? quote? at).0
                    (str_eq→eq evaluated.intent_state "ready" ready) in
                let key = build_intent_key risk_verdict_id quote_snapshot_id at in
                let row : ExecutionIntent E = intent_row E db key risk? quote? evaluated at in
                let verdict_id : row.risk_verdict_id ≡ some risk.id =
                  ap (λ r. (intent_row E db key r quote? evaluated at).risk_verdict_id) same_risk in
                let trace_id : row.policy_trace_id ≡ some risk.policy_trace_id =
                  ap (λ r. (intent_row E db key r quote? evaluated at).policy_trace_id) same_risk in
                let quote_id : row.quote_snapshot_id ≡ some quote.id =
                  ap (λ q. (intent_row E db key risk? q evaluated at).quote_snapshot_id)
                    same_quote in
                inr (
                  find_first-Any (AllowedBy E row) _ db.risk_verdicts risk (found ∙ same_risk)
                      (allows, verdict_id, trace_id),
                  find_first-Any (QuotedBy E settings row) _ db.quotes quote (quoted ∙ same_quote)
                      (fits, quote_id),
                )
            | inr other ↦ inl (λ h. cc (eq→str_eq evaluated.intent_state "ready" h))
          ]

  more_intents :
      (f : PaperFill E) (intents : List (ExecutionIntent E)) (row : ExecutionIntent E)
      → FillSound E intents f
      → FillSound E (intents ++ row ∷ []) f
  more_intents f intents row (inl exit) = inl exit
  more_intents f intents row (inr any) = inr (Any-append (SettledFrom E f) intents (row ∷ []) any)

  pub create_spot_intent-keeps :
      (risk_verdict_id quote_snapshot_id : ℕ) (created_at : Option DateTime) (now : Instant)
      (db : Database E)
      → Provenance E settings db
      → Provenance E settings
          (create_spot_intent E settings risk_verdict_id quote_snapshot_id created_at now db).1
  unfolding add_intent
  create_spot_intent-keeps risk_verdict_id quote_snapshot_id created_at now db p =
      let row = proposed E settings risk_verdict_id quote_snapshot_id created_at now db in
      owner-keeps (Provenance E settings) db
        (create_spot_intent E settings risk_verdict_id quote_snapshot_id created_at now db) p
        (create_spot_intent-raises E settings risk_verdict_id quote_snapshot_id created_at now db)
        (λ answer db' h.
          let (fresh, answered, appended) =
            create-appends E settings risk_verdict_id quote_snapshot_id created_at now db db' answer
              h in
          subst (Provenance E settings) (sym appended) (record {
            traces = p.traces;
            verdicts = p.verdicts;
            intents =
                All-append_one (IntentSound E settings db.risk_verdicts db.quotes) db.intents row
                  p.intents (proposed_sound risk_verdict_id quote_snapshot_id created_at now db);
            fills =
                All-weaken (FillSound E db.intents) (FillSound E (db.intents ++ row ∷ []))
                  db.paper_fills (λ f sound. more_intents f db.intents row sound) p.fills;
          }))

  abbrev Names : ℕ → ℕ → Result (PaperFill E) → Type 0
  Names intent_id trace_id (return f) =
      (f.execution_intent_id ≡ some intent_id) × (f.policy_trace_id ≡ trace_id)
  Names intent_id trace_id (raise e) = Unit

  -- An entry fill copies the reference of its intent.
  entry_fill-returns :
      (db : Database E) (session_id : ℕ) (at : Instant) (intent : ExecutionIntent E)
      (quote : QuoteSnapshot E) (metrics : FillMetrics E) (fill : PaperFill E)
      → entry_fill E db session_id at intent quote metrics ≡ return fill
      → (fill.execution_intent_id ≡ some intent.id)
        × (intent.policy_trace_id ≡ some fill.policy_trace_id)
  unfolding entry_fill
  entry_fill-returns db session_id at intent quote metrics fill h =
      let (verdict_id, h₁, k₁) = bind-returns _ _ _ h in
      let (trace_id, h₂, k₂) = bind-returns _ _ _ k₁ in
      let (snapshot_id, h₃, k₃) = bind-returns _ _ _ k₂ in
      let (run_id, h₄, k₄) = bind-returns _ _ _ k₃ in
      let (policy_state, h₅, k₅) = bind-returns _ _ _ k₄ in
      let (risk_state, h₆, k₆) = bind-returns _ _ _ k₅ in
      let (direction, h₇, k₇) = bind-returns _ _ _ k₆ in
      let (input_mint, h₈, k₈) = bind-returns _ _ _ k₇ in
      let (output_mint, h₉, k₉) = bind-returns _ _ _ k₈ in
      let (side, h₁₀, k₁₀) = bind-returns _ _ _ k₉ in
      let (named, traced) = subst (Names intent.id trace_id) k₁₀ (refl, refl) in
      (named, or_raise-returns _ _ _ h₂ ∙ ap some (sym traced))

  settled_sound :
      (execution_intent_id : ℕ) (at : Instant) (db : Database E) (intent : ExecutionIntent E)
      (fill : PaperFill E)
      → find_intent E db execution_intent_id ≡ some intent
      → intent.intent_state ≡ "ready"
      → (fill.execution_intent_id ≡ some intent.id)
        × (intent.policy_trace_id ≡ some fill.policy_trace_id)
      → FillSound E db.intents fill
  unfolding find_intent
  settled_sound execution_intent_id at db intent fill found ready (named, traced) =
      inr (find_first-Any (SettledFrom E fill) _ db.intents intent found (named, ready, traced))

  Settled-keeps :
      (execution_intent_id : ℕ) (at : Instant) (db db' : Database E) (answer : FillAnswer E)
      → Provenance E settings db
      → Settled E execution_intent_id at db answer db'
      → Provenance E settings db'
  unfolding skipped_db filled_db
  Settled-keeps execution_intent_id at db db' answer p (inl skipped) =
      subst (Provenance E settings) (sym skipped.leaves)
        (record { traces = p.traces; verdicts = p.verdicts; intents = p.intents; fills = p.fills })
  Settled-keeps execution_intent_id at db db' answer p
        (inr (intent, quote, found, quoted, ready, m, filled)) =
      let copies =
        entry_fill-returns db filled.session_id at intent quote filled.metrics filled.fill
          filled.enters in
      subst (Provenance E settings) (sym filled.leaves) (record {
        traces = p.traces;
        verdicts = p.verdicts;
        intents = p.intents;
        fills =
            All-append_one (FillSound E db.intents) db.paper_fills filled.fill p.fills
              (settled_sound execution_intent_id at db intent filled.fill found ready copies);
      })

  pub simulate_fill-keeps :
      (execution_intent_id : ℕ) (attempted_at : Option DateTime) (now : Instant) (db : Database E)
      → Provenance E settings db
      → Provenance E settings (simulate_fill E execution_intent_id attempted_at now db).1
  simulate_fill-keeps execution_intent_id attempted_at now db p =
      owner-keeps (Provenance E settings) db
        (simulate_fill E execution_intent_id attempted_at now db) p
        (simulate_fill-raises E execution_intent_id attempted_at now db)
        (λ answer db' h.
          Settled-keeps execution_intent_id (or_else (ensure_utc attempted_at) now) db db' answer p
            (simulate_fill-settles E execution_intent_id attempted_at now db db' answer h))

  pub simulate_close-keeps :
      (request : CloseRequest) (attempted_at : Option DateTime) (now : Instant) (db : Database E)
      → Provenance E settings db
      → Provenance E settings (simulate_close E request attempted_at now db).1
  unfolding closed_db exit_fill
  simulate_close-keeps request attempted_at now db p =
      owner-keeps (Provenance E settings) db (simulate_close E request attempted_at now db) p
        (simulate_close-raises E request attempted_at now db)
        (λ answer db' h.
          let c = simulate_close-steps E request attempted_at now db db' answer h in
          let at = or_else (ensure_utc attempted_at) now in
          subst (Provenance E settings) (sym c.leaves) (record {
            traces = p.traces;
            verdicts = p.verdicts;
            intents = p.intents;
            fills =
                All-append_one (FillSound E db.intents) db.paper_fills
                  (exit_fill E db c.paper_session at c.quote c.metrics request) p.fills (inl refl);
          }))
