-- ===== src/Paper/Fillable.antt =====
-- settlement/paper.py: an intent that has what settlement needs fills.
use defi_engine.Base.{
  ◌≡◌, refl, ℕ, ◌^◌, ◌==◌, String, Bool, true, false, Option, some, List, [], ◌∷◌, ◌++◌, arith, inl,
  inr, str_eq, eq→str_eq, find_first, Bool-cases,
}
use defi_engine.Base.Int.{ℤ, pos, eq_ℤ}
use defi_engine.Base.Members.{Any, Any-append_right, find_first-Any}
use defi_engine.Base.Text.{parse_int}
use defi_engine.Base.Time.{Instant, DateTime, ensure_utc, or_else}
use defi_engine.Env.{Env}
use defi_engine.Truth.{
  Database, Result, return, ◌>>=◌, or_raise, ExecutionIntent, QuoteSnapshot, PaperSession,
  PaperFill, raise,
}
use defi_engine.Intent.{find_quote}
use defi_engine.Paper.Validation.{resolve_asset_decimals}
use defi_engine.Paper.Metrics.{FillMetrics, build_fill_metrics}
use defi_engine.Paper.Store.{build_session_key, session_key_taken, foreign_keys_hold, exists}
use defi_engine.Paper.Fill.{open_session, entry_fill, simulate_fill, find_intent, quote_of}
use defi_engine.Paper.Skip.{FillAnswer}
use defi_engine.Paper.Guards.{is_known}
use defi_engine.Paper.Checks.{Matches}
use defi_engine.Paper.Completes.{simulate_fill-completes}

Any-exists :
    {A : Type 0} (P : A → Type 0) (p : A → Bool) (xs : List A)
    → ((x : A) → P x → p x ≡ true)
    → Any P xs
    → exists p xs ≡ true
unfolding find_first
Any-exists P p [] h any = absurd any
Any-exists P p (x ∷ xs) h (inl here) = rw (h x here) refl
Any-exists P p (x ∷ xs) h (inr later) = elim (Bool-cases (p x)) [
  | inl e ↦ rw e refl
  | inr e ↦ rw e (Any-exists P p xs h later)
]

same_number : (a b : ℕ) → a ≡ b → (a == b) ≡ true
same_number a b h = ground arith

module _ (E : Env) where
  -- The columns of the intent that a fill needs beside those that the checks compare, and the rows
  -- that it refers to.
  pub record Referenced (db : Database E) (intent : ExecutionIntent E) : Type 0 where
    pub verdict : ℕ
    pub trace : ℕ
    pub condition : ℕ
    pub run : String
    pub policy_state : String
    pub risk_state : String
    pub has_verdict : intent.risk_verdict_id ≡ some verdict
    pub has_trace : intent.policy_trace_id ≡ some trace
    pub has_condition : intent.condition_snapshot_id ≡ some condition
    pub has_run : intent.source_feature_run_id ≡ some run
    pub has_policy_state : intent.policy_state ≡ some policy_state
    pub has_risk_state : intent.risk_state ≡ some risk_state
    pub verdicts : Any (λ row. row.id ≡ verdict) db.risk_verdicts
    pub traces : Any (λ row. row.id ≡ trace) db.policy_traces
    pub conditions : Any (λ row. row.id ≡ condition) db.condition_snapshots
    pub runs : Any (λ row. row.run_id ≡ run) db.feature_runs

  -- The amounts of the quote are integers, and the output is a positive quantity of its token, whose
  -- decimals are known.
  pub record Priced (db : Database E) (quote : QuoteSnapshot E) : Type 0 where
    pub decimals : ℕ
    pub input : ℤ
    pub output : ℤ
    pub known : resolve_asset_decimals E db quote.output_mint ≡ some decimals
    pub spends : parse_int (some quote.input_amount) ≡ some input
    pub gains : parse_int quote.output_amount ≡ some output
    pub not_zero : eq_ℤ output (pos 0) ≡ false
    pub positive : E.le (E.int_div output (10 ^ decimals)) E.float_zero ≡ false

  -- The database once the session of the fill is in it.
  abbrev opened : Database E → String → Instant → ℤ → FillMetrics E → Database E
  opened db key at size metrics = record db {
    paper_sessions = db.paper_sessions ++ open_session E db key at size metrics ∷ [];
  }

  Priced-metrics :
      (db : Database E) (quote : QuoteSnapshot E) (p : Priced db quote)
      → (metrics : FillMetrics E) × (build_fill_metrics E quote p.decimals ≡ some metrics)
  unfolding build_fill_metrics
  Priced-metrics db quote p =
      (is_known (build_fill_metrics E quote p.decimals)).0
        (rw (p.spends, p.gains, p.not_zero, p.positive) refl)

  -- The fill is returned, and everything that it refers to is there.
  abbrev Holds : Database E → Result (PaperFill E) → Type 0
  Holds db (return fill) = foreign_keys_hold E db fill ≡ true
  Holds db (raise e) = ⊥

  Holds-returns :
      (db : Database E) (r : Result (PaperFill E))
      → Holds db r
      → (fill : PaperFill E) × (r ≡ return fill) × (foreign_keys_hold E db fill ≡ true)
  Holds-returns db (return fill) h = (fill, refl, h)
  Holds-returns db (raise e) h = absurd h

  entry_fill-Holds :
      (db : Database E) (session_id : ℕ) (at : Instant) (intent : ExecutionIntent E)
      (quote : QuoteSnapshot E) (metrics : FillMetrics E)
      → Referenced db intent
      → Matches E intent quote at
      → Any (λ (row : PaperSession E). row.id ≡ session_id) db.paper_sessions
      → Any (λ (row : ExecutionIntent E). row.id ≡ intent.id) db.intents
      → Any (λ (row : QuoteSnapshot E). row.id ≡ quote.id) db.quotes
      → Holds db (entry_fill E db session_id at intent quote metrics)
  unfolding entry_fill foreign_keys_hold ◌>>=◌ or_raise
  entry_fill-Holds db session_id at intent quote metrics r m sessions intents quotes =
      let a =
        Any-exists (λ row. row.id ≡ session_id) (λ row. row.id == session_id) db.paper_sessions
          (λ row. same_number row.id session_id) sessions in
      let b =
        Any-exists (λ row. row.id ≡ intent.id) (λ row. row.id == intent.id) db.intents
          (λ row. same_number row.id intent.id) intents in
      let c =
        Any-exists (λ row. row.id ≡ r.verdict) (λ row. row.id == r.verdict) db.risk_verdicts
          (λ row. same_number row.id r.verdict) r.verdicts in
      let d =
        Any-exists (λ row. row.id ≡ r.trace) (λ row. row.id == r.trace) db.policy_traces
          (λ row. same_number row.id r.trace) r.traces in
      let e =
        Any-exists (λ row. row.id ≡ r.condition) (λ row. row.id == r.condition)
          db.condition_snapshots (λ row. same_number row.id r.condition) r.conditions in
      let f =
        Any-exists (λ row. row.run_id ≡ r.run) (λ row. str_eq row.run_id r.run) db.feature_runs
          (λ row. eq→str_eq row.run_id r.run) r.runs in
      let g =
        Any-exists (λ row. row.id ≡ quote.id) (λ row. row.id == quote.id) db.quotes
          (λ row. same_number row.id quote.id) quotes in
      rw
        (
          r.has_verdict, r.has_trace, r.has_condition, r.has_run, r.has_policy_state,
          r.has_risk_state, m.buys, m.same_input, m.same_output, m.side,
        )
        (rw (a, b, c, d, e, f, g) refl)

  quote_of-Any :
      (db : Database E) (intent : ExecutionIntent E) (quote : QuoteSnapshot E)
      → intent.quote_snapshot_id ≡ some quote.id
      → quote_of E db (some intent) ≡ some quote
      → Any (λ (row : QuoteSnapshot E). row.id ≡ quote.id) db.quotes
  unfolding find_quote
  quote_of-Any db intent quote same h =
      find_first-Any (λ (row : QuoteSnapshot E). row.id ≡ quote.id) (λ row. row.id == quote.id)
        db.quotes quote (rw same at h) refl

  -- A settlement fills and does not raise, given a ready intent that agrees with its recent quote,
  -- whose columns are set and whose verdict, trace, condition and feature run exist, a quote with
  -- integer amounts that buys a positive quantity of a token with known decimals, and a session key
  -- that is free.
  pub simulate_fill-fills :
      (execution_intent_id : ℕ) (settlement_attempted_at : Option DateTime) (now : Instant)
      (db : Database E) (intent : ExecutionIntent E) (quote : QuoteSnapshot E)
      → let at = or_else (ensure_utc settlement_attempted_at) now in
        find_intent E db execution_intent_id ≡ some intent
        → quote_of E db (some intent) ≡ some quote
        → intent.intent_state ≡ "ready"
        → Matches E intent quote at
        → Referenced db intent
        → Priced db quote
        → session_key_taken E db (build_session_key execution_intent_id at) ≡ false
        → (answer : FillAnswer E) × (db' : Database E) × (◌≡◌
            {A = Result (FillAnswer E) × Database E}
            (simulate_fill E execution_intent_id settlement_attempted_at now db)
            (return answer, db'))
          × (answer.filled ≡ true)
  unfolding open_session find_intent
  simulate_fill-fills execution_intent_id settlement_attempted_at now db intent quote found quoted
        ready m r p fresh =
      let at = or_else (ensure_utc settlement_attempted_at) now in
      let key = build_session_key execution_intent_id at in
      let (metrics, valued) = Priced-metrics db quote p in
      let session = open_session E db key at p.input metrics in
      let after = opened db key at p.input metrics in
      let (fill, enters, keys) =
        Holds-returns after (entry_fill E after session.id at intent quote metrics) (
          entry_fill-Holds after session.id at intent quote metrics
            (record {
              verdict = r.verdict;
              trace = r.trace;
              condition = r.condition;
              run = r.run;
              policy_state = r.policy_state;
              risk_state = r.risk_state;
              has_verdict = r.has_verdict;
              has_trace = r.has_trace;
              has_condition = r.has_condition;
              has_run = r.has_run;
              has_policy_state = r.has_policy_state;
              has_risk_state = r.has_risk_state;
              verdicts = r.verdicts;
              traces = r.traces;
              conditions = r.conditions;
              runs = r.runs;
            })
            m
            (Any-append_right (λ (row : PaperSession E). row.id ≡ session.id) db.paper_sessions
              (session ∷ []) (inl refl))
            (find_first-Any (λ (row : ExecutionIntent E). row.id ≡ intent.id)
              (λ row. row.id == execution_intent_id) db.intents intent found refl)
            (quote_of-Any db intent quote m.same_quote quoted)) in
      simulate_fill-completes E execution_intent_id settlement_attempted_at now db intent quote
        p.decimals metrics p.input fill found quoted ready m p.known valued p.spends fresh enters
        keys
