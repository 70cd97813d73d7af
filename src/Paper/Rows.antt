-- ===== src/Paper/Rows.antt =====
-- settlement/paper.py: the rows that a skipped attempt and a fill leave.
use mathlib.Core.Path.{subst}
use defi_engine.Base.{
  ◌≡◌, refl, sym, ap, ◌∙◌, ℕ, String, true, false, Option, some, [], ◌∷◌, ◌++◌, is_nil,
}
use defi_engine.Base.Int.{ℤ}
use defi_engine.Base.Text.{parse_int}
use defi_engine.Base.Time.{Instant}
use defi_engine.Env.{Env}
use defi_engine.Truth.{
  Database, return, ExecutionIntent, QuoteSnapshot, PaperSession, PaperFill, PaperPosition,
  PaperSessionReport,
}
use defi_engine.Truth.Returns.{bind-returns, or_raise-returns, return-pair}
use defi_engine.Paper.Validation.{resolve_asset_decimals, validate_inputs}
use defi_engine.Paper.Metrics.{FillMetrics, build_fill_metrics}
use defi_engine.Paper.Store.{insert_position, insert_report, session_key_taken}
use defi_engine.Paper.Skip.{FillAnswer, persist_skipped_session, skipped_session, skipped_report}
use defi_engine.Paper.Fill.{open_session, entry_fill, entry_position, entry_report, settle}
use defi_engine.Paper.Inserts.{insert_session-returns, insert_fill-returns}

module _ (E : Env) where
  -- The database with the rows of a skipped attempt, and with those of a fill.
  unfoldable pub skipped_db : Database E → PaperSession E → PaperSessionReport E → Database E
  skipped_db db paper_session report = record db {
    paper_sessions = db.paper_sessions ++ paper_session ∷ [];
    paper_reports = db.paper_reports ++ report ∷ [];
  }

  unfoldable pub filled_db :
      Database E
      → PaperSession E
      → PaperFill E
      → PaperPosition E
      → PaperSessionReport E
      → Database E
  filled_db db paper_session fill position report = record db {
    paper_sessions = db.paper_sessions ++ paper_session ∷ [];
    paper_fills = db.paper_fills ++ fill ∷ [];
    paper_positions = db.paper_positions ++ position ∷ [];
    paper_reports = db.paper_reports ++ report ∷ [];
  }

  -- What a skipped attempt leaves: a closed session with the reasons, its report, and nothing else.
  pub record Skipped (session_key : String) (at : Instant) (intent? : Option (ExecutionIntent E))
      (quote? : Option (QuoteSnapshot E)) (db : Database E) (answer : FillAnswer E)
      (db' : Database E) : Type 0 where
    pub not_filled : answer.filled ≡ false
    pub skipped : answer.session_status ≡ "skipped"
    pub objects : is_nil (validate_inputs E intent? quote? at) ≡ false
    pub reasons : answer.reason_codes ≡ validate_inputs E intent? quote? at
    pub fresh : session_key_taken E db session_key ≡ false
    pub leaves :
        let reasons = validate_inputs E intent? quote? at in
        let paper_session = skipped_session E db session_key at intent? quote? reasons in
        db' ≡ skipped_db db paper_session (skipped_report E db paper_session reasons)

  pub skip-returns :
      (db db' : Database E) (session_key : String) (at : Instant)
      (intent? : Option (ExecutionIntent E)) (quote? : Option (QuoteSnapshot E))
      (answer : FillAnswer E)
      → is_nil (validate_inputs E intent? quote? at) ≡ false
      → persist_skipped_session E db session_key at intent? quote?
          (validate_inputs E intent? quote? at)
        ≡ return (answer, db')
      → Skipped session_key at intent? quote? db answer db'
  unfolding persist_skipped_session skipped_session skipped_report insert_report skipped_db
  skip-returns db db' session_key at intent? quote? answer objects h =
      let reasons = validate_inputs E intent? quote? at in
      let row = skipped_session E db session_key at intent? quote? reasons in
      let (db₁, h₁, h₂) = bind-returns _ _ _ h in
      let (fresh, same) = insert_session-returns E db db₁ row h₁ in
      let (answered, appended) = return-pair _ _ _ _ h₂ in
      record {
        not_filled = sym (ap (λ (a : FillAnswer E). a.filled) answered);
        skipped = sym (ap (λ (a : FillAnswer E). a.session_status) answered);
        objects = objects;
        reasons = sym (ap (λ (a : FillAnswer E). a.reason_codes) answered);
        fresh = fresh;
        leaves = sym appended ∙ ap (λ d. insert_report E d (skipped_report E d row reasons)) same;
      }

  -- What a fill leaves: an open session, its fill, its position and its report.
  pub record Filled (session_key : String) (at : Instant) (intent : ExecutionIntent E)
      (quote : QuoteSnapshot E) (db : Database E) (answer : FillAnswer E) (db' : Database E)
      : Type 0 where
    pub filled : answer.filled ≡ true
    pub opened : answer.session_status ≡ "open"
    pub decimals : ℕ
    pub known : resolve_asset_decimals E db quote.output_mint ≡ some decimals
    pub metrics : FillMetrics E
    pub valued : build_fill_metrics E quote decimals ≡ some metrics
    pub size : ℤ
    pub parsed : parse_int (some quote.input_amount) ≡ some size
    pub fresh : session_key_taken E db session_key ≡ false
    pub fill : PaperFill E
    pub session_id : ℕ
    pub numbered : session_id ≡ (open_session E db session_key at size metrics).id
    pub enters : entry_fill E db session_id at intent quote metrics ≡ return fill
    pub leaves :
        db'
        ≡ filled_db db
            (open_session E db session_key at size metrics)
            fill
            (entry_position E db session_id fill.id at quote metrics)
            (entry_report E db session_id at quote metrics)

  -- The rows of a fill read only the tables that they go into.
  fill_rows :
      (db db₁ : Database E) (session_key : String) (at : Instant) (intent : ExecutionIntent E)
      (quote : QuoteSnapshot E) (metrics : FillMetrics E) (size : ℤ) (session_id : ℕ)
      (fill : PaperFill E)
      → db₁ ≡ record db {
        paper_sessions = db.paper_sessions ++ open_session E db session_key at size metrics ∷ [];
      }
      → entry_fill E db₁ session_id at intent quote metrics ≡ return fill
      → entry_fill E db session_id at intent quote metrics ≡ return fill
  unfolding entry_fill
  fill_rows db db₁ session_key at intent quote metrics size session_id fill same h =
      subst (λ d. entry_fill E d session_id at intent quote metrics ≡ return fill) same h

  pub settle-returns :
      (db db' : Database E) (session_key : String) (at : Instant) (intent : ExecutionIntent E)
      (quote : QuoteSnapshot E) (decimals : ℕ) (metrics : FillMetrics E) (answer : FillAnswer E)
      → resolve_asset_decimals E db quote.output_mint ≡ some decimals
      → build_fill_metrics E quote decimals ≡ some metrics
      → settle E db session_key at intent quote metrics ≡ return (answer, db')
      → Filled session_key at intent quote db answer db'
  unfolding settle open_session entry_position entry_report insert_position insert_report filled_db
  settle-returns db db' session_key at intent quote decimals metrics answer known valued h =
      let (size, h₁, k₁) = bind-returns _ _ _ h in
      let paper_session = open_session E db session_key at size metrics in
      let (db₁, h₂, k₂) = bind-returns _ _ _ k₁ in
      let (fill, h₃, k₃) = bind-returns _ _ _ k₂ in
      let (db₂, h₄, k₄) = bind-returns _ _ _ k₃ in
      let (fresh, same₁) = insert_session-returns E db db₁ paper_session h₂ in
      let (keys, same₂) = insert_fill-returns E db₁ db₂ fill h₄ in
      let (answered, appended) = return-pair _ _ _ _ k₄ in
      let id = paper_session.id in
      record {
        filled = sym (ap (λ (a : FillAnswer E). a.filled) answered);
        opened = sym (ap (λ (a : FillAnswer E). a.session_status) answered);
        decimals = decimals;
        known = known;
        metrics = metrics;
        valued = valued;
        size = size;
        parsed = or_raise-returns _ _ _ h₁;
        fresh = fresh;
        fill = fill;
        session_id = id;
        numbered = refl;
        enters = fill_rows db db₁ session_key at intent quote metrics size id fill same₁ h₃;
        leaves =
            sym appended
            ∙ ap
                (λ d.
                  insert_report E
                    (insert_position E d (entry_position E d id fill.id at quote metrics))
                    (entry_report E
                      (insert_position E d (entry_position E d id fill.id at quote metrics)) id at
                      quote metrics))
                (same₂
                  ∙ ap (λ (d : Database E). record d { paper_fills = d.paper_fills ++ fill ∷ [] })
                      same₁);
      }
