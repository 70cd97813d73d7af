-- ===== src/Paper/Closes.antt =====
-- settlement/paper.py: the steps of a completed `simulate_close`, and that it is final.
use mathlib.Core.Path.{subst}
use Prim.Native.String.{◌++◌ as text_append}
use defi_engine.Base.{
  update, ◌≡◌, refl, sym, ap, ◌∙◌, inl, inr, ℕ, ◌==◌, ◌^◌, ◌||◌, String, true, false, Option, none,
  some, Bool-cases, if-true, if-false, arith, [], ◌∷◌, ◌++◌, is_nil, str_eq, str_eq→eq,
}
use defi_engine.Base.Time.{Instant, DateTime, ensure_utc, or_else}
use defi_engine.Env.{Env}
use defi_engine.Truth.{
  Database, Result, return, raise, runtime_error, ◌>>=◌, ◌>>◌, raise_if, or_raise, QuoteSnapshot,
  PaperSession, PaperPosition,
}
use defi_engine.Base.Members.{find_first-update}
use defi_engine.Truth.Returns.{
  bind-returns, then-returns, raise_if-returns, or_raise-returns, finish-returns, return-pair,
}
use defi_engine.Intent.{find_quote}
use defi_engine.Paper.Validation.{resolve_asset_decimals, validate_close_inputs}
use defi_engine.Paper.Metrics.{CloseMetrics, build_close_metrics, close_metrics_of}
use defi_engine.Base.Int.{ℤ}
use defi_engine.Base.Text.{parse_int}
use defi_engine.Intent.{none_or_zero}
use defi_engine.Paper.Guards.{not-flip}
use defi_engine.Paper.Store.{insert_report, next_fill_id, next_report_id}
use defi_engine.Paper.Inserts.{insert_fill-returns}
use defi_engine.Paper.Close.{
  CloseRequest, CloseAnswer, exit_fill, closed_position, closed_session, close_report, close_rows,
  find_session, latest_position, simulate_close,
}

abbrev Realizes : {E : Env} → E.Float → Option (CloseMetrics E) → Type 0
Realizes cost none = Unit
Realizes {E} cost (some m) = m.realized_pnl_usdc ≡ E.sub m.cash_usdc cost

close_metrics_of-realized :
    {E : Env} (input output : Option ℤ) (decimals : ℕ) (cost : E.Float) (metrics : CloseMetrics E)
    → close_metrics_of E input output decimals cost ≡ some metrics
    → metrics.realized_pnl_usdc ≡ E.sub metrics.cash_usdc cost
close_metrics_of-realized none output decimals cost metrics h = cc
close_metrics_of-realized (some m) none decimals cost metrics h = cc
close_metrics_of-realized {E} (some m) (some n) decimals cost metrics h =
    elim (Bool-cases (none_or_zero (some m) || E.le (E.int_div m (10 ^ decimals)) E.float_zero)) [
      | inl invalid ↦ let no_metrics = if-true _ _ _ _ invalid h in cc
      | inr valid ↦ let same = if-false _ _ _ _ valid h in subst (Realizes {E = E} cost) same refl
    ]

same_id : (n : ℕ) → (n == n) ≡ true
same_id n = ground arith

not_open : (s : String) → s ≡ "closed" → str_eq s "open" ≡ false
unfolding str_eq
not_open s e = rw e

module _ (E : Env) where
  -- The database after the writes of a close.
  unfoldable pub closed_db :
      Database E
      → PaperSession E
      → PaperPosition E
      → Instant
      → QuoteSnapshot E
      → CloseMetrics E
      → CloseRequest
      → Database E
  closed_db db paper_session position at quote metrics request =
      let fill = exit_fill E db paper_session at quote metrics request in
      record db {
        paper_fills = db.paper_fills ++ fill ∷ [];
        paper_positions =
            update (λ row. row.id == position.id) (closed_position E fill.id at quote metrics)
              db.paper_positions;
        paper_sessions =
            update (λ row. row.id == paper_session.id) (closed_session E at metrics request)
              db.paper_sessions;
        paper_reports =
            db.paper_reports ++ close_report E db paper_session at quote metrics request ∷ [];
      }

  -- The steps of a completed close.
  pub record CloseSteps (request : CloseRequest) (at : Instant) (db : Database E)
      (answer : CloseAnswer E) (db' : Database E) : Type 0 where
    pub paper_session : PaperSession E
    pub position : PaperPosition E
    pub quote : QuoteSnapshot E
    pub decimals : ℕ
    pub metrics : CloseMetrics E
    pub found : find_session E db request.session_key ≡ some paper_session
    pub was_open : paper_session.status ≡ "open"
    pub held : latest_position E db paper_session.id ≡ some position
    pub quoted : find_quote E db request.quote_snapshot_id ≡ some quote
    pub fits :
        is_nil (validate_close_inputs E db position (some quote) at request.close_reason) ≡ true
    pub known : resolve_asset_decimals E db position.mint ≡ some decimals
    pub valued : build_close_metrics E quote decimals position.cost_basis_usdc ≡ some metrics
    pub leaves : db' ≡ closed_db db paper_session position at quote metrics request
    pub closed : (answer.closed ≡ true) × (answer.session_status ≡ "closed")
    pub names :
        (answer.session_id ≡ paper_session.id)
        × (answer.position_id ≡ position.id)
        × (answer.fill_id ≡ next_fill_id E db)
        × (answer.report_id ≡ next_report_id E db)
    pub ending_cash : answer.ending_cash_usdc ≡ metrics.cash_usdc
    pub realized : answer.realized_pnl_usdc ≡ E.sub answer.ending_cash_usdc position.cost_basis_usdc

  close_rows-returns :
      (db db' : Database E) (paper_session : PaperSession E) (position : PaperPosition E)
      (at : Instant) (quote : QuoteSnapshot E) (metrics : CloseMetrics E) (request : CloseRequest)
      (answer : CloseAnswer E)
      → close_rows E db paper_session position at quote metrics request ≡ return (answer, db')
      → (db' ≡ closed_db db paper_session position at quote metrics request)
        × ((answer.closed ≡ true) × (answer.session_status ≡ "closed"))
        × ((answer.realized_pnl_usdc ≡ metrics.realized_pnl_usdc)
            × (answer.ending_cash_usdc ≡ metrics.cash_usdc))
        × ((answer.session_id ≡ paper_session.id)
            × (answer.position_id ≡ position.id)
            × (answer.fill_id ≡ next_fill_id E db)
            × (answer.report_id ≡ next_report_id E db))
  unfolding close_rows closed_db insert_report close_report exit_fill
  close_rows-returns db db' paper_session position at quote metrics request answer h =
      let fill = exit_fill E db paper_session at quote metrics request in
      let (db₁, h₁, k₁) = bind-returns _ _ _ h in
      let (keys, same) = insert_fill-returns E db db₁ fill h₁ in
      let (answered, appended) = return-pair _ _ _ _ k₁ in
      (
        sym appended
            ∙ ap
                (λ (d : Database E).
                  let db₂ : Database E = record d {
                    paper_positions =
                        update (λ row. row.id == position.id)
                          (closed_position E fill.id at quote metrics) d.paper_positions;
                    paper_sessions =
                        update (λ row. row.id == paper_session.id)
                          (closed_session E at metrics request) d.paper_sessions;
                  } in
                  insert_report E db₂ (close_report E db₂ paper_session at quote metrics request))
                same,
        (
          sym (ap (λ (a : CloseAnswer E). a.closed) answered),
          sym (ap (λ (a : CloseAnswer E). a.session_status) answered),
        ),
        (
          sym (ap (λ (a : CloseAnswer E). a.realized_pnl_usdc) answered),
          sym (ap (λ (a : CloseAnswer E). a.ending_cash_usdc) answered),
        ),
        (
          sym (ap (λ (a : CloseAnswer E). a.session_id) answered),
          sym (ap (λ (a : CloseAnswer E). a.position_id) answered),
          sym (ap (λ (a : CloseAnswer E). a.fill_id) answered),
          sym (ap (λ (a : CloseAnswer E). a.report_id) answered)
              ∙ ap (λ (d : Database E). next_report_id E d) same,
        ),
      )

  -- The profit of a close is its cash less the cost of the position.
  pub build_close_metrics-realized :
      (quote : QuoteSnapshot E) (decimals : ℕ) (cost : E.Float) (metrics : CloseMetrics E)
      → build_close_metrics E quote decimals cost ≡ some metrics
      → metrics.realized_pnl_usdc ≡ E.sub metrics.cash_usdc cost
  unfolding build_close_metrics
  build_close_metrics-realized quote decimals cost metrics h =
      close_metrics_of-realized (parse_int (some quote.input_amount))
        (parse_int quote.output_amount) decimals cost metrics h

  pub simulate_close-steps :
      (request : CloseRequest) (settlement_attempted_at : Option DateTime) (now : Instant)
      (db db' : Database E) (answer : CloseAnswer E)
      → ◌≡◌ {A = Result (CloseAnswer E) × Database E}
          (simulate_close E request settlement_attempted_at now db)
          (return answer, db')
      → CloseSteps request (or_else (ensure_utc settlement_attempted_at) now) db answer db'
  unfolding simulate_close
  simulate_close-steps request settlement_attempted_at now db db' answer h =
      let at = or_else (ensure_utc settlement_attempted_at) now in
      let (paper_session, h₁, k₁) = bind-returns _ _ _ (finish-returns db _ answer db' h) in
      let (h₂, k₂) = then-returns _ _ _ k₁ in
      let (position, h₃, k₃) = bind-returns _ _ _ k₂ in
      let (h₄, k₄) = then-returns _ _ _ k₃ in
      let (decimals, h₅, k₅) = bind-returns _ _ _ k₄ in
      let (quote, h₆, k₆) = bind-returns _ _ _ k₅ in
      let (metrics, h₇, k₇) = bind-returns _ _ _ k₆ in
      let quoted = or_raise-returns _ _ _ h₆ in
      let valued = or_raise-returns _ _ _ h₇ in
      let (leaves, closed, (realized, ending_cash), names) =
        close_rows-returns db db' paper_session position at quote metrics request answer k₇ in
      record {
        paper_session = paper_session;
        position = position;
        quote = quote;
        decimals = decimals;
        metrics = metrics;
        found = or_raise-returns _ _ _ h₁;
        was_open = str_eq→eq _ _ ((not-flip _).0 (raise_if-returns _ _ h₂));
        held = or_raise-returns _ _ _ h₃;
        quoted = quoted;
        fits =
            subst
              (λ q. is_nil (validate_close_inputs E db position q at request.close_reason) ≡ true)
              quoted ((not-flip _).0 (raise_if-returns _ _ h₄));
        known = or_raise-returns _ _ _ h₅;
        valued = valued;
        leaves = leaves;
        closed = closed;
        names = names;
        ending_cash = ending_cash;
        realized =
            realized
            ∙ (build_close_metrics-realized quote decimals position.cost_basis_usdc metrics valued
                ∙ ap (λ x. E.sub x position.cost_basis_usdc) (sym ending_cash));
      }

  -- After a completed close the session under that key is closed.
  Closed-session :
      (request : CloseRequest) (at : Instant) (db db' : Database E) (answer : CloseAnswer E)
      → CloseSteps request at db answer db'
      → (s : PaperSession E) × (find_session E db' request.session_key ≡ some s)
        × (s.status ≡ "closed")
  unfolding find_session closed_db closed_session
  Closed-session request at db db' answer c =
      let s = c.paper_session in
      let after = closed_session E at c.metrics request in
      let found =
        find_first-update (λ (row : PaperSession E). str_eq row.session_key request.session_key)
          (λ row. row.id == s.id) after db.paper_sessions s (λ x. refl) (same_id s.id) c.found in
      (
        after s,
        subst (λ d. find_session E d request.session_key ≡ some (after s)) (sym c.leaves) found,
        refl,
      )

  -- A closed session stays closed: after a close that completed, every further close under the same
  -- key raises and writes nothing, whatever quote, reason and time it is given.
  pub simulate_close-final :
      (request : CloseRequest) (settlement_attempted_at : Option DateTime) (now : Instant)
      (db db' : Database E) (answer : CloseAnswer E) (again : CloseRequest)
      (attempted_again_at : Option DateTime) (later : Instant)
      → ◌≡◌ {A = Result (CloseAnswer E) × Database E}
          (simulate_close E request settlement_attempted_at now db)
          (return answer, db')
      → again.session_key ≡ request.session_key
      → simulate_close E again attempted_again_at later db' ≡ (
        raise (
            runtime_error
              (text_append "Paper session is not open and cannot be closed: " again.session_key)),
        db',
      )
  unfolding simulate_close ◌>>=◌ ◌>>◌ or_raise raise_if
  simulate_close-final request settlement_attempted_at now db db' answer again attempted_again_at
        later h same_key =
      let c = simulate_close-steps request settlement_attempted_at now db db' answer h in
      let (s, found, status) =
        Closed-session request (or_else (ensure_utc settlement_attempted_at) now) db db' answer c in
      let found_again : find_session E db' again.session_key ≡ some s =
        subst (λ k. find_session E db' k ≡ some s) (sym same_key) found in
      let shut : str_eq s.status "open" ≡ false = not_open s.status status in rw (found_again, shut)
