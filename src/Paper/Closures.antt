-- ===== src/Paper/Closures.antt =====
-- settlement/paper.py: what a completed `simulate_close` rests on and leaves.
use mathlib.Core.Path.{subst}
use defi_engine.Base.{
  ◌≡◌, refl, sym, ap, ◌∙◌, ℕ, ◌==◌, ◌^◌, true, Option, none, some, [], ◌∷◌, ◌++◌, inl, inr, ◌||◌,
  Bool-cases,
}
use defi_engine.Base.Int.{ℤ}
use defi_engine.Base.Members.{Changed, update-Changed}
use defi_engine.Base.Text.{parse_int}
use defi_engine.Base.Time.{Instant, DateTime, ensure_utc, or_else}
use defi_engine.Env.{Env}
use defi_engine.Truth.{
  Database, Result, return, QuoteSnapshot, PaperSession, PaperFill, PaperPosition,
  PaperSessionReport,
}
use defi_engine.Intent.{find_quote, none_or_zero}
use defi_engine.Paper.Validation.{str_opt}
use defi_engine.Paper.Metrics.{CloseMetrics, build_close_metrics, close_metrics_of, usdc_decimals}
use defi_engine.Paper.Close.{
  CloseRequest, CloseAnswer, exit_fill, closed_position, closed_session, close_report, find_session,
  latest_position, simulate_close,
}
use defi_engine.Paper.Exits.{ExitFits, validate_close_inputs-ExitFits}
use defi_engine.Paper.Closes.{
  CloseSteps, simulate_close-steps, closed_db, build_close_metrics-realized,
}

module _ (E : Env) where
  -- The exit fill of a close: it sells what the quote sells, under the trace and the verdict of the
  -- request, and no intent.
  pub record ExitFill (request : CloseRequest) (session_id fill_id : ℕ) (quote : QuoteSnapshot E)
      (fill : PaperFill E) : Type 0 where
    pub id : fill.id ≡ fill_id
    pub session : fill.session_id ≡ session_id
    pub no_intent : fill.execution_intent_id ≡ none
    pub trace : fill.policy_trace_id ≡ request.policy_trace_id
    pub verdict : fill.risk_verdict_id ≡ request.risk_verdict_id
    pub quoted : fill.quote_snapshot_id ≡ quote.id
    pub exits : (fill.fill_role ≡ "exit") × (fill.fill_side ≡ "sell")
    pub spends : (fill.input_mint ≡ quote.input_mint) × (fill.input_amount ≡ quote.input_amount)
    pub gains :
        (fill.output_mint ≡ quote.output_mint) × (fill.output_amount ≡ str_opt quote.output_amount)

  -- A session that was closed, a position that was emptied, and the report of it.
  abbrev pub SessionEnds : Instant → E.Float → PaperSession E → PaperSession E → Type 0
  SessionEnds at cash before after =
      (after.id ≡ before.id)
      × (after.session_key ≡ before.session_key)
      × (after.status ≡ "closed")
      × (after.closed_at ≡ some at)
      × (after.ending_cash_usdc ≡ some cash)

  abbrev pub PositionEnds : ℕ → E.Float → PaperPosition E → PaperPosition E → Type 0
  PositionEnds fill_id profit before after =
      (after.id ≡ before.id)
      × (after.session_id ≡ before.session_id)
      × (after.mint ≡ before.mint)
      × (after.net_quantity ≡ E.float_zero)
      × (after.unrealized_pnl_usdc ≡ E.float_zero)
      × (after.realized_pnl_usdc ≡ profit)
      × (after.last_fill_id ≡ fill_id)

  abbrev pub CloseReport : ℕ → ℕ → E.Float → E.Float → PaperSessionReport E → Type 0
  CloseReport session_id report_id cash profit report =
      (report.id ≡ report_id)
      × (report.session_id ≡ session_id)
      × (report.report_type ≡ "session_close")
      × (report.cash_usdc ≡ cash)
      × (report.equity_usdc ≡ cash)
      × (report.position_value_usdc ≡ E.float_zero)
      × (report.realized_pnl_usdc ≡ profit)

  -- What a completed close rests on and leaves.
  pub record Closed (request : CloseRequest) (at : Instant) (db : Database E)
      (answer : CloseAnswer E) (db' : Database E) : Type 0 where
    pub paper_session : PaperSession E
    pub position : PaperPosition E
    pub quote : QuoteSnapshot E
    pub found : find_session E db request.session_key ≡ some paper_session
    pub was_open : paper_session.status ≡ "open"
    pub held : latest_position E db paper_session.id ≡ some position
    pub quoted : find_quote E db request.quote_snapshot_id ≡ some quote
    pub fits : ExitFits E db position quote at request.close_reason
    pub proceeds :
        (output : ℤ) × (parse_int quote.output_amount ≡ some output)
        × (answer.ending_cash_usdc ≡ E.int_div output (10 ^ usdc_decimals))
    pub profit : answer.realized_pnl_usdc ≡ E.sub answer.ending_cash_usdc position.cost_basis_usdc
    pub answered :
        (answer.closed ≡ true)
        × (answer.session_status ≡ "closed")
        × (answer.session_id ≡ paper_session.id)
        × (answer.position_id ≡ position.id)
    pub sessions :
        Changed
          (λ (row : PaperSession E). row.id == paper_session.id)
          (SessionEnds at answer.ending_cash_usdc)
          db.paper_sessions
          db'.paper_sessions
    pub positions :
        Changed
          (λ (row : PaperPosition E). row.id == position.id)
          (PositionEnds answer.fill_id answer.realized_pnl_usdc)
          db.paper_positions
          db'.paper_positions
    pub fills :
        (fill : PaperFill E) × (db'.paper_fills ≡ db.paper_fills ++ fill ∷ [])
        × ExitFill request answer.session_id answer.fill_id quote fill
    pub reports :
        (report : PaperSessionReport E) × (db'.paper_reports ≡ db.paper_reports ++ report ∷ [])
        × CloseReport answer.session_id answer.report_id answer.ending_cash_usdc
            answer.realized_pnl_usdc report
    pub untouched :
        (db'.intents ≡ db.intents)
        × (db'.risk_verdicts ≡ db.risk_verdicts)
        × (db'.policy_traces ≡ db.policy_traces)
        × (db'.quotes ≡ db.quotes)

  abbrev Proceeds : Option ℤ → Option (CloseMetrics E) → Type 0
  Proceeds output none = Unit
  Proceeds output (some m) =
      (n : ℤ) × (output ≡ some n) × (m.cash_usdc ≡ E.int_div n (10 ^ usdc_decimals))

  close_metrics_of-Proceeds :
      (input output : Option ℤ) (decimals : ℕ) (cost : E.Float)
      → Proceeds output (close_metrics_of E input output decimals cost)
  close_metrics_of-Proceeds none output decimals cost = tt
  close_metrics_of-Proceeds (some m) none decimals cost = tt
  close_metrics_of-Proceeds (some m) (some n) decimals cost =
      elim (Bool-cases (none_or_zero (some m) || E.le (E.int_div m (10 ^ decimals)) E.float_zero)) [
        | inl invalid ↦ rw invalid tt
        | inr valid ↦ rw valid (n, refl, refl)
      ]

  build_close_metrics-Proceeds :
      (quote : QuoteSnapshot E) (decimals : ℕ) (cost : E.Float) (metrics : CloseMetrics E)
      → build_close_metrics E quote decimals cost ≡ some metrics
      → Proceeds (parse_int quote.output_amount) (some metrics)
  unfolding build_close_metrics
  build_close_metrics-Proceeds quote decimals cost metrics h =
      subst (Proceeds (parse_int quote.output_amount)) h (
        close_metrics_of-Proceeds (parse_int (some quote.input_amount))
          (parse_int quote.output_amount) decimals cost)

  steps-Closed :
      (request : CloseRequest) (at : Instant) (db db' : Database E) (answer : CloseAnswer E)
      → CloseSteps E request at db answer db'
      → Closed request at db answer db'
  unfolding closed_db closed_session closed_position close_report exit_fill
  steps-Closed request at db db' answer c =
      let s = c.paper_session in
      let p = c.position in
      let fill = exit_fill E db s at c.quote c.metrics request in
      let cash = sym c.ending_cash in
      let (session_id, position_id, fill_id, report_id) = c.names in
      let (output, parsed, gained) =
        build_close_metrics-Proceeds c.quote c.decimals p.cost_basis_usdc c.metrics c.valued in
      let gain =
        build_close_metrics-realized E c.quote c.decimals p.cost_basis_usdc c.metrics c.valued
        ∙ (ap (λ x. E.sub x p.cost_basis_usdc) cash ∙ sym c.realized) in
      record {
        paper_session = s;
        position = p;
        quote = c.quote;
        found = c.found;
        was_open = c.was_open;
        held = c.held;
        quoted = c.quoted;
        fits = validate_close_inputs-ExitFits E db p c.quote at request.close_reason c.fits;
        proceeds = (output, parsed, c.ending_cash ∙ gained);
        profit = c.realized;
        answered = (c.closed.0, c.closed.1, session_id, position_id);
        sessions =
            subst
              (λ (d : Database E).
                Changed (λ (row : PaperSession E). row.id == s.id)
                  (SessionEnds at answer.ending_cash_usdc) db.paper_sessions d.paper_sessions)
              (sym c.leaves)
              (update-Changed (λ row. row.id == s.id) (SessionEnds at answer.ending_cash_usdc)
                (closed_session E at c.metrics request) db.paper_sessions
                (λ row. (refl, refl, refl, refl, ap some cash)));
        positions =
            subst
              (λ (d : Database E).
                Changed (λ (row : PaperPosition E). row.id == p.id)
                  (PositionEnds answer.fill_id answer.realized_pnl_usdc) db.paper_positions
                  d.paper_positions)
              (sym c.leaves)
              (update-Changed (λ row. row.id == p.id)
                (PositionEnds answer.fill_id answer.realized_pnl_usdc)
                (closed_position E fill.id at c.quote c.metrics) db.paper_positions
                (λ row. (refl, refl, refl, refl, refl, gain, sym fill_id)));
        fills = (
          fill,
          ap (λ (d : Database E). d.paper_fills) c.leaves,
          record {
            id = sym fill_id;
            session = sym session_id;
            no_intent = refl;
            trace = refl;
            verdict = refl;
            quoted = refl;
            exits = (refl, refl);
            spends = (refl, refl);
            gains = (refl, refl);
          },
        );
        reports = (
          close_report E db s at c.quote c.metrics request,
          ap (λ (d : Database E). d.paper_reports) c.leaves,
          (sym report_id, sym session_id, refl, cash, cash, refl, gain),
        );
        untouched = (
          ap (λ (d : Database E). d.intents) c.leaves,
          ap (λ (d : Database E). d.risk_verdicts) c.leaves,
          ap (λ (d : Database E). d.policy_traces) c.leaves,
          ap (λ (d : Database E). d.quotes) c.leaves,
        );
      }

  -- A close that completes found the session open and its latest position held, and was given a
  -- reason and a recent quote that sells exactly that position for USDC. It answers with the USDC
  -- output of the quote as the cash and that less the cost of the position as the profit. It leaves
  -- the session closed with that cash, the position emptied with that profit, one exit fill of the
  -- quote and one report, every other row of these four tables as it was, and the intents,
  -- verdicts, traces and quotes untouched.
  pub simulate_close-closes :
      (request : CloseRequest) (settlement_attempted_at : Option DateTime) (now : Instant)
      (db db' : Database E) (answer : CloseAnswer E)
      → ◌≡◌ {A = Result (CloseAnswer E) × Database E}
          (simulate_close E request settlement_attempted_at now db)
          (return answer, db')
      → Closed request (or_else (ensure_utc settlement_attempted_at) now) db answer db'
  simulate_close-closes request settlement_attempted_at now db db' answer h =
      steps-Closed request (or_else (ensure_utc settlement_attempted_at) now) db db' answer
        (simulate_close-steps E request settlement_attempted_at now db db' answer h)
