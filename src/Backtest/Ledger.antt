-- ===== src/Backtest/Ledger.antt =====
-- settlement/backtest.py: what a recorded fill rests on, and the rows that it leaves.
use mathlib.Core.Path.{subst}
use defi_engine.Base.{
  ◌≡◌, refl, sym, ap, inl, inr, ℕ, ◌==◌, String, true, false, Option, none, some, List, [], ◌∷◌,
  ◌++◌, str_eq, truthy, if◌then◌else◌, if-true, if-false, Bool-cases,
}
use defi_engine.Base.Int.{ℤ, nonpositive}
use defi_engine.Base.Members.{Changed, update-Changed}
use defi_engine.Base.Text.{parse_int, str_ℤ}
use defi_engine.Base.Time.{Instant, ensure_utc}
use defi_engine.Env.{Env}
use defi_engine.Settings.{usdc_mint}
use defi_engine.Truth.{
  Database, Result, return, BacktestSession, BacktestFill, BacktestPosition, BacktestSessionReport,
}
use defi_engine.Paper.{resolve_asset_decimals}
use defi_engine.Backtest.Amounts.{normalize_side, current_cash, compute_fee_usdc, Applied}
use defi_engine.Backtest.Record.{
  FillRequest, FillReceipt, positive, find_backtest_session, last_fill, goes_back,
  find_backtest_position, backtest_fill, marked_position, new_position, positioned, backtest_report,
  recorded, record_fill,
}
use defi_engine.Backtest.Order.{FillSteps, record_fill-steps}
use defi_engine.Backtest.Accounts.{same_some, normalize_side-cases, Accounted, apply_fill-Accounted}

module _ (E : Env) where
  open E use {Float, float_zero, int_div, add, sub, mul, div, lt, le}

  positive-parts :
      (o : Option ℤ) (n : ℤ) → positive E o ≡ some n → (o ≡ some n) × (nonpositive n ≡ false)
  positive-parts none n h = cc
  positive-parts (some m) n h = elim (Bool-cases (nonpositive m)) [
    | inl e ↦ cc (if-true _ _ _ _ e h)
    | inr e ↦
        let same = same_some m n (if-false _ _ _ _ e h) in
        (ap some same, subst (λ k. nonpositive k ≡ false) same e)
  ]

  supported-parts :
      (mint : String) (o : Option ℕ) (n : ℕ)
      → (if str_eq mint usdc_mint then none else o) ≡ some n
      → (str_eq mint usdc_mint ≡ false) × (o ≡ some n)
  supported-parts mint o n h = elim (Bool-cases (str_eq mint usdc_mint)) [
    | inl e ↦ cc (if-true _ _ _ _ e h)
    | inr e ↦ (e, if-false _ _ _ _ e h)
  ]

  -- A position after a fill.
  abbrev pub Marks : ℕ → Float → Applied E → BacktestPosition E → Type 0
  Marks fill_id price a p =
      (p.net_quantity ≡ a.net_quantity)
      × (p.cost_basis_usdc ≡ a.cost_basis_usdc)
      × (p.realized_pnl_usdc ≡ a.realized_pnl_usdc)
      × (p.last_fill_id ≡ fill_id)
      × (p.last_mark_price_usdc ≡ some price)

  abbrev pub SamePosition : BacktestPosition E → BacktestPosition E → Type 0
  SamePosition before after =
      (after.id ≡ before.id) × (after.session_id ≡ before.session_id) × (after.mint ≡ before.mint)

  -- The table of positions after a fill: a new position of the session and the mint, or the one
  -- that there was with new values.
  abbrev pub Positions :
      FillRequest E
      → FillReceipt E
      → Applied E
      → Option (BacktestPosition E)
      → List (BacktestPosition E)
      → List (BacktestPosition E)
      → Type 0
  Positions request receipt a none before after =
      (p : BacktestPosition E) × (after ≡ before ++ p ∷ [])
      × (p.id ≡ receipt.position_id)
      × (p.session_id ≡ request.session_id)
      × (p.mint ≡ request.mint)
      × Marks receipt.fill_id request.fill_price_usdc a p
  Positions request receipt a (some old) before after =
      (old.id ≡ receipt.position_id)
      × Changed (λ (row : BacktestPosition E). row.id == old.id)
          (λ p q. SamePosition p q × Marks receipt.fill_id request.fill_price_usdc a q) before after

  -- The fill that was asked for.
  abbrev pub FillRow :
      FillRequest E
      → FillReceipt E
      → BacktestSession E
      → Instant
      → String
      → ℤ
      → ℤ
      → BacktestFill E
      → Type 0
  FillRow request receipt owner event_time side input output fill =
      (fill.id ≡ receipt.fill_id)
      × (fill.session_id ≡ request.session_id)
      × (fill.event_time ≡ event_time)
      × (fill.mint ≡ request.mint)
      × (fill.side ≡ side)
      × (fill.input_amount ≡ str_ℤ input)
      × (fill.output_amount ≡ str_ℤ output)
      × (fill.fill_price_usdc ≡ request.fill_price_usdc)
      × (fill.fee_usdc ≡ compute_fee_usdc E side input output owner.fee_bps)

  -- The report of the cash after the fill, which the receipt repeats.
  abbrev pub CashReport :
      FillRequest E → FillReceipt E → Applied E → BacktestSessionReport E → Type 0
  CashReport request receipt a report =
      (report.id ≡ receipt.report_id)
      × (report.session_id ≡ request.session_id)
      × (report.cash_usdc ≡ a.cash_after)
      × (receipt.cash_usdc ≡ a.cash_after)
      × (report.realized_pnl_usdc ≡ a.realized_pnl_usdc)

  -- What a recorded fill rests on, and what it leaves.
  pub record Recorded (request : FillRequest E) (db : Database E) (receipt : FillReceipt E)
      (db' : Database E) : Type 0 where
    pub owner : BacktestSession E
    pub event_time : Instant
    pub side : String
    pub decimals : ℕ
    pub input : ℤ
    pub output : ℤ
    pub applied : Applied E
    pub timed : ensure_utc (some request.event_time) ≡ some event_time
    pub referenced : truthy request.replay_reference ≡ true
    pub sided : normalize_side request.side ≡ some side
    pub priced : le request.fill_price_usdc float_zero ≡ false
    pub found : find_backtest_session E db request.session_id ≡ some owner
    pub was_open : owner.status ≡ "open"
    pub forward : goes_back E event_time (last_fill E db request.session_id) ≡ false
    pub supported :
        (str_eq request.mint usdc_mint ≡ false)
        × (resolve_asset_decimals E db request.mint ≡ some decimals)
    pub spends : (parse_int (some request.input_amount) ≡ some input) × (nonpositive input ≡ false)
    pub gains :
        (parse_int (some request.output_amount) ≡ some output) × (nonpositive output ≡ false)
    pub accounted :
        Accounted E side
          (current_cash E db request.session_id owner.starting_cash_usdc)
          (compute_fee_usdc E side input output owner.fee_bps)
          (find_backtest_position E db request.session_id request.mint)
          input
          output
          decimals
          applied
    pub fills :
        (fill : BacktestFill E) × (db'.backtest_fills ≡ db.backtest_fills ++ fill ∷ [])
        × FillRow request receipt owner event_time side input output fill
    pub positions :
        Positions request receipt applied
          (find_backtest_position E db request.session_id request.mint)
          db.backtest_positions
          db'.backtest_positions
    pub reports :
        (report : BacktestSessionReport E) × (db'.backtest_reports
          ≡ db.backtest_reports ++ report ∷ [])
        × CashReport request receipt applied report
    pub sessions : db'.backtest_sessions ≡ db.backtest_sessions

  -- The rows of a fill, for a position that is new and one that there was.
  recorded-Positions :
      (request : FillRequest E) (db : Database E) (fill : BacktestFill E) (a : Applied E)
      (o : Option (BacktestPosition E))
      → Positions request
          (recorded E db fill a o request).0
          a
          o
          db.backtest_positions
          (recorded E db fill a o request).1.backtest_positions
  unfolding recorded positioned marked_position new_position
  recorded-Positions request db fill a none = (
    new_position E db fill.id fill.event_time a request,
    refl,
    refl,
    refl,
    refl,
    (refl, refl, refl, refl, refl),
  )
  recorded-Positions request db fill a (some old) = (
    refl,
    update-Changed (λ row. row.id == old.id)
        (λ p q. SamePosition p q × Marks fill.id request.fill_price_usdc a q)
        (marked_position E fill.id fill.event_time a request) db.backtest_positions
        (λ row. ((refl, refl, refl), (refl, refl, refl, refl, refl))),
  )

  recorded-CashReport :
      (request : FillRequest E) (db : Database E) (fill : BacktestFill E) (a : Applied E)
      (o : Option (BacktestPosition E))
      → let after = recorded E db fill a o request in
        (report : BacktestSessionReport E) × (after.1.backtest_reports
          ≡ db.backtest_reports ++ report ∷ [])
        × CashReport request after.0 a report
  unfolding recorded positioned marked_position new_position backtest_report
  recorded-CashReport request db fill a none = (_, refl, (refl, refl, refl, refl, refl))
  recorded-CashReport request db fill a (some old) = (_, refl, (refl, refl, refl, refl, refl))

  recorded-FillRow :
      (request : FillRequest E) (db : Database E) (owner : BacktestSession E) (at : Instant)
      (side : String) (input output : ℤ) (a : Applied E) (o : Option (BacktestPosition E))
      → let fee = compute_fee_usdc E side input output owner.fee_bps in
        let fill = backtest_fill E db owner at side input output fee request in
        let after = recorded E db fill a o request in
        (row : BacktestFill E) × (after.1.backtest_fills ≡ db.backtest_fills ++ row ∷ [])
        × FillRow request after.0 owner at side input output row
  unfolding recorded backtest_fill
  recorded-FillRow request db owner at side input output a o =
      (_, refl, (refl, refl, refl, refl, refl, refl, refl, refl, refl))

  -- The four tables of the replay after a fill.
  abbrev Rows :
      FillRequest E
      → Database E
      → BacktestSession E
      → Instant
      → String
      → ℤ
      → ℤ
      → Applied E
      → FillReceipt E
      → Database E
      → Type 0
  Rows request db owner at side input output a receipt db' =
      ((row : BacktestFill E) × (db'.backtest_fills ≡ db.backtest_fills ++ row ∷ [])
        × FillRow request receipt owner at side input output row)
      × Positions request receipt a (find_backtest_position E db request.session_id request.mint)
          db.backtest_positions db'.backtest_positions
      × ((report : BacktestSessionReport E) × (db'.backtest_reports
            ≡ db.backtest_reports ++ report ∷ [])
          × CashReport request receipt a report)
      × (db'.backtest_sessions ≡ db.backtest_sessions)

  steps-Rows :
      (request : FillRequest E) (db db' : Database E) (receipt : FillReceipt E)
      (w : FillSteps E request db receipt db')
      → Rows request db w.owner w.event_time w.side w.input w.output w.applied receipt db'
  unfolding recorded
  steps-Rows request db db' receipt w =
      let o = find_backtest_position E db request.session_id request.mint in
      let fee = compute_fee_usdc E w.side w.input w.output w.owner.fee_bps in
      let fill = backtest_fill E db w.owner w.event_time w.side w.input w.output fee request in
      subst (λ x. Rows request db w.owner w.event_time w.side w.input w.output w.applied x db')
        (sym w.leaves.0)
        (subst
          (λ d.
            Rows request db w.owner w.event_time w.side w.input w.output w.applied
              (recorded E db fill w.applied o request).0 d)
          (sym w.leaves.1)
          (
            recorded-FillRow request db w.owner w.event_time w.side w.input w.output w.applied o,
            recorded-Positions request db fill w.applied o,
            recorded-CashReport request db fill w.applied o,
            refl,
          ))

  -- A fill that is recorded had a replay reference, a supported side, a positive price, an open
  -- session, a time after the last fill of the session, a token with decimals, and positive amounts;
  -- a buy was covered by the cash, a sale by the position. It leaves one fill with what was asked,
  -- one report with the cash of these accounts, and the position with their quantity, cost and
  -- profit, a new one or the one that there was; the other positions and the sessions are as they
  -- were, and the receipt names the three rows and the cash.
  pub record_fill-records :
      (request : FillRequest E) (db db' : Database E) (receipt : FillReceipt E)
      → ◌≡◌ {A = Result (FillReceipt E) × Database E}
          (record_fill E request db)
          (return receipt, db')
      → Recorded request db receipt db'
  record_fill-records request db db' receipt h =
      let w = record_fill-steps E request db db' receipt h in
      let (fills, positions, reports, sessions) = steps-Rows request db db' receipt w in
      record {
        owner = w.owner;
        event_time = w.event_time;
        side = w.side;
        decimals = w.decimals;
        input = w.input;
        output = w.output;
        applied = w.applied;
        timed = w.timed;
        referenced = w.referenced;
        sided = w.sided;
        priced = w.priced;
        found = w.found;
        was_open = w.was_open;
        forward = w.forward;
        supported = supported-parts request.mint _ w.decimals w.supported;
        spends = positive-parts _ w.input w.input_parsed;
        gains = positive-parts _ w.output w.output_parsed;
        accounted =
            apply_fill-Accounted E w.side _ _ _ w.input w.output w.decimals w.applied
              (normalize_side-cases request.side w.side w.sided) w.applies;
        fills = fills;
        positions = positions;
        reports = reports;
        sessions = sessions;
      }
