-- ===== src/Backtest/Order.antt =====
-- settlement/backtest.py: the steps of a recorded fill, and that the fills of a session move forward.
use defi_engine.Base.{
  ◌≡◌, refl, ◌⊎◌, inl, inr, ℕ, ◌<◌, ◌==◌, ◌||◌, ◌&&◌, String, Bool, true, false, Option, none, some,
  arith, List, [], ◌∷◌, if◌then◌else◌, ltb, str_eq, truthy, str_eq→eq, best, select,
}
use defi_engine.Base.Int.{ℤ}
use defi_engine.Base.Members.{All}
use defi_engine.Base.Time.{Instant, ensure_utc}
use defi_engine.Env.{Env}
use defi_engine.Truth.{Database, Result, return, BacktestSession, BacktestFill}
use defi_engine.Truth.Returns.{
  bind-returns, then-returns, raise_if-returns, or_raise-returns, finish-returns,
}
use defi_engine.Settings.{usdc_mint}
use defi_engine.Base.Text.{parse_int}
use defi_engine.Paper.{resolve_asset_decimals}
use defi_engine.Paper.Guards.{not-flip}
use defi_engine.Backtest.Amounts.{
  normalize_side, current_cash, compute_fee_usdc, Applied, apply_fill,
}
use defi_engine.Backtest.Record.{
  FillRequest, FillReceipt, positive, find_backtest_session, last_fill, goes_back,
  find_backtest_position, backtest_fill, recorded, record_fill,
}

-- The first row by a descending key has the greatest key.
module _ {ℓ} {A : Type ℓ} (p : A → Bool) (key id : A → ℕ) where
  abbrev later : A → A → Bool
  later a b = ltb (key a) (key b) || (key a == key b && ltb (id a) (id b))

  abbrev Before : ℕ → A → Type 0
  Before t x = (p x ≡ false) ⊎ (key x < t)

  abbrev Bounded : ℕ → Option A → Type 0
  Bounded t none = Unit
  Bounded t (some y) = key y < t

  choose :
      (t : ℕ) (x : A) (o : Option A)
      → Bounded t
          (elim o as (λ _. Option A) [ none ↦ some x | some y ↦ some (if later x y then y else x) ])
      → (key x < t) × Bounded t o
  choose t x none h = (h, tt)
  choose t x (some y) h = (ground arith, ground arith)

  pick :
      (t : ℕ) (b : Bool) (x : A) (xs : List A)
      → Bounded t (best later (if b then x ∷ xs else xs))
      → ((b ≡ false) ⊎ (key x < t)) × Bounded t (best later xs)
  unfolding best
  pick t false x xs h = (inl refl, h)
  pick t true x xs h = let (less, rest) = choose t x (best later xs) h in (inr less, rest)

  best-Before : (t : ℕ) (xs : List A) → Bounded t (best later (select p xs)) → All (Before t) xs
  unfolding select
  best-Before t [] h = tt
  best-Before t (x ∷ xs) h =
      let (here, rest) = pick t (p x) x (select p xs) h in (here, best-Before t xs rest)

pub return-fst-snd :
    {A B : Type 0} (p : A × B) (a : A) (b : B)
    → ◌≡◌ {A = Result (A × B)} (return p) (return (a, b))
    → (a ≡ p.0) × (b ≡ p.1)
return-fst-snd (x, y) a b h = (cc, cc)

module _ (E : Env) where
  -- The steps of a recorded fill.
  pub record FillSteps (request : FillRequest E) (db : Database E) (receipt : FillReceipt E)
      (db' : Database E) : Type 0 where
    pub owner : BacktestSession E
    pub event_time : Instant
    pub side : String
    pub decimals : ℕ
    pub input : ℤ
    pub output : ℤ
    pub applied : Applied E
    pub timed : ensure_utc (some request.event_time) ≡ some event_time
    pub referenced : truthy request.replay_reference ≡ true
    pub sided : normalize_side request.side ≡ some side
    pub priced : E.le request.fill_price_usdc E.float_zero ≡ false
    pub found : find_backtest_session E db request.session_id ≡ some owner
    pub was_open : owner.status ≡ "open"
    pub forward : goes_back E event_time (last_fill E db request.session_id) ≡ false
    pub supported :
        (if str_eq request.mint usdc_mint then none else resolve_asset_decimals E db request.mint)
        ≡ some decimals
    pub input_parsed : positive E (parse_int (some request.input_amount)) ≡ some input
    pub output_parsed : positive E (parse_int (some request.output_amount)) ≡ some output
    pub applies :
        apply_fill E side
          (current_cash E db request.session_id owner.starting_cash_usdc)
          (find_backtest_position E db request.session_id request.mint)
          input
          output
          decimals
          (compute_fee_usdc E side input output owner.fee_bps)
        ≡ return applied
    pub leaves :
        let fee = compute_fee_usdc E side input output owner.fee_bps in
        let fill = backtest_fill E db owner event_time side input output fee request in
        let position = find_backtest_position E db request.session_id request.mint in
        (receipt ≡ (recorded E db fill applied position request).0)
        × (db' ≡ (recorded E db fill applied position request).1)

  pub record_fill-steps :
      (request : FillRequest E) (db db' : Database E) (receipt : FillReceipt E)
      → ◌≡◌ {A = Result (FillReceipt E) × Database E}
          (record_fill E request db)
          (return receipt, db')
      → FillSteps request db receipt db'
  unfolding record_fill
  record_fill-steps request db db' receipt h =
      let (event_time, h₁, k₁) = bind-returns _ _ _ (finish-returns db _ receipt db' h) in
      let (h₂, k₂) = then-returns _ _ _ k₁ in
      let (side, h₃, k₃) = bind-returns _ _ _ k₂ in
      let (h₄, k₄) = then-returns _ _ _ k₃ in
      let (owner, h₅, k₅) = bind-returns _ _ _ k₄ in
      let (h₆, k₆) = then-returns _ _ _ k₅ in
      let (h₇, k₇) = then-returns _ _ _ k₆ in
      let (decimals, h₈, k₈) = bind-returns _ _ _ k₇ in
      let (input, h₉, k₉) = bind-returns _ _ _ k₈ in
      let (output, h₁₀, k₁₀) = bind-returns _ _ _ k₉ in
      let (applied, h₁₁, k₁₁) = bind-returns _ _ _ k₁₀ in
      let fee = compute_fee_usdc E side input output owner.fee_bps in
      let fill = backtest_fill E db owner event_time side input output fee request in
      let position = find_backtest_position E db request.session_id request.mint in
      let (answered, appended) =
        return-fst-snd (recorded E db fill applied position request) receipt db' k₁₁ in
      record {
        owner = owner;
        event_time = event_time;
        side = side;
        decimals = decimals;
        input = input;
        output = output;
        applied = applied;
        timed = or_raise-returns _ _ _ h₁;
        referenced = (not-flip _).0 (raise_if-returns _ _ h₂);
        sided = or_raise-returns _ _ _ h₃;
        priced = raise_if-returns _ _ h₄;
        found = or_raise-returns _ _ _ h₅;
        was_open = str_eq→eq _ _ ((not-flip _).0 (raise_if-returns _ _ h₆));
        forward = raise_if-returns _ _ h₇;
        supported = or_raise-returns _ _ _ h₈;
        input_parsed = or_raise-returns _ _ _ h₉;
        output_parsed = or_raise-returns _ _ _ h₁₀;
        applies = h₁₁;
        leaves = (answered, appended);
      }

  -- A fill of another session, or one before `t`.
  abbrev pub Earlier : ℕ → Instant → BacktestFill E → Type 0
  Earlier session_id t fill = ((fill.session_id == session_id) ≡ false) ⊎ (fill.event_time < t)

  forward-Earlier :
      (session_id : ℕ) (t : Instant) (db : Database E)
      → goes_back E t (last_fill E db session_id) ≡ false
      → All (Earlier session_id t) db.backtest_fills
  unfolding last_fill
  forward-Earlier session_id t db h =
      best-Before (λ (row : BacktestFill E). row.session_id == session_id) (λ row. row.event_time)
        (λ row. row.id) t db.backtest_fills (bounded (last_fill E db session_id) h)
    where
      bounded :
          (o : Option (BacktestFill E))
          → goes_back E t o ≡ false
          → Bounded
              (λ (row : BacktestFill E). row.session_id == session_id)
              (λ row. row.event_time)
              (λ row. row.id)
              t
              o
      bounded none h = tt
      bounded (some fill) h = ground arith

  -- A backtest session only moves forward: when a fill has been recorded, every fill that its
  -- session had before is strictly earlier.
  pub record_fill-forward :
      (request : FillRequest E) (db db' : Database E) (receipt : FillReceipt E)
      → ◌≡◌ {A = Result (FillReceipt E) × Database E}
          (record_fill E request db)
          (return receipt, db')
      → (t : Instant) × (ensure_utc (some request.event_time) ≡ some t)
        × All (Earlier request.session_id t) db.backtest_fills
  record_fill-forward request db db' receipt h =
      let w = record_fill-steps request db db' receipt h in
      (w.event_time, w.timed, forward-Earlier request.session_id w.event_time db w.forward)
