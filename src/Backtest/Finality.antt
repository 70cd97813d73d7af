-- ===== src/Backtest/Finality.antt =====
-- settlement/backtest.py: a closed backtest session takes no fill and no second close.
use mathlib.Core.Path.{subst}
use defi_engine.Base.{
  ◌≡◌, refl, sym, ap, ◌∙◌, ℕ, ◌==◌, String, true, Option, some, arith, List, str_eq, str_eq→eq,
  str_ne, select, ◌≢◌,
}
use defi_engine.Base.Sort.{sort_by}
use defi_engine.Base.Members.{find_first-update}
use defi_engine.Base.Time.{Instant}
use defi_engine.Env.{Env}
use defi_engine.Truth.{
  Database, finish, Exception, Result, return, raise, BacktestSession, BacktestPosition,
}
use defi_engine.Truth.Returns.{
  bind-returns, then-returns, raise_if-returns, or_raise-returns, finish-returns,
}
use defi_engine.Paper.Guards.{not-flip}
use defi_engine.Backtest.Amounts.{current_cash}
use defi_engine.Backtest.Record.{FillRequest, FillReceipt, find_backtest_session, record_fill}
use defi_engine.Backtest.Close.{
  BacktestCloseRequest, BacktestCloseAnswer, closed_backtest, close_backtest_rows, close_session,
}
use defi_engine.Backtest.Order.{record_fill-steps, return-fst-snd}

states_ne : ◌≢◌ {A = String} "closed" "open"
unfolding str_eq
states_ne = str_ne _ _ refl

same_id : (n : ℕ) → (n == n) ≡ true
same_id n = ground arith

-- A call that cannot return raises, and leaves the database as it was.
pub raises-unless_returns {ℓ} :
    {E : Env} {A : Type ℓ} (db : Database E) (r : Result (A × Database E))
    → ((a : A) (db' : Database E)
        → ◌≡◌ {A = Result A × Database E} (finish db r) (return a, db')
        → ⊥)
    → (e : Exception) × (◌≡◌ {A = Result A × Database E} (finish db r) (raise e, db))
raises-unless_returns db (return (a, db')) never = absurd (never a db' refl)
raises-unless_returns db (raise e) never = (e, refl)

some_same : {A : Type 0} (a b : A) → ◌≡◌ {A = Option A} (some a) (some b) → a ≡ b
some_same a b h = cc

module _ (E : Env) where
  -- What a completed close found and left.
  pub record BacktestClosed (request : BacktestCloseRequest E) (db : Database E) (db' : Database E)
      : Type 0 where
    pub owner : BacktestSession E
    pub at : Instant
    pub positions : List (BacktestPosition E)
    pub found : find_backtest_session E db request.session_id ≡ some owner
    pub was_open : owner.status ≡ "open"
    pub leaves : db' ≡ (close_backtest_rows E db owner at positions request).1

  close_session-closes :
      (request : BacktestCloseRequest E) (db db' : Database E) (answer : BacktestCloseAnswer E)
      → ◌≡◌ {A = Result (BacktestCloseAnswer E) × Database E}
          (close_session E request db)
          (return answer, db')
      → BacktestClosed request db db'
  unfolding close_session
  close_session-closes request db db' answer h =
      let (at, h₁, k₁) = bind-returns _ _ _ (finish-returns db _ answer db' h) in
      let (owner, h₂, k₂) = bind-returns _ _ _ k₁ in
      let (h₃, k₃) = then-returns _ _ _ k₂ in
      let (h₄, k₄) = then-returns _ _ _ k₃ in
      let (h₅, k₅) = then-returns _ _ _ k₄ in
      let (answered, appended) = return-fst-snd _ answer db' k₅ in
      record {
        owner = owner;
        at = at;
        positions =
            sort_by (λ row. row.mint)
              (select (λ row. row.session_id == request.session_id) db.backtest_positions);
        found = or_raise-returns _ _ _ h₂;
        was_open = str_eq→eq _ _ ((not-flip _).0 (raise_if-returns _ _ h₃));
        leaves = appended;
      }

  -- After a completed close the session is closed.
  close_session-status :
      (request : BacktestCloseRequest E) (db db' : Database E)
      → BacktestClosed request db db'
      → (s : BacktestSession E) × (find_backtest_session E db' request.session_id ≡ some s)
        × (s.status ≡ "closed")
  unfolding find_backtest_session close_backtest_rows closed_backtest
  close_session-status request db db' c =
      let s = c.owner in
      let cash = current_cash E db request.session_id s.starting_cash_usdc in
      let after = closed_backtest E c.at cash request in
      let found =
        find_first-update (λ (row : BacktestSession E). row.id == request.session_id)
          (λ row. row.id == s.id) after db.backtest_sessions s (λ x. refl) (same_id s.id) c.found in
      (
        after s,
        subst (λ d. find_backtest_session E d request.session_id ≡ some (after s)) (sym c.leaves)
            found,
        refl,
      )

  -- The session under this id is not open.
  never_fills :
      (request : FillRequest E) (db db' : Database E) (receipt : FillReceipt E)
      (s : BacktestSession E)
      → find_backtest_session E db request.session_id ≡ some s
      → s.status ≡ "closed"
      → ◌≡◌ {A = Result (FillReceipt E) × Database E}
          (record_fill E request db)
          (return receipt, db')
      → ⊥
  never_fills request db db' receipt s found shut h =
      let w = record_fill-steps E request db db' receipt h in
      let same : s ≡ w.owner = some_same s w.owner (sym found ∙ w.found) in
      states_ne (sym shut ∙ (ap (λ (x : BacktestSession E). x.status) same ∙ w.was_open))

  never_closes :
      (request : BacktestCloseRequest E) (db db' : Database E) (answer : BacktestCloseAnswer E)
      (s : BacktestSession E)
      → find_backtest_session E db request.session_id ≡ some s
      → s.status ≡ "closed"
      → ◌≡◌ {A = Result (BacktestCloseAnswer E) × Database E}
          (close_session E request db)
          (return answer, db')
      → ⊥
  never_closes request db db' answer s found shut h =
      let c = close_session-closes request db db' answer h in
      let same : s ≡ c.owner = some_same s c.owner (sym found ∙ c.found) in
      states_ne (sym shut ∙ (ap (λ (x : BacktestSession E). x.status) same ∙ c.was_open))

  refuses_fill :
      (request : FillRequest E) (db : Database E) (s : BacktestSession E)
      → find_backtest_session E db request.session_id ≡ some s
      → s.status ≡ "closed"
      → (e : Exception) × (◌≡◌ {A = Result (FillReceipt E) × Database E}
          (record_fill E request db)
          (raise e, db))
  unfolding record_fill
  refuses_fill request db s found shut =
      raises-unless_returns db _
        (λ receipt db' h. never_fills request db db' receipt s found shut h)

  refuses_close :
      (request : BacktestCloseRequest E) (db : Database E) (s : BacktestSession E)
      → find_backtest_session E db request.session_id ≡ some s
      → s.status ≡ "closed"
      → (e : Exception) × (◌≡◌ {A = Result (BacktestCloseAnswer E) × Database E}
          (close_session E request db)
          (raise e, db))
  unfolding close_session
  refuses_close request db s found shut =
      raises-unless_returns db _ (λ answer db' h. never_closes request db db' answer s found shut h)

  -- A backtest session that was closed stays closed: every later fill into it and every later close
  -- of it, with whatever arguments, raises and writes nothing.
  pub close_session-final :
      (request : BacktestCloseRequest E) (db db' : Database E) (answer : BacktestCloseAnswer E)
      (fill : FillRequest E) (again : BacktestCloseRequest E)
      → ◌≡◌ {A = Result (BacktestCloseAnswer E) × Database E}
          (close_session E request db)
          (return answer, db')
      → fill.session_id ≡ request.session_id
      → again.session_id ≡ request.session_id
      → ((e : Exception) × (◌≡◌ {A = Result (FillReceipt E) × Database E}
            (record_fill E fill db')
            (raise e, db')))
        × ((e : Exception) × (◌≡◌ {A = Result (BacktestCloseAnswer E) × Database E}
              (close_session E again db')
              (raise e, db')))
  close_session-final request db db' answer fill again h same_fill same_again =
      let c = close_session-closes request db db' answer h in
      let (s, found, shut) = close_session-status request db db' c in
      (
        refuses_fill fill db' s
            (subst (λ i. find_backtest_session E db' i ≡ some s) (sym same_fill) found) shut,
        refuses_close again db' s
            (subst (λ i. find_backtest_session E db' i ≡ some s) (sym same_again) found) shut,
      )
