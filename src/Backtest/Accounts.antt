-- ===== src/Backtest/Accounts.antt =====
-- settlement/backtest.py: the cash, quantity, cost and profit of a fill that was applied.
use mathlib.Core.Path.{subst}
use defi_engine.Base.{
  ◌≡◌, refl, sym, ◌⊎◌, inl, inr, ℕ, ◌^◌, ◌||◌, String, false, Option, some, str_eq, is_none,
  if◌then◌else◌, if-true, if-false, Bool-cases,
}
use defi_engine.Base.Int.{ℤ}
use defi_engine.Base.Text.{codes, strip, lower, same_codes}
use defi_engine.Env.{Env}
use defi_engine.Truth.{Result, return, BacktestPosition}
use defi_engine.Truth.Returns.{then-returns, raise_if-returns}
use defi_engine.Paper.{usdc_decimals}
use defi_engine.Backtest.Amounts.{normalize_side, Applied, apply_fill, apply_buy, apply_sell, held}

same_return : {A : Type 0} (a b : A) → ◌≡◌ {A = Result A} (return a) (return b) → a ≡ b
same_return a b h = cc

pub same_some : {A : Type 0} (a b : A) → ◌≡◌ {A = Option A} (some a) (some b) → a ≡ b
same_some a b h = cc

-- A supported side is one of two.
pub normalize_side-cases :
    (value side : String) → normalize_side value ≡ some side → (side ≡ "buy") ⊎ (side ≡ "sell")
unfolding normalize_side
normalize_side-cases value side h =
    elim (Bool-cases (same_codes (lower (strip (codes value))) (codes "buy"))) [
      | inl e ↦ inl (sym (same_some "buy" side (if-true _ _ _ _ e h)))
      | inr e ↦ elim (Bool-cases (same_codes (lower (strip (codes value))) (codes "sell"))) [
        | inl d ↦ inr (sym (same_some "sell" side (if-true _ _ _ _ d (if-false _ _ _ _ e h))))
        | inr d ↦ cc (if-false _ _ _ _ d (if-false _ _ _ _ e h))
      ]
    ]

module _ (E : Env) where
  open E use {Float, float_zero, int_div, add, sub, mul, div, lt, le}

  -- A buy: the cash covers the USDC input and the fee, and pays them; the output is added to the
  -- position, and what was paid to its cost.
  abbrev pub Bought : Float → Float → Option (BacktestPosition E) → ℤ → ℤ → ℕ → Applied E → Type 0
  Bought cash fee position input output decimals a =
      let cost = add (int_div input (10 ^ usdc_decimals)) fee in
      let quantity = int_div output (10 ^ decimals) in
      (le quantity float_zero ≡ false)
      × (lt cash cost ≡ false)
      × (a.cash_after ≡ sub cash cost)
      × (a.net_quantity ≡ add (held E position (λ p. p.net_quantity)) quantity)
      × (a.cost_basis_usdc ≡ add (held E position (λ p. p.cost_basis_usdc)) cost)
      × (a.realized_pnl_usdc ≡ held E position (λ p. p.realized_pnl_usdc))

  -- A sale: the position holds the input, the cash gains the USDC output less the fee, and the
  -- position loses the input with its share of the cost, or all when nothing remains.
  abbrev pub Sold : Float → Float → Option (BacktestPosition E) → ℤ → ℤ → ℕ → Applied E → Type 0
  Sold cash fee position input output decimals a =
      let quantity = int_div input (10 ^ decimals) in
      let proceeds = int_div output (10 ^ usdc_decimals) in
      let before = held E position (λ p. p.net_quantity) in
      let cost = held E position (λ p. p.cost_basis_usdc) in
      let portion = mul cost (div quantity before) in
      let emptied = le (sub before quantity) float_zero in
      (le quantity float_zero ≡ false)
      × ((is_none position || le before float_zero) ≡ false)
      × (lt before quantity ≡ false)
      × (a.cash_after ≡ sub (add cash proceeds) fee)
      × (a.net_quantity ≡ (if emptied then float_zero else sub before quantity))
      × (a.cost_basis_usdc ≡ (if emptied then float_zero else sub cost portion))
      × (a.realized_pnl_usdc
          ≡ add (held E position (λ p. p.realized_pnl_usdc)) (sub (sub proceeds fee) portion))

  apply_buy-Bought :
      (cash fee : Float) (position : Option (BacktestPosition E)) (input output : ℤ) (decimals : ℕ)
      (a : Applied E)
      → apply_buy E cash position input output decimals fee ≡ return a
      → Bought cash fee position input output decimals a
  unfolding apply_buy
  apply_buy-Bought cash fee position input output decimals a h =
      let (h₁, k₁) = then-returns _ _ _ h in
      let (h₂, k₂) = then-returns _ _ _ k₁ in
      subst (Bought cash fee position input output decimals) (same_return _ a k₂)
        (raise_if-returns _ _ h₁, raise_if-returns _ _ h₂, refl, refl, refl, refl)

  apply_sell-Sold :
      (cash fee : Float) (position : Option (BacktestPosition E)) (input output : ℤ) (decimals : ℕ)
      (a : Applied E)
      → apply_sell E cash position input output decimals fee ≡ return a
      → Sold cash fee position input output decimals a
  unfolding apply_sell
  apply_sell-Sold cash fee position input output decimals a h =
      let (h₁, k₁) = then-returns _ _ _ h in
      let (h₂, k₂) = then-returns _ _ _ k₁ in
      let (h₃, k₃) = then-returns _ _ _ k₂ in
      subst (Sold cash fee position input output decimals) (same_return _ a k₃) (
        raise_if-returns _ _ h₁,
        raise_if-returns _ _ h₂,
        raise_if-returns _ _ h₃,
        refl,
        refl,
        refl,
        refl,
      )

  -- The accounts of a fill of either side.
  abbrev pub Accounted :
      String → Float → Float → Option (BacktestPosition E) → ℤ → ℤ → ℕ → Applied E → Type 0
  Accounted side cash fee position input output decimals a =
      ((side ≡ "buy") × Bought cash fee position input output decimals a)
      ⊎ ((side ≡ "sell") × Sold cash fee position input output decimals a)

  pub apply_fill-Accounted :
      (side : String) (cash fee : Float) (position : Option (BacktestPosition E)) (input output : ℤ)
      (decimals : ℕ) (a : Applied E)
      → (side ≡ "buy") ⊎ (side ≡ "sell")
      → apply_fill E side cash position input output decimals fee ≡ return a
      → Accounted side cash fee position input output decimals a
  unfolding apply_fill str_eq
  apply_fill-Accounted side cash fee position input output decimals a (inl buys) h = inl (
    buys,
    apply_buy-Bought cash fee position input output decimals a
        (subst (λ s. apply_fill E s cash position input output decimals fee ≡ return a) buys h),
  )
  apply_fill-Accounted side cash fee position input output decimals a (inr sells) h = inr (
    sells,
    apply_sell-Sold cash fee position input output decimals a
        (subst (λ s. apply_fill E s cash position input output decimals fee ≡ return a) sells h),
  )
