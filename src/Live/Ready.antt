-- ===== src/Live/Ready.antt =====
-- live_execution/readiness.py: exactly when a metrics packet is ready.
use mathlib.Core.Path.{subst}
use defi_engine.Base.{
  ◌≡◌, refl, sym, ap, ◌∙◌, ◌↔◌, String, Bool, true, false, not, Option, none, some, List, [], ◌∷◌,
  is_nil, str_eq,
}
use defi_engine.Base.Checks.{failing, failing_none}
use defi_engine.Base.Int.{pos, less}
use defi_engine.Base.Time.{Instant}
use defi_engine.Json.{Fields, end}
use defi_engine.Env.{Env}
use defi_engine.Truth.{Result, return, raise}
use defi_engine.Truth.Returns.{bind-returns}
use defi_engine.Live.Readiness.{
  LiveSettings, Thresholds, thresholds, checks, float_metric, int_metric, flag_metric, reason_codes,
  decision, read_dictionary, evaluate_metrics, evaluate_readiness,
}
use defi_engine.Live.Arm.{truth_of}

module _ (E : Env) where
  open E use {Float, float_zero, of_int, int_div, lt, le, loads, Encoded}

  -- A metric that can be read, with a value that its test passes over.
  abbrev Reads {ℓ} : {A : Type ℓ} → Result A → (A → Bool) → Type ℓ
  Reads {A = A} r fails = (x : A) × (r ≡ return x) × (fails x ≡ false)

  -- The doctrine of micro-live: what a metrics packet shows of the paper evidence.
  abbrev pub IsReady : LiveSettings E → Fields Float → Type 0
  IsReady s m =
      Reads (float_metric E "rolling_win_rate" float_zero m) (λ x. lt x (int_div (pos 8) 10))
      × Reads (int_metric E "settled_trades" (pos 0) m) (λ n. less n (pos 20))
      × Reads (float_metric E "average_settled_trades_per_week" float_zero m)
          (λ x. lt x (of_int (pos 1)))
      × Reads (int_metric E "consecutive_trade_weeks" (pos 0) m) (λ n. less n (pos 4))
      × Reads (float_metric E "net_expectancy_after_cost" float_zero m) (λ x. le x float_zero)
      × Reads (float_metric E "profit_factor" float_zero m) (λ x. lt x (int_div (pos 3) 2))
      × Reads (float_metric E "max_drawdown_pct" (of_int (pos 100)) m)
          (λ x. lt s.max_drawdown_pct x)
      × (flag_metric E "quote_health_ok" m ≡ true)
      × Reads (int_metric E "unexplained_decision_gap_count" (pos 1) m) (λ n. less (pos 0) n)
      × (flag_metric E "candidate_comparison_accepted" m ≡ true)

  not-false : (b : Bool) → (not b ≡ false) ↔ (b ≡ true)
  not-false true = (λ h. refl, λ h. refl)
  not-false false = (λ h. cc, λ h. cc)

  -- A metric that was read holds its one value.
  read_one {ℓ} :
      {A : Type ℓ} (r : Result A) (fails : A → Bool) (x : A)
      → r ≡ return x
      → Reads r fails
      → fails x ≡ false
  read_one {A = A} (return y) fails x e (z, f, h) =
      subst (λ v. fails v ≡ false) (unwrap z x (sym f ∙ e)) h
    where
      unwrap : (a b : A) → ◌≡◌ {A = Result A} (return a) (return b) → a ≡ b
      unwrap a b p = cc
  read_one (raise e') fails x e h = cc

  -- The value of a metric that was read, in the place of the value that passes.
  reason_codes-nil :
      (s : LiveSettings E) (m : Fields Float) (codes : List String)
      → reason_codes E m (thresholds E s) ≡ return codes
      → (is_nil codes ≡ true) ↔ IsReady s m
  unfolding reason_codes checks
  reason_codes-nil s m codes h =
      let (rate, h₁, k) = bind-returns _ _ _ h in
      let (trades, h₂, k) = bind-returns _ _ _ k in
      let (weekly, h₃, k) = bind-returns _ _ _ k in
      let (weeks, h₄, k) = bind-returns _ _ _ k in
      let (expectancy, h₅, k) = bind-returns _ _ _ k in
      let (factor, h₆, k) = bind-returns _ _ _ k in
      let (drawdown, h₇, k) = bind-returns _ _ _ k in
      let (gaps, h₈, k) = bind-returns _ _ _ k in
      let tests : List (Bool × String) =
        checks E m (thresholds E s) rate trades weekly weeks expectancy factor drawdown gaps in
      let same : failing tests ≡ codes = ap answer k in
      let (fwd, bwd) = failing_none tests in
      let (quote_on, quote_off) = not-false (flag_metric E "quote_health_ok" m) in
      let (compared_on, compared_off) =
        not-false (flag_metric E "candidate_comparison_accepted" m) in
      (
        λ empty.
            let (c₁, (c₂, (c₃, (c₄, (c₅, (c₆, (c₇, (c₈, (c₉, (c₁₀, _)))))))))) =
              fwd (rw same empty) in
            (
              (rate, h₁, c₁),
              (trades, h₂, c₂),
              (weekly, h₃, c₃),
              (weeks, h₄, c₄),
              (expectancy, h₅, c₅),
              (factor, h₆, c₆),
              (drawdown, h₇, c₇),
              quote_on c₈,
              (gaps, h₈, c₉),
              compared_on c₁₀,
            ),
        λ (r₁, r₂, r₃, r₄, r₅, r₆, r₇, r₈, r₉, r₁₀).
            subst (λ l. is_nil l ≡ true) same
              (bwd (
                read_one _ _ rate h₁ r₁,
                (
                  read_one _ _ trades h₂ r₂,
                  (
                    read_one _ _ weekly h₃ r₃,
                    (
                      read_one _ _ weeks h₄ r₄,
                      (
                        read_one _ _ expectancy h₅ r₅,
                        (
                          read_one _ _ factor h₆ r₆,
                          (
                            read_one _ _ drawdown h₇ r₇,
                            (quote_off r₈, (read_one _ _ gaps h₈ r₉, (compared_off r₁₀, tt))),
                          ),
                        ),
                      ),
                    ),
                  ),
                ),
              )),
      )
    where
      answer : Result (List String) → List String
      answer (return l) = l
      answer (raise e) = []

  decision-passed :
      (passed : Bool) (codes : List String) (t : Thresholds E) (m : Fields Float) (path : String)
      (now : Instant)
      → truth_of E "passed" (decision E passed codes t m path now) ≡ passed
  unfolding truth_of decision str_eq
  decision-passed passed codes t m path now = refl

  -- The metrics file holds a dictionary that is ready.
  abbrev pub HoldsReady : LiveSettings E → Option Encoded → Type 0
  HoldsReady s file =
      (content : Encoded) × (metrics : Fields Float) × (file ≡ some content)
      × (read_dictionary E content ≡ return metrics)
      × IsReady s metrics

  metrics-passed :
      (s : LiveSettings E) (path : String) (now : Instant) (content : Encoded) (d : Fields Float)
      → evaluate_metrics E s path now content ≡ return d
      → (truth_of E "passed" d ≡ true) ↔ HoldsReady s (some content)
  unfolding evaluate_metrics
  metrics-passed s path now content d h =
      let (metrics, read, k) = bind-returns _ _ _ h in
      let (codes, reasons, k) = bind-returns _ _ _ k in
      let (ready, unready) = reason_codes-nil s metrics codes reasons in
      let same : truth_of E "passed" d ≡ is_nil codes =
        subst (λ x. truth_of E "passed" x ≡ is_nil codes) (ap (answer d) k)
          (decision-passed (is_nil codes) codes (thresholds E s) metrics path now) in
      (
        λ passed. (content, metrics, refl, read, ready (sym same ∙ passed)),
        λ (c, m, is_file, read', holds). same ∙ unready (subst (IsReady s) (cc) holds),
      )
    where
      answer : Fields Float → Result (Fields Float) → Fields Float
      answer _ (return x) = x
      answer default (raise e) = default

  -- A readiness evaluation that returns passes exactly if the metrics file exists and holds a
  -- dictionary whose ten metrics can be read and meet the doctrine. Without the file it fails.
  pub evaluate_readiness-passed :
      (s : LiveSettings E) (path : String) (now : Instant) (file : Option Encoded)
      (d : Fields Float)
      → evaluate_readiness E s path now file ≡ return d
      → (truth_of E "passed" d ≡ true) ↔ HoldsReady s file
  unfolding evaluate_readiness
  evaluate_readiness-passed s path now none d h =
      let fails : truth_of E "passed" d ≡ false =
        subst (λ x. truth_of E "passed" x ≡ false) (ap (answer d) h)
          (decision-passed false ("live_readiness_metrics_missing" ∷ []) (thresholds E s) end path
            now) in
      (λ passed. cc, λ (c, m, is_file, read, holds). cc)
    where
      answer : Fields Float → Result (Fields Float) → Fields Float
      answer _ (return x) = x
      answer default (raise e) = default
  evaluate_readiness-passed s path now (some content) d h = metrics-passed s path now content d h
