-- ===== src/Practice/Ahead.antt =====
-- No look-ahead in the walk-forward loop: what its windows do depends only on the rows before
-- their ends.
use defi_engine.Base.{
  ◌≡◌, refl, sym, ap, ◌∙◌, ℕ, zero, suc, ◌+◌, ◌*◌, ◌≤◌, ◌<◌, true, Option, List, leb, arith,
}
use defi_engine.Base.Time.{Instant}
use defi_engine.Truth.{Result, return, raise}
use defi_engine.Practice.Blind.{
  Alike, and_then-Alike, IsBlind, SameBefore, SameBefore-earlier, window_step-Alike,
}
use defi_engine.Practice.{Replayer, and_then, continue, window_stop, window_step, walk}

continue-continue {ℓ} :
    {A B C W : Type ℓ} (x : Result A × W) (k : A → W → Result B × W)
    (l : B → W → Option (Result C × W))
    → continue x (λ a w. continue (k a w) l) ≡ continue (and_then x k) l
unfolding continue and_then
continue-continue (return a, w) k l = refl
continue-continue (raise e, w) k l = refl

continue-ap {ℓ} :
    {A B W : Type ℓ} (x : Result A × W) (k l : A → W → Option (Result B × W))
    → ((a : A) (w : W) → k a w ≡ l a w)
    → continue x k ≡ continue x l
unfolding continue
continue-ap (return a, w) k l h = h a w
continue-ap (raise e, w) k l h = refl

suc_add : (k n : ℕ) → suc (k + n) ≡ suc k + n
suc_add k n = omega arith

spans_left : (start t span k : ℕ) → t ≡ start + suc k * span → t ≡ start + span + k * span
spans_left start t span k e = omega arith

one_span : (start t span k : ℕ) → t ≡ start + suc k * span → start + span ≤ t
one_span start t span k e = omega arith

leb-here :
    (start history_end : Instant) (span : ℕ)
    → 0 < span
    → start + span ≤ history_end + 1
    → leb start history_end ≡ true
leb-here start history_end span positive whole = ground arith

window_stop-whole :
    (start history_end : Instant) (span : ℕ)
    → start + span ≤ history_end + 1
    → window_stop history_end span start ≡ start + span
window_stop-whole start history_end span whole = ground arith

module _ {Row World Comparison Outcome : Type 0} (r : Replayer Row World Comparison Outcome) where
  module _ (history_start : Instant) (span : ℕ) where
    -- One round of a loop that is not at its end.
    walk-suc :
        (history_end : Instant) (rows : List Row) (n : ℕ) (start : Instant) (results : List Outcome)
        (w : World)
        → 0 < span
        → start + span ≤ history_end + 1
        → walk r history_start history_end span rows (suc n) start results w
          ≡ continue
              (window_step r history_start rows start (start + span) results w)
              (λ a v. walk r history_start history_end span rows n (start + span) a v)
    unfolding walk
    walk-suc history_end rows n start results w positive whole =
        rw (leb-here start history_end span positive whole)
          (rw (window_stop-whole start history_end span whole) refl)

    walk-from :
        (history_end : Instant) (rows : List Row) (m n : ℕ) (start t : Instant)
        (results : List Outcome) (w : World)
        → m ≡ n
        → start ≡ t
        → walk r history_start history_end span rows m start results w
          ≡ walk r history_start history_end span rows n t results w
    walk-from history_end rows m n start t results w e d = rw e (rw d refl)

    -- `k` windows of a history from `start` on, up to the first that raises.
    unfoldable pub windows :
        List Row → ℕ → Instant → List Outcome → World → Result (List Outcome) × World
    unfolding and_then window_step
    windows rows zero start results w = (return results, w)
    windows rows (suc k) start results w =
        and_then (window_step r history_start rows start (start + span) results w)
          (λ a v. windows rows k (start + span) a v)

    walk-windows :
        (t history_end : Instant) (rows : List Row) (k n : ℕ) (start : Instant)
        (results : List Outcome) (w : World)
        → 0 < span
        → t ≡ start + k * span
        → t ≤ history_end + 1
        → walk r history_start history_end span rows (k + n) start results w
          ≡ continue
              (windows rows k start results w)
              (λ a v. walk r history_start history_end span rows n t a v)
    unfolding continue windows
    walk-windows t history_end rows zero n start results w positive e h =
        walk-from history_end rows (0 + n) n start t results w (omega arith) (omega arith)
    walk-windows t history_end rows (suc k) n start results w positive e h =
        let here = one_span start t span k e in
        ap (λ m. walk r history_start history_end span rows m start results w) (sym (suc_add k n))
        ∙ walk-suc history_end rows (k + n) start results w positive (omega arith)
        ∙ continue-ap (window_step r history_start rows start (start + span) results w) _ _ (λ a v.
          walk-windows t history_end rows k n (start + span) a v positive
            (spans_left start t span k e) h)
        ∙ continue-continue (window_step r history_start rows start (start + span) results w)
            (λ a v. windows rows k (start + span) a v)
            (λ a v. walk r history_start history_end span rows n t a v)

    windows-Alike :
        (R : World → World → Type 0) (t : Instant) (rows rows' : List Row) (k : ℕ) (start : Instant)
        (results : List Outcome) (v w : World)
        → IsBlind r R t
        → t ≡ start + k * span
        → SameBefore r t rows rows'
        → R v w
        → Alike R (windows rows k start results v) (windows rows' k start results w)
    unfolding windows
    windows-Alike R t rows rows' zero start results v w blind e same related = (refl, related)
    windows-Alike R t rows rows' (suc k) start results v w blind e same related =
        let here = one_span start t span k e in
        and_then-Alike R (window_step r history_start rows start (start + span) results v)
          (window_step r history_start rows' start (start + span) results w)
          (λ a u. windows rows k (start + span) a u) (λ a u. windows rows' k (start + span) a u)
          (window_step-Alike r R t blind history_start start (start + span) rows rows' results v w
            here (SameBefore-earlier r (start + span) t rows rows' here same) related)
          (λ a v₁ w₁ related₁.
            windows-Alike R t rows rows' k (start + span) a v₁ w₁ blind
              (spans_left start t span k e) same related₁)

    -- No look-ahead. Take two histories with the same rows before `t`, which is a whole number of
    -- windows on and not behind the end of either, and two worlds that the loop's calls cannot tell
    -- apart when they are given rows before `t`, the comparison an end before `t`. Then the loops
    -- do the same up to `t`: each is its `k` windows and then the loop from `t` on, and the windows
    -- end with the same results or the same exception, in worlds that still cannot be told apart.
    pub walk-same :
        (R : World → World → Type 0) (t history_end history_end' : Instant) (rows rows' : List Row)
        (k n : ℕ) (start : Instant) (results : List Outcome) (v w : World)
        → IsBlind r R t
        → 0 < span
        → t ≡ start + k * span
        → t ≤ history_end + 1
        → t ≤ history_end' + 1
        → SameBefore r t rows rows'
        → R v w
        → Alike R (windows rows k start results v) (windows rows' k start results w)
          × (walk r history_start history_end span rows (k + n) start results v
              ≡ continue
                  (windows rows k start results v)
                  (λ a u. walk r history_start history_end span rows n t a u))
          × (walk r history_start history_end' span rows' (k + n) start results w
              ≡ continue
                  (windows rows' k start results w)
                  (λ a u. walk r history_start history_end' span rows' n t a u))
    walk-same R t history_end history_end' rows rows' k n start results v w blind positive e h h'
          same related =
        (
          windows-Alike R t rows rows' k start results v w blind e same related,
          walk-windows t history_end rows k n start results v positive e h,
          walk-windows t history_end' rows' k n start results w positive e h',
        )
