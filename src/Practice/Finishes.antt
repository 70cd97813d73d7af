-- ===== src/Practice/Finishes.antt =====
-- The walk-forward as a whole: it ends, and its loop replays the windows of its plan.
use defi_engine.Base.{◌≡◌, refl, inl, inr, suc, ◌*◌, ◌<◌, String, Option, some, List, [], arith}
use defi_engine.Truth.{Result, return, raise}
use defi_engine.Practice.{
  PaperPracticeTrainingProfile, Replayer, WalkPlan, continue, day, plan, walk_plan,
  run_backtest_walk_forward,
}
use defi_engine.Practice.Plans.{InCatalog, IsSound, plan-IsSound}
use defi_engine.Practice.Tiling.{Window, Tiles, replay, walk-tiles}

-- The call gives an answer: it does not run out of fuel.
abbrev pub Finishes {ℓ} : {A : Type ℓ} → Option A → Type ℓ
Finishes {A = A} o = (a : A) × (o ≡ some a)

continue-Finishes {ℓ} :
    {A B W : Type ℓ} (x : Result A × W) (k : A → W → Option (Result B × W))
    → ((a : A) → x.0 ≡ return a → (w : W) → Finishes (k a w))
    → Finishes (continue x k)
unfolding continue
continue-Finishes (return a, w) k h = h a refl w
continue-Finishes (raise e, w) k h = ((raise e, w), refl)

-- Every window of a profile of the catalog advances.
window-positive :
    (p : PaperPracticeTrainingProfile) → InCatalog p → 0 < p.walk_forward_window_days * day
window-positive p (inl e) = (rw e (omega arith))
window-positive p (inr e) = (rw e (omega arith))

module _ {Row World Comparison Outcome : Type 0} (r : Replayer Row World Comparison Outcome) where
  -- The loop of a sound plan is the replay of windows that cover its times.
  abbrev pub Replayed : WalkPlan Row → Type 0
  Replayed p =
      (ws : List Window) × Tiles p.window_start p.history_end
        (p.profile.walk_forward_window_days * day) ws
      × ((w : World)
          → walk_plan r p w
            ≡ some (
                replay r p.history_start p.history_end (p.profile.walk_forward_window_days * day)
                  p.history ws [] w))

  sound-Replayed : (p : WalkPlan Row) → IsSound r p → Replayed p
  unfolding walk_plan
  sound-Replayed p sound =
      let (ws, tiles, replays) =
        walk-tiles r p.history_start p.history_end (p.profile.walk_forward_window_days * day)
          p.history (suc (suc p.history_end)) p.window_start
          (window-positive p.profile sound.in_catalog) (omega arith) in
      (ws, tiles, λ w. replays [] w)

  -- The loop of a plan that is made ends: it replays windows that cover every time from the
  -- plan's first window start to its last bucket exactly once, none of them empty and none longer
  -- than the window days of the profile.
  pub plan-Replayed :
      (configured : String) (requested : Option String) (rows : List Row) (p : WalkPlan Row)
      → plan r configured requested rows ≡ return p
      → Replayed p
  plan-Replayed configured requested rows p h =
      sound-Replayed p (plan-IsSound r configured requested rows p h)

  -- Whatever the history, the requested profile and the calls do, a walk-forward ends: it returns
  -- the results of its windows or raises.
  pub run_backtest_walk_forward-Finishes :
      (configured : String) (ensure_active_profile prepare : World → Result (Unit {0}) × World)
      (requested : Option String) (rows : List Row) (w : World)
      → Finishes
          (run_backtest_walk_forward r configured ensure_active_profile prepare requested rows w)
  unfolding run_backtest_walk_forward
  run_backtest_walk_forward-Finishes configured ensure_active_profile prepare requested rows w =
      continue-Finishes (ensure_active_profile w)
        (λ _ w₁.
          continue (plan r configured requested rows, w₁)
            (λ p w₂. continue (prepare w₂) (λ _ w₃. walk_plan r p w₃)))
        (λ _ _ w₁.
          continue-Finishes (plan r configured requested rows, w₁)
            (λ p w₂. continue (prepare w₂) (λ _ w₃. walk_plan r p w₃))
            (λ p made w₂.
              continue-Finishes (prepare w₂) (λ _ w₃. walk_plan r p w₃)
                (λ _ _ w₃. (_, (plan-Replayed configured requested rows p made).2 w₃))))
