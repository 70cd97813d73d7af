-- ===== src/Practice/Windows.antt =====
-- paper_runtime/practice.py: the loop of run_backtest_walk_forward over the windows of a history.
-- The scorer of conditions, the comparison of regime models and the replay of one window, which
-- write to the same world, are arguments.
use defi_engine.Base.{
  ℕ, zero, suc, ◌+◌, String, Bool, Option, none, some, List, [], ◌∷◌, ◌++◌, ltb, leb, ◌&&◌,
  if◌then◌else◌, length, select, is_nil, map,
}
use defi_engine.Base.Time.{Instant, isoformat_date}
use defi_engine.Truth.{Result, return, raise}

-- A step that may raise, and the rest of the call; what the step wrote stays.
unfoldable pub and_then {ℓ} :
    {A B W : Type ℓ} → Result A × W → (A → W → Result B × W) → Result B × W
and_then (return a, w) k = k a w
and_then (raise e, w) k = (raise e, w)

-- The same before the rest of a loop.
unfoldable pub continue {ℓ} :
    {A B W : Type ℓ} → Result A × W → (A → W → Option (Result B × W)) → Option (Result B × W)
continue (return a, w) k = k a w
continue (raise e, w) k = some (raise e, w)

-- `max` and `min` of a column, from its first row on.
unfoldable pub latest : Instant → List Instant → Instant
latest t [] = t
latest t (u ∷ us) = latest (if ltb t u then u else t) us

unfoldable pub earliest : Instant → List Instant → Instant
earliest t [] = t
earliest t (u ∷ us) = earliest (if ltb u t then u else t) us

-- `min(next_window_start, history_end + 1 microsecond)`
abbrev pub window_stop : Instant → ℕ → Instant → Instant
window_stop history_end span start =
    if ltb (history_end + 1) (start + span) then history_end + 1 else start + span

-- What the replay calls: the walk-forward scorer, the comparison of the regime models up to a
-- time, and the replay of the window of an index, the reading of the active profile included.
pub record Replayer (Row World Comparison Outcome : Type 0) : Type 0 where
  pub bucket_start_utc : Row → Instant
  pub score : List Row → World → Result (List Row) × World
  pub compare : String → String → World → Result Comparison × World
  pub run_window : ℕ → List Row → Comparison → World → Result Outcome × World

module _ {Row World Comparison Outcome : Type 0} (r : Replayer Row World Comparison Outcome) where
  -- `history["bucket_start_utc"] < stop` and `>= start`
  abbrev pub before : Instant → Row → Bool
  before stop row = ltb (r.bucket_start_utc row) stop

  abbrev pub from : Instant → Row → Bool
  from start row = leb start (r.bucket_start_utc row)

  abbrev pub within : Instant → Instant → Row → Bool
  within start stop row = from start row && before stop row

  -- The latest bucket of a window, which is the end of the comparison.
  unfoldable pub window_end : List Row → Instant
  unfolding latest
  window_end [] = 0
  window_end (row ∷ rows) = latest (r.bucket_start_utc row) (map r.bucket_start_utc rows)

  -- The part of the body of the loop behind the test for an empty window.
  unfoldable pub replay_frame :
      Instant → List Row → List Outcome → World → Result (List Outcome) × World
  unfolding and_then window_end
  replay_frame history_start frame results w =
      if is_nil frame
      then (return results, w)
      else and_then (r.compare (isoformat_date history_start) (isoformat_date (window_end frame)) w)
          λ comparison w₁.
            and_then (r.run_window (suc (length results)) frame comparison w₁)
              λ outcome w₂. (return (results ++ outcome ∷ []), w₂)

  -- The body of the loop for the window from `start` to `stop`.
  unfoldable pub window_step :
      Instant → List Row → Instant → Instant → List Outcome → World → Result (List Outcome) × World
  unfolding and_then select replay_frame
  window_step history_start history start stop results w =
      and_then (r.score (select (before stop) history) w)
        λ scored w₁. replay_frame history_start (select (within start stop) scored) results w₁

  module _ (history_start history_end : Instant) (span : ℕ) (history : List Row) where
    -- `while window_start <= history_end`, on fuel: `none` if it runs out. A window is `span` long.
    unfoldable pub walk :
        ℕ → Instant → List Outcome → World → Option (Result (List Outcome) × World)
    unfolding continue window_step
    walk zero start results w = none
    walk (suc n) start results w =
        if leb start history_end
        then (continue
            (window_step history_start history start (window_stop history_end span start) results w)
            λ results₁ w₁. walk n (start + span) results₁ w₁)
        else some (return results, w)
