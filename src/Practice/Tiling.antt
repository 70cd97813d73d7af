-- ===== src/Practice/Tiling.antt =====
-- The windows of the walk-forward loop: how many it takes, and what they cover.
use defi_engine.Base.{
  ◌≡◌, refl, inl, inr, ℕ, zero, suc, ◌+◌, ◌-◌, ◌≤◌, ◌<◌, Bool, true, Option, some, List, [], ◌∷◌,
  ◌&&◌, ltb, leb, if◌then◌else◌, Bool-cases, arith,
}
use defi_engine.Base.Time.{Instant}
use defi_engine.Truth.{Result, return, raise}
use defi_engine.Practice.{Replayer, and_then, continue, window_stop, window_step, walk}

-- A window of the loop: its start, and the first time behind it.
abbrev pub Window : Type 0
Window = Instant × Instant

abbrev pub covers : Instant → Window → Bool
covers t (start, stop) = leb start t && ltb t stop

-- How many of the windows cover a time.
abbrev pub times_covered : Instant → List Window → ℕ
times_covered t [] = 0
times_covered t (x ∷ xs) = (if covers t x then 1 else 0) + times_covered t xs

-- No window is empty and none is longer than the span.
abbrev pub Bounded : ℕ → List Window → Type 0
Bounded span [] = Unit
Bounded span ((start, stop) ∷ ws) = (start < stop) × (stop ≤ start + span) × Bounded span ws

-- The windows cover every time from the start to the end once, and no other time.
pub record Tiles (start history_end : Instant) (span : ℕ) (ws : List Window) : Type 0 where
  pub once :
      (t : Instant) → times_covered t ws ≡ (if leb start t && leb t history_end then 1 else 0)
  pub bounded : Bounded span ws

no-Tiles :
    (start history_end : Instant) (span : ℕ) → history_end < start → Tiles start history_end span []
no-Tiles start history_end span h = record { once = λ t. ground arith; bounded = tt }

next_tile :
    (start history_end : Instant) (span : ℕ) (ws : List Window)
    → start ≤ history_end
    → 0 < span
    → Tiles (start + span) history_end span ws
    → Tiles start history_end span ((start, window_stop history_end span start) ∷ ws)
next_tile start history_end span ws h positive tiles = record {
  once = λ t. ground (arith, tiles.once t);
  bounded = (ground arith, ground arith, tiles.bounded);
}

continue-some {ℓ} :
    {A B W : Type ℓ} (x : Result A × W) (k : A → W → Option (Result B × W))
    (l : A → W → Result B × W)
    → ((a : A) (w : W) → k a w ≡ some (l a w))
    → continue x k ≡ some (and_then x l)
unfolding continue and_then
continue-some (return a, w) k l h = h a w
continue-some (raise e, w) k l h = refl

module _ {Row World Comparison Outcome : Type 0} (r : Replayer Row World Comparison Outcome)
    (history_start history_end : Instant) (span : ℕ) (history : List Row) where
  -- The body of the loop for each of the windows in turn, up to the first that raises.
  unfoldable pub replay : List Window → List Outcome → World → Result (List Outcome) × World
  unfolding and_then window_step
  replay [] results w = (return results, w)
  replay ((start, stop) ∷ ws) results w =
      and_then (window_step r history_start history start stop results w) (replay ws)

  -- On this fuel the loop is the replay of windows that cover its times.
  abbrev pub Replays : ℕ → Instant → Type 0
  Replays n start =
      (ws : List Window) × Tiles start history_end span ws
      × ((results : List Outcome) (w : World)
          → walk r history_start history_end span history n start results w
            ≡ some (replay ws results w))

  further :
      (n : ℕ) (start : Instant)
      → 0 < span
      → leb start history_end ≡ true
      → Replays n (start + span)
      → Replays (suc n) start
  unfolding walk replay
  further n start positive here (ws, tiles, replays) = (
    (start, window_stop history_end span start) ∷ ws,
    next_tile start history_end span ws (ground arith) positive tiles,
    λ results w.
        (rw here (
          continue-some
            (window_step r history_start history start (window_stop history_end span start) results
              w)
            (λ a v. walk r history_start history_end span history n (start + span) a v) (replay ws)
            replays)),
  )

  -- With a span of at least a microsecond and more fuel than the microseconds from the start to
  -- the end of the history, the loop ends, and it is the replay of windows that cover every time
  -- from the start to the end of the history exactly once, each of at most the span.
  pub walk-tiles :
      (n : ℕ) (start : Instant) → 0 < span → history_end + 1 - start < n → Replays n start
  unfolding walk replay
  walk-tiles zero start positive fuel = ground arith
  walk-tiles (suc n) start positive fuel = elim (Bool-cases (leb start history_end)) [
    | inr past ↦ ([], no-Tiles start history_end span (ground arith), λ results w. (rw past refl))
    | inl here ↦ further n start positive here (walk-tiles n (start + span) positive (ground arith))
  ]
