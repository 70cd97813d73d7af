-- ===== src/Tests/Practice.antt =====
-- The witnesses of the properties of paper practice: a history of three buckets over 300 days, and
-- a replay that counts the rows of each window.
use defi_engine.Base.{
  ◌≡◌, ap, refl, ℕ, ◌+◌, ◌*◌, none, List, [], ◌∷◌, length, select, str_eq, arith,
}
use defi_engine.Base.Time.{Instant}
use defi_engine.Truth.{Result, return}
use defi_engine.Practice.{
  Replayer, continue, walk, WalkPlan, quickstart_300d, day, run_backtest_walk_forward, plan,
}
use defi_engine.Practice.Blind.{Alike, IsBlind}
use defi_engine.Practice.Ahead.{windows, walk-same}
use defi_engine.Practice.Plans.{IsSound, plan-IsSound}
use defi_engine.Practice.Finishes.{
  Finishes, Replayed, plan-Replayed, run_backtest_walk_forward-Finishes,
}

-- A row is its bucket, and the world counts the windows.
abbrev replayer : Replayer Instant ℕ (Unit {0}) ℕ
replayer = record {
  bucket_start_utc = λ t. t;
  score = λ rows w. (return rows, w);
  compare = λ _ _ w. (return tt, w);
  run_window = λ index rows _ w. (return (length rows), w + 1);
}

abbrev history : List Instant
history = 1 * day ∷ 250 * day ∷ 300 * day ∷ []

-- The same buckets, and a later last one.
abbrev longer_history : List Instant
longer_history = 1 * day ∷ 250 * day ∷ 400 * day ∷ []

abbrev made : WalkPlan Instant
made = record {
  profile = quickstart_300d;
  history = history;
  history_start = 1 * day;
  history_end = 300 * day;
  training_end = 211 * day;
  window_start = 250 * day;
}

plan-IsSound_example : IsSound replayer made
unfolding plan str_eq
plan-IsSound_example = plan-IsSound replayer "auto" none history made refl

plan-Replayed_example : Replayed replayer made
unfolding plan str_eq
plan-Replayed_example = plan-Replayed replayer "auto" none history made refl

run_backtest_walk_forward-Finishes_example : Finishes (
    run_backtest_walk_forward replayer "auto"
      (λ w. (return tt, w))
      (λ w. (return tt, w))
      none
      history
      0)
run_backtest_walk_forward-Finishes_example =
    run_backtest_walk_forward-Finishes replayer "auto" (λ w. (return tt, w)) (λ w. (return tt, w))
      none history 0

-- A world that also keeps the table that the features were written to.
abbrev table_replayer : Replayer Instant (List Instant × ℕ) (Unit {0}) ℕ
table_replayer = record {
  bucket_start_utc = λ t. t;
  score = λ rows w. (return rows, w);
  compare = λ _ _ w. (return tt, w);
  run_window = λ index rows _ w. (return (length rows), (w.0, w.1 + 1));
}

-- Worlds that differ only in the table.
abbrev SameCount : List Instant × ℕ → List Instant × ℕ → Type 0
SameCount v w = v.1 ≡ w.1

table-IsBlind : IsBlind table_replayer SameCount (271 * day)
table-IsBlind = record {
  scores = λ rows v w all same. (refl, same);
  compares = λ start u v w h same. (refl, same);
  runs = λ index rows c v w all same. (refl, ap (λ n. n + 1) same);
}

abbrev table_windows : List Instant → Result (List ℕ) × (List Instant × ℕ)
table_windows rows = windows table_replayer (1 * day) (60 * day) rows 1 (211 * day) [] (rows, 0)

walk-same_example :
    Alike SameCount (table_windows history) (table_windows longer_history)
    × (walk table_replayer
          (1 * day)
          (300 * day)
          (60 * day)
          history
          (1 + 3)
          (211 * day)
          []
          (history, 0)
        ≡ continue
            (table_windows history)
            (λ a u. walk table_replayer (1 * day) (300 * day) (60 * day) history 3 (271 * day) a u))
    × (walk table_replayer
          (1 * day)
          (400 * day)
          (60 * day)
          longer_history
          (1 + 3)
          (211 * day)
          []
          (longer_history, 0)
        ≡ continue (table_windows longer_history) (λ a u.
          walk table_replayer (1 * day) (400 * day) (60 * day) longer_history 3 (271 * day) a u))
unfolding select
walk-same_example =
    walk-same table_replayer (1 * day) (60 * day) SameCount (271 * day) (300 * day) (400 * day)
      history longer_history 1 3 (211 * day) [] (history, 0) (longer_history, 0) table-IsBlind
      (omega arith) refl (omega arith) (omega arith) refl refl
