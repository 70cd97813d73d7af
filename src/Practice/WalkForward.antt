-- ===== src/Practice/WalkForward.antt =====
-- paper_runtime/practice.py: run_backtest_walk_forward, from the history of the feature run to
-- the results of its windows. The receipts that it writes of them are left out.
use defi_engine.Base.{
  ℕ, suc, ◌+◌, ◌-◌, ◌*◌, String, Option, none, some, List, [], ◌∷◌, map, ltb, not, if◌then◌else◌,
  select, truthy, is_nil,
}
use defi_engine.Base.Int.{pos}
use defi_engine.Base.Time.{Instant}
use defi_engine.Truth.{Result, return, raise, ◌>>=◌, ◌>>◌, runtime_error, value_error, raise_if}
use defi_engine.Practice.Profiles.{
  PaperPracticeTrainingProfile, get_training_profile, assess_training_history_window, days_between,
  day,
}
use defi_engine.Practice.Windows.{Replayer, continue, latest, earliest, from, walk}

-- What the walk starts from: a ready history and the first bucket to replay.
pub record WalkPlan (Row : Type 0) : Type 0 where
  pub profile : PaperPracticeTrainingProfile
  pub history : List Row
  pub history_start : Instant
  pub history_end : Instant
  pub training_end : Instant
  pub window_start : Instant

-- `_selected_training_profile`
unfoldable pub selected_training_profile :
    String → ℕ → Option String → Result PaperPracticeTrainingProfile
unfolding get_training_profile
selected_training_profile configured available none =
    get_training_profile configured (some (pos available))
selected_training_profile configured available (some requested) =
    get_training_profile (if truthy requested then requested else configured) (some (pos available))

-- `max(history_start, history_end - timedelta(days=lookback - 1))`. A start before 1970 is
-- before the history, so that the maximum is the same with 0.
abbrev pub bounded_start : PaperPracticeTrainingProfile → Instant → Instant → Instant
bounded_start p history_start history_end =
    let earlier = history_end - (p.history_lookback_days - 1) * day in
    if ltb history_start earlier then earlier else history_start

abbrev pub plan_of :
    {Row : Type 0}
    → PaperPracticeTrainingProfile
    → List Row
    → Instant
    → Instant
    → Instant
    → WalkPlan Row
plan_of p history history_start history_end window_start = record {
  profile = p;
  history = history;
  history_start = history_start;
  history_end = history_end;
  training_end = history_start + p.minimum_training_days * day;
  window_start = window_start;
}

module _ {Row World Comparison Outcome : Type 0} (r : Replayer Row World Comparison Outcome) where
  -- The first and the last bucket of rows; without rows they are not times.
  unfoldable pub bounds : List Row → Result (Instant × Instant)
  unfolding latest earliest
  bounds [] = raise (value_error "cannot convert float NaN to integer")
  bounds (row ∷ rows) = return (
    earliest (r.bucket_start_utc row) (map r.bucket_start_utc rows),
    latest (r.bucket_start_utc row) (map r.bucket_start_utc rows),
  )

  -- The rows behind the training days, of which there must be one.
  unfoldable pub plan_replay :
      PaperPracticeTrainingProfile → List Row → Instant → Instant → Result (WalkPlan Row)
  unfolding bounds select ◌>>=◌ ◌>>◌ raise_if
  plan_replay p history history_start history_end = do
    let training_end = history_start + p.minimum_training_days * day
    let replay_history = select (from r training_end) history
    raise_if (is_nil replay_history) (
        runtime_error "Need at least one replay window after the selected training regimen warmup.")
    (window_start, _) ← bounds replay_history
    return (plan_of p history history_start history_end window_start)

  -- The history of the profile's lookback, which must be long enough.
  unfoldable pub plan_history : PaperPracticeTrainingProfile → List Row → Result (WalkPlan Row)
  unfolding bounds assess_training_history_window plan_replay ◌>>=◌ ◌>>◌ raise_if
  plan_history p history = do
    (history_start, history_end) ← bounds history
    let window = assess_training_history_window history_start history_end p
    raise_if (not window.ready)
        (runtime_error "Selected paper-practice training profile is not ready.")
    plan_replay p history history_start history_end

  -- The part before the first call that writes: the history is cut to the profile's lookback, it
  -- must be long enough, and something of it must be left to replay.
  unfoldable pub plan : String → Option String → List Row → Result (WalkPlan Row)
  unfolding bounds selected_training_profile plan_history select ◌>>=◌
  plan configured requested [] = raise (runtime_error "No global regime input rows available")
  plan configured requested (row ∷ rows) = do
    (first, last) ← bounds (row ∷ rows)
    p ← selected_training_profile configured (days_between first last) requested
    plan_history p (select (from r (bounded_start p first last)) (row ∷ rows))

  -- The loop of a plan. Every window advances by at least a microsecond, so that the distance to
  -- the end of the history is enough fuel.
  unfoldable pub walk_plan : WalkPlan Row → World → Option (Result (List Outcome) × World)
  unfolding walk
  walk_plan p w =
      walk r p.history_start p.history_end (p.profile.walk_forward_window_days * day) p.history
        (suc (suc p.history_end)) p.window_start [] w

  -- `run_backtest_walk_forward`, up to its receipts. `ensure_active_profile` comes first, and
  -- `_ensure_advisory_strategy_report` with the loading of prices just before the loop.
  unfoldable pub run_backtest_walk_forward :
      String
      → (World → Result (Unit {0}) × World)
      → (World → Result (Unit {0}) × World)
      → Option String
      → List Row
      → World
      → Option (Result (List Outcome) × World)
  unfolding plan walk_plan continue
  run_backtest_walk_forward configured ensure_active_profile prepare requested history w =
      continue (ensure_active_profile w) λ _ w₁.
        continue (plan configured requested history, w₁)
          λ p w₂. continue (prepare w₂) λ _ w₃. walk_plan p w₃
