-- ===== src/Practice/Profiles.antt =====
-- paper_runtime/training_profiles.py: the catalog of training regimens, which of them a history
-- is long enough for, and the assessment of a history against one of them.
use defi_engine.Base.{
  ℕ, ◌+◌, ◌-◌, ◌/◌, String, Bool, Option, none, some, List, [], ◌∷◌, map, ltb, leb, if◌then◌else◌,
  str_eq, truthy, find_first, is_none,
}
use defi_engine.Base.Int.{ℤ, pos, negsuc}
use defi_engine.Base.Sort.{order_by}
use defi_engine.Base.Time.{Instant, isoformat_date}
use defi_engine.Truth.{Result, return, ◌>>=◌, ◌>>◌, value_error, raise_if, or_raise}

pub record PaperPracticeTrainingProfile : Type 0 where
  pub name : String
  pub history_lookback_days : ℕ
  pub minimum_training_days : ℕ
  pub minimum_replay_days : ℕ
  pub walk_forward_window_days : ℕ
  pub confidence_label : String
  pub historical_sources : List String
  pub context_sources : List String

abbrev pub required_history_days : PaperPracticeTrainingProfile → ℕ
required_history_days p = p.minimum_training_days + p.minimum_replay_days

abbrev pub quickstart_300d : PaperPracticeTrainingProfile
quickstart_300d = record {
  name = "quickstart_300d";
  history_lookback_days = 300;
  minimum_training_days = 210;
  minimum_replay_days = 90;
  walk_forward_window_days = 90;
  confidence_label = "quickstart";
  historical_sources = "massive" ∷ [];
  context_sources = "coinbase" ∷ "jupiter" ∷ [];
}

abbrev pub full_730d : PaperPracticeTrainingProfile
full_730d = record {
  name = "full_730d";
  history_lookback_days = 730;
  minimum_training_days = 365;
  minimum_replay_days = 90;
  walk_forward_window_days = 90;
  confidence_label = "full";
  historical_sources = "massive" ∷ [];
  context_sources = "coinbase" ∷ "jupiter" ∷ [];
}

abbrev pub profile_catalog : List PaperPracticeTrainingProfile
profile_catalog = quickstart_300d ∷ full_730d ∷ []

-- `_PROFILE_CATALOG[name]`, if the catalog has the name.
unfoldable pub catalog_profile : String → Option PaperPracticeTrainingProfile
unfolding find_first
catalog_profile name = find_first (λ p. str_eq p.name name) profile_catalog

pub record ProfileSummary : Type 0 where
  pub profile : PaperPracticeTrainingProfile
  pub required_days : ℕ
  pub available_history_days : ℕ
  pub ready : Bool
  pub shortfall_days : ℕ

unfoldable pub serialize_profile : ℕ → PaperPracticeTrainingProfile → ProfileSummary
serialize_profile available p = record {
  profile = p;
  required_days = required_history_days p;
  available_history_days = available;
  ready = leb (required_history_days p) available;
  shortfall_days = required_history_days p - available;
}

-- `max(int(available_history_days), 0)`
abbrev pub at_least_zero : ℤ → ℕ
at_least_zero (pos n) = n
at_least_zero (negsuc n) = 0

-- `sorted(..., key=required_history_days)`, and with `reverse=True`; both are stable.
abbrev least_first : ProfileSummary → ProfileSummary → Bool
least_first a b = leb a.required_days b.required_days

abbrev most_first : ProfileSummary → ProfileSummary → Bool
most_first a b = leb b.required_days a.required_days

abbrev name_of : Option ProfileSummary → String
name_of none = ""
name_of (some s) = s.profile.name

-- The name of the first profile that is ready, or the empty text.
unfoldable pub ready_name : List ProfileSummary → String
unfolding find_first
ready_name l = name_of (find_first (λ s. s.ready) l)

-- The name of a profile that `min` finds: the first of the sorted ones.
abbrev first_name : List ProfileSummary → String
first_name [] = ""
first_name (s ∷ rest) = s.profile.name

pub record ReadinessSummary : Type 0 where
  pub requested_profile_name : String
  pub selected_profile_name : String
  pub available_history_days : ℕ
  pub best_ready_profile_name : String
  pub strongest_ready_profile_name : String
  pub profiles : List ProfileSummary

-- The profile that a request resolves to: `auto` takes the fastest one that is ready, and the
-- least demanding one if none is.
unfoldable pub resolved_name : List ProfileSummary → String → Result String
unfolding ready_name catalog_profile ◌>>◌ ◌>>=◌ raise_if
resolved_name profiles requested =
    if str_eq requested "auto"
    then return (if truthy (ready_name profiles) then ready_name profiles else first_name profiles)
    else (raise_if (is_none (catalog_profile requested))
          (value_error "Unknown paper-practice training profile")
        >> return requested)

unfoldable pub summarize_training_profile_readiness : ℤ → String → Result ReadinessSummary
unfolding resolved_name serialize_profile order_by ready_name ◌>>=◌
summarize_training_profile_readiness available_history_days requested = do
  let available = at_least_zero available_history_days
  let profiles = order_by least_first (map (serialize_profile available) profile_catalog)
  selected ← resolved_name profiles requested
  return (record {
    requested_profile_name = requested;
    selected_profile_name = selected;
    available_history_days = available;
    best_ready_profile_name = ready_name profiles;
    strongest_ready_profile_name = ready_name (order_by most_first profiles);
    profiles = profiles;
  })

-- The name that `get_training_profile` looks up.
unfoldable pub looked_up : String → Option ℤ → Result String
unfolding summarize_training_profile_readiness ◌>>=◌ or_raise
looked_up profile_name available_history_days =
    if str_eq profile_name "auto"
    then (do
      available ←
          or_raise available_history_days (value_error "`available_history_days` is required")
      readiness ← summarize_training_profile_readiness available "auto"
      return readiness.selected_profile_name)
    else return profile_name

unfoldable pub get_training_profile : String → Option ℤ → Result PaperPracticeTrainingProfile
unfolding looked_up catalog_profile ◌>>=◌ or_raise
get_training_profile profile_name available_history_days = do
  name ← looked_up profile_name available_history_days
  or_raise (catalog_profile name) (value_error "Unknown paper-practice training profile")

-- One day in microseconds.
abbrev pub day : ℕ
day = 86_400_000_000

-- `int((history_end - history_start).days) + 1`, from the earlier time on.
abbrev pub days_between : Instant → Instant → ℕ
days_between history_start history_end = (history_end - history_start) / day + 1

pub record HistoryWindow : Type 0 where
  pub profile_name : String
  pub history_start : String
  pub history_end : String
  pub available_history_days : ℕ
  pub minimum_training_days : ℕ
  pub minimum_replay_days : ℕ
  pub walk_forward_window_days : ℕ
  pub required_days : ℕ
  pub replay_available_days : ℕ
  pub ready : Bool
  pub shortfall_days : ℕ
  pub confidence_label : String

unfoldable pub assess_training_history_window :
    Instant → Instant → PaperPracticeTrainingProfile → HistoryWindow
assess_training_history_window history_start history_end p =
    let available =
      if ltb history_end history_start then 0 else days_between history_start history_end in
    record {
      profile_name = p.name;
      history_start = isoformat_date history_start;
      history_end = isoformat_date history_end;
      available_history_days = available;
      minimum_training_days = p.minimum_training_days;
      minimum_replay_days = p.minimum_replay_days;
      walk_forward_window_days = p.walk_forward_window_days;
      required_days = required_history_days p;
      replay_available_days = available - p.minimum_training_days;
      ready = leb (required_history_days p) available;
      shortfall_days = required_history_days p - available;
      confidence_label = p.confidence_label;
    }
