-- ===== src/Capture/Receipts.antt =====
-- storage/truth/models.py: the rows that capture writes; and capture/lane_status.py: the newest
-- receipts of each lane.
use defi_engine.Base.{
  ℕ, String, Bool, true, false, ◌&&◌, Option, none, some, List, [], ◌∷◌, leb, if◌then◌else◌, str_eq,
  is_none, contains,
}
use defi_engine.Base.Sort.{order_by}
use defi_engine.Base.Time.{Instant}
use defi_engine.Capture.Rules.{capture_lane_rules, lane_name_for_run, lane_name_for_health_event}

pub record IngestRun : Type 0 where
  pub id : ℕ
  pub run_id : String
  pub provider : String
  pub capture_type : String
  pub status : String
  pub started_at : Instant
  pub finished_at : Option Instant
  pub error_message : Option String

pub record SourceHealthEvent : Type 0 where
  pub id : ℕ
  pub provider : String
  pub endpoint : Option String
  pub is_healthy : ℕ
  pub error_message : Option String
  pub checked_at : Instant

pub record RawHeliusWsEvent : Type 0 where
  pub id : ℕ
  pub captured_at : Instant

pub record CaptureTables : Type 0 where
  pub ingest_runs : List IngestRun
  pub health_events : List SourceHealthEvent
  pub helius_ws_events : List RawHeliusWsEvent

-- A dict by lane name: `name in d`, `d.get(name)`, and the loops' writes, which are all of new keys.
module _ {ℓ} {A : Type ℓ} where
  unfoldable pub row_of : String → List (String × A) → Option A
  row_of k [] = none
  row_of k ((j, v) ∷ d) = if str_eq j k then some v else row_of k d

  -- `if name not in d: d[name] = row`
  unfoldable pub keep_first : String → A → List (String × A) → List (String × A)
  unfolding row_of
  keep_first k v d = if is_none (row_of k d) then (k, v) ∷ d else d

-- `order_by(key.desc())`, where SQLite takes NULL for the smallest; of equal keys the row that was
-- inserted first stands first.
abbrev pub newer_or_same : Option Instant → Option Instant → Bool
newer_or_same a none = true
newer_or_same none (some t) = false
newer_or_same (some s) (some t) = leb t s

abbrev pub run_first : IngestRun → IngestRun → Bool
run_first a b =
    if newer_or_same b.finished_at a.finished_at
    then newer_or_same a.finished_at b.finished_at && leb b.started_at a.started_at
    else true

abbrev pub event_first : SourceHealthEvent → SourceHealthEvent → Bool
event_first a b = leb b.checked_at a.checked_at

abbrev pub ws_first : RawHeliusWsEvent → RawHeliusWsEvent → Bool
ws_first a b = leb b.captured_at a.captured_at

-- The lane of a receipt, if it is one of the lanes in question.
abbrev pub wanted : List String → Option String → Option String
wanted lanes none = none
wanted lanes (some lane) = if contains lane lanes then some lane else none

unfoldable pub run_lane : List String → IngestRun → Option String
unfolding lane_name_for_run
run_lane lanes run =
    wanted lanes (lane_name_for_run run.provider run.capture_type capture_lane_rules)

unfoldable pub event_lane : List String → SourceHealthEvent → Option String
unfolding lane_name_for_health_event
event_lane lanes event = wanted lanes (lane_name_for_health_event event.provider event.endpoint)

-- `latest_success_by_lane` and `latest_failure_by_lane`
pub record LatestRuns : Type 0 where
  pub success : List (String × IngestRun)
  pub failure : List (String × IngestRun)

abbrev pub record_run : Option String → IngestRun → LatestRuns → LatestRuns
record_run none run d = d
record_run (some lane) run d =
    if str_eq run.status "success"
    then record d { success = keep_first lane run d.success }
    else record d { failure = keep_first lane run d.failure }

-- The loop over the runs, newest first.
unfoldable pub collect_runs : List String → List IngestRun → LatestRuns → LatestRuns
unfolding run_lane keep_first
collect_runs lanes [] d = d
collect_runs lanes (run ∷ runs) d = collect_runs lanes runs (record_run (run_lane lanes run) run d)

abbrev pub record_event :
    Option String
    → SourceHealthEvent
    → List (String × SourceHealthEvent)
    → List (String × SourceHealthEvent)
record_event none event d = d
record_event (some lane) event d = keep_first lane event d

unfoldable pub collect_events :
    List String
    → List SourceHealthEvent
    → List (String × SourceHealthEvent)
    → List (String × SourceHealthEvent)
unfolding event_lane keep_first
collect_events lanes [] d = d
collect_events lanes (event ∷ events) d =
    collect_events lanes events (record_event (event_lane lanes event) event d)

-- The newest captured websocket event.
abbrev pub first_captured : List RawHeliusWsEvent → Option Instant
first_captured [] = none
first_captured (event ∷ events) = some event.captured_at

unfoldable pub latest_ws_receipt : CaptureTables → Option Instant
unfolding order_by
latest_ws_receipt t = first_captured (order_by ws_first t.helius_ws_events)

unfoldable pub latest_runs : CaptureTables → List String → LatestRuns
unfolding collect_runs order_by
latest_runs t lanes =
    collect_runs lanes (order_by run_first t.ingest_runs) (record { success = []; failure = [] })

unfoldable pub latest_health : CaptureTables → List String → List (String × SourceHealthEvent)
unfolding collect_events order_by
latest_health t lanes = collect_events lanes (order_by event_first t.health_events) []
