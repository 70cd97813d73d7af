-- ===== src/Capture/Newest.antt =====
-- capture/lane_status.py: what the loops collect is the newest receipt of each lane.
use defi_engine.Base.{
  ◌≡◌, refl, ◌∙◌, inl, inr, String, Bool, true, false, ◌&&◌, Option, none, some, List, [], ◌∷◌,
  arith, if◌then◌else◌, str_eq, str_eq→eq, is_text, find_first, Bool-cases, Option-cases,
}
use defi_engine.Base.Sort.{order_by}
use defi_engine.Base.Sort.Foremost.{Foremost, IsTotal, IsTransitive, IsReflexive, newest_row}
use defi_engine.Base.Time.{Instant, or_next}
use defi_engine.Capture.Receipts.{
  IngestRun, SourceHealthEvent, CaptureTables, LatestRuns, row_of, keep_first, record_run,
  record_event, newer_or_same, run_first, event_first, run_lane, event_lane, collect_runs,
  collect_events, latest_runs, latest_health,
}

module _ {A : Type 0} where
  or_next-none : (o : Option A) → o ≡ or_next o none
  or_next-none none = refl
  or_next-none (some a) = refl

  -- A loop that keeps the first is a search.
  or_next-if :
      (o : Option A) (b : Bool) (x : A) (later : Option A)
      → or_next (or_next o (if b then some x else none)) later
        ≡ or_next o (if b then some x else later)
  or_next-if none true x later = refl
  or_next-if none false x later = refl
  or_next-if (some a) b x later = refl

  keep_new :
      (j k : String) (v : A) (d : List (String × A))
      → row_of k d ≡ none
      → row_of j ((k, v) ∷ d) ≡ or_next (row_of j d) (if str_eq k j then some v else none)
  unfolding row_of
  keep_new j k v d absent = elim (Bool-cases (str_eq k j)) [
    | inl e ↦
        let absent' : row_of j d ≡ none = rw (← (str_eq→eq k j e)) absent in rw (e, absent') refl
    | inr e ↦ rw e (or_next-none (row_of j d))
  ]

  keep_old :
      (j k : String) (v w : A) (d : List (String × A))
      → row_of k d ≡ some w
      → row_of j d ≡ or_next (row_of j d) (if str_eq k j then some v else none)
  keep_old j k v w d present = elim (Bool-cases (str_eq k j)) [
    | inl e ↦
        let present' : row_of j d ≡ some w = rw (← (str_eq→eq k j e)) present in rw present' refl
    | inr e ↦ rw e (or_next-none (row_of j d))
  ]

  row_of-keep_first :
      (j k : String) (v : A) (d : List (String × A))
      → row_of j (keep_first k v d) ≡ or_next (row_of j d) (if str_eq k j then some v else none)
  unfolding keep_first
  row_of-keep_first j k v d = elim (Option-cases (row_of k d)) [
    | inl absent ↦ rw absent (keep_new j k v d absent)
    | inr (w, present) ↦ rw present (keep_old j k v w d present)
  ]

-- The receipts that count for a lane.
abbrev pub is_success : List String → String → IngestRun → Bool
is_success lanes lane run = is_text (run_lane lanes run) lane && str_eq run.status "success"

abbrev pub is_check : List String → String → SourceHealthEvent → Bool
is_check lanes lane event = is_text (event_lane lanes event) lane

record_run-success :
    (o : Option String) (lane : String) (run : IngestRun) (d : LatestRuns)
    → row_of lane (record_run o run d).success
      ≡ or_next
          (row_of lane d.success)
          (if is_text o lane && str_eq run.status "success" then some run else none)
record_run-success none lane run d = or_next-none (row_of lane d.success)
record_run-success (some k) lane run d = elim (Bool-cases (str_eq run.status "success")) [
  | inl e ↦ rw e (row_of-keep_first lane k run d.success ∙ both (str_eq k lane))
  | inr e ↦ rw e (or_next-none (row_of lane d.success) ∙ neither (str_eq k lane))
]
  where
    both :
        (b : Bool)
        → or_next (row_of lane d.success) (if b then some run else none)
          ≡ or_next (row_of lane d.success) (if b && true then some run else none)
    both true = refl
    both false = refl

    neither :
        (b : Bool)
        → or_next (row_of lane d.success) none
          ≡ or_next (row_of lane d.success) (if b && false then some run else none)
    neither true = refl
    neither false = refl

collect_runs-success :
    (lanes : List String) (lane : String) (runs : List IngestRun) (d : LatestRuns)
    → row_of lane (collect_runs lanes runs d).success
      ≡ or_next (row_of lane d.success) (find_first (is_success lanes lane) runs)
unfolding collect_runs find_first
collect_runs-success lanes lane [] d = or_next-none (row_of lane d.success)
collect_runs-success lanes lane (run ∷ runs) d =
    collect_runs-success lanes lane runs (record_run (run_lane lanes run) run d)
    ∙ rw (record_run-success (run_lane lanes run) lane run d) (
        or_next-if (row_of lane d.success) (is_success lanes lane run) run
          (find_first (is_success lanes lane) runs))

collect_events-check :
    (lanes : List String) (lane : String) (events : List SourceHealthEvent)
    (d : List (String × SourceHealthEvent))
    → row_of lane (collect_events lanes events d)
      ≡ or_next (row_of lane d) (find_first (is_check lanes lane) events)
unfolding collect_events find_first
collect_events-check lanes lane [] d = or_next-none (row_of lane d)
collect_events-check lanes lane (event ∷ events) d =
    collect_events-check lanes lane events (record_event (event_lane lanes event) event d)
    ∙ rw (one (event_lane lanes event)) (
        or_next-if (row_of lane d) (is_check lanes lane event) event
          (find_first (is_check lanes lane) events))
  where
    one :
        (o : Option String)
        → row_of lane (record_event o event d)
          ≡ or_next (row_of lane d) (if is_text o lane then some event else none)
    one none = or_next-none (row_of lane d)
    one (some k) = row_of-keep_first lane k event d

-- The orders of the two queries.
newer_total : (a b : Option Instant) → newer_or_same a b ≡ false → newer_or_same b a ≡ true
newer_total none none h = cc
newer_total none (some t) h = refl
newer_total (some s) none h = cc
newer_total (some s) (some t) h = ground arith

newer_trans :
    (a b c : Option Instant)
    → newer_or_same a b ≡ true
    → newer_or_same b c ≡ true
    → newer_or_same a c ≡ true
newer_trans a b none h k = refl
newer_trans none none (some t) h k = cc
newer_trans none (some s) (some t) h k = cc
newer_trans (some r) none (some t) h k = cc
newer_trans (some r) (some s) (some t) h k = ground arith

newer_refl : (a : Option Instant) → newer_or_same a a ≡ true
newer_refl none = refl
newer_refl (some t) = ground arith

run_total : IsTotal run_first
run_total a b h =
    ground (arith, newer_total a.finished_at b.finished_at, newer_total b.finished_at a.finished_at)

run_refl : IsReflexive run_first
run_refl a = ground (arith, newer_refl a.finished_at)

run_trans : IsTransitive run_first
run_trans a b c h k = ground (
  arith,
  newer_trans a.finished_at b.finished_at c.finished_at,
  newer_trans b.finished_at c.finished_at a.finished_at,
  newer_trans c.finished_at a.finished_at b.finished_at,
  newer_trans c.finished_at b.finished_at a.finished_at,
  newer_trans b.finished_at a.finished_at c.finished_at,
  newer_trans a.finished_at c.finished_at b.finished_at,
  newer_total a.finished_at b.finished_at,
  newer_total b.finished_at c.finished_at,
  newer_total a.finished_at c.finished_at,
)

event_total : IsTotal event_first
event_total a b h = ground arith

event_refl : IsReflexive event_first
event_refl a = ground arith

event_trans : IsTransitive event_first
event_trans a b c h k = ground arith

-- The success that the loop keeps for a lane is the newest one of the table.
pub latest_success :
    (t : CaptureTables) (lanes : List String) (lane : String)
    → Foremost run_first
        (is_success lanes lane)
        (row_of lane (latest_runs t lanes).success)
        t.ingest_runs
unfolding latest_runs row_of
latest_success t lanes lane =
    rw
      (collect_runs-success lanes lane (order_by run_first t.ingest_runs)
        (record { success = []; failure = [] }))
      (newest_row run_first run_refl run_total run_trans (is_success lanes lane) t.ingest_runs)

-- And so is the health event.
pub latest_check :
    (t : CaptureTables) (lanes : List String) (lane : String)
    → Foremost event_first
        (is_check lanes lane)
        (row_of lane (latest_health t lanes))
        t.health_events
unfolding latest_health row_of
latest_check t lanes lane =
    rw (collect_events-check lanes lane (order_by event_first t.health_events) []) (
      newest_row event_first event_refl event_total event_trans (is_check lanes lane)
        t.health_events)
