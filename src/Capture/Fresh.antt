-- ===== src/Capture/Fresh.antt =====
-- capture/lane_status.py: a lane that is eligible downstream is fresh.
use mathlib.Core.Path.{subst}
use defi_engine.Base.{
  ℕ, ◌-◌, ◌≤◌, ◌≡◌, ◌≢◌, refl, inl, inr, String, Bool, true, false, ◌||◌, Option, none, some, List,
  arith, ltb, if◌then◌else◌, str_eq, str_eq→eq, Bool-cases,
}
use defi_engine.Base.Sort.Foremost.{Foremost}
use defi_engine.Base.Time.{Instant, or_else}
use defi_engine.Capture.Rules.{CaptureLaneRule, capture_lane_rules, rule_of}
use defi_engine.Capture.Receipts.{
  IngestRun, SourceHealthEvent, CaptureTables, row_of, run_first, event_first, latest_ws_receipt,
  latest_runs,
}
use defi_engine.Capture.States.{
  LaneReceipts, freshness_of, freshness_state, baseline, raw_receipt_missing, unhealthy,
  degraded_after, run_time, lane_snapshot,
}
use defi_engine.Capture.Snapshots.{receipts_of}
use defi_engine.Capture.Newest.{is_success, is_check, latest_success, latest_check}

-- The baseline receipt of a lane: of the websocket lane the newest raw event, of any other lane the
-- newest successful run.
abbrev pub HasBaseline : CaptureTables → List String → String → CaptureLaneRule → Instant → Type 0
HasBaseline t lanes lane rule at =
    if rule.uses_raw_receipt_presence
    then (lane ≡ "helius-ws-events") × (latest_ws_receipt t ≡ some at)
    else ((run : IngestRun) × (at ≡ or_else run.finished_at run.started_at)
        × Foremost run_first (is_success lanes lane) (some run) t.ingest_runs)

-- A lane whose baseline receipt has an age of at most four fifths of its window, and whose newest
-- health event is healthy.
abbrev pub IsFresh : CaptureTables → List String → Instant → String → Type 0
IsFresh t lanes now lane =
    (rule : CaptureLaneRule) × (at : Instant) × (event : SourceHealthEvent) × (rule_of lane
        capture_lane_rules
      ≡ some rule)
    × HasBaseline t lanes lane rule at
    × (now - at ≤ degraded_after rule.freshness_window)
    × Foremost event_first (is_check lanes lane) (some event) t.health_events
    × (event.is_healthy ≢ 0)

-- The one way through the chain of conditions.
chain-healthy :
    (readiness old bad raw aged : Bool)
    → str_eq
        (if readiness
          then "readiness_only"
          else if old
          then "stale"
          else if bad || raw || aged
          then "degraded"
          else "healthy_recent")
        "healthy_recent"
      ≡ true
    → (bad ≡ false) × (aged ≡ false)
unfolding str_eq
chain-healthy true old bad raw aged h = cc
chain-healthy false true bad raw aged h = cc
chain-healthy false false true raw aged h = cc
chain-healthy false false false true aged h = cc
chain-healthy false false false false true h = cc
chain-healthy false false false false false h = (refl, refl)

never-healthy :
    (readiness : Bool)
    → str_eq (if readiness then "readiness_only" else "never_started") "healthy_recent" ≡ true
    → ⊥
unfolding str_eq
never-healthy true h = cc
never-healthy false h = cc

not_aged : (a b : ℕ) → ltb a b ≡ false → b ≤ a
not_aged a b h = ground arith

freshness_of-healthy :
    (rule : CaptureLaneRule) (raw_missing : Bool) (base : Option Instant) (bad_health : Bool)
    (now : Instant)
    → str_eq (freshness_of rule raw_missing base bad_health now) "healthy_recent" ≡ true
    → (at : Instant) × (base ≡ some at)
      × (now - at ≤ degraded_after rule.freshness_window)
      × (bad_health ≡ false)
unfolding freshness_of
freshness_of-healthy rule raw_missing none bad_health now h =
    absurd (never-healthy rule.readiness_only h)
freshness_of-healthy rule raw_missing (some at) bad_health now h =
    let (well, recent) = chain-healthy rule.readiness_only _ bad_health raw_missing _ h in
    (at, refl, not_aged _ _ recent, well)

healthy_event :
    (o : Option SourceHealthEvent)
    → unhealthy o ≡ false
    → (event : SourceHealthEvent) × (o ≡ some event) × (event.is_healthy ≢ 0)
healthy_event none h = cc
healthy_event (some event) h = (event, refl, ground arith)

successful :
    (o : Option IngestRun) (at : Instant)
    → run_time o ≡ some at
    → (run : IngestRun) × (o ≡ some run) × (at ≡ or_else run.finished_at run.started_at)
successful none at h = cc
successful (some run) at h = (run, refl, cc)

raw_receipt :
    (t : CaptureTables) (lane : String) (at : Instant)
    → (if str_eq lane "helius-ws-events" then latest_ws_receipt t else none) ≡ some at
    → (lane ≡ "helius-ws-events") × (latest_ws_receipt t ≡ some at)
raw_receipt t lane at h = elim (Bool-cases (str_eq lane "helius-ws-events")) [
  | inl e ↦ (str_eq→eq lane "helius-ws-events" e, rw e at h)
  | inr e ↦ let none_is : ◌≡◌ {A = Option Instant} none (some at) = rw e at h in absurd (cc)
]

baseline-HasBaseline :
    (t : CaptureTables) (lanes : List String) (lane : String) (rule : CaptureLaneRule)
    (at : Instant)
    → baseline rule (receipts_of t lanes lane) ≡ some at
    → HasBaseline t lanes lane rule at
unfolding receipts_of
baseline-HasBaseline t lanes lane rule at h = elim (Bool-cases rule.uses_raw_receipt_presence) [
  | inl raw ↦ rw raw (raw_receipt t lane at (rw raw at h))
  | inr other ↦
      let timed : run_time (row_of lane (latest_runs t lanes).success) ≡ some at = rw other at h in
      let (run, found, same) = successful (row_of lane (latest_runs t lanes).success) at timed in
      rw other (
        run,
        same,
        subst (λ o. Foremost run_first (is_success lanes lane) o t.ingest_runs) found
            (latest_success t lanes lane),
      )
]

newest_check :
    (t : CaptureTables) (lanes : List String) (lane : String) (event : SourceHealthEvent)
    → (receipts_of t lanes lane).health ≡ some event
    → Foremost event_first (is_check lanes lane) (some event) t.health_events
unfolding receipts_of
newest_check t lanes lane event found =
    subst (λ o. Foremost event_first (is_check lanes lane) o t.health_events) found
      (latest_check t lanes lane)

pub receipts-IsFresh :
    (t : CaptureTables) (lanes : List String) (lane : String) (rule : CaptureLaneRule)
    (required : Bool) (now : Instant)
    → rule_of lane capture_lane_rules ≡ some rule
    → (lane_snapshot rule required (receipts_of t lanes lane) now).downstream_eligible ≡ true
    → IsFresh t lanes now lane
unfolding lane_snapshot freshness_state
receipts-IsFresh t lanes lane rule required now known h =
    let r : LaneReceipts = receipts_of t lanes lane in
    let (at, based, recent, well) =
      freshness_of-healthy rule (raw_receipt_missing rule r) (baseline rule r) (unhealthy r.health)
        now h in
    let (event, found, healthy) = healthy_event r.health well in
    (
      rule,
      at,
      event,
      known,
      baseline-HasBaseline t lanes lane rule at based,
      recent,
      newest_check t lanes lane event found,
      healthy,
    )
