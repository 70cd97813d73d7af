-- ===== src/Capture/States.antt =====
-- capture/lane_status.py: the state of one lane.
use defi_engine.Base.{
  ℕ, ◌-◌, ◌*◌, ◌/◌, String, Bool, true, not, ◌&&◌, ◌||◌, Option, none, some, [], ◌∷◌, ltb, ◌==◌,
  if◌then◌else◌, str_eq, is_none, truthy?,
}
use defi_engine.Base.Int.{pos}
use defi_engine.Base.Time.{Instant, or_else, isoformat_utc}
use defi_engine.Json.{Json, object, text?, num}
use defi_engine.Capture.Rules.{CaptureLaneRule}
use defi_engine.Capture.Receipts.{IngestRun, SourceHealthEvent}

-- The receipts of one lane, newest first of each kind.
pub record LaneReceipts : Type 0 where
  pub success : Option IngestRun
  pub failure : Option IngestRun
  pub health : Option SourceHealthEvent
  pub raw_receipt_at : Option Instant

-- `run.finished_at or run.started_at`
abbrev pub run_time : Option IngestRun → Option Instant
run_time none = none
run_time (some run) = some (or_else run.finished_at run.started_at)

-- `health_missing or health_failed`
abbrev pub unhealthy : Option SourceHealthEvent → Bool
unhealthy none = true
unhealthy (some event) = event.is_healthy == 0

-- `_DEGRADED_RATIO` of a window. The windows are whole minutes, so the product is exact.
abbrev pub degraded_after : ℕ → ℕ
degraded_after window = window * 4 / 5

-- The chain of conditions on the age of the baseline receipt.
unfoldable pub freshness_of : CaptureLaneRule → Bool → Option Instant → Bool → Instant → String
freshness_of rule raw_missing none bad_health now =
    if rule.readiness_only then "readiness_only" else "never_started"
freshness_of rule raw_missing (some t) bad_health now =
    if rule.readiness_only
    then "readiness_only"
    else if ltb rule.freshness_window (now - t)
    then "stale"
    else if bad_health || raw_missing || ltb (degraded_after rule.freshness_window) (now - t)
    then "degraded"
    else "healthy_recent"

abbrev pub baseline : CaptureLaneRule → LaneReceipts → Option Instant
baseline rule r = if rule.uses_raw_receipt_presence then r.raw_receipt_at else run_time r.success

abbrev pub raw_receipt_missing : CaptureLaneRule → LaneReceipts → Bool
raw_receipt_missing rule r = rule.uses_raw_receipt_presence && is_none r.raw_receipt_at

unfoldable pub freshness_state : CaptureLaneRule → LaneReceipts → Instant → String
unfolding freshness_of
freshness_state rule r now =
    freshness_of rule (raw_receipt_missing rule r) (baseline rule r) (unhealthy r.health) now

abbrev run_error : Option IngestRun → Option String
run_error none = none
run_error (some run) = run.error_message

abbrev event_error : Option SourceHealthEvent → Option String
event_error none = none
event_error (some event) = event.error_message

-- `_latest_error_summary`
unfoldable pub latest_error_summary : String → LaneReceipts → Bool → Option String
latest_error_summary state r raw_missing =
    if truthy? (run_error r.failure)
    then run_error r.failure
    else if truthy? (event_error r.health)
    then event_error r.health
    else if str_eq state "never_started"
    then some "no successful baseline receipt"
    else if raw_missing
    then some "missing raw receipt presence"
    else if not (str_eq state "readiness_only") && is_none r.health
    then some "missing lane health receipt"
    else none

-- `_isoformat`
abbrev iso : Option Instant → Option String
iso none = none
iso (some t) = some (isoformat_utc t)

abbrev event_time : Option SourceHealthEvent → Option Instant
event_time none = none
event_time (some event) = some event.checked_at

pub record LaneSnapshot : Type 0 where
  pub provider : String
  pub capture_type : String
  pub expectation_class : String
  pub freshness_window_minutes : ℕ
  pub required_for_authorization : Bool
  pub last_success_at_utc : Option String
  pub last_failure_at_utc : Option String
  pub latest_health_at_utc : Option String
  pub latest_raw_receipt_at_utc : Option String
  pub freshness_state : String
  pub downstream_eligible : Bool
  pub latest_error_summary : Option String

unfoldable pub lane_snapshot : CaptureLaneRule → Bool → LaneReceipts → Instant → LaneSnapshot
unfolding freshness_state latest_error_summary
lane_snapshot rule required r now =
    let state = freshness_state rule r now in
    record {
      provider = rule.provider;
      capture_type = rule.capture_type;
      expectation_class = rule.expectation_class;
      freshness_window_minutes = rule.freshness_window / 60_000_000;
      required_for_authorization = required;
      last_success_at_utc = iso (run_time r.success);
      last_failure_at_utc = iso (run_time r.failure);
      latest_health_at_utc = iso (event_time r.health);
      latest_raw_receipt_at_utc = iso r.raw_receipt_at;
      freshness_state = state;
      downstream_eligible = str_eq state "healthy_recent";
      latest_error_summary = latest_error_summary state r (raw_receipt_missing rule r);
    }

-- The entries of one lane in the receipt.
abbrev pub lane_entries : {F : Type 0} → LaneSnapshot → Json F
lane_entries l = object (
    ("provider", Json.text l.provider)
    ∷ ("capture_type", Json.text l.capture_type)
    ∷ ("expectation_class", Json.text l.expectation_class)
    ∷ ("freshness_window_minutes", num (pos l.freshness_window_minutes))
    ∷ ("required_for_authorization", Json.bool l.required_for_authorization)
    ∷ ("last_success_at_utc", text? l.last_success_at_utc)
    ∷ ("last_failure_at_utc", text? l.last_failure_at_utc)
    ∷ ("latest_health_at_utc", text? l.latest_health_at_utc)
    ∷ ("latest_raw_receipt_at_utc", text? l.latest_raw_receipt_at_utc)
    ∷ ("freshness_state", Json.text l.freshness_state)
    ∷ ("downstream_eligible", Json.bool l.downstream_eligible)
    ∷ ("latest_error_summary", text? l.latest_error_summary)
    ∷ [])
