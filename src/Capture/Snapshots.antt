-- ===== src/Capture/Snapshots.antt =====
-- capture/lane_status.py: the two snapshots over many lanes.
use Prim.Native.String.{◌++◌ as text_append}
use defi_engine.Base.{
  String, not, ◌&&◌, none, List, [], ◌∷◌, ◌++◌, map, if◌then◌else◌, str_eq, contains, is_nil,
}
use defi_engine.Base.Time.{Instant, isoformat_utc}
use defi_engine.Json.{Json, object, texts}
use defi_engine.Truth.{Result, return, ◌>>=◌, or_raise, key_error}
use defi_engine.Capture.Rules.{capture_lane_rules, default_required_capture_lanes, rule_of}
use defi_engine.Capture.Receipts.{
  CaptureTables, row_of, latest_runs, latest_health, latest_ws_receipt,
}
use defi_engine.Capture.States.{LaneReceipts, LaneSnapshot, lane_snapshot, lane_entries}

-- `tuple(dict.fromkeys(names))`: each name once, where it first stands.
unfoldable pub distinct : List String → List String → List String
distinct seen [] = []
distinct seen (name ∷ names) =
    let rest = distinct seen names in
    let rest' = distinct (name ∷ seen) names in if contains name seen then rest else name ∷ rest'

-- What the loop reads of the collected receipts.
unfoldable pub receipts_of : CaptureTables → List String → String → LaneReceipts
unfolding latest_runs latest_health latest_ws_receipt row_of
receipts_of t lanes lane =
    let runs = latest_runs t lanes in
    record {
      success = row_of lane runs.success;
      failure = row_of lane runs.failure;
      health = row_of lane (latest_health t lanes);
      raw_receipt_at = if str_eq lane "helius-ws-events" then latest_ws_receipt t else none;
    }

-- One round of the loop over the lanes: its entry of `lane_states`.
unfoldable pub lane_state :
    CaptureTables → List String → List String → Instant → String → Result (String × LaneSnapshot)
unfolding rule_of lane_snapshot receipts_of
lane_state t lanes required now lane = do
  rule ← or_raise (rule_of lane capture_lane_rules) (key_error lane)
  return (lane, lane_snapshot rule (contains lane required) (receipts_of t lanes lane) now)

unfoldable pub lane_states :
    CaptureTables
    → List String
    → List String
    → Instant
    → List String
    → Result (List (String × LaneSnapshot))
unfolding lane_state
lane_states t lanes required now [] = return []
lane_states t lanes required now (lane ∷ rest) = do
  one ← lane_state t lanes required now lane
  others ← lane_states t lanes required now rest
  return (one ∷ others)

-- `blocking_lanes`
unfoldable pub blocking_of : List (String × LaneSnapshot) → List String
blocking_of [] = []
blocking_of ((lane, l) ∷ rest) =
    if l.required_for_authorization && not l.downstream_eligible
    then text_append lane (text_append "=" l.freshness_state) ∷ blocking_of rest
    else blocking_of rest

-- `_resolve_lane_states`: the states, from which the blocking lanes are read off.
unfoldable pub resolve_lane_states :
    CaptureTables → List String → List String → Instant → Result (List (String × LaneSnapshot))
unfolding lane_states
resolve_lane_states t lanes required now = lane_states t lanes required now lanes

module _ {F : Type 0} where
  abbrev pub states_json : List (String × LaneSnapshot) → List (String × Json F)
  states_json [] = []
  states_json ((lane, l) ∷ rest) = (lane, lane_entries l) ∷ states_json rest

  abbrev pub feature_entries : List (String × LaneSnapshot) → Instant → List (String × Json F)
  feature_entries states now =
      ("generated_at_utc", Json.text (isoformat_utc now))
      ∷ ("required_lanes", object (states_json states))
      ∷ ("authorized", Json.bool (is_nil (blocking_of states)))
      ∷ ("blocking_lanes", texts (blocking_of states))
      ∷ []

  -- `build_feature_lane_snapshot`
  unfoldable pub build_feature_lane_snapshot :
      CaptureTables
      → List String
      → List String
      → Instant
      → Instant
      → Result (List (String × Json F))
  unfolding distinct resolve_lane_states blocking_of
  build_feature_lane_snapshot t required optional now generated_at = do
    states ← resolve_lane_states t (distinct [] (required ++ optional)) required now
    return (feature_entries states generated_at)

  -- `build_capture_lane_status_snapshot`
  unfoldable pub build_capture_lane_status_snapshot :
      CaptureTables → Instant → Instant → Result (List (String × Json F))
  unfolding resolve_lane_states blocking_of
  build_capture_lane_status_snapshot t now generated_at = do
    states ←
        resolve_lane_states t (map (λ r. r.0) capture_lane_rules) default_required_capture_lanes now
    return (
        ("generated_at_utc", Json.text (isoformat_utc generated_at))
        ∷ ("lanes", object (states_json states))
        ∷ ("blocking_lanes", texts (blocking_of states))
        ∷ [])
