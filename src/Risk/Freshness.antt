-- ===== src/Risk/Freshness.antt =====
-- risk/gate.py: `_parse_freshness_authorization`, the reading of the feature run's freshness receipt.
use defi_engine.Base.{
  String, Bool, not, ◌&&◌, Option, none, some, List, [], ◌∷◌, ◌++◌, if◌then◌else◌, is_nil,
}
use defi_engine.Json.{Json, Fields, end, field, null, get}
use defi_engine.Env.{Env}
use defi_engine.Truth.{FeatureMaterializationRun}

module _ (E : Env) where
  open E use {Float, loads}

  -- What is kept of one lane.
  pub record LaneState : Type 0 where
    pub required_for_authorization : Bool
    pub downstream_eligible : Bool
    pub freshness_state : String
    pub latest_error_summary : Json Float

  pub record FreshnessAuthorization : Type 0 where
    pub authorized : Bool
    pub blocking_lanes : List String
    pub required_lane_states : List (String × LaneState)

  -- The pair that `_parse_freshness_authorization` returns: one half of it is None.
  pub data Parsed : Type 0 where
    parsed : FreshnessAuthorization → Parsed
    failed : String → Parsed

  abbrev pub as_bool : Option (Json Float) → Option Bool
  as_bool (some (Json.bool b)) = some b
  as_bool _ = none

  abbrev pub as_text : Option (Json Float) → Option String
  as_text (some (Json.text s)) = some s
  as_text _ = none

  abbrev pub or_null : Option (Json Float) → Json Float
  or_null none = null
  or_null (some v) = v

  abbrev pub lane_of : Option Bool → Option Bool → Option String → Json Float → Option LaneState
  lane_of (some required) (some eligible) (some state) summary = some (record {
    required_for_authorization = required;
    downstream_eligible = eligible;
    freshness_state = state;
    latest_error_summary = summary;
  })
  lane_of _ _ _ _ = none

  -- The type checks on one lane; `none` is "freshness_snapshot_malformed".
  unfoldable pub lane : Json Float → Option LaneState
  unfolding get
  lane (Json.obj state) =
      lane_of (as_bool (get "required_for_authorization" state))
        (as_bool (get "downstream_eligible" state)) (as_text (get "freshness_state" state))
        (or_null (get "latest_error_summary" state))
  lane _ = none

  unfoldable pub blocks : LaneState → Bool
  blocks l = l.required_for_authorization && not l.downstream_eligible

  -- The `for` loop over the lanes, with its two accumulators.
  unfoldable pub read_lanes :
      Fields Float
      → List String
      → List (String × LaneState)
      → Option (List String × List (String × LaneState))
  unfolding lane blocks
  read_lanes end blocking states = some (blocking, states)
  read_lanes (field name state rest) blocking states = elim (lane state) [
    | none ↦ none
    | some l ↦
        read_lanes rest (if blocks l then blocking ++ name ∷ [] else blocking)
          (states ++ (name, l) ∷ [])
  ]

  abbrev pub authorization : Option (List String × List (String × LaneState)) → Parsed
  authorization none = failed "freshness_snapshot_malformed"
  authorization (some (blocking, states)) = parsed (record {
    authorized = is_nil blocking;
    blocking_lanes = blocking;
    required_lane_states = states;
  })

  abbrev pub lanes_of : Option (Json Float) → Parsed
  lanes_of (some (Json.obj lanes)) = authorization (read_lanes lanes [] [])
  lanes_of _ = failed "freshness_snapshot_malformed"

  abbrev pub payload : Option (Json Float) → Parsed
  payload (some (Json.obj raw)) = lanes_of (get "required_lanes" raw)
  payload _ = failed "freshness_snapshot_malformed"

  abbrev pub snapshot : Option E.Encoded → Parsed
  snapshot none = failed "freshness_snapshot_missing"
  snapshot (some encoded) = payload (loads encoded)

  -- `_parse_freshness_authorization`
  unfoldable pub parse_freshness_authorization : FeatureMaterializationRun E → Parsed
  unfolding read_lanes get
  parse_freshness_authorization run = elim run.freshness_snapshot_json [
    | none ↦ failed "freshness_snapshot_missing"
    | some encoded ↦ payload (loads encoded)
  ]
