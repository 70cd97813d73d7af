-- ===== src/Capture/Authorizes.antt =====
-- capture/lane_status.py and risk/gate.py: the receipt that the lanes write, and what the gate reads
-- in it.
use mathlib.Core.Path.{subst}
use mathlib.Core.List.{append_assoc, append-nil}
use defi_engine.Base.{
  ◌≡◌, refl, sym, ap, ◌∙◌, String, Bool, true, false, not, ◌&&◌, some, List, [], ◌∷◌, ◌++◌,
  if◌then◌else◌, str_eq, is_nil, contains,
}
use defi_engine.Base.Time.{Instant}
use defi_engine.Json.{Json, Fields, end, field, fields, object, get, text?, is_writable}
use defi_engine.Env.{Env, IsObjectCodec}
use defi_engine.Truth.{Result, return, raise, FeatureMaterializationRun}
use defi_engine.Truth.Returns.{bind-returns}
use defi_engine.Risk.{
  LaneState, FreshnessAuthorization, parsed, lane, blocks, read_lanes,
  parse_freshness_authorization, authorization,
}
use defi_engine.Capture.Receipts.{CaptureTables}
use defi_engine.Capture.States.{LaneSnapshot, lane_entries}
use defi_engine.Capture.Snapshots.{
  distinct, blocking_of, resolve_lane_states, states_json, feature_entries,
  build_feature_lane_snapshot,
}
use defi_engine.Capture.Fresh.{IsFresh}
use defi_engine.Capture.Healthy.{required-IsFresh}

module _ (E : Env) where
  open E use {Float, loads, dumps}

  -- What the gate keeps of a lane of the receipt.
  abbrev kept : LaneSnapshot → LaneState E
  kept l = record {
    required_for_authorization = l.required_for_authorization;
    downstream_eligible = l.downstream_eligible;
    freshness_state = l.freshness_state;
    latest_error_summary = text? l.latest_error_summary;
  }

  lane-lane_entries : (l : LaneSnapshot) → lane E (lane_entries l) ≡ some (kept l)
  unfolding lane str_eq
  lane-lane_entries l = refl

  abbrev blocked_names : List (String × LaneSnapshot) → List String
  blocked_names [] = []
  blocked_names ((name, l) ∷ rest) =
      if l.required_for_authorization && not l.downstream_eligible
      then name ∷ blocked_names rest
      else blocked_names rest

  abbrev kept_states : List (String × LaneSnapshot) → List (String × LaneState E)
  kept_states [] = []
  kept_states ((name, l) ∷ rest) = (name, kept l) ∷ kept_states rest

  -- One step of the gate's loop on a lane that was written so.
  read_lanes-step :
      (name : String) (l : LaneSnapshot) (rest : Fields Float) (b : List String)
      (s : List (String × LaneState E))
      → read_lanes E (field name (lane_entries l) rest) b s
        ≡ read_lanes E rest
            (if l.required_for_authorization && not l.downstream_eligible
              then b ++ name ∷ []
              else b)
            (s ++ (name, kept l) ∷ [])
  unfolding read_lanes blocks str_eq
  read_lanes-step name l rest b s = refl

  abbrev authorized_by : List (String × LaneSnapshot) → FreshnessAuthorization E
  authorized_by states = record {
    authorized = is_nil (blocked_names states);
    blocking_lanes = blocked_names states;
    required_lane_states = kept_states states;
  }

  read_lanes-end :
      (b : List String) (s : List (String × LaneState E)) → read_lanes E end b s ≡ some (b, s)
  unfolding read_lanes
  read_lanes-end b s = refl

  block_step :
      (c : Bool) (name : String) (b rest : List String)
      → (if c then b ++ name ∷ [] else b) ++ rest ≡ b ++ (if c then name ∷ rest else rest)
  block_step true name b rest = append_assoc b (name ∷ []) rest
  block_step false name b rest = refl

  -- The gate reads every lane of the receipt back.
  read_lanes-states_json :
      (states : List (String × LaneSnapshot)) (b : List String) (s : List (String × LaneState E))
      → read_lanes E (fields (states_json states)) b s
        ≡ some (b ++ blocked_names states, s ++ kept_states states)
  read_lanes-states_json [] b s = read_lanes-end b s ∙ (simp append-nil)
  read_lanes-states_json ((name, l) ∷ rest) b s =
      read_lanes-step name l (fields (states_json rest)) b s
      ∙ read_lanes-states_json rest _ _
      ∙ λ i. some (
        block_step (l.required_for_authorization && not l.downstream_eligible) name b
            (blocked_names rest) i,
        append_assoc s ((name, kept l) ∷ []) (kept_states rest) i,
      )

  same_clear :
      (states : List (String × LaneSnapshot))
      → is_nil (blocked_names states) ≡ is_nil (blocking_of states)
  unfolding blocking_of
  same_clear [] = refl
  same_clear ((name, l) ∷ rest) =
      go (l.required_for_authorization && not l.downstream_eligible) _ _ _ _ (same_clear rest)
    where
      go :
          (c : Bool) (x y : String) (xs ys : List String)
          → is_nil xs ≡ is_nil ys
          → is_nil (if c then x ∷ xs else xs) ≡ is_nil (if c then y ∷ ys else ys)
      go true x y xs ys h = refl
      go false x y xs ys h = h

  parse_entries :
      (C : IsObjectCodec E) (states : List (String × LaneSnapshot)) (at : Instant)
      (run : FeatureMaterializationRun E)
      → is_writable E.is_finite (object (feature_entries states at)) ≡ true
      → run.freshness_snapshot_json ≡ some (dumps (object (feature_entries states at)))
      → parse_freshness_authorization E run
        ≡ authorization E (some (blocked_names states, kept_states states))
  unfolding parse_freshness_authorization str_eq
  parse_entries C states at run writable stored = rw stored (
      rw (C.loads-dumps_object (feature_entries states at) writable)
        (ap (authorization E) (read_lanes-states_json states [] [])))

  -- What the gate makes of a receipt with these entries.
  abbrev pub Authorizes :
      CaptureTables
      → List String
      → List String
      → Instant
      → FeatureMaterializationRun E
      → List (String × Json Float)
      → Type 0
  Authorizes t required optional now run entries =
      (a : FreshnessAuthorization E) × (parse_freshness_authorization E run ≡ parsed a)
      × (get "authorized" (fields entries) ≡ some (Json.bool a.authorized))
      × (a.authorized ≡ true
          → (lane : String) → contains lane required ≡ true
          → IsFresh t (distinct [] (required ++ optional)) now lane)

  states-Authorizes :
      (C : IsObjectCodec E) (t : CaptureTables) (required optional : List String) (now at : Instant)
      (states : List (String × LaneSnapshot)) (run : FeatureMaterializationRun E)
      → resolve_lane_states t (distinct [] (required ++ optional)) required now ≡ return states
      → is_writable E.is_finite (object (feature_entries states at)) ≡ true
      → run.freshness_snapshot_json ≡ some (dumps (object (feature_entries states at)))
      → Authorizes t required optional now run (feature_entries states at)
  unfolding str_eq get
  states-Authorizes C t required optional now at states run resolved writable stored = (
    authorized_by states,
    parse_entries C states at run writable stored,
    ap (λ b. some (Json.bool b)) (sym (same_clear states)),
    λ allowed.
        required-IsFresh t required optional now states resolved
          (sym (same_clear states) ∙ allowed),
  )

  -- A receipt that capture built and the feature run keeps is read by the gate, with the same
  -- answer as its own `authorized` entry; and when the gate authorizes it, every required lane was
  -- fresh when it was built: its newest baseline receipt at most four fifths of its window old, and
  -- its newest health event healthy.
  pub feature_snapshot-Authorizes :
      (C : IsObjectCodec E) (t : CaptureTables) (required optional : List String) (now at : Instant)
      (entries : List (String × Json Float)) (run : FeatureMaterializationRun E)
      → build_feature_lane_snapshot t required optional now at ≡ return entries
      → is_writable E.is_finite (object entries) ≡ true
      → run.freshness_snapshot_json ≡ some (dumps (object entries))
      → Authorizes t required optional now run entries
  unfolding build_feature_lane_snapshot
  feature_snapshot-Authorizes C t required optional now at entries run built writable stored =
      let (states, resolved, k) = bind-returns _ _ _ built in
      subst
        (λ es.
          is_writable E.is_finite (object es) ≡ true
          → run.freshness_snapshot_json ≡ some (dumps (object es))
          → Authorizes t required optional now run es)
        (ap (answer entries) k)
        (λ w s. states-Authorizes C t required optional now at states run resolved w s) writable
        stored
    where
      answer :
          List (String × Json Float)
          → Result (List (String × Json Float))
          → List (String × Json Float)
      answer default (return a) = a
      answer default (raise e) = default
