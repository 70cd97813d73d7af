-- ===== src/Risk/Lanes.antt =====
-- risk/gate.py: what a freshness receipt that could be read authorizes.
use mathlib.Core.Path.{subst}
use mathlib.Core.List.{append_assoc, append-nil}
use defi_engine.Base.{
  ◌≡◌, refl, sym, ap, ◌∙◌, ◌↔◌, String, Bool, true, Option, none, some, List, [], ◌∷◌, ◌++◌, arith,
  if◌then◌else◌, is_nil,
}
use defi_engine.Json.{Json, Fields, null, end, field, get}
use defi_engine.Env.{Env}
use defi_engine.Truth.{FeatureMaterializationRun}
use defi_engine.Risk.Freshness.{
  LaneState, FreshnessAuthorization, Parsed, parsed, failed, lane, as_bool, as_text, lane_of,
  blocks, read_lanes, parse_freshness_authorization, authorization, lanes_of, payload, snapshot,
}

abbrev pub All {ℓ κ} : {A : Type ℓ} → (A → Type κ) → List A → Type κ
All P [] = Unit
All P (x ∷ xs) = P x × All P xs

abbrev pub keys : {F : Type 0} → Fields F → List String
keys end = []
keys (field k v rest) = k ∷ keys rest

module _ (E : Env) where
  open E use {Float, loads}

  -- The names of the lanes that are required and not eligible.
  abbrev pub blocked : List (String × LaneState E) → List String
  unfolding blocks
  blocked [] = []
  blocked ((name, l) ∷ rest) = if blocks E l then name ∷ blocked rest else blocked rest

  abbrev pub names : List (String × LaneState E) → List String
  names [] = []
  names ((name, l) ∷ rest) = name ∷ names rest

  blocked_snoc :
      (s : List (String × LaneState E)) (name : String) (l : LaneState E)
      → blocked (s ++ (name, l) ∷ []) ≡ (if blocks E l then blocked s ++ name ∷ [] else blocked s)
  unfolding blocks
  blocked_snoc [] name l = refl
  blocked_snoc ((n, k) ∷ s) name l = ground (arith, blocked_snoc s name l)

  names_snoc :
      (s : List (String × LaneState E)) (name : String) (l : LaneState E)
      → names (s ++ (name, l) ∷ []) ≡ names s ++ name ∷ []
  names_snoc [] name l = refl
  names_snoc ((n, k) ∷ s) name l = ap (λ t. n ∷ t) (names_snoc s name l)

  -- One step of the loop; `none` ends it.
  abbrev step :
      Option (LaneState E)
      → String
      → Fields Float
      → List String
      → List (String × LaneState E)
      → Option (List String × List (String × LaneState E))
  step none k rest b s = none
  step (some l) k rest b s =
      read_lanes E rest (if blocks E l then b ++ k ∷ [] else b) (s ++ (k, l) ∷ [])

  read_lanes-step :
      (k : String) (v : Json Float) (rest : Fields Float) (b : List String)
      (s : List (String × LaneState E))
      → read_lanes E (field k v rest) b s ≡ step (lane E v) k rest b s
  unfolding read_lanes
  read_lanes-step k v rest b s = go (lane E v)
    where
      go :
          (o : Option (LaneState E))
          → elim o [
            | none ↦ none
            | some l ↦ read_lanes E rest (if blocks E l then b ++ k ∷ [] else b) (s ++ (k, l) ∷ [])
          ]
            ≡ step o k rest b s
      go none = refl
      go (some l) = refl

  -- What is kept of a lane is what the receipt says of it.
  abbrev pub LaneReads : Json Float → LaneState E → Type 0
  LaneReads v l =
      (state : Fields Float) × (v ≡ Json.obj state)
      × (get "required_for_authorization" state ≡ some (Json.bool l.required_for_authorization))
      × (get "downstream_eligible" state ≡ some (Json.bool l.downstream_eligible))
      × (get "freshness_state" state ≡ some (Json.text l.freshness_state))

  -- The kept lanes are those of the receipt, in its order, each under its name.
  abbrev pub Reads : Fields Float → List (String × LaneState E) → Type 0
  Reads end [] = Unit
  Reads (field k v rest) ((name, l) ∷ s) = (name ≡ k) × LaneReads v l × Reads rest s
  Reads _ _ = ⊥

  as_bool-reads :
      (o : Option (Json Float)) (b : Bool) → as_bool E o ≡ some b → o ≡ some (Json.bool b)
  as_bool-reads (some (Json.bool x)) b h = cc
  as_bool-reads none b h = cc
  as_bool-reads (some null) b h = cc
  as_bool-reads (some (Json.num x)) b h = cc
  as_bool-reads (some (Json.float x)) b h = cc
  as_bool-reads (some (Json.text x)) b h = cc
  as_bool-reads (some (Json.arr x)) b h = cc
  as_bool-reads (some (Json.obj x)) b h = cc

  as_text-reads :
      (o : Option (Json Float)) (t : String) → as_text E o ≡ some t → o ≡ some (Json.text t)
  as_text-reads (some (Json.text x)) t h = cc
  as_text-reads none t h = cc
  as_text-reads (some null) t h = cc
  as_text-reads (some (Json.num x)) t h = cc
  as_text-reads (some (Json.float x)) t h = cc
  as_text-reads (some (Json.bool x)) t h = cc
  as_text-reads (some (Json.arr x)) t h = cc
  as_text-reads (some (Json.obj x)) t h = cc

  some-same : (x l : LaneState E) → some x ≡ some l → x ≡ l
  some-same x l h = cc

  abbrev kept_of : Bool → Bool → String → Json Float → LaneState E
  kept_of a b c d = record {
    required_for_authorization = a;
    downstream_eligible = b;
    freshness_state = c;
    latest_error_summary = d;
  }

  lane_of-parts :
      (a b : Option Bool) (c : Option String) (d : Json Float) (l : LaneState E)
      → lane_of E a b c d ≡ some l
      → (a ≡ some l.required_for_authorization)
        × (b ≡ some l.downstream_eligible)
        × (c ≡ some l.freshness_state)
  lane_of-parts none b c d l h = cc
  lane_of-parts (some a) none c d l h = cc
  lane_of-parts (some a) (some b) none d l h = cc
  lane_of-parts (some a) (some b) (some c) d l h =
      let same = some-same (kept_of a b c d) l h in
      (
        ap (λ (x : LaneState E). some x.required_for_authorization) same,
        ap (λ (x : LaneState E). some x.downstream_eligible) same,
        ap (λ (x : LaneState E). some x.freshness_state) same,
      )

  lane-Reads : (v : Json Float) (l : LaneState E) → lane E v ≡ some l → LaneReads v l
  unfolding lane
  lane-Reads (Json.obj state) l h =
      let (a, b, c) = lane_of-parts _ _ _ _ l h in
      (state, refl, as_bool-reads _ _ a, as_bool-reads _ _ b, as_text-reads _ _ c)
  lane-Reads null l h = cc
  lane-Reads (Json.num x) l h = cc
  lane-Reads (Json.float x) l h = cc
  lane-Reads (Json.bool x) l h = cc
  lane-Reads (Json.arr x) l h = cc
  lane-Reads (Json.text x) l h = cc

  -- The loop keeps `blocking` in step with `states`, and visits every lane in order.
  abbrev LoopInv :
      Fields Float
      → List (String × LaneState E)
      → List String × List (String × LaneState E)
      → Type 0
  LoopInv f s (b', s') =
      (b' ≡ blocked s')
      × (names s' ≡ names s ++ keys f)
      × ((read : List (String × LaneState E)) × (s' ≡ s ++ read) × Reads f read)

  read_lanes_end :
      (b : List String) (s : List (String × LaneState E))
      (r : List String × List (String × LaneState E))
      → b ≡ blocked s
      → read_lanes E end b s ≡ some r
      → LoopInv end s r
  unfolding read_lanes
  read_lanes_end b s (b', s') h e = rw append-nil (cc, cc, ([], (rw append-nil cc), tt))

  read_lanes_inv :
      (f : Fields Float) (b : List String) (s : List (String × LaneState E))
      (r : List String × List (String × LaneState E))
      → b ≡ blocked s
      → read_lanes E f b s ≡ some r
      → LoopInv f s r
  read_lanes_inv end b s (b', s') h e = read_lanes_end b s (b', s') h e
  read_lanes_inv (field k v rest) b s (b', s') h e =
      go (lane E v) refl (sym (read_lanes-step k v rest b s) ∙ e) (λ l.
        read_lanes_inv rest (if blocks E l then b ++ k ∷ [] else b) (s ++ (k, l) ∷ []) (b', s'))
    where
      go :
          (o : Option (LaneState E))
          → lane E v ≡ o
          → step o k rest b s ≡ some (b', s')
          → ((l : LaneState E)
              → (if blocks E l then b ++ k ∷ [] else b) ≡ blocked (s ++ (k, l) ∷ [])
              → step (some l) k rest b s ≡ some (b', s')
              → LoopInv rest (s ++ (k, l) ∷ []) (b', s'))
          → LoopInv (field k v rest) s (b', s')
      go none kept e ih = cc
      go (some l) kept e ih =
          let (done, visited, (read, same, reads)) = ih l (rw blocked_snoc (rw h)) e in
          (
            done,
            visited ∙ simp (names_snoc, append_assoc),
            (
              (k, l) ∷ read,
              same ∙ append_assoc s ((k, l) ∷ []) read,
              (refl, lane-Reads v l kept, reads),
            ),
          )

  -- Every lane that authorization requires is eligible downstream.
  abbrev pub AllEligible : List (String × LaneState E) → Type 0
  AllEligible = All (λ (l : String × LaneState E).
      l.1.required_for_authorization ≡ true → l.1.downstream_eligible ≡ true)

  blocked_none : (s : List (String × LaneState E)) → (is_nil (blocked s) ≡ true) ↔ AllEligible s
  unfolding blocks
  blocked_none [] = (λ _. tt, λ _. refl)
  blocked_none ((k, l) ∷ s) =
      (ground (arith, (blocked_none s).0), ground (arith, (blocked_none s).1))

  parse_receipt :
      (run : FeatureMaterializationRun E) (encoded : E.Encoded) (raw lanes : Fields Float)
      → run.freshness_snapshot_json ≡ some encoded
      → loads encoded ≡ some (Json.obj raw)
      → get "required_lanes" raw ≡ some (Json.obj lanes)
      → parse_freshness_authorization E run ≡ authorization E (read_lanes E lanes [] [])
  unfolding parse_freshness_authorization
  parse_receipt run encoded raw lanes snapshot_text decoded found =
      rw snapshot_text (rw decoded (rw found refl))

  -- What the authorization says of the lanes of the receipt.
  abbrev pub IsExact : Fields Float → FreshnessAuthorization E → Type 0
  IsExact lanes a =
      ((a.authorized ≡ true) ↔ AllEligible a.required_lane_states)
      × (a.blocking_lanes ≡ blocked a.required_lane_states)
      × (names a.required_lane_states ≡ keys lanes)
      × Reads lanes a.required_lane_states

  abbrev from_parsed : FreshnessAuthorization E → Parsed E → FreshnessAuthorization E
  from_parsed d (parsed a) = a
  from_parsed d (failed _) = d

  authorization_inv :
      (lanes : Fields Float) (o : Option (List String × List (String × LaneState E)))
      (a : FreshnessAuthorization E)
      → read_lanes E lanes [] [] ≡ o
      → authorization E o ≡ parsed a
      → IsExact lanes a
  unfolding blocked
  authorization_inv lanes none a h e = cc
  authorization_inv lanes (some (b, s)) a h e =
      let (same, visited, (read, all, reads)) = read_lanes_inv lanes [] [] (b, s) refl h in
      subst (IsExact lanes) (ap (from_parsed a) e)
        (rw same (blocked_none s), same, visited, subst (Reads lanes) (sym all) reads)

  -- A receipt that is read authorizes exactly if each of its lanes that authorization requires is
  -- eligible downstream; its blocking lanes are the others, and every lane of the receipt is kept
  -- under its name, with the requirement, the eligibility and the freshness that the receipt says.
  pub parse_freshness-IsExact :
      (run : FeatureMaterializationRun E) (encoded : E.Encoded) (raw lanes : Fields Float)
      (a : FreshnessAuthorization E)
      → run.freshness_snapshot_json ≡ some encoded
      → loads encoded ≡ some (Json.obj raw)
      → get "required_lanes" raw ≡ some (Json.obj lanes)
      → parse_freshness_authorization E run ≡ parsed a
      → IsExact lanes a
  parse_freshness-IsExact run encoded raw lanes a snapshot_text decoded found e =
      authorization_inv lanes (read_lanes E lanes [] []) a refl
        (sym (parse_receipt run encoded raw lanes snapshot_text decoded found) ∙ e)

  abbrev IsCoherent : Parsed E → Type 0
  IsCoherent (failed _) = Unit
  IsCoherent (parsed a) = a.authorized ≡ is_nil a.blocking_lanes

  authorization-IsCoherent :
      (o : Option (List String × List (String × LaneState E))) → IsCoherent (authorization E o)
  authorization-IsCoherent none = tt
  authorization-IsCoherent (some (b, s)) = refl

  lanes_of-IsCoherent : (o : Option (Json Float)) → IsCoherent (lanes_of E o)
  lanes_of-IsCoherent (some (Json.obj lanes)) = authorization-IsCoherent (read_lanes E lanes [] [])
  lanes_of-IsCoherent _ = tt

  payload-IsCoherent : (o : Option (Json Float)) → IsCoherent (payload E o)
  payload-IsCoherent (some (Json.obj raw)) = lanes_of-IsCoherent (get "required_lanes" raw)
  payload-IsCoherent _ = tt

  snapshot-IsCoherent : (o : Option E.Encoded) → IsCoherent (snapshot E o)
  snapshot-IsCoherent none = tt
  snapshot-IsCoherent (some encoded) = payload-IsCoherent (loads encoded)

  -- A receipt that is read is authorized exactly if no lane blocks.
  pub parse-coherent :
      (run : FeatureMaterializationRun E) (a : FreshnessAuthorization E)
      → parse_freshness_authorization E run ≡ parsed a
      → a.authorized ≡ is_nil a.blocking_lanes
  unfolding parse_freshness_authorization
  parse-coherent run a e = subst IsCoherent e (snapshot-IsCoherent run.freshness_snapshot_json)
