-- ===== src/Capture/Healthy.antt =====
-- capture/lane_status.py: the required lanes of a receipt without a blocking lane are fresh.
use mathlib.Core.Path.{subst}
use defi_engine.Base.{
  ◌≡◌, refl, sym, ap, ◌∙◌, inl, inr, String, Bool, true, false, not, ◌&&◌, some, List, [], ◌∷◌,
  ◌++◌, if◌then◌else◌, str_eq, str_eq→eq, is_nil, contains, Bool-cases,
}
use defi_engine.Base.Time.{Instant}
use defi_engine.Truth.{Result, return, raise}
use defi_engine.Truth.Returns.{bind-returns, or_raise-returns}
use defi_engine.Capture.Rules.{CaptureLaneRule, capture_lane_rules, rule_of}
use defi_engine.Capture.Receipts.{CaptureTables}
use defi_engine.Capture.States.{LaneSnapshot, lane_snapshot}
use defi_engine.Capture.Snapshots.{
  distinct, receipts_of, lane_state, lane_states, blocking_of, resolve_lane_states,
}
use defi_engine.Capture.Fresh.{IsFresh, receipts-IsFresh}

-- What one round of the loop says of its lane.
abbrev Says :
    CaptureTables → List String → List String → Instant → String → String × LaneSnapshot → Type 0
Says t lanes required now lane one =
    (one.0 ≡ lane)
    × (one.1.required_for_authorization ≡ contains lane required)
    × (one.1.downstream_eligible ≡ true → IsFresh t lanes now lane)

snapshot-Says :
    (t : CaptureTables) (lanes required : List String) (now : Instant) (lane : String)
    (rule : CaptureLaneRule)
    → rule_of lane capture_lane_rules ≡ some rule
    → Says t lanes required now lane
        (lane, lane_snapshot rule (contains lane required) (receipts_of t lanes lane) now)
unfolding lane_snapshot
snapshot-Says t lanes required now lane rule known =
    (refl, refl, receipts-IsFresh t lanes lane rule (contains lane required) now known)

lane_state-Says :
    (t : CaptureTables) (lanes required : List String) (now : Instant) (lane : String)
    (one : String × LaneSnapshot)
    → lane_state t lanes required now lane ≡ return one
    → Says t lanes required now lane one
unfolding lane_state
lane_state-Says t lanes required now lane one h =
    let (rule, found, k) = bind-returns _ _ _ h in
    subst (Says t lanes required now lane) (ap (answer one) k)
      (snapshot-Says t lanes required now lane rule (or_raise-returns _ _ rule found))
  where
    answer : String × LaneSnapshot → Result (String × LaneSnapshot) → String × LaneSnapshot
    answer default (return a) = a
    answer default (raise e) = default

no_block :
    (required eligible : Bool) (name : String) (rest : List String)
    → is_nil (if required && not eligible then name ∷ rest else rest) ≡ true
    → (required ≡ true → eligible ≡ true) × (is_nil rest ≡ true)
no_block true true name rest h = (λ _. refl, h)
no_block true false name rest h = cc
no_block false eligible name rest h = (λ e. cc, h)

head_clear :
    (one : String × LaneSnapshot) (others : List (String × LaneSnapshot))
    → is_nil (blocking_of (one ∷ others)) ≡ true
    → (one.1.required_for_authorization ≡ true → one.1.downstream_eligible ≡ true)
      × (is_nil (blocking_of others) ≡ true)
unfolding blocking_of
head_clear (lane, l) others h = no_block l.required_for_authorization l.downstream_eligible _ _ h

-- When no lane blocks, every required lane among those that were resolved is fresh.
pub lane_states-IsFresh :
    (t : CaptureTables) (lanes required : List String) (now : Instant) (names : List String)
    (states : List (String × LaneSnapshot))
    → lane_states t lanes required now names ≡ return states
    → is_nil (blocking_of states) ≡ true
    → (lane : String) → contains lane names ≡ true
    → contains lane required ≡ true
    → IsFresh t lanes now lane
unfolding lane_states
lane_states-IsFresh t lanes required now [] states h clear lane among needed = cc
lane_states-IsFresh t lanes required now (name ∷ names) states h clear lane among needed =
    let (one, first, k) = bind-returns _ _ _ h in
    let (others, rest, k) = bind-returns _ _ _ k in
    let (named, required_is, fresh) = lane_state-Says t lanes required now name one first in
    let all_clear : is_nil (blocking_of (one ∷ others)) ≡ true =
      subst (λ l. is_nil (blocking_of l) ≡ true) (sym (ap (answer states) k)) clear in
    let (mine, others_clear) = head_clear one others all_clear in
    elim (Bool-cases (str_eq lane name)) [
      | inl e ↦
          let same : lane ≡ name = str_eq→eq lane name e in
          rw same (fresh (mine (required_is ∙ rw (← same) needed)))
      | inr e ↦
          lane_states-IsFresh t lanes required now names others rest others_clear lane
            (rw e at among) needed
    ]
  where
    answer :
        List (String × LaneSnapshot)
        → Result (List (String × LaneSnapshot))
        → List (String × LaneSnapshot)
    answer default (return a) = a
    answer default (raise e) = default

contains-distinct :
    (names seen : List String) (lane : String)
    → contains lane seen ≡ false
    → contains lane names ≡ true
    → contains lane (distinct seen names) ≡ true
unfolding distinct
contains-distinct [] seen lane new among = cc
contains-distinct (name ∷ names) seen lane new among = elim (Bool-cases (str_eq lane name)) [
  | inl e ↦ first_seen e
  | inr e ↦
      let later : contains lane names ≡ true = rw e at among in
      elim (Bool-cases (contains name seen)) [
        | inl old ↦ rw old (contains-distinct names seen lane new later)
        | inr fresh ↦
            let new' : contains lane (name ∷ seen) ≡ false = rw (e, new) refl in
            rw (fresh, e) (contains-distinct names (name ∷ seen) lane new' later)
      ]
]
  where
    first_seen :
        str_eq lane name ≡ true
        → contains lane (
            if contains name seen then distinct seen names else name ∷ distinct (name ∷ seen) names)
          ≡ true
    first_seen e =
        let fresh : contains name seen ≡ false = rw (← (str_eq→eq lane name e)) new in
        rw (fresh, e) refl

contains-append :
    (lane : String) (xs ys : List String)
    → contains lane xs ≡ true
    → contains lane (xs ++ ys) ≡ true
contains-append lane [] ys h = cc
contains-append lane (x ∷ xs) ys h = elim (Bool-cases (str_eq lane x)) [
  | inl e ↦ rw e refl
  | inr e ↦ let h' : contains lane xs ≡ true = rw e at h in rw e (contains-append lane xs ys h')
]

-- So every lane that a feature requires is fresh when its snapshot has no blocking lane.
pub required-IsFresh :
    (t : CaptureTables) (required optional : List String) (now : Instant)
    (states : List (String × LaneSnapshot))
    → resolve_lane_states t (distinct [] (required ++ optional)) required now ≡ return states
    → is_nil (blocking_of states) ≡ true
    → (lane : String) → contains lane required ≡ true
    → IsFresh t (distinct [] (required ++ optional)) now lane
unfolding resolve_lane_states
required-IsFresh t required optional now states h clear lane needed =
    let lanes : List String = distinct [] (required ++ optional) in
    lane_states-IsFresh t lanes required now lanes states h clear lane
      (contains-distinct (required ++ optional) [] lane refl
        (contains-append lane required optional needed))
      needed
