-- ===== src/Research/Governor.antt =====
-- research_loop/profile_governor.py: disagreement, and the action on the ranked profiles.
use defi_engine.Base.{
  ℕ, String, Bool, true, false, not, ◌&&◌, Option, none, some, List, [], ◌∷◌, map, if◌then◌else◌,
  str_eq, select, length,
}
use defi_engine.Base.Int.{pos}
use defi_engine.Base.Sort.{order_by}
use defi_engine.Env.{Env}
use defi_engine.Research.Scores.{
  GovernorAction, select_profile, blend_profiles, no_trade, shadow_only, need_more_evidence,
  retire_profile, is_confirmed, GovernorThresholds, ProfileGovernorPolicy, GovernorCandidate,
  ScoredCandidate, score_candidate,
}

pub data Disagreement : Type 0 where
  low medium high : Disagreement

abbrev pub is_high : Disagreement → Bool
is_high low = false
is_high medium = false
is_high high = true

abbrev dispersion_code : Disagreement → String
dispersion_code low = "score_dispersion_low"
dispersion_code medium = "score_dispersion_medium"
dispersion_code high = "score_dispersion_high"

module _ (E : Env) where
  open E use {Float, float_zero, of_int, int_div, add, sub, mul, div, lt, le, round4, abs}

  pub record DisagreementSummary : Type 0 where
    pub index : Float
    pub classification : Disagreement
    pub codes : List String

  -- `max(...)` over the candidates: a later one replaces only a smaller one.
  unfoldable pub max_index : Float → List (ScoredCandidate E) → Float
  max_index m [] = m
  max_index m (c ∷ cs) =
      max_index (if lt m c.disagreement_index then c.disagreement_index else m) cs

  abbrev classify : GovernorThresholds E → Float → Disagreement
  classify t index =
      if le t.high_disagreement_index index
      then high
      else if le (div t.high_disagreement_index (of_int (pos 2))) index
      then medium
      else low

  -- `_disagreement`
  unfoldable pub disagreement :
      ProfileGovernorPolicy E → List (ScoredCandidate E) → DisagreementSummary
  unfolding max_index
  disagreement p [] = record {
    index = float_zero;
    classification = low;
    codes = "no_candidates" ∷ [];
  }
  disagreement p (c ∷ cs) =
      let index = round4 (max_index c.disagreement_index cs) in
      let classification = classify p.thresholds index in
      record {
        index = index;
        classification = classification;
        codes = dispersion_code classification ∷ [];
      }

  -- What `_select_action` returns.
  pub record Selection : Type 0 where
    pub action : GovernorAction
    pub action_codes : List String
    pub selected : Option (ScoredCandidate E)
    pub blend : List (ScoredCandidate E)

  abbrev selection :
      GovernorAction → String → Option (ScoredCandidate E) → List (ScoredCandidate E) → Selection
  selection action code selected blend = record {
    action = action;
    action_codes = code ∷ [];
    selected = selected;
    blend = blend;
  }

  -- The condition under which the two best profiles are blended.
  unfoldable pub blends : GovernorThresholds E → ScoredCandidate E → ScoredCandidate E → Bool
  blends t top second =
      is_confirmed top.neutral_validation_state
      && (is_confirmed second.neutral_validation_state
          && (le t.min_blend_score top.score
              && (le t.min_blend_score second.score
                  && (le (abs (sub top.score second.score)) t.max_blend_gap
                      && not (str_eq top.profile_name second.profile_name)))))

  -- The branches on the best profile alone.
  unfoldable pub select_top : GovernorThresholds E → ScoredCandidate E → Selection
  select_top t top =
      if le t.min_select_score top.score
      then (if is_confirmed top.neutral_validation_state
          then selection select_profile "top_profile_above_select_threshold" (some top) []
          else selection shadow_only "profile_neutral_confirmation_required" (some top) [])
      else if lt top.score t.retire_below_score
      then selection retire_profile "top_profile_below_retire_threshold" (some top) []
      else if not (is_confirmed top.neutral_validation_state)
      then selection need_more_evidence "profile_neutral_confirmation_required" (some top) []
      else selection shadow_only "best_candidate_below_select_threshold" (some top) []

  unfoldable pub select_eligible :
      GovernorThresholds E → Disagreement → List (ScoredCandidate E) → Selection
  unfolding select_top blends
  select_eligible t d [] = selection need_more_evidence "no_eligible_profiles" none []
  select_eligible t d (top ∷ []) =
      if is_high d
      then selection no_trade "high_profile_disagreement" (some top) []
      else select_top t top
  select_eligible t d (top ∷ second ∷ others) =
      if is_high d
      then selection no_trade "high_profile_disagreement" (some top) []
      else if blends t top second
      then selection blend_profiles "top_two_profiles_close_and_above_blend_threshold" (some top)
          (top ∷ second ∷ [])
      else select_top t top

  -- `_select_action`
  unfoldable pub select_action :
      ProfileGovernorPolicy E → List (ScoredCandidate E) → DisagreementSummary → Selection
  unfolding select_eligible
  select_action p ranked d =
      select_eligible p.thresholds d.classification (select (λ c. c.eligible) ranked)

  pub record GovernorResult : Type 0 where
    pub governor_policy_id : String
    pub selection_ : Selection
    pub selected_candidate_id : String
    pub selected_profile_name : String
    pub candidate_count : ℕ
    pub disagreement_ : DisagreementSummary
    pub ranking : List (ScoredCandidate E)

  abbrev id_of : Option (ScoredCandidate E) → String
  id_of none = ""
  id_of (some c) = c.candidate_id

  abbrev profile_of : Option (ScoredCandidate E) → String
  profile_of none = ""
  profile_of (some c) = c.profile_name

  -- `sorted(..., key=score, reverse=True)`: of equal scores the earlier candidate stays first.
  abbrev pub better_score : ScoredCandidate E → ScoredCandidate E → Bool
  better_score a b = not (lt a.score b.score)

  -- `evaluate_candidates`
  unfoldable pub evaluate_candidates :
      ProfileGovernorPolicy E → List (GovernorCandidate E) → GovernorResult
  unfolding score_candidate disagreement select_action order_by
  evaluate_candidates p candidates =
      let ranked = order_by better_score (map (score_candidate E p) candidates) in
      let d = disagreement p ranked in
      let chosen = select_action p ranked d in
      record {
        governor_policy_id = p.policy_id;
        selection_ = chosen;
        selected_candidate_id = id_of chosen.selected;
        selected_profile_name = profile_of chosen.selected;
        candidate_count = length candidates;
        disagreement_ = d;
        ranking = ranked;
      }
