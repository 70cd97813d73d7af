-- ===== src/Research/Scores.antt =====
-- research_loop/profile_governor.py: the candidates, and their scores. A policy that was loaded is a
-- value; pydantic's checks and the policy file are not modelled.
use defi_engine.Base.{
  String, Bool, true, false, not, ◌&&◌, Option, List, [], ◌∷◌, ◌++◌, if◌then◌else◌, contains,
}
use defi_engine.Base.Int.{pos}
use defi_engine.Base.Time.{or_else}
use defi_engine.Env.{Env}

pub data GovernorAction : Type 0 where
  select_profile blend_profiles no_trade shadow_only need_more_evidence retire_profile :
      GovernorAction

pub data EvidenceMaturity : Type 0 where
  feature_only condition_only label_program strategy_eval paper_cycle : EvidenceMaturity

pub data NeutralValidationState : Type 0 where
  confirmed pending profile_biased failed : NeutralValidationState

-- `state == "confirmed"` and `state == "failed"`
abbrev pub is_confirmed : NeutralValidationState → Bool
is_confirmed confirmed = true
is_confirmed pending = false
is_confirmed profile_biased = false
is_confirmed failed = false

abbrev pub has_failed : NeutralValidationState → Bool
has_failed confirmed = false
has_failed pending = false
has_failed profile_biased = false
has_failed failed = true

module _ (E : Env) where
  open E use {Float, float_zero, of_int, int_div, add, sub, mul, div, lt, le, round4, abs}

  pub record ScoringWeights : Type 0 where
    pub out_of_sample : Float
    pub paper : Float
    pub stability : Float
    pub regime_fit : Float
    pub cost_penalty : Float
    pub decay_penalty : Float
    pub complexity_penalty : Float

  pub record GovernorThresholds : Type 0 where
    pub min_select_score : Float
    pub min_blend_score : Float
    pub max_blend_gap : Float
    pub high_disagreement_index : Float
    pub retire_below_score : Float

  pub record ProfileGovernorPolicy : Type 0 where
    pub policy_id : String
    pub scoring_weights : ScoringWeights
    pub evidence_multipliers : EvidenceMaturity → Option Float
    pub thresholds : GovernorThresholds

  pub record GovernorCandidate : Type 0 where
    pub candidate_id : String
    pub profile_name : String
    pub evidence_maturity : EvidenceMaturity
    pub out_of_sample_score : Float
    pub paper_score : Float
    pub stability_score : Float
    pub regime_fit_score : Float
    pub cost_penalty : Float
    pub decay_penalty : Float
    pub complexity_penalty : Float
    pub disagreement_index : Float
    pub eligible_for_selection : Bool
    pub neutral_validation_state : NeutralValidationState
    pub reason_codes : List String
    pub evidence_refs : List String

  pub record ScoreComponents : Type 0 where
    pub out_of_sample : Float
    pub paper : Float
    pub stability : Float
    pub regime_fit : Float
    pub cost_penalty : Float
    pub decay_penalty : Float
    pub complexity_penalty : Float
    pub evidence_multiplier : Float
    pub validation_bonus : Float

  pub record ScoredCandidate : Type 0 where
    pub candidate_id : String
    pub profile_name : String
    pub evidence_maturity : EvidenceMaturity
    pub score : Float
    pub eligible : Bool
    pub components : ScoreComponents
    pub disagreement_index : Float
    pub neutral_validation_state : NeutralValidationState
    pub reason_codes : List String
    pub evidence_refs : List String

  abbrev bonus_of : NeutralValidationState → Float
  bonus_of confirmed = of_int (pos 8)
  bonus_of pending = of_int (pos 2)
  bonus_of profile_biased = float_zero
  bonus_of failed = float_zero

  -- `raw_score`, added up from the left.
  unfoldable pub raw_score : ScoringWeights → GovernorCandidate → Float
  raw_score w c =
      add
        (sub
          (sub
            (sub
              (add
                (add (add (mul w.out_of_sample c.out_of_sample_score) (mul w.paper c.paper_score))
                  (mul w.stability c.stability_score))
                (mul w.regime_fit c.regime_fit_score))
              (mul w.cost_penalty c.cost_penalty))
            (mul w.decay_penalty c.decay_penalty))
          (mul w.complexity_penalty c.complexity_penalty))
        (bonus_of c.neutral_validation_state)

  unfoldable pub components_of : ScoringWeights → Float → GovernorCandidate → ScoreComponents
  components_of w multiplier c = record {
    out_of_sample = round4 (mul w.out_of_sample c.out_of_sample_score);
    paper = round4 (mul w.paper c.paper_score);
    stability = round4 (mul w.stability c.stability_score);
    regime_fit = round4 (mul w.regime_fit c.regime_fit_score);
    cost_penalty = round4 (mul w.cost_penalty c.cost_penalty);
    decay_penalty = round4 (mul w.decay_penalty c.decay_penalty);
    complexity_penalty = round4 (mul w.complexity_penalty c.complexity_penalty);
    evidence_multiplier = round4 multiplier;
    validation_bonus = round4 (bonus_of c.neutral_validation_state);
  }

  -- The reason codes of a candidate, with that of a failed validation.
  abbrev scored_codes : GovernorCandidate → List String
  scored_codes c =
      if has_failed c.neutral_validation_state
      then (if contains "profile_neutral_validation_failed" c.reason_codes
          then c.reason_codes
          else c.reason_codes ++ "profile_neutral_validation_failed" ∷ [])
      else c.reason_codes

  -- `_score_candidate`
  unfoldable pub score_candidate : ProfileGovernorPolicy → GovernorCandidate → ScoredCandidate
  unfolding raw_score components_of
  score_candidate p c =
      let multiplier = or_else (p.evidence_multipliers c.evidence_maturity) (int_div (pos 1) 2) in
      record {
        candidate_id = c.candidate_id;
        profile_name = c.profile_name;
        evidence_maturity = c.evidence_maturity;
        score = round4 (mul (raw_score p.scoring_weights c) multiplier);
        eligible = c.eligible_for_selection && not (has_failed c.neutral_validation_state);
        components = components_of p.scoring_weights multiplier c;
        disagreement_index = c.disagreement_index;
        neutral_validation_state = c.neutral_validation_state;
        reason_codes = scored_codes c;
        evidence_refs = c.evidence_refs;
      }
