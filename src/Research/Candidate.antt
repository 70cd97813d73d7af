-- ===== src/Research/Candidate.antt =====
-- research_loop/proposal_review.py: the governor candidate of a reviewed proposal.
use defi_engine.Base.{
  ℕ, String, Bool, true, false, ◌&&◌, ◌||◌, [], ◌∷◌, if◌then◌else◌, str_eq, truthy, truthy?,
}
use defi_engine.Base.Int.{pos}
use defi_engine.Json.{Fields, float, get_or}
use defi_engine.Json.Convert.{to_bool, to_float}
use defi_engine.Env.{Env}
use defi_engine.Truth.{Result, return, ◌>>=◌}
use defi_engine.Research.Scores.{
  EvidenceMaturity, condition_only, label_program, strategy_eval, paper_cycle,
  NeutralValidationState, confirmed, pending, failed, GovernorCandidate,
}
use defi_engine.Research.Proposals.{ImprovementProposal, SourceContext}
use defi_engine.Research.Decision.{
  Decision, reviewed_accept, reviewed_hold, reviewed_reject, adjustment_kind, DecisionPayload,
}

abbrev pub is_paper_cycle : EvidenceMaturity → Bool
is_paper_cycle paper_cycle = true
is_paper_cycle _ = false

abbrev pub maturity_of : String → EvidenceMaturity
maturity_of kind =
    if str_eq kind "paper_cycle_follow_on" || str_eq kind adjustment_kind
    then paper_cycle
    else if str_eq kind "strategy_eval_follow_on"
    then strategy_eval
    else if str_eq kind "label_program_follow_on"
    then label_program
    else condition_only

abbrev pub validation_of : Decision → EvidenceMaturity → NeutralValidationState
validation_of reviewed_accept m = if is_paper_cycle m then confirmed else pending
validation_of reviewed_hold m = pending
validation_of reviewed_reject m = failed

-- `decision in {"reviewed_accept", "reviewed_hold"}`
abbrev pub may_select : Decision → Bool
may_select reviewed_accept = true
may_select reviewed_hold = true
may_select reviewed_reject = false

abbrev pub is_accept : Decision → Bool
is_accept reviewed_accept = true
is_accept _ = false

module _ (E : Env) where
  open E use {
    Float, float_zero, of_int, int_div, add, mul, div, lt, abs, Encoded, dumps, loads, str_of,
  }

  -- `max(a, b)` and `min(a, b)`: the first of equal ones.
  abbrev pub max : Float → Float → Float
  max a b = if lt a b then b else a

  abbrev pub min : Float → Float → Float
  min a b = if lt b a then b else a

  abbrev pub number : ℕ → Float
  number n = of_int (pos n)

  -- `float(metrics.get(key, 0.0) or 0.0)`
  unfoldable pub metric : String → Fields Float → Result Float
  unfolding to_bool to_float
  metric key m =
      let v = get_or key (float float_zero) m in
      if to_bool E v then to_float E v else return float_zero

  -- `_governor_candidate`; every metric is read, as the source does.
  unfoldable pub governor_candidate :
      ImprovementProposal E
      → String
      → Fields Float
      → SourceContext E
      → DecisionPayload E
      → Result (GovernorCandidate E)
  unfolding metric
  governor_candidate p profile metrics c d = do
    paper_pnl ← metric "paper_realized_pnl_usdc" c.source_metrics
    pnl ← metric "realized_pnl_usdc" metrics
    coverage ← metric "valid_coverage" metrics
    patch_size ← metric "patch_size" metrics
    expectancy ← metric "positive_expectancy" metrics
    pnl_bps ← metric "realized_pnl_bps" metrics
    slippage ← metric "paper_fill_slippage_bps" c.source_metrics
    let maturity = maturity_of p.proposal_kind
    let accepted = is_accept d.decision
    let hundred = number 100
    let cycle_score = min hundred (max (mul (max paper_pnl pnl) hundred) pnl_bps)
    let neutral = validation_of d.decision maturity
    return (record {
      candidate_id = p.proposal_id;
      profile_name = profile;
      evidence_maturity = maturity;
      out_of_sample_score =
          min hundred
            (max (max (mul coverage hundred) (mul paper_pnl hundred)) (mul expectancy hundred));
      paper_score =
          if is_paper_cycle maturity
          then cycle_score
          else if accepted
          then number 20
          else float_zero;
      stability_score = if accepted then number 75 else number 40;
      regime_fit_score = if truthy? c.semantic_regime then number 80 else number 45;
      cost_penalty = min (number 20) (add (number 2) (div (abs slippage) (number 10)));
      decay_penalty = if accepted then number 4 else number 10;
      complexity_penalty = min (number 12) (mul patch_size (number 2));
      disagreement_index =
          if accepted && is_paper_cycle maturity then int_div (pos 2) 25 else int_div (pos 9) 50;
      eligible_for_selection = may_select d.decision;
      neutral_validation_state = neutral;
      reason_codes = d.reason_codes;
      evidence_refs = if truthy c.source_artifact_path then c.source_artifact_path ∷ [] else [];
    })
