-- ===== src/Tests/Research.antt =====
-- The witnesses of the properties of the research loop: two profiles that the governor ranks, and the
-- review of one paper-cycle proposal.
use defi_engine.Base.{◌≡◌, refl, ◌↔◌, String, true, some, List, [], ◌∷◌, str_eq, find_first, update}
use defi_engine.Base.Checks.{failing}
use defi_engine.Base.Sort.{order_by}
use defi_engine.Base.Text.{join}
use defi_engine.Json.{fields, object, float, texts, end, null, get}
use defi_engine.Json.Convert.{to_bool, to_float}
use defi_engine.Truth.{◌>>=◌, ◌>>◌, or_raise, raise_if, Result}
use defi_engine.Research.{
  paper_cycle, NeutralValidationState, confirmed, failed, ScoringWeights, ProfileGovernorPolicy,
  GovernorCandidate, evaluate_candidates, score_candidate, raw_score, components_of, disagreement,
  max_index, select_action, select_eligible, select_top, blends, ImprovementProposal, SourceContext,
  ResearchTables, build_decision, reject_codes, hold_codes, extend_new,
  contains_unsafe_runtime_language, patch_keys, patch_missing, disallowed_keys, reviewed_accept,
  governor_candidate, metric, decode_codes, review_row, ReviewAnswer, find_proposal, store_review,
  review_taken, review_session, review_proposal,
}
use defi_engine.Research.Actions.{Justified, AllBacked, evaluate_candidates-Justified}
use defi_engine.Research.Accepts.{IsBounded, HasEvidence, build_decision-accepts}
use defi_engine.Research.Reviews.{Leaves, review_proposal-Leaves}
use defi_engine.Samples.{sample_env, noon}
use defi_engine.Tests.Runs.{the, answered}

abbrev weights : ScoringWeights sample_env
weights = record {
  out_of_sample = 400_000;
  paper = 300_000;
  stability = 200_000;
  regime_fit = 100_000;
  cost_penalty = 1_000_000;
  decay_penalty = 1_000_000;
  complexity_penalty = 500_000;
}

abbrev policy : ProfileGovernorPolicy sample_env
policy = record {
  policy_id = "profile_router_policy_v1";
  scoring_weights = weights;
  evidence_multipliers = λ m. some 1_000_000;
  thresholds = record {
    min_select_score = 60_000_000;
    min_blend_score = 55_000_000;
    max_blend_gap = 5_000_000;
    high_disagreement_index = 350_000;
    retire_below_score = 20_000_000;
  };
}

abbrev candidate : String → NeutralValidationState → GovernorCandidate sample_env
candidate name state = record {
  candidate_id = name;
  profile_name = name;
  evidence_maturity = paper_cycle;
  out_of_sample_score = 90_000_000;
  paper_score = 80_000_000;
  stability_score = 75_000_000;
  regime_fit_score = 80_000_000;
  cost_penalty = 2_000_000;
  decay_penalty = 4_000_000;
  complexity_penalty = 0;
  disagreement_index = 80_000;
  eligible_for_selection = true;
  neutral_validation_state = state;
  reason_codes = [];
  evidence_refs = [];
}

abbrev candidates : List (GovernorCandidate sample_env)
candidates = candidate "trend" failed ∷ candidate "carry" confirmed ∷ []

evaluate_candidates-Justified_example :
    Justified sample_env policy.thresholds
      (evaluate_candidates sample_env policy candidates).disagreement_.classification
      (evaluate_candidates sample_env policy candidates).selection_
    × AllBacked sample_env policy candidates
        (evaluate_candidates sample_env policy candidates).selection_
evaluate_candidates-Justified_example = evaluate_candidates-Justified sample_env policy candidates

abbrev proposal : ImprovementProposal sample_env
proposal = record {
  id = 1;
  proposal_id = "p1";
  proposal_kind = "paper_cycle_follow_on";
  source_owner_type = "paper_session";
  source_owner_key = "paper_1";
  governance_scope = "paper_runtime";
  status = "proposed";
  runtime_effect = "advisory_only";
  title = "Widen the stop";
  summary = "The stop was hit early";
  hypothesis = "A wider stop holds";
  next_test = "Rerun the paper cycle";
  metrics_json = some (object (("realized_pnl_usdc", float 500_000) ∷ []));
  reason_codes_json = some (texts ("stop_hit" ∷ []));
  created_at = noon;
}

abbrev context_of : ImprovementProposal sample_env → SourceContext sample_env
context_of p = record {
  source_metrics = fields (("paper_realized_pnl_usdc", float 500_000) ∷ []);
  source_status = "closed";
  source_artifact_payload = end;
  source_artifact_types = "paper_cycle_summary" ∷ [];
  source_artifact_path = "summary.json";
  semantic_regime = some "long_friendly";
  condition_run_id = some "cond";
  regime_scope = null;
  condition_scope = null;
}

build_decision-accepts_example :
    ((build_decision sample_env proposal
        (object (("realized_pnl_usdc", float 500_000) ∷ []))
        ("stop_hit" ∷ [])
        (context_of proposal)).decision
      ≡ reviewed_accept)
    ↔ (IsBounded sample_env proposal (context_of proposal)
        × HasEvidence sample_env proposal
            (object (("realized_pnl_usdc", float 500_000) ∷ []))
            (context_of proposal))
build_decision-accepts_example =
    build_decision-accepts sample_env proposal (object (("realized_pnl_usdc", float 500_000) ∷ []))
      ("stop_hit" ∷ []) (context_of proposal)

abbrev research : ResearchTables sample_env
research = record { proposals = proposal ∷ []; reviews = [] }

abbrev reviewed : Result (ReviewAnswer sample_env) × ResearchTables sample_env
reviewed =
    review_proposal sample_env policy "execution_cost" context_of "0123456789ab" noon "p1" research

abbrev answer : ReviewAnswer sample_env
unfolding review_proposal review_session build_decision reject_codes hold_codes extend_new
    contains_unsafe_runtime_language patch_keys patch_missing disallowed_keys governor_candidate
    metric decode_codes review_row find_proposal store_review review_taken evaluate_candidates
    score_candidate raw_score components_of disagreement max_index select_action select_eligible
    select_top blends order_by find_first update failing join to_bool to_float get str_eq ◌>>=◌ ◌>>◌
    or_raise raise_if
answer = the (answered reviewed.0) refl

review_proposal-Leaves_example : Leaves sample_env context_of "p1" research answer reviewed.1
unfolding review_proposal review_session build_decision reject_codes hold_codes extend_new
    contains_unsafe_runtime_language patch_keys patch_missing disallowed_keys governor_candidate
    metric decode_codes review_row find_proposal store_review review_taken evaluate_candidates
    score_candidate raw_score components_of disagreement max_index select_action select_eligible
    select_top blends order_by find_first update failing join to_bool to_float get str_eq ◌>>=◌ ◌>>◌
    or_raise raise_if
review_proposal-Leaves_example =
    review_proposal-Leaves sample_env policy "execution_cost" context_of "0123456789ab" noon "p1"
      research answer reviewed.1 refl
