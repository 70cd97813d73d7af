-- ===== src/Research/Review.antt =====
-- research_loop/proposal_review.py: the part of `review_proposal` that reads and writes the database.
use Prim.Native.String.{◌++◌ as text_append}
use defi_engine.Base.{
  ℕ, String, Bool, not, Option, none, some, List, [], ◌∷◌, ◌++◌, map, str_eq, is_none, find_first,
  update,
}
use defi_engine.Base.Time.{Instant}
use defi_engine.Json.{Json, Items, Fields, nil, cons, end, field, arr, obj, texts}
use defi_engine.Env.{Env}
use defi_engine.Truth.{
  Result, return, raise, ◌>>=◌, ◌>>◌, or_raise, raise_if, runtime_error, type_error,
  integrity_error,
}
use defi_engine.Live.{dictionary}
use defi_engine.Research.Scores.{ProfileGovernorPolicy}
use defi_engine.Research.Governor.{GovernorResult, evaluate_candidates}
use defi_engine.Research.Proposals.{
  ImprovementProposal, ProposalReview, ResearchTables, SourceContext,
}
use defi_engine.Research.Decision.{Decision, decision_text, DecisionPayload, build_decision}
use defi_engine.Research.Candidate.{governor_candidate}

module _ (E : Env) where
  open E use {
    Float, float_zero, of_int, int_div, add, mul, div, lt, abs, Encoded, dumps, loads, str_of,
  }

  abbrev as_texts : Items Float → List String
  as_texts nil = []
  as_texts (cons (Json.text s) xs) = s ∷ as_texts xs
  as_texts (cons v xs) = str_of v ∷ as_texts xs

  abbrev key_list : Fields Float → List String
  key_list end = []
  key_list (field k v rest) = k ∷ key_list rest

  -- `list(_loads_json(text, []))`, where the items are texts.
  unfoldable pub decode_codes : Encoded → Result (List String)
  decode_codes encoded = elim (loads encoded) [
    | none ↦ return []
    | some v ↦ elim v [
      | arr xs ↦ return (as_texts xs)
      | obj fs ↦ return (key_list fs)
      | _ ↦ raise (type_error "object is not iterable")
    ]
  ]

  -- `_loads_json(text, {})`
  abbrev pub decode_metrics : Encoded → Json Float
  decode_metrics encoded = elim (loads encoded) [ none ↦ obj end | some v ↦ v ]

  abbrev pub review_id_of : ImprovementProposal E → String → String
  review_id_of p suffix =
      text_append "review_" (text_append p.proposal_kind (text_append "_" suffix))

  unfoldable pub review_row :
      ℕ
      → ImprovementProposal E
      → String
      → SourceContext E
      → DecisionPayload E
      → Instant
      → ProposalReview E
  review_row id p suffix c d now = record {
    id = id;
    review_id = review_id_of p suffix;
    proposal_id = p.proposal_id;
    decision = decision_text d.decision;
    reviewer_kind = "ai_reviewer";
    summary = d.summary;
    reason_codes_json = dumps (texts d.reason_codes);
    regime_scope_json = dumps c.regime_scope;
    condition_scope_json = dumps c.condition_scope;
    recommended_next_test = d.recommended_next_test;
    created_at = now;
  }

  pub record ReviewAnswer : Type 0 where
    pub proposal_id : String
    pub review_id : String
    pub decision : Decision
    pub summary : String
    pub previous_status : String
    pub governor : GovernorResult E

  unfoldable pub find_proposal : ResearchTables E → String → Option (ImprovementProposal E)
  unfolding find_first
  find_proposal t proposal_id = find_first (λ p. str_eq p.proposal_id proposal_id) t.proposals

  -- `proposal.status = decision` on the one row, and the new review, in one commit.
  unfoldable pub store_review :
      ProposalReview E
      → ImprovementProposal E
      → DecisionPayload E
      → ResearchTables E
      → ResearchTables E
  unfolding update
  store_review row p d t = record {
    proposals =
        update (λ q. str_eq q.proposal_id p.proposal_id)
          (λ q. record q { status = decision_text d.decision }) t.proposals;
    reviews = t.reviews ++ row ∷ [];
  }

  unfoldable pub review_taken : ResearchTables E → String → Bool
  unfolding find_first
  review_taken t review_id =
      not (is_none (find_first (λ (r : ProposalReview E). str_eq r.review_id review_id) t.reviews))

  -- The session of `review_proposal`. The context of the proposal, the research profile and the
  -- random suffix are arguments.
  unfoldable pub review_session :
      ProfileGovernorPolicy E
      → String
      → (ImprovementProposal E → SourceContext E)
      → String
      → Instant
      → String
      → ResearchTables E
      → Result (ReviewAnswer × ResearchTables E)
  unfolding build_decision governor_candidate decode_codes evaluate_candidates review_row
      find_proposal store_review review_taken
  review_session policy profile context_of suffix now proposal_id t = do
    p ← or_raise (find_proposal t proposal_id) (runtime_error "Unknown proposal_id")
    let context = context_of p
    codes ← decode_codes p.reason_codes_json
    let d = build_decision E p (decode_metrics p.metrics_json) codes context
    metrics ← dictionary E (decode_metrics p.metrics_json)
    candidate ← governor_candidate E p profile metrics context d
    let governor = evaluate_candidates E policy (candidate ∷ [])
    let row =
        review_row (E.new_id (map (λ (r : ProposalReview E). r.id) t.reviews)) p suffix context d
          now
    raise_if (review_taken t (review_id_of p suffix)) (integrity_error "UNIQUE constraint failed")
    return (
      record {
        proposal_id = proposal_id;
        review_id = review_id_of p suffix;
        decision = d.decision;
        summary = d.summary;
        previous_status = p.status;
        governor = governor;
      },
      store_review row p d t,
    )

  abbrev pub review_outcome :
      ResearchTables E
      → Result (ReviewAnswer × ResearchTables E)
      → Result ReviewAnswer × ResearchTables E
  review_outcome t (return (a, t')) = (return a, t')
  review_outcome t (raise e) = (raise e, t)

  -- `review_proposal`: a session that raises leaves the tables as they were.
  unfoldable pub review_proposal :
      ProfileGovernorPolicy E
      → String
      → (ImprovementProposal E → SourceContext E)
      → String
      → Instant
      → String
      → ResearchTables E
      → Result ReviewAnswer × ResearchTables E
  unfolding review_session
  review_proposal policy profile context_of suffix now proposal_id t =
      review_outcome t (review_session policy profile context_of suffix now proposal_id t)
