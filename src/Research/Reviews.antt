-- ===== src/Research/Reviews.antt =====
-- research_loop/proposal_review.py: what a completed review leaves.
use mathlib.Core.Path.{subst}
use defi_engine.Base.{
  ℕ, ◌≡◌, refl, sym, ap, ◌∙◌, ◌↔◌, String, false, some, List, [], ◌∷◌, ◌++◌, map, str_eq, update,
}
use defi_engine.Base.Time.{Instant}
use defi_engine.Json.{Fields}
use defi_engine.Env.{Env}
use defi_engine.Live.{dictionary}
use defi_engine.Truth.{Result, return, raise}
use defi_engine.Truth.Returns.{
  bind-returns, then-returns, or_raise-returns, raise_if-returns, return-pair,
}
use defi_engine.Research.Scores.{ProfileGovernorPolicy, GovernorCandidate}
use defi_engine.Research.Governor.{GovernorResult, evaluate_candidates}
use defi_engine.Research.Proposals.{
  ImprovementProposal, ProposalReview, ResearchTables, SourceContext,
}
use defi_engine.Research.Decision.{
  Decision, reviewed_accept, decision_text, DecisionPayload, build_decision,
}
use defi_engine.Research.Candidate.{governor_candidate}
use defi_engine.Research.Review.{
  decode_codes, decode_metrics, review_id_of, review_row, ReviewAnswer, find_proposal, store_review,
  review_taken, review_session, review_proposal, review_outcome,
}
use defi_engine.Research.Accepts.{IsBounded, HasEvidence, build_decision-accepts}
use defi_engine.Research.Governs.{candidate-Fits, Governed, one-Governed}

module _ (E : Env) where
  open E use {Float, dumps}

  -- What a completed review found and left.
  abbrev pub Reviewed :
      ProfileGovernorPolicy E
      → String
      → (ImprovementProposal E → SourceContext E)
      → String
      → Instant
      → String
      → ResearchTables E
      → ReviewAnswer E × ResearchTables E
      → Type 0
  Reviewed policy profile context_of suffix now proposal_id t (a, t') =
      (p : ImprovementProposal E) × (codes : List String) × (candidate : GovernorCandidate E)
      × (metrics : Fields Float) × (find_proposal E t proposal_id ≡ some p)
      × (decode_codes E p.reason_codes_json ≡ return codes)
      × (dictionary E (decode_metrics E p.metrics_json) ≡ return metrics)
      × (governor_candidate E p profile metrics (context_of p)
            (build_decision E p (decode_metrics E p.metrics_json) codes (context_of p))
          ≡ return candidate)
      × (review_taken E t (review_id_of E p suffix) ≡ false)
      × (a.decision
          ≡ (build_decision E p (decode_metrics E p.metrics_json) codes (context_of p)).decision)
      × (a.governor ≡ evaluate_candidates E policy (candidate ∷ []))
      × (t'
          ≡ store_review E
              (review_row E (E.new_id (map (λ (r : ProposalReview E). r.id) t.reviews)) p suffix
                (context_of p)
                (build_decision E p (decode_metrics E p.metrics_json) codes (context_of p)) now)
              p (build_decision E p (decode_metrics E p.metrics_json) codes (context_of p)) t)

  session-Reviewed :
      (policy : ProfileGovernorPolicy E) (profile : String)
      (context_of : ImprovementProposal E → SourceContext E) (suffix : String) (now : Instant)
      (proposal_id : String) (t : ResearchTables E) (r : ReviewAnswer E × ResearchTables E)
      → review_session E policy profile context_of suffix now proposal_id t ≡ return r
      → Reviewed policy profile context_of suffix now proposal_id t r
  unfolding review_session
  session-Reviewed policy profile context_of suffix now proposal_id t (a, t') h =
      let (p, h₁, k) = bind-returns _ _ _ h in
      let (codes, h₂, k) = bind-returns _ _ _ k in
      let (metrics, h₃, k) = bind-returns _ _ _ k in
      let (candidate, h₄, k) = bind-returns _ _ _ k in
      let (free, k) = then-returns _ _ _ k in
      let (same_a, same_t) = return-pair _ a _ t' k in
      (
        p,
        codes,
        candidate,
        metrics,
        or_raise-returns _ _ p h₁,
        h₂,
        h₃,
        h₄,
        raise_if-returns _ _ free,
        sym (ap decision same_a),
        sym (ap governor same_a),
        sym same_t,
      )
    where
      decision : ReviewAnswer E → Decision
      decision x = x.decision

      governor : ReviewAnswer E → GovernorResult E
      governor x = x.governor

  -- What a review leaves: one new row, on a proposal that was there, under a free id, with the
  -- decision that becomes the status of the proposal; and no other change of the tables.
  abbrev pub Leaves :
      (ImprovementProposal E → SourceContext E)
      → String
      → ResearchTables E
      → ReviewAnswer E
      → ResearchTables E
      → Type 0
  Leaves context_of proposal_id t a t' =
      (p : ImprovementProposal E) × (row : ProposalReview E) × (find_proposal E t proposal_id
        ≡ some p)
      × (review_taken E t row.review_id ≡ false)
      × (row.proposal_id ≡ p.proposal_id)
      × (row.decision ≡ decision_text a.decision)
      × (t'.reviews ≡ t.reviews ++ row ∷ [])
      × (t'.proposals
          ≡ update (λ q. str_eq q.proposal_id p.proposal_id)
              (λ q. record q { status = decision_text a.decision }) t.proposals)
      × ((a.decision ≡ reviewed_accept) ↔ (
          IsBounded E p (context_of p)
          × HasEvidence E p (decode_metrics E p.metrics_json) (context_of p)))
      × Governed E p a.decision a.governor.selection_

  closed-returns :
      (t : ResearchTables E) (r : Result (ReviewAnswer E × ResearchTables E)) (a : ReviewAnswer E)
      (t' : ResearchTables E)
      → ◌≡◌ {A = Result (ReviewAnswer E) × ResearchTables E} (review_outcome E t r) (return a, t')
      → r ≡ return (a, t')
  closed-returns t (return (b, t'')) a t' h = cc
  closed-returns t (raise e) a t' h = cc

  stored :
      (p : ImprovementProposal E) (suffix : String) (c : SourceContext E) (d : DecisionPayload E)
      (now : Instant) (id : ℕ)
      → ((review_row E id p suffix c d now).review_id ≡ review_id_of E p suffix)
        × ((review_row E id p suffix c d now).proposal_id ≡ p.proposal_id)
        × ((review_row E id p suffix c d now).decision ≡ decision_text d.decision)
  unfolding review_row
  stored p suffix c d now id = (refl, refl, refl)

  store-rows :
      (row : ProposalReview E) (p : ImprovementProposal E) (d : DecisionPayload E)
      (t : ResearchTables E)
      → ((store_review E row p d t).reviews ≡ t.reviews ++ row ∷ [])
        × ((store_review E row p d t).proposals
            ≡ update
                (λ q. str_eq q.proposal_id p.proposal_id)
                (λ q. record q { status = decision_text d.decision })
                t.proposals)
  unfolding store_review
  store-rows row p d t = (refl, refl)

  Reviewed-Leaves :
      (policy : ProfileGovernorPolicy E) (profile : String)
      (context_of : ImprovementProposal E → SourceContext E) (suffix : String) (now : Instant)
      (proposal_id : String) (t : ResearchTables E) (a : ReviewAnswer E) (t' : ResearchTables E)
      → Reviewed policy profile context_of suffix now proposal_id t (a, t')
      → Leaves context_of proposal_id t a t'
  Reviewed-Leaves policy profile context_of suffix now proposal_id t a t'
        (p, codes, candidate, metrics, found, _, _, made, free, decided, governed, left) =
      let c : SourceContext E = context_of p in
      let d : DecisionPayload E = build_decision E p (decode_metrics E p.metrics_json) codes c in
      let id : ℕ = E.new_id (map (λ (r : ProposalReview E). r.id) t.reviews) in
      let row : ProposalReview E = review_row E id p suffix c d now in
      let (same_id, same_proposal, same_decision) = stored p suffix c d now id in
      let (reviews, proposals) = store-rows row p d t in
      (
        p,
        row,
        found,
        ap (review_taken E t) same_id ∙ free,
        same_proposal,
        same_decision ∙ ap decision_text (sym decided),
        ap (λ (x : ResearchTables E). x.reviews) left ∙ reviews,
        ap (λ (x : ResearchTables E). x.proposals) left
            ∙ proposals
            ∙ ap
                (λ (x : Decision).
                  update (λ (q : ImprovementProposal E). str_eq q.proposal_id p.proposal_id)
                    (λ q. record q { status = decision_text x }) t.proposals)
                (sym decided),
        subst
            (λ x.
              (x ≡ reviewed_accept)
              ↔ (IsBounded E p c × HasEvidence E p (decode_metrics E p.metrics_json) c))
            (sym decided) (build_decision-accepts E p (decode_metrics E p.metrics_json) codes c),
        subst (λ (g : GovernorResult E). Governed E p a.decision g.selection_) (sym governed)
            (subst (λ x. Governed E p x (evaluate_candidates E policy (candidate ∷ [])).selection_)
              (sym decided)
              (one-Governed E policy p d candidate
                (candidate-Fits E p profile metrics c d candidate made))),
      )

  -- A review that returns found the proposal, and appended exactly one review row on it, under an
  -- id that was free, whose decision is that of the answer and became the status of the proposal; it
  -- accepted exactly if the proposal is bounded and has its evidence; and the governor selects it
  -- only if it was accepted in a paper cycle, never blends, and selects nothing on a rejection.
  pub review_proposal-Leaves :
      (policy : ProfileGovernorPolicy E) (profile : String)
      (context_of : ImprovementProposal E → SourceContext E) (suffix : String) (now : Instant)
      (proposal_id : String) (t : ResearchTables E) (a : ReviewAnswer E) (t' : ResearchTables E)
      → ◌≡◌ {A = Result (ReviewAnswer E) × ResearchTables E}
          (review_proposal E policy profile context_of suffix now proposal_id t)
          (return a, t')
      → Leaves context_of proposal_id t a t'
  unfolding review_proposal
  review_proposal-Leaves policy profile context_of suffix now proposal_id t a t' h =
      Reviewed-Leaves policy profile context_of suffix now proposal_id t a t' (
        session-Reviewed policy profile context_of suffix now proposal_id t (a, t')
          (closed-returns t _ a t' h))
