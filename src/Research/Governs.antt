-- ===== src/Research/Governs.antt =====
-- research_loop/proposal_review.py and profile_governor.py: what the governor may do with a proposal
-- that was reviewed.
use mathlib.Core.Path.{subst}
use defi_engine.Base.{
  ◌≡◌, ◌≢◌, refl, sym, ap, ◌∙◌, inl, inr, String, Bool, true, false, Option, none, some, List, [],
  ◌∷◌, if◌then◌else◌, Option-cases,
}
use defi_engine.Base.Members.{All}
use defi_engine.Json.{Fields}
use defi_engine.Env.{Env}
use defi_engine.Truth.{Result, return, raise}
use defi_engine.Truth.Returns.{bind-returns}
use defi_engine.Research.Scores.{
  select_profile, blend_profiles, is_confirmed, EvidenceMaturity, confirmed, pending,
  ProfileGovernorPolicy, GovernorCandidate, ScoredCandidate, score_candidate, GovernorThresholds,
}
use defi_engine.Research.Governor.{Selection, GovernorResult, evaluate_candidates, Disagreement}
use defi_engine.Research.Proposals.{ImprovementProposal, SourceContext}
use defi_engine.Research.Decision.{
  Decision, reviewed_accept, reviewed_hold, reviewed_reject, DecisionPayload,
}
use defi_engine.Research.Candidate.{
  is_paper_cycle, maturity_of, validation_of, may_select, governor_candidate,
}
use defi_engine.Research.Actions.{JustifiedAs, Backed, evaluate_candidates-Justified}

module _ (E : Env) where
  open E use {Float}

  -- The candidate may be selected unless the proposal was rejected, and is confirmed only if it was
  -- accepted in a paper cycle.
  abbrev pub Fits : ImprovementProposal E → DecisionPayload E → GovernorCandidate E → Type 0
  Fits p d c =
      (c.eligible_for_selection ≡ may_select d.decision)
      × (c.neutral_validation_state ≡ validation_of d.decision (maturity_of p.proposal_kind))

  pub candidate-Fits :
      (p : ImprovementProposal E) (profile : String) (metrics : Fields Float) (c : SourceContext E)
      (d : DecisionPayload E) (candidate : GovernorCandidate E)
      → governor_candidate E p profile metrics c d ≡ return candidate
      → Fits p d candidate
  unfolding governor_candidate
  candidate-Fits p profile metrics c d candidate h =
      let (_, h₁, k) = bind-returns _ _ _ h in
      let (_, h₂, k) = bind-returns _ _ _ k in
      let (_, h₃, k) = bind-returns _ _ _ k in
      let (_, h₄, k) = bind-returns _ _ _ k in
      let (_, h₅, k) = bind-returns _ _ _ k in
      let (_, h₆, k) = bind-returns _ _ _ k in
      let (_, h₇, k) = bind-returns _ _ _ k in
      subst (Fits p d) (ap (answer candidate) k) (refl, refl)
    where
      answer : GovernorCandidate E → Result (GovernorCandidate E) → GovernorCandidate E
      answer default (return x) = x
      answer default (raise e) = default

  confirmed_cycle :
      (d : Decision) (m : EvidenceMaturity)
      → is_confirmed (validation_of d m) ≡ true
      → (d ≡ reviewed_accept) × (is_paper_cycle m ≡ true)
  confirmed_cycle reviewed_hold m h = cc
  confirmed_cycle reviewed_reject m h = cc
  confirmed_cycle reviewed_accept m h = (refl, go (is_paper_cycle m) h)
    where
      go : (b : Bool) → is_confirmed (if b then confirmed else pending) ≡ true → b ≡ true
      go true e = refl
      go false e = cc

  -- What a selected or a blended profile shows.
  selects :
      (t : GovernorThresholds E) (d : Disagreement) (o : Option (ScoredCandidate E))
      (b : List (ScoredCandidate E))
      → JustifiedAs E t d o b select_profile
      → (top : ScoredCandidate E) × (o ≡ some top)
        × (is_confirmed top.neutral_validation_state ≡ true)
  selects t d none [] h = absurd h
  selects t d none (x ∷ b) h = absurd h
  selects t d (some top) [] (calm, sure, above) = (top, refl, sure)
  selects t d (some top) (x ∷ []) h = absurd h
  selects t d (some top) (x ∷ y ∷ []) h = absurd h
  selects t d (some top) (x ∷ y ∷ z ∷ b) h = absurd h

  blends_two :
      (t : GovernorThresholds E) (d : Disagreement) (o : Option (ScoredCandidate E))
      (b : List (ScoredCandidate E))
      → JustifiedAs E t d o b blend_profiles
      → (x : ScoredCandidate E) × (y : ScoredCandidate E) × (b ≡ x ∷ y ∷ [])
        × (x.profile_name ≢ y.profile_name)
  blends_two t d none [] h = absurd h
  blends_two t d none (x ∷ b) h = absurd h
  blends_two t d (some top) [] h = absurd h
  blends_two t d (some top) (x ∷ []) h = absurd h
  blends_two t d (some top) (x ∷ y ∷ []) (calm, head, (_, _, _, _, _, differ)) =
      (x, y, refl, differ)
  blends_two t d (some top) (x ∷ y ∷ z ∷ b) h = absurd h

  -- With one candidate, what is backed is its score.
  only_one :
      (policy : ProfileGovernorPolicy E) (c : GovernorCandidate E) (s : ScoredCandidate E)
      → Backed E policy (c ∷ []) s
      → (s ≡ score_candidate E policy c) × (c.eligible_for_selection ≡ true)
  only_one policy c s (inl (same, may, sound)) = (same, may)
  only_one policy c s (inr h) = absurd h

  -- The governor on a reviewed proposal.
  abbrev pub Governed : ImprovementProposal E → Decision → Selection E → Type 0
  Governed p d s =
      (s.action ≡ select_profile
        → (d ≡ reviewed_accept) × (is_paper_cycle (maturity_of p.proposal_kind) ≡ true))
      × (s.action ≢ blend_profiles)
      × (d ≡ reviewed_reject → s.selected ≡ none)

  scored_state :
      (policy : ProfileGovernorPolicy E) (c : GovernorCandidate E)
      → (score_candidate E policy c).neutral_validation_state ≡ c.neutral_validation_state
  unfolding score_candidate
  scored_state policy c = refl

  pub one-Governed :
      (policy : ProfileGovernorPolicy E) (p : ImprovementProposal E) (d : DecisionPayload E)
      (c : GovernorCandidate E)
      → Fits p d c
      → Governed p d.decision (evaluate_candidates E policy (c ∷ [])).selection_
  one-Governed policy p d c (may, state) =
      let r : GovernorResult E = evaluate_candidates E policy (c ∷ []) in
      let (justified, (backed, all)) = evaluate_candidates-Justified E policy (c ∷ []) in
      let sel : Selection E = r.selection_ in
      (
        λ selecting.
            let (top, is_top, sure) =
              selects policy.thresholds r.disagreement_.classification sel.selected sel.blend (
                subst
                  (JustifiedAs E policy.thresholds r.disagreement_.classification sel.selected
                    sel.blend)
                  selecting justified) in
            let (same, _) = only_one policy c top (backed top is_top) in
            confirmed_cycle d.decision (maturity_of p.proposal_kind) (
              ap is_confirmed (sym state)
              ∙ ap is_confirmed (sym (scored_state policy c))
              ∙ ap (λ (x : ScoredCandidate E). is_confirmed x.neutral_validation_state) (sym same)
              ∙ sure),
        λ blending.
            let (x, y, two, differ) =
              blends_two policy.thresholds r.disagreement_.classification sel.selected sel.blend (
                subst
                  (JustifiedAs E policy.thresholds r.disagreement_.classification sel.selected
                    sel.blend)
                  blending justified) in
            let (b₁, (b₂, _)) = subst (All (Backed E policy (c ∷ []))) two all in
            let (same₁, _) = only_one policy c x b₁ in
            let (same₂, _) = only_one policy c y b₂ in
            differ (ap (λ (z : ScoredCandidate E). z.profile_name) (same₁ ∙ sym same₂)),
        λ rejected. elim (Option-cases sel.selected) [
          | inl absent ↦ absent
          | inr (x, found) ↦
              let (_, allowed) = only_one policy c x (backed x found) in
              absurd (impossible (sym (ap may_select rejected) ∙ sym may ∙ allowed))
        ],
      )
    where
      impossible : false ≡ true → ⊥
      impossible h = cc
