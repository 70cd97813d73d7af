-- ===== src/Research/Actions.antt =====
-- research_loop/profile_governor.py: what each action of the governor rests on.
use mathlib.Core.Path.{subst}
use defi_engine.Base.{
  ◌≡◌, ◌≢◌, refl, sym, ap, ◌∙◌, ◌⊎◌, inl, inr, Bool, true, false, not, ◌&&◌, Option, none, some,
  List, [], ◌∷◌, map, str_ne, select, Bool-cases,
}
use defi_engine.Base.Members.{All, Any, All-weaken}
use defi_engine.Base.Sort.{order_by}
use defi_engine.Base.Sort.Kept.{All-order_by, All-select}
use defi_engine.Env.{Env}
use defi_engine.Research.Scores.{
  GovernorAction, select_profile, blend_profiles, no_trade, shadow_only, need_more_evidence,
  retire_profile, is_confirmed, has_failed, GovernorThresholds, ProfileGovernorPolicy,
  GovernorCandidate, ScoredCandidate, score_candidate,
}
use defi_engine.Research.Governor.{
  Disagreement, is_high, Selection, blends, select_top, select_eligible, select_action,
  evaluate_candidates, better_score, disagreement,
}

module _ (E : Env) where
  open E use {Float, sub, lt, le, abs}

  -- Two profiles that may be blended.
  abbrev pub IsBlend : GovernorThresholds E → ScoredCandidate E → ScoredCandidate E → Type 0
  IsBlend t a b =
      (is_confirmed a.neutral_validation_state ≡ true)
      × (is_confirmed b.neutral_validation_state ≡ true)
      × (le t.min_blend_score a.score ≡ true)
      × (le t.min_blend_score b.score ≡ true)
      × (le (abs (sub a.score b.score)) t.max_blend_gap ≡ true)
      × (a.profile_name ≢ b.profile_name)

  -- What an action says of the disagreement, of the selected profile and of the blend.
  abbrev pub JustifiedAs :
      GovernorThresholds E
      → Disagreement
      → Option (ScoredCandidate E)
      → List (ScoredCandidate E)
      → GovernorAction
      → Type 0
  JustifiedAs t d (some top) [] select_profile =
      (is_high d ≡ false)
      × (is_confirmed top.neutral_validation_state ≡ true)
      × (le t.min_select_score top.score ≡ true)
  JustifiedAs t d (some top) (a ∷ b ∷ []) blend_profiles =
      (is_high d ≡ false) × (a ≡ top) × IsBlend t a b
  JustifiedAs t d (some top) [] no_trade = is_high d ≡ true
  JustifiedAs t d (some top) [] shadow_only =
      (is_high d ≡ false)
      × (is_confirmed top.neutral_validation_state ≡ not (le t.min_select_score top.score))
  JustifiedAs t d (some top) [] retire_profile =
      (is_high d ≡ false)
      × (le t.min_select_score top.score ≡ false)
      × (lt top.score t.retire_below_score ≡ true)
  JustifiedAs t d (some top) [] need_more_evidence =
      (is_high d ≡ false)
      × (le t.min_select_score top.score ≡ false)
      × (is_confirmed top.neutral_validation_state ≡ false)
  JustifiedAs t d none [] need_more_evidence = Unit
  JustifiedAs t d _ _ _ = ⊥

  -- The action is justified by a selection from the eligible profiles, best first: nothing is
  -- selected only where there are none, and what is selected or blended is the head of them.
  abbrev pub Heads : List (ScoredCandidate E) → Selection E → Type 0
  Heads [] s = (s.selected ≡ none) × (s.blend ≡ [])
  Heads (top ∷ []) s = (s.selected ≡ some top) × (s.blend ≡ [])
  Heads (top ∷ second ∷ others) s =
      (s.selected ≡ some top) × ((s.blend ≡ []) ⊎ (s.blend ≡ top ∷ second ∷ []))

  abbrev pub Justified : GovernorThresholds E → Disagreement → Selection E → Type 0
  Justified t d s = JustifiedAs t d s.selected s.blend s.action

  top-Justified :
      (t : GovernorThresholds E) (d : Disagreement) (top : ScoredCandidate E)
      → is_high d ≡ false
      → Justified t d (select_top E t top)
        × ((select_top E t top).selected ≡ some top)
        × ((select_top E t top).blend ≡ [])
  unfolding select_top
  top-Justified t d top calm = elim (Bool-cases (le t.min_select_score top.score)) [
    | inl above ↦ elim (Bool-cases (is_confirmed top.neutral_validation_state)) [
      | inl c ↦ rw (above, c) ((calm, c, above), refl, refl)
      | inr c ↦ rw (above, c) ((calm, c ∙ sym (ap not above)), refl, refl)
    ]
    | inr below ↦ elim (Bool-cases (lt top.score t.retire_below_score)) [
      | inl worst ↦ rw (below, worst) ((calm, below, worst), refl, refl)
      | inr kept ↦ elim (Bool-cases (is_confirmed top.neutral_validation_state)) [
        | inl c ↦ rw (below, kept, c) ((calm, c ∙ sym (ap not below)), refl, refl)
        | inr c ↦ rw (below, kept, c) ((calm, below, c), refl, refl)
      ]
    ]
  ]

  and-true : (a b : Bool) → (a && b) ≡ true → (a ≡ true) × (b ≡ true)
  and-true true b h = (refl, h)
  and-true false b h = cc

  blends-IsBlend :
      (t : GovernorThresholds E) (a b : ScoredCandidate E) → blends E t a b ≡ true → IsBlend t a b
  unfolding blends
  blends-IsBlend t a b h =
      let (h₁, k) = and-true _ _ h in
      let (h₂, k) = and-true _ _ k in
      let (h₃, k) = and-true _ _ k in
      let (h₄, k) = and-true _ _ k in
      let (h₅, h₆) = and-true _ _ k in
      (h₁, h₂, h₃, h₄, h₅, str_ne a.profile_name b.profile_name (flip _ h₆))
    where
      flip : (c : Bool) → not c ≡ true → c ≡ false
      flip true e = cc
      flip false e = refl

  eligible-Justified :
      (t : GovernorThresholds E) (d : Disagreement) (cs : List (ScoredCandidate E))
      → Justified t d (select_eligible E t d cs) × Heads cs (select_eligible E t d cs)
  unfolding select_eligible
  eligible-Justified t d [] = (tt, (refl, refl))
  eligible-Justified t d (top ∷ []) = elim (Bool-cases (is_high d)) [
    | inl torn ↦ rw torn (torn, (refl, refl))
    | inr calm ↦ let (j, s, b) = top-Justified t d top calm in rw calm (j, (s, b))
  ]
  eligible-Justified t d (top ∷ second ∷ others) = elim (Bool-cases (is_high d)) [
    | inl torn ↦ rw torn (torn, (refl, inl refl))
    | inr calm ↦ elim (Bool-cases (blends E t top second)) [
      | inl both ↦
          rw (calm, both) ((calm, refl, blends-IsBlend t top second both), (refl, inr refl))
      | inr one ↦ let (j, s, b) = top-Justified t d top calm in rw (calm, one) (j, (s, inl b))
    ]
  ]

  -- A scored profile and the candidate that it scores, which may be selected and whose validation
  -- has not failed.
  abbrev pub Backed :
      ProfileGovernorPolicy E → List (GovernorCandidate E) → ScoredCandidate E → Type 0
  Backed p candidates s =
      Any
        (λ (c : GovernorCandidate E).
          (s ≡ score_candidate E p c)
          × (c.eligible_for_selection ≡ true)
          × (has_failed c.neutral_validation_state ≡ false))
        candidates

  abbrev Scores : ProfileGovernorPolicy E → List (GovernorCandidate E) → ScoredCandidate E → Type 0
  Scores p candidates s = Any (λ (c : GovernorCandidate E). s ≡ score_candidate E p c) candidates

  scores :
      (p : ProfileGovernorPolicy E) (candidates : List (GovernorCandidate E))
      → All (Scores p candidates) (map (score_candidate E p) candidates)
  scores p [] = tt
  scores p (c ∷ cs) = (
    inl refl,
    All-weaken (Scores p cs) (Scores p (c ∷ cs)) (map (score_candidate E p) cs) (λ s h. inr h)
        (scores p cs),
  )

  eligible_of :
      (p : ProfileGovernorPolicy E) (candidates : List (GovernorCandidate E))
      (s : ScoredCandidate E)
      → Scores p candidates s
      → s.eligible ≡ true
      → Backed p candidates s
  unfolding score_candidate
  eligible_of p [] s found h = absurd found
  eligible_of p (c ∷ cs) s (inl same) h =
      let (may, sound) = and-true c.eligible_for_selection _ (sym (ap eligible same) ∙ h) in
      inl (same, may, flip _ sound)
    where
      eligible : ScoredCandidate E → Bool
      eligible x = x.eligible

      flip : (b : Bool) → not b ≡ true → b ≡ false
      flip true e = cc
      flip false e = refl
  eligible_of p (c ∷ cs) s (inr later) h = inr (eligible_of p cs s later h)

  -- What a selection names is backed.
  abbrev pub AllBacked : ProfileGovernorPolicy E → List (GovernorCandidate E) → Selection E → Type 0
  AllBacked p candidates s =
      ((c : ScoredCandidate E) → s.selected ≡ some c → Backed p candidates c)
      × All (Backed p candidates) s.blend

  Heads-AllBacked :
      (p : ProfileGovernorPolicy E) (candidates : List (GovernorCandidate E))
      (cs : List (ScoredCandidate E)) (s : Selection E)
      → All (Backed p candidates) cs
      → Heads cs s
      → AllBacked p candidates s
  Heads-AllBacked p candidates [] s all (absent, empty) =
      ((λ c h. absurd (never c (sym absent ∙ h))), subst (All (Backed p candidates)) (sym empty) tt)
    where
      never : (c : ScoredCandidate E) → ◌≡◌ {A = Option (ScoredCandidate E)} none (some c) → ⊥
      never c h = cc
  Heads-AllBacked p candidates (top ∷ []) s all (is_top, empty) = (
    (λ c h. subst (Backed p candidates) (one c (sym is_top ∙ h)) all.0),
    subst (All (Backed p candidates)) (sym empty) tt,
  )
    where
      one : (c : ScoredCandidate E) → some top ≡ some c → top ≡ c
      one c h = cc
  Heads-AllBacked p candidates (top ∷ second ∷ others) s all (is_top, blended) =
      ((λ c h. subst (Backed p candidates) (one c (sym is_top ∙ h)) all.0), both blended)
    where
      one : (c : ScoredCandidate E) → some top ≡ some c → top ≡ c
      one c h = cc

      both : (s.blend ≡ []) ⊎ (s.blend ≡ top ∷ second ∷ []) → All (Backed p candidates) s.blend
      both (inl empty) = subst (All (Backed p candidates)) (sym empty) tt
      both (inr two) = subst (All (Backed p candidates)) (sym two) (all.0, (all.1.0, tt))

  -- On any candidates, the governor's action is the one that its thresholds justify: it selects only
  -- a confirmed profile above the select threshold, blends only two confirmed close profiles of
  -- different names above the blend threshold, and trades nothing under high disagreement; and what
  -- it selects or blends are scored candidates that may be selected and whose validation has not
  -- failed.
  pub evaluate_candidates-Justified :
      (p : ProfileGovernorPolicy E) (candidates : List (GovernorCandidate E))
      → Justified p.thresholds
          (evaluate_candidates E p candidates).disagreement_.classification
          (evaluate_candidates E p candidates).selection_
        × AllBacked p candidates (evaluate_candidates E p candidates).selection_
  unfolding evaluate_candidates select_action
  evaluate_candidates-Justified p candidates =
      let ranked : List (ScoredCandidate E) =
        order_by (better_score E) (map (score_candidate E p) candidates) in
      let (justified, heads) =
        eligible-Justified p.thresholds (disagreement E p ranked).classification
          (select (λ c. c.eligible) ranked) in
      (
        justified,
        Heads-AllBacked p candidates (select (λ c. c.eligible) ranked) _
            (All-weaken _ (Backed p candidates) (select (λ c. c.eligible) ranked)
              (λ s h. eligible_of p candidates s h.0 h.1)
              (All-select (Scores p candidates) (λ c. c.eligible) ranked
                (All-order_by (Scores p candidates) (better_score E) _ (scores p candidates))))
            heads,
      )
