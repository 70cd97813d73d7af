-- ===== src/Research/Accepts.antt =====
-- research_loop/proposal_review.py: exactly when a proposal is accepted.
use defi_engine.Base.{
  ◌≡◌, refl, sym, ◌∙◌, ◌↔◌, String, Bool, true, false, not, ◌&&◌, Option, none, some, List, [], ◌∷◌,
  ◌++◌, if◌then◌else◌, str_eq, str_eq→eq, eq→str_eq, contains, is_nil, truthy, truthy?, select,
}
use defi_engine.Base.Checks.{failing, failing_none}
use defi_engine.Base.Members.{All}
use defi_engine.Base.Sort.{order_by, insert_row, text_le}
use defi_engine.Json.{Json, obj}
use defi_engine.Json.Convert.{to_bool}
use defi_engine.Env.{Env}
use defi_engine.Research.Proposals.{ImprovementProposal, SourceContext}
use defi_engine.Research.Decision.{
  reviewed_accept, supported_governance_scopes, allowed_paper_profile_keys, source_owner_types,
  contains_unsafe_runtime_language, patch_keys, patch_missing, disallowed_keys, disallowed,
  keys_missing, disallowed_codes, is_adjustment, own_rejects, reject_codes, needs_context,
  hold_checks, hold_codes, decision_of, build_decision,
}

nil-append :
    (xs ys : List String) → (is_nil (xs ++ ys) ≡ true) ↔ ((is_nil xs ≡ true) × (is_nil ys ≡ true))
nil-append [] ys = (λ h. (refl, h), λ h. h.1)
nil-append (x ∷ xs) ys = (λ h. cc, λ h. cc)

nil-order_by :
    (first : String → String → Bool) (xs : List String) → is_nil (order_by first xs) ≡ is_nil xs
unfolding order_by
nil-order_by first [] = refl
nil-order_by first (x ∷ xs) = go (order_by first xs)
  where
    go : (ys : List String) → is_nil (insert_row first x ys) ≡ false
    go [] = refl
    go (y ∷ ys) = either (first x y)
      where
        either : (b : Bool) → is_nil (if b then x ∷ y ∷ ys else y ∷ insert_row first x ys) ≡ false
        either true = refl
        either false = refl

not_iff : (b : Bool) → (not b ≡ false) ↔ (b ≡ true)
not_iff true = (λ h. refl, λ h. refl)
not_iff false = (λ h. cc, λ h. cc)

nil-select :
    (q : String → Bool) (xs : List String)
    → (is_nil (select (λ x. not (q x)) xs) ≡ true) ↔ All (λ x. q x ≡ true) xs
unfolding select
nil-select q [] = (λ h. tt, λ h. refl)
nil-select q (x ∷ xs) = go (nil-select q xs) (q x) refl
  where
    go :
        ((is_nil (select (λ y. not (q y)) xs) ≡ true) ↔ All (λ y. q y ≡ true) xs)
        → (b : Bool) → q x ≡ b
        → (is_nil (if not (q x) then x ∷ select (λ y. not (q y)) xs else select (λ y. not (q y)) xs)
            ≡ true)
          ↔ All (λ y. q y ≡ true) (x ∷ xs)
    go (fwd, bwd) true e = rw e (λ h. (refl, fwd h), λ h. bwd h.1)
    go ih false e = rw e (λ h. cc, λ h. cc)

-- A guarded test that does not fire.
guarded : (b c : Bool) → ((b && not c) ≡ false) ↔ (b ≡ true → c ≡ true)
guarded true true = (λ h k. refl, λ h. refl)
guarded true false = (λ h. cc, λ h. let e : false ≡ true = h refl in cc)
guarded false c = (λ h k. cc, λ h. refl)

guarded_by : (b c : Bool) → ((b && c) ≡ false) ↔ (b ≡ true → c ≡ false)
guarded_by true c = (λ h k. h, λ h. h refl)
guarded_by false c = (λ h k. cc, λ h. refl)

only_if :
    (b : Bool) (xs : List String)
    → (is_nil (if b then xs else []) ≡ true) ↔ (b ≡ true → is_nil xs ≡ true)
only_if true xs = (λ h k. h, λ h. h refl)
only_if false xs = (λ h k. cc, λ h. refl)

module _ (E : Env) where
  open E use {Float}

  decision_of-accept :
      (rejects holds : List String)
      → (decision_of E rejects holds ≡ reviewed_accept)
        ↔ ((is_nil rejects ≡ true) × (is_nil holds ≡ true))
  decision_of-accept [] [] = (λ h. (refl, refl), λ h. refl)
  decision_of-accept [] (x ∷ xs) = (λ h. cc, λ h. cc)
  decision_of-accept (x ∷ xs) holds = (λ h. cc, λ h. cc)

  -- The keys of the patch are a list of allowed ones.
  abbrev pub AllowedKeys : Option (List String) → Type 0
  AllowedKeys none = Unit
  AllowedKeys (some keys) = All (λ key. contains key allowed_paper_profile_keys ≡ true) keys

  nil-codes : (keys : List String) → is_nil (disallowed_codes E keys) ≡ is_nil keys
  nil-codes [] = refl
  nil-codes (key ∷ keys) = refl

  nil-disallowed :
      (o : Option (List String))
      → (is_nil (disallowed_codes E (disallowed E o)) ≡ true) ↔ AllowedKeys o
  unfolding disallowed_keys
  nil-disallowed none = (λ h. tt, λ h. refl)
  nil-disallowed (some keys) =
      let bad : List String = select (λ key. not (contains key allowed_paper_profile_keys)) keys in
      let same : is_nil (disallowed_codes E (order_by text_le bad)) ≡ is_nil bad =
        nil-codes (order_by text_le bad) ∙ nil-order_by text_le bad in
      let (fwd, bwd) = nil-select (λ key. contains key allowed_paper_profile_keys) keys in
      (λ h. fwd (sym same ∙ h), λ h. same ∙ bwd h)

  -- Advisory only, in a supported scope, in safe language, from a known source; and a patch of a
  -- paper profile has only allowed keys.
  abbrev pub IsBounded : ImprovementProposal E → SourceContext E → Type 0
  IsBounded p c =
      (p.runtime_effect ≡ "advisory_only")
      × (contains p.governance_scope supported_governance_scopes ≡ true)
      × (contains_unsafe_runtime_language E p ≡ false)
      × (contains p.source_owner_type source_owner_types ≡ true)
      × (is_adjustment E p ≡ true → AllowedKeys (patch_keys E c.source_artifact_payload))

  -- The evidence that a review wants: a patch where one is proposed, artifacts, metrics of the
  -- proposal and of its source, a successful source run, and the regime and condition context.
  abbrev pub HasEvidence : ImprovementProposal E → Json Float → SourceContext E → Type 0
  HasEvidence p metrics c =
      (is_adjustment E p ≡ true → patch_missing E c.source_artifact_payload ≡ false)
      × (is_adjustment E p ≡ true → keys_missing E (patch_keys E c.source_artifact_payload) ≡ false)
      × (is_nil c.source_artifact_types ≡ false)
      × (to_bool E metrics ≡ true)
      × (to_bool E (obj c.source_metrics) ≡ true)
      × (str_eq p.source_owner_type "experiment_run" ≡ true
          → (not (str_eq c.source_status "success") && truthy c.source_status) ≡ false)
      × (needs_context E p ≡ true → truthy? c.semantic_regime ≡ true)
      × (needs_context E p ≡ true → truthy? c.condition_run_id ≡ true)

  reject_codes-nil :
      (p : ImprovementProposal E) (c : SourceContext E)
      → (is_nil (reject_codes E p c) ≡ true) ↔ IsBounded p c
  unfolding reject_codes
  reject_codes-nil p c =
      let rest : List String =
        if is_adjustment E p
        then disallowed_codes E (disallowed E (patch_keys E c.source_artifact_payload))
        else [] in
      let (split, join_) = nil-append (failing (own_rejects E p)) rest in
      let (clear, unclear) = failing_none (own_rejects E p) in
      let (keys, no_keys) = nil-disallowed (patch_keys E c.source_artifact_payload) in
      let (guard, unguard) = only_if (is_adjustment E p) _ in
      (
        λ h.
            let (own, others) = split h in
            let (c₁, (c₂, (c₃, (c₄, _)))) = clear own in
            (
              str_eq→eq p.runtime_effect "advisory_only" ((not_iff _).0 c₁),
              (not_iff _).0 c₂,
              c₃,
              (not_iff _).0 c₄,
              λ adjusts. keys (guard others adjusts),
            ),
        λ (h₁, h₂, h₃, h₄, h₅). join_ (
          unclear (
            (not_iff _).1 (eq→str_eq p.runtime_effect "advisory_only" h₁),
            ((not_iff _).1 h₂, (h₃, ((not_iff _).1 h₄, tt))),
          ),
          unguard (λ adjusts. no_keys (h₅ adjusts)),
        ),
      )

  hold_codes-nil :
      (p : ImprovementProposal E) (metrics : Json Float) (c : SourceContext E)
      → (is_nil (hold_codes E p metrics c) ≡ true) ↔ HasEvidence p metrics c
  unfolding hold_codes
  hold_codes-nil p metrics c =
      let (clear, unclear) = failing_none (hold_checks E p metrics c) in
      (
        λ h.
            let (c₁, (c₂, (c₃, (c₄, (c₅, (c₆, (c₇, (c₈, _)))))))) = clear h in
            (
              (guarded_by _ _).0 c₁,
              (guarded_by _ _).0 c₂,
              c₃,
              (not_iff _).0 c₄,
              (not_iff _).0 c₅,
              (guarded_by _ _).0 c₆,
              (guarded _ _).0 c₇,
              (guarded _ _).0 c₈,
            ),
        λ (h₁, h₂, h₃, h₄, h₅, h₆, h₇, h₈). unclear (
          (guarded_by _ _).1 h₁,
          (
            (guarded_by _ _).1 h₂,
            (
              h₃,
              (
                (not_iff _).1 h₄,
                (
                  (not_iff _).1 h₅,
                  ((guarded_by _ _).1 h₆, ((guarded _ _).1 h₇, ((guarded _ _).1 h₈, tt))),
                ),
              ),
            ),
          ),
        ),
      )

  -- A proposal is accepted exactly if it is bounded and its evidence is complete.
  pub build_decision-accepts :
      (p : ImprovementProposal E) (metrics : Json Float) (proposal_codes : List String)
      (c : SourceContext E)
      → ((build_decision E p metrics proposal_codes c).decision ≡ reviewed_accept)
        ↔ (IsBounded p c × HasEvidence p metrics c)
  unfolding build_decision
  build_decision-accepts p metrics proposal_codes c =
      let (fwd, bwd) = decision_of-accept (reject_codes E p c) (hold_codes E p metrics c) in
      let (bounded, unbounded) = reject_codes-nil p c in
      let (evident, inevident) = hold_codes-nil p metrics c in
      (
        λ h. let (no_rejects, no_holds) = fwd h in (bounded no_rejects, evident no_holds),
        λ (b, e). bwd (unbounded b, inevident e),
      )
