-- ===== src/Policy/Required.antt =====
-- policy/global_regime_v1.py: a policy that loads has a rule for every required regime, so a
-- snapshot of such a regime is always decided.
use mathlib.Core.Path.{subst}
use defi_engine.Base.{
  ◌≡◌, refl, sym, ap, ◌∙◌, ◌⊎◌, inl, inr, String, true, Option, none, some, Bool-cases, if-true,
  if-false, List, [], ◌∷◌, is_nil,
}
use defi_engine.Base.Members.{Any}
use defi_engine.Env.{Env}
use defi_engine.Truth.{return, ◌>>=◌, or_raise, ConditionScoringRun, ConditionGlobalRegimeSnapshot}
use defi_engine.Truth.Returns.{bind-returns, or_raise-returns, Result-cases}
use defi_engine.Policy.Config.{
  GlobalRegimePolicyRule, GlobalRegimePolicyConfig, LoadedPolicyConfig, PolicySource, lookup,
  missing_from, required_regimes, validate_required_regimes, valid_config,
  load_global_regime_policy_config,
}
use defi_engine.Policy.Traces.{evaluate_snapshot-returns}
use defi_engine.Policy.Evaluator.{EvaluatedPolicyDecision, evaluate_snapshot}

missing_from-nil :
    (regimes : List (String × GlobalRegimePolicyRule)) (names : List String) (name : String)
    → is_nil (missing_from regimes names) ≡ true
    → Any (λ n. name ≡ n) names
    → (rule : GlobalRegimePolicyRule) × (lookup name regimes ≡ some rule)
unfolding missing_from
missing_from-nil regimes [] name h any = absurd any
missing_from-nil regimes (n ∷ names) name h any =
    go (λ valid later. missing_from-nil regimes names name valid later) (lookup n regimes) refl h
      any
  where
    go :
        (is_nil (missing_from regimes names) ≡ true
          → Any (λ m. name ≡ m) names
          → (rule : GlobalRegimePolicyRule) × (lookup name regimes ≡ some rule))
        → (o : Option GlobalRegimePolicyRule) → lookup n regimes ≡ o
        → is_nil (elim o as (λ _. List String) [
          | none ↦ n ∷ missing_from regimes names
          | some _ ↦ missing_from regimes names
        ])
          ≡ true
        → (name ≡ n) ⊎ Any (λ m. name ≡ m) names
        → (rule : GlobalRegimePolicyRule) × (lookup name regimes ≡ some rule)
    go rest none found h any = cc
    go rest (some rule) found h (inl same) = (rule, ap (λ k. lookup k regimes) same ∙ found)
    go rest (some rule) found h (inr any) = rest h any

some_same :
    (a b : GlobalRegimePolicyConfig)
    → ◌≡◌ {A = Option GlobalRegimePolicyConfig} (some a) (some b)
    → a ≡ b
some_same a b h = cc

valid_config-validates :
    (o : Option GlobalRegimePolicyConfig) (config : GlobalRegimePolicyConfig)
    → valid_config o ≡ some config
    → is_nil (missing_from config.regimes required_regimes) ≡ true
unfolding validate_required_regimes
valid_config-validates none config h = cc
valid_config-validates (some c) config h =
    let complete = is_nil (missing_from c.regimes required_regimes) in
    elim (Bool-cases complete) [
      | inl valid ↦
          let same = some_same c config (if-true complete (some c) none (some config) valid h) in
          ap (λ (x : GlobalRegimePolicyConfig). is_nil (missing_from x.regimes required_regimes))
            (sym same)
          ∙ valid
      | inr invalid ↦ let stuck = if-false complete (some c) none (some config) invalid h in cc
    ]

load-validates :
    (source : PolicySource) (loaded : LoadedPolicyConfig)
    → load_global_regime_policy_config source ≡ return loaded
    → is_nil (missing_from loaded.config.regimes required_regimes) ≡ true
unfolding load_global_regime_policy_config
load-validates source loaded h =
    let (raw_text, h₁, k₁) = bind-returns _ _ _ h in
    let (config, h₂, k₂) = bind-returns _ _ _ k₁ in
    let same : config ≡ loaded.config = cc in
    subst
      (λ (c : GlobalRegimePolicyConfig). is_nil (missing_from c.regimes required_regimes) ≡ true)
      same (valid_config-validates (source.decode raw_text) config (or_raise-returns _ _ _ h₂))

module _ (E : Env) where
  -- With a policy that loaded, a snapshot whose regime is a required one is always decided: the
  -- evaluation of the snapshot returns and never raises for a missing rule.
  pub evaluate_snapshot-decides :
      (source : PolicySource) (loaded : LoadedPolicyConfig)
      (snapshot : ConditionGlobalRegimeSnapshot E) (run : ConditionScoringRun E)
      → load_global_regime_policy_config source ≡ return loaded
      → Any (λ name. snapshot.semantic_regime ≡ name) required_regimes
      → (decision : EvaluatedPolicyDecision E) × (evaluate_snapshot E snapshot run loaded
          ≡ return decision)
        × (lookup snapshot.semantic_regime loaded.config.regimes ≡ some decision.rule)
  unfolding evaluate_snapshot ◌>>=◌ or_raise
  evaluate_snapshot-decides source loaded snapshot run loads required =
      let (rule, found) =
        missing_from-nil loaded.config.regimes required_regimes snapshot.semantic_regime
          (load-validates source loaded loads) required in
      elim (Result-cases (evaluate_snapshot E snapshot run loaded)) [
        | inl (decision, returns) ↦ (
          decision,
          returns,
          (evaluate_snapshot-returns E snapshot run loaded decision returns).0,
        )
        | inr (e, raises) ↦ cc
      ]
