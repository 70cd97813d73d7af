-- ===== src/Policy/Eligibility.antt =====
-- When GlobalRegimePolicyEvaluator lets a new position through: the conditions are exact.
use defi_engine.Base.{
  ◌≡◌, refl, ◌↔◌, String, true, false, arith, str_eq, str_eq→eq, eq→str_eq, str_ne, contains, ◌≢◌,
}
use defi_engine.Env.{Env}
use defi_engine.Truth.{ConditionGlobalRegimeSnapshot}
use defi_engine.Policy.Config.{GlobalRegimePolicyRule, no_trade_regimes}
use defi_engine.Policy.Evaluator.{decide, flag}

long_text : (s : String) → s ≡ "long_friendly" → contains s no_trade_regimes ≡ false
unfolding str_eq
long_text s e = rw e

short_text :
    (s : String)
    → s ≡ "short_friendly"
    → (contains s no_trade_regimes ≡ false) × (str_eq s "long_friendly" ≡ false)
unfolding str_eq
short_text s e = (rw e, rw e)

states_differ :
    (◌≢◌ {A = String} "no_trade" "eligible_long")
    × (◌≢◌ {A = String} "no_trade" "eligible_short")
    × (◌≢◌ {A = String} "eligible_short" "eligible_long")
    × (◌≢◌ {A = String} "eligible_long" "eligible_short")
unfolding str_eq
states_differ = (str_ne _ _ refl, str_ne _ _ refl, str_ne _ _ refl, str_ne _ _ refl)

module _ (E : Env) where
  -- A snapshot is eligible for a long exactly if it is not blocked, its regime is long_friendly
  -- and the rule of that regime allows new longs.
  pub decide-eligible_long :
      (snapshot : ConditionGlobalRegimeSnapshot E) (rule : GlobalRegimePolicyRule)
      → ((decide E snapshot rule).0 ≡ "eligible_long") ↔ (
          (flag snapshot.blocked_flag ≡ false)
          × (snapshot.semantic_regime ≡ "long_friendly")
          × (rule.allow_new_long_hypotheses ≡ true))
  unfolding decide
  decide-eligible_long snapshot rule =
      let s = snapshot.semantic_regime in
      (
        ground (arith, states_differ, str_eq→eq s "long_friendly"),
        λ h. ground (arith, long_text s h.1, eq→str_eq s "long_friendly" h.1),
      )

  -- A snapshot is eligible for a short exactly if it is not blocked, its regime is short_friendly
  -- and the rule of that regime allows new shorts.
  pub decide-eligible_short :
      (snapshot : ConditionGlobalRegimeSnapshot E) (rule : GlobalRegimePolicyRule)
      → ((decide E snapshot rule).0 ≡ "eligible_short") ↔ (
          (flag snapshot.blocked_flag ≡ false)
          × (snapshot.semantic_regime ≡ "short_friendly")
          × (rule.allow_new_short_hypotheses ≡ true))
  unfolding decide
  decide-eligible_short snapshot rule =
      let s = snapshot.semantic_regime in
      (
        ground (arith, states_differ, str_eq→eq s "short_friendly"),
        λ h. ground (arith, short_text s h.1, eq→str_eq s "short_friendly" h.1),
      )
