-- ===== src/Risk/Decisions.antt =====
-- risk/gate.py: exactly when the gate allows a trade, and what its answer carries.
use mathlib.Core.Path.{subst}
use Prim.Native.String.{◌++◌ as text_append}
use defi_engine.Base.{
  ◌≡◌, refl, ap, ◌↔◌, ◌≢◌, String, true, false, Option, none, some, List, [], ◌∷◌, map, arith,
  is_nil, str_eq, str_ne, str_eq→eq, eq→str_eq,
}
use defi_engine.Base.Time.{Instant}
use defi_engine.Json.{texts, items}
use defi_engine.Env.{Env, IsCodec}
use defi_engine.Truth.{Database, FeatureMaterializationRun, PolicyGlobalRegimeTrace}
use defi_engine.Policy.{flag}
use defi_engine.Risk.Freshness.{
  FreshnessAuthorization, Parsed, parsed, failed, parse_freshness_authorization,
}
use defi_engine.Risk.Verdict.{
  EvaluatedRiskVerdict, evaluate_authorized, evaluate_parsed, evaluate_policy_trace,
}
use defi_engine.Risk.Lanes.{parse-coherent}
use defi_engine.Risk.Gate.{
  decode_json_array, str_items, judge, load_feature_run, verdict_row, RiskAnswer, serialize_verdict,
}

risk_states_differ : (◌≢◌ {A = String} "halted" "allowed") × (◌≢◌ {A = String} "no_trade" "allowed")
unfolding str_eq
risk_states_differ = (str_ne _ _ refl, str_ne _ _ refl)

is_nil-map : {A B : Type 0} (f : A → B) (l : List A) → is_nil (map f l) ≡ is_nil l
is_nil-map f [] = refl
is_nil-map f (x ∷ l) = refl

module _ (E : Env) where
  -- What has to hold of a trace and its feature run for the gate to allow a trade.
  abbrev pub Clears : PolicyGlobalRegimeTrace E → Option (FeatureMaterializationRun E) → Type 0
  Clears trace run? =
      (run : FeatureMaterializationRun E) × (a : FreshnessAuthorization E) × (run? ≡ some run)
      × (parse_freshness_authorization E run ≡ parsed a)
      × (a.authorized ≡ true)
      × (flag trace.condition_blocked_flag ≡ false)
      × (trace.policy_state ≢ "no_trade")

  evaluate_authorized-allowed :
      (trace : PolicyGlobalRegimeTrace E) (a : FreshnessAuthorization E)
      → ((evaluate_authorized E trace a).risk_state ≡ "allowed") ↔ (
          (a.authorized ≡ true)
          × (flag trace.condition_blocked_flag ≡ false)
          × (trace.policy_state ≢ "no_trade"))
  unfolding evaluate_authorized
  evaluate_authorized-allowed trace a =
      let s = trace.policy_state in
      (
        ground (arith, risk_states_differ, eq→str_eq s "no_trade"),
        ground (arith, str_eq→eq s "no_trade"),
      )

  evaluate_parsed-allowed :
      (trace : PolicyGlobalRegimeTrace E) (run : FeatureMaterializationRun E) (p : Parsed E)
      → parse_freshness_authorization E run ≡ p
      → ((evaluate_parsed E trace p).risk_state ≡ "allowed") ↔ Clears trace (some run)
  evaluate_parsed-allowed trace run (failed code) e =
      (λ h. absurd (risk_states_differ.0 h), λ (run', a, same, read, r₁, r₂, r₃). cc)
  evaluate_parsed-allowed trace run (parsed a) e = (
    λ h.
        let (fresh, open_flag, state) = (evaluate_authorized-allowed trace a).0 h in
        (run, a, refl, e, fresh, open_flag, state),
    λ (run', a', same, read, fresh, open_flag, state).
        let same_a : a' ≡ a = cc in
        (evaluate_authorized-allowed trace a).1 (
          subst (λ (x : FreshnessAuthorization E). x.authorized ≡ true) same_a fresh,
          open_flag,
          state,
        ),
  )

  -- The gate allows a trade exactly if the feature run is there, its freshness receipt could be read
  -- and authorizes, the condition is not blocked and the policy does not say no_trade.
  pub evaluate_policy_trace-allowed :
      (trace : PolicyGlobalRegimeTrace E) (run? : Option (FeatureMaterializationRun E))
      → ((evaluate_policy_trace E trace run?).risk_state ≡ "allowed") ↔ Clears trace run?
  unfolding evaluate_policy_trace
  evaluate_policy_trace-allowed trace none =
      (λ h. absurd (risk_states_differ.0 h), λ (run', a, same, read, r₁, r₂, r₃). cc)
  evaluate_policy_trace-allowed trace (some run) =
      evaluate_parsed-allowed trace run (parse_freshness_authorization E run) refl

  pub decode-dumps :
      IsCodec E
      → (malformed : String) (l : List String)
      → decode_json_array E malformed (E.dumps (texts l)) ≡ l
  unfolding decode_json_array
  decode-dumps codec malformed l = rw (codec.loads-dumps l) (str_items-items l)
    where
      str_items-items : (l : List String) → str_items E (items l) ≡ l
      str_items-items [] = refl
      str_items-items (s ∷ ss) = ap (λ t. s ∷ t) (str_items-items ss)

  -- A halt for blocked lanes names at least one of them, so every verdict has a reason.
  evaluate_authorized-reasons :
      (trace : PolicyGlobalRegimeTrace E) (a : FreshnessAuthorization E)
      → a.authorized ≡ is_nil a.blocking_lanes
      → is_nil (evaluate_authorized E trace a).reason_codes ≡ false
  unfolding evaluate_authorized
  evaluate_authorized-reasons trace a e =
      ground
        (arith, is_nil-map (text_append "required_lane_downstream_ineligible:") a.blocking_lanes)

  reasons_of :
      (trace : PolicyGlobalRegimeTrace E) (run : FeatureMaterializationRun E) (p : Parsed E)
      → parse_freshness_authorization E run ≡ p
      → is_nil (evaluate_parsed E trace p).reason_codes ≡ false
  reasons_of trace run (failed code) e = refl
  reasons_of trace run (parsed a) e = evaluate_authorized-reasons trace a (parse-coherent E run a e)

  -- Every verdict, allowed or not, has at least one reason.
  pub evaluate_policy_trace-reasons :
      (trace : PolicyGlobalRegimeTrace E) (run? : Option (FeatureMaterializationRun E))
      → is_nil (evaluate_policy_trace E trace run?).reason_codes ≡ false
  unfolding evaluate_policy_trace
  evaluate_policy_trace-reasons trace none = refl
  evaluate_policy_trace-reasons trace (some run) = reasons_of trace run _ refl

  -- The answer read back from the row of a verdict that has a reason.
  abbrev pub Carries : EvaluatedRiskVerdict E → RiskAnswer E → Type 0
  Carries evaluated answer =
      (answer.reason_codes ≡ evaluated.reason_codes)
      × ((answer.allowed ≡ true) ↔ (evaluated.risk_state ≡ "allowed"))
      × ((answer.vetoes ≡ []) ↔ (answer.allowed ≡ true))

  serialize-row :
      IsCodec E
      → (db : Database E) (now : Instant) (trace : PolicyGlobalRegimeTrace E)
        (evaluated : EvaluatedRiskVerdict E)
      → is_nil evaluated.reason_codes ≡ false
      → Carries evaluated (serialize_verdict E (verdict_row E db now trace evaluated))
  unfolding serialize_verdict verdict_row
  serialize-row codec db now trace evaluated some_reason =
      let decoded = decode-dumps codec "risk_verdict_payload_malformed" evaluated.reason_codes in
      (
        decoded,
        (str_eq→eq evaluated.risk_state "allowed", eq→str_eq evaluated.risk_state "allowed"),
        (ground (arith, decoded), ground arith),
      )

  -- The answer of the gate carries the evaluated reasons through the JSON column, it allows exactly
  -- what was evaluated as allowed, and an allowed answer is the only one without vetoes.
  pub judge_answer :
      IsCodec E
      → (db : Database E) (now : Instant) (trace : PolicyGlobalRegimeTrace E)
      → Carries
          (evaluate_policy_trace E trace (load_feature_run E db trace.source_feature_run_id))
          (judge E db now trace).0
  unfolding judge
  judge_answer codec db now trace =
      serialize-row codec db now trace
        (evaluate_policy_trace E trace (load_feature_run E db trace.source_feature_run_id))
        (evaluate_policy_trace-reasons trace (load_feature_run E db trace.source_feature_run_id))
