-- ===== src/Research/Decision.antt =====
-- research_loop/proposal_review.py: `_build_decision`.
use Prim.Native.String.{◌++◌ as text_append}
use defi_engine.Base.{
  ℕ, String, Bool, true, false, not, ◌&&◌, ◌||◌, Option, none, some, List, [], ◌∷◌, ◌++◌, map,
  if◌then◌else◌, str_eq, contains, is_nil, truthy, truthy?, select,
}
use defi_engine.Base.Text.{codes, lower, has_part, join}
use defi_engine.Base.Sort.{order_by, text_le}
use defi_engine.Json.{Json, Items, Fields, nil, cons, end, field, arr, obj, null, get_or}
use defi_engine.Json.Convert.{to_bool}
use defi_engine.Env.{Env}
use defi_engine.Base.Checks.{failing}
use defi_engine.Research.Proposals.{ImprovementProposal, SourceContext}

abbrev pub unsafe_runtime_phrases : List String
unsafe_runtime_phrases =
    "live trading" ∷ "live trade" ∷ "route live" ∷ "place live" ∷ "wallet signing" ∷ "private key"
    ∷ "disable risk" ∷ "loosen risk" ∷ "weaken risk" ∷ "runtime authority" ∷ "auto-promote"
    ∷ "autopromotion" ∷ []

abbrev pub supported_governance_scopes : List String
supported_governance_scopes = "research_loop" ∷ "paper_runtime" ∷ "paper_practice" ∷ []

abbrev pub allowed_paper_profile_keys : List String
allowed_paper_profile_keys =
    "preferred_family" ∷ "strategy_report_path" ∷ "minimum_condition_confidence" ∷ "stop_loss_bps"
    ∷ "take_profit_bps" ∷ "time_stop_bars" ∷ "cooldown_bars" ∷ []

abbrev pub source_owner_types : List String
source_owner_types = "experiment_run" ∷ "paper_session" ∷ "backtest_session" ∷ []

abbrev pub adjustment_kind : String
adjustment_kind = "paper_profile_adjustment_follow_on"

pub data Decision : Type 0 where
  reviewed_accept reviewed_hold reviewed_reject : Decision

abbrev pub decision_text : Decision → String
decision_text reviewed_accept = "reviewed_accept"
decision_text reviewed_hold = "reviewed_hold"
decision_text reviewed_reject = "reviewed_reject"

abbrev pub any_part : List ℕ → List String → Bool
any_part haystack [] = false
any_part haystack (phrase ∷ phrases) = has_part (codes phrase) haystack || any_part haystack phrases

-- `code for code in more if code not in codes`, appended one by one.
unfoldable pub extend_new : List String → List String → List String
extend_new codes [] = codes
extend_new codes (code ∷ more) =
    extend_new (if contains code codes then codes else codes ++ code ∷ []) more

module _ (E : Env) where
  open E use {Float, str_of}

  -- `_contains_unsafe_runtime_language`
  unfoldable pub contains_unsafe_runtime_language : ImprovementProposal E → Bool
  unfolding join
  contains_unsafe_runtime_language p =
      any_part (lower (codes (join " " (p.title ∷ p.summary ∷ p.hypothesis ∷ p.next_test ∷ []))))
        unsafe_runtime_phrases

  -- The keys of a patch, which are texts.
  abbrev key_texts : Items Float → List String
  key_texts nil = []
  key_texts (cons (Json.text s) xs) = s ∷ key_texts xs
  key_texts (cons v xs) = str_of v ∷ key_texts xs

  -- `artifact_payload.get("patch_keys") or []`, if it is a list.
  unfoldable pub patch_keys : Fields Float → Option (List String)
  unfolding to_bool
  patch_keys payload = elim (get_or "patch_keys" null payload) [
    | arr xs ↦ some (key_texts xs)
    | v ↦ if to_bool E v then none else some []
  ]

  -- `not isinstance(profile_patch, dict) or not profile_patch`
  unfoldable pub patch_missing : Fields Float → Bool
  patch_missing payload = elim (get_or "profile_patch" null payload) [
    | obj end ↦ true
    | obj (field k v rest) ↦ false
    | _ ↦ true
  ]

  unfoldable pub disallowed_keys : List String → List String
  unfolding order_by
  disallowed_keys keys =
      order_by text_le (select (λ key. not (contains key allowed_paper_profile_keys)) keys)

  -- The reject and hold codes of the keys of a patch.
  abbrev pub keys_missing : Option (List String) → Bool
  keys_missing none = true
  keys_missing (some keys) = is_nil keys

  abbrev pub disallowed : Option (List String) → List String
  unfolding disallowed_keys
  disallowed none = []
  disallowed (some keys) = disallowed_keys keys

  abbrev pub disallowed_codes : List String → List String
  disallowed_codes [] = []
  disallowed_codes (key ∷ keys) =
      "paper_profile_patch_disallowed_keys"
      ∷ map (λ k. text_append "disallowed_patch_key:" k) (key ∷ keys)

  abbrev pub is_adjustment : ImprovementProposal E → Bool
  is_adjustment p = str_eq p.proposal_kind adjustment_kind

  -- The rejects of a proposal by itself.
  abbrev pub own_rejects : ImprovementProposal E → List (Bool × String)
  own_rejects p =
      (not (str_eq p.runtime_effect "advisory_only"), "runtime_effect_not_advisory_only")
      ∷ (
        not (contains p.governance_scope supported_governance_scopes),
        "unsupported_governance_scope",
      )
      ∷ (contains_unsafe_runtime_language p, "unsafe_runtime_widening_language")
      ∷ (not (contains p.source_owner_type source_owner_types), "unsupported_source_owner_type")
      ∷ []

  unfoldable pub reject_codes : ImprovementProposal E → SourceContext E → List String
  unfolding failing contains_unsafe_runtime_language patch_keys disallowed_keys
  reject_codes p c =
      failing (own_rejects p)
      ++ (if is_adjustment p
          then disallowed_codes (disallowed (patch_keys c.source_artifact_payload))
          else [])

  -- The guard of the two context codes.
  abbrev pub needs_context : ImprovementProposal E → Bool
  needs_context p =
      not (str_eq p.proposal_kind adjustment_kind)
      || not (str_eq p.source_owner_type "backtest_session")

  abbrev pub hold_checks :
      ImprovementProposal E → Json Float → SourceContext E → List (Bool × String)
  hold_checks p metrics c =
      (is_adjustment p && patch_missing c.source_artifact_payload, "missing_paper_profile_patch")
      ∷ (
        is_adjustment p && keys_missing (patch_keys c.source_artifact_payload),
        "missing_paper_profile_patch_keys",
      )
      ∷ (is_nil c.source_artifact_types, "missing_source_artifacts")
      ∷ (not (to_bool E metrics), "missing_proposal_metrics")
      ∷ (not (to_bool E (obj c.source_metrics)), "missing_source_metrics")
      ∷ (
        str_eq p.source_owner_type "experiment_run"
            && (not (str_eq c.source_status "success") && truthy c.source_status),
        "source_run_not_success",
      )
      ∷ (needs_context p && not (truthy? c.semantic_regime), "missing_regime_context")
      ∷ (needs_context p && not (truthy? c.condition_run_id), "missing_condition_context")
      ∷ []

  unfoldable pub hold_codes : ImprovementProposal E → Json Float → SourceContext E → List String
  unfolding failing to_bool patch_keys patch_missing
  hold_codes p metrics c = failing (hold_checks p metrics c)

  abbrev pub decision_of : List String → List String → Decision
  decision_of [] [] = reviewed_accept
  decision_of [] (code ∷ codes) = reviewed_hold
  decision_of (code ∷ codes) holds = reviewed_reject

  abbrev summary_of : Decision → String
  summary_of reviewed_accept =
      "Evidence is complete, advisory-only, and bounded to the current regime/condition context."
  summary_of reviewed_hold =
      "Held because the proposal packet is still missing enough evidence to support a bounded next experiment under the current regime/condition view."
  summary_of reviewed_reject =
      "Rejected because the proposal implies runtime or governance widening outside the bounded advisory review surface."

  abbrev next_test_of : Decision → ImprovementProposal E → String
  next_test_of reviewed_accept p = p.next_test
  next_test_of reviewed_hold p =
      text_append "Refresh the missing evidence packet, then rerun `d5 review-proposal "
        (text_append p.proposal_id "` without widening runtime authority.")
  next_test_of reviewed_reject p =
      "Write a narrower advisory-only proposal that avoids live trading, wallet, or risk-widening language and stays inside the current governance scope."

  abbrev accept_codes : Decision → List String
  accept_codes reviewed_accept = "evidence_verified" ∷ "advisory_scope_preserved" ∷ []
  accept_codes _ = []

  -- What `_build_decision` returns beside the parts of its context.
  pub record DecisionPayload : Type 0 where
    pub decision : Decision
    pub summary : String
    pub reason_codes : List String
    pub recommended_next_test : String

  unfoldable pub build_decision :
      ImprovementProposal E → Json Float → List String → SourceContext E → DecisionPayload
  unfolding reject_codes hold_codes extend_new
  build_decision p metrics proposal_codes c =
      let rejects = reject_codes p c in
      let holds = hold_codes p metrics c in
      let d = decision_of rejects holds in
      record {
        decision = d;
        summary = summary_of d;
        reason_codes =
            extend_new (extend_new (extend_new proposal_codes rejects) holds) (accept_codes d);
        recommended_next_test = next_test_of d p;
      }
