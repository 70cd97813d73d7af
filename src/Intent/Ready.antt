-- ===== src/Intent/Ready.antt =====
-- execution_intent/owner.py: exactly when an intent is ready.
use mathlib.Core.Path.{subst}
use defi_engine.Base.{
  ◌≡◌, refl, ◌↔◌, ◌≢◌, ◌+◌, ◌≤◌, String, Bool, true, false, Option, none, some, List, [], ◌∷◌, ◌++◌,
  arith, if◌then◌else◌, is_nil, str_eq, str_ne, str_eq→eq, eq→str_eq, contains,
}
use defi_engine.Base.Int.{ℤ, pos, eq_ℤ}
use defi_engine.Base.Text.{parse_int}
use defi_engine.Base.Time.{Instant, five_minutes}
use defi_engine.Env.{Env}
use defi_engine.Settings.{Settings, usdc_mint}
use defi_engine.Truth.{RiskGlobalRegimeGate, QuoteSnapshot}
use defi_engine.Policy.{flag}
use defi_engine.Intent.Evaluation.{
  when, age_codes, direction_codes, size_codes, none_or_zero, mem_ℤ, risk_codes, mint_codes,
  quote_codes, evaluate_inputs, normalize_direction, quote_timestamp,
}

pub is_nil-append {ℓ} :
    {A : Type ℓ} (xs ys : List A)
    → (is_nil (xs ++ ys) ≡ true) ↔ ((is_nil xs ≡ true) × (is_nil ys ≡ true))
is_nil-append [] ys = (λ h. (refl, h), λ h. h.1)
is_nil-append (x ∷ xs) ys = (λ h. cc, λ h. cc)

pub is_nil-append_five :
    (a b c d e : List String)
    → (is_nil (a ++ (b ++ (c ++ (d ++ e)))) ≡ true) ↔ (
        (is_nil a ≡ true)
        × (is_nil b ≡ true)
        × (is_nil c ≡ true)
        × (is_nil d ≡ true)
        × (is_nil e ≡ true))
is_nil-append_five [] [] [] [] e = (λ h. (refl, refl, refl, refl, h), λ h. h.4)
is_nil-append_five (x ∷ a) b c d e = (λ h. cc, λ h. cc)
is_nil-append_five [] (x ∷ b) c d e = (λ h. cc, λ h. cc)
is_nil-append_five [] [] (x ∷ c) d e = (λ h. cc, λ h. cc)
is_nil-append_five [] [] [] (x ∷ d) e = (λ h. cc, λ h. cc)

pub is_nil-when : (b : Bool) (code : String) → (is_nil (when b code) ≡ true) ↔ (b ≡ false)
is_nil-when true code = (λ h. cc, λ h. cc)
is_nil-when false code = (λ _. refl, λ _. refl)

-- A quote is recent: taken no later than the attempt, and at most five minutes before it.
abbrev pub IsRecent : Option Instant → Instant → Type 0
IsRecent none at = ⊥
IsRecent (some t) at = (t ≤ at) × (at ≤ t + five_minutes)

pub is_nil-age_codes :
    (missing after stale : String) (t : Option Instant) (at : Instant)
    → (is_nil (age_codes missing after stale t at) ≡ true) ↔ IsRecent t at
unfolding age_codes
is_nil-age_codes missing after stale none at = (λ h. cc, λ h. absurd h)
is_nil-age_codes missing after stale (some t) at = (ground arith, ground arith)

rejected_ne : ◌≢◌ {A = String} "rejected" "ready"
unfolding str_eq
rejected_ne = str_ne _ _ refl

ready_iff :
    (l : List String)
    → (◌≡◌ {A = String} (if is_nil l then "ready" else "rejected") "ready") ↔ (is_nil l ≡ true)
ready_iff [] = (λ _. refl, λ _. refl)
ready_iff (x ∷ l) = (λ h. absurd (rejected_ne h), λ h. cc)

module _ (E : Env) where
  -- The risk side of a ready intent.
  pub record RiskAllows (risk : RiskGlobalRegimeGate E) : Type 0 where
    pub allowed : risk.risk_state ≡ "allowed"
    pub resolved : flag risk.unresolved_input_flag ≡ false
    pub fresh : risk.stale_data_authorized_flag ≡ 1
    pub eligible : risk.policy_state ≡ "eligible_long"

  pub risk_codes-nil :
      (risk : RiskGlobalRegimeGate E) → (is_nil (risk_codes E (some risk)) ≡ true) ↔ RiskAllows risk
  unfolding risk_codes
  risk_codes-nil risk = (
    ground
        (arith, str_eq→eq risk.risk_state "allowed", str_eq→eq risk.policy_state "eligible_long"),
    ground
        (arith, eq→str_eq risk.risk_state "allowed", eq→str_eq risk.policy_state "eligible_long"),
  )

  -- The quote side of a ready intent.
  pub record QuoteFits (settings : Settings E) (quote : QuoteSnapshot E) (at : Instant)
      : Type 0 where
    pub buys : normalize_direction quote.request_direction ≡ some "usdc_to_token"
    pub tracked_input : contains quote.input_mint settings.token_universe ≡ true
    pub tracked_output : contains quote.output_mint settings.token_universe ≡ true
    pub pays_usdc : quote.input_mint ≡ usdc_mint
    pub gets_token : quote.output_mint ≢ usdc_mint
    pub recent : IsRecent (quote_timestamp E quote) at
    pub size :
        (n : ℤ) × (parse_int (some quote.input_amount) ≡ some n)
        × (mem_ℤ n settings.quote_amounts_lamports ≡ true)
    pub output : (n : ℤ) × (parse_int quote.output_amount ≡ some n) × (eq_ℤ n (pos 0) ≡ false)

  direction_codes-nil :
      (o : Option String) → (is_nil (direction_codes o) ≡ true) ↔ (o ≡ some "usdc_to_token")
  direction_codes-nil none = (λ h. cc, λ h. cc)
  direction_codes-nil (some d) =
      (ground (arith, str_eq→eq d "usdc_to_token"), ground (arith, eq→str_eq d "usdc_to_token"))

  size_codes-nil :
      (amounts : List ℤ) (o : Option ℤ)
      → (is_nil (size_codes amounts o) ≡ true) ↔ ((n : ℤ) × (o ≡ some n) × (mem_ℤ n amounts ≡ true))
  size_codes-nil amounts none = (λ h. cc, λ (n, e, h). cc)
  size_codes-nil amounts (some m) =
      (λ h. (m, refl, ground arith), λ (n, e, h). let same : n ≡ m = cc in ground arith)

  none_or_zero-false :
      (o : Option ℤ)
      → (none_or_zero o ≡ false) ↔ ((n : ℤ) × (o ≡ some n) × (eq_ℤ n (pos 0) ≡ false))
  none_or_zero-false none = (λ h. cc, λ (n, e, h). cc)
  none_or_zero-false (some m) = (
    λ h. (m, refl, h),
    λ (n, e, h). let same : n ≡ m = cc in subst (λ k. eq_ℤ k (pos 0) ≡ false) same h,
  )

  mint_codes-nil :
      (settings : Settings E) (quote : QuoteSnapshot E)
      → (is_nil (mint_codes E settings quote) ≡ true) ↔ (
          (contains quote.input_mint settings.token_universe ≡ true)
          × (contains quote.output_mint settings.token_universe ≡ true)
          × (quote.input_mint ≡ usdc_mint)
          × (quote.output_mint ≢ usdc_mint))
  unfolding mint_codes
  mint_codes-nil settings quote = (
    ground (arith, str_eq→eq quote.input_mint usdc_mint, eq→str_eq quote.output_mint usdc_mint),
    ground (arith, eq→str_eq quote.input_mint usdc_mint, str_eq→eq quote.output_mint usdc_mint),
  )

  pub quote_codes-nil :
      (settings : Settings E) (quote : QuoteSnapshot E) (at : Instant)
      → (is_nil (quote_codes E settings (some quote) at) ≡ true) ↔ QuoteFits settings quote at
  unfolding quote_codes
  quote_codes-nil settings quote at =
      let amounts = settings.quote_amounts_lamports in
      let input = parse_int (some quote.input_amount) in
      let output = parse_int quote.output_amount in
      let parts =
        is_nil-append_five (direction_codes (normalize_direction quote.request_direction))
          (mint_codes E settings quote)
          (age_codes "quote_timestamp_missing" "execution_intent_quote_after_creation"
            "execution_intent_quote_stale" (quote_timestamp E quote) at)
          (size_codes amounts input) (when (none_or_zero output) "quote_output_amount_invalid") in
      let direction = direction_codes-nil (normalize_direction quote.request_direction) in
      let mints = mint_codes-nil settings quote in
      let age =
        is_nil-age_codes "quote_timestamp_missing" "execution_intent_quote_after_creation"
          "execution_intent_quote_stale" (quote_timestamp E quote) at in
      let size = size_codes-nil amounts input in
      let out = none_or_zero-false output in
      let out_code = is_nil-when (none_or_zero output) "quote_output_amount_invalid" in
      (
        λ h.
            let (d, m, a, s, o) = parts.0 h in
            let (tracked_in, tracked_out, pays, gets) = mints.0 m in
            record {
              buys = direction.0 d;
              tracked_input = tracked_in;
              tracked_output = tracked_out;
              pays_usdc = pays;
              gets_token = gets;
              recent = age.0 a;
              size = size.0 s;
              output = out.0 (out_code.0 o);
            },
        λ f. parts.1 (
          direction.1 f.buys,
          mints.1 (f.tracked_input, f.tracked_output, f.pays_usdc, f.gets_token),
          age.1 f.recent,
          size.1 f.size,
          out_code.1 (out.1 f.output),
        ),
      )

  -- An intent is ready exactly if there is a risk verdict that allows the trade and a quote that
  -- fits: a recent, tracked USDC buy of a configured size with a usable output amount.
  pub evaluate_inputs-ready :
      (settings : Settings E) (risk? : Option (RiskGlobalRegimeGate E))
      (quote? : Option (QuoteSnapshot E)) (at : Instant)
      → ((evaluate_inputs E settings risk? quote? at).intent_state ≡ "ready") ↔ (
          (risk : RiskGlobalRegimeGate E) × (quote : QuoteSnapshot E) × (risk? ≡ some risk)
          × (quote? ≡ some quote)
          × RiskAllows risk
          × QuoteFits settings quote at)
  unfolding evaluate_inputs
  evaluate_inputs-ready settings none quote? at =
      (λ h. absurd (rejected_ne h), λ (risk, quote, er, eq, r, q). cc)
  evaluate_inputs-ready settings (some risk) none at =
      let codes = is_nil-append (risk_codes E (some risk)) ("quote_snapshot_missing" ∷ []) in
      (λ h. let (r, q) = codes.0 ((ready_iff _).0 h) in cc, λ (risk', quote, er, eq, r, q). cc)
  evaluate_inputs-ready settings (some risk) (some quote) at =
      let codes =
        is_nil-append (risk_codes E (some risk)) (quote_codes E settings (some quote) at) in
      (
        λ h.
            let (r, q) = codes.0 ((ready_iff _).0 h) in
            (
              risk,
              quote,
              refl,
              refl,
              (risk_codes-nil risk).0 r,
              (quote_codes-nil settings quote at).0 q,
            ),
        λ (risk', quote', er, eq, r, q).
            let same_risk : risk' ≡ risk = cc in
            let same_quote : quote' ≡ quote = cc in
            (ready_iff _).1 (
              codes.1 (
                (risk_codes-nil risk).1 (subst RiskAllows same_risk r),
                (quote_codes-nil settings quote at).1
                    (subst (λ x. QuoteFits settings x at) same_quote q),
              )),
      )
