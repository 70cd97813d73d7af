-- ===== src/Live/Guarded.antt =====
-- live_execution/jupiter_micro.py: nothing leaves the program, and nothing enters the ledger, unless
-- every gate is open; and the steps of a swap that passes them.
use defi_engine.Base.{
  ◌≡◌, refl, sym, ap, ◌∙◌, Bool, true, false, not, Option, none, some, List, ltb, if◌then◌else◌,
  str_eq, eq→str_eq, truthy,
}
use defi_engine.Base.Time.{Instant}
use defi_engine.Json.{Fields, get, float}
use defi_engine.Json.Convert.{to_float}
use defi_engine.Env.{Env, IsObjectCodec}
use defi_engine.Truth.{Result, return, raise}
use defi_engine.Live.Readiness.{LiveSettings, evaluate_readiness}
use defi_engine.Live.Arm.{StateFile, truth_of, status}
use defi_engine.Live.Executor.{
  Venue, World, Clock, SwapRequest, above_cap, on, execute_armed, execute_swap,
}
use defi_engine.Live.Ready.{HoldsReady, evaluate_readiness-passed}
use defi_engine.Live.Refines.{
  Command, Mode, idle, armed_until, paused_for, run, replay_commands, AllStorable, Shows,
  status-refines,
}

module _ (E : Env) where
  open E use {Float, float_zero, int_div, lt, Encoded, dumps}

  -- Either the world is as it was, or G.
  pub data Unless {ℓ} (G : Type ℓ) (w : World E) (o : Result (Fields Float) × World E)
      : Type ℓ where
    same : o.1 ≡ w → Unless G w o
    open_gates : G → Unless G w o

  on-Unless {ℓ κ} :
      {A : Type ℓ} {G : Type κ} (r : Result A) (w : World E)
      (k : A → Result (Fields Float) × World E)
      → ((a : A) → r ≡ return a → Unless G w (k a))
      → Unless G w (on E r w k)
  unfolding on
  on-Unless (return a) w k h = h a refl
  on-Unless (raise e) w k h = same refl

  if-Unless {ℓ} :
      {G : Type ℓ} (b : Bool) (w : World E) (x y : Result (Fields Float) × World E)
      → (b ≡ true → Unless G w x)
      → (b ≡ false → Unless G w y)
      → Unless G w (if b then x else y)
  if-Unless true w x y h k = h refl
  if-Unless false w x y h k = k refl

  not-true : (b : Bool) → not b ≡ false → b ≡ true
  not-true true h = refl
  not-true false h = cc

  -- The gates of a swap, with what they read of the two files.
  abbrev Open : LiveSettings E → SwapRequest → Clock → Option Encoded → StateFile E → Type 0
  Open s r c metrics_file state_file =
      (arm_status : Fields Float) × (s.kill_switch ≡ false)
      × HoldsReady E s metrics_file
      × (status E c.checked_at state_file ≡ return arm_status)
      × (truth_of E "armed" arm_status ≡ true)
      × (above_cap E s r arm_status ≡ return false)
      × (truthy s.signer_pubkey ≡ true)

  armed-Unless :
      (s : LiveSettings E) (v : Venue E) (r : SwapRequest) (c : Clock) (arm_status : Fields Float)
      (w : World E)
      → Unless
          ((above_cap E s r arm_status ≡ return false) × (truthy s.signer_pubkey ≡ true))
          w
          (execute_armed E s v r c arm_status w)
  unfolding execute_armed
  armed-Unless s v r c arm_status w = on-Unless (above_cap E s r arm_status) w _ λ above checked.
      if-Unless above w _ _ (λ over. same refl)
        λ within.
          if-Unless (not (truthy s.signer_pubkey)) w _ _ (λ missing. same refl)
            λ given. open_gates (checked ∙ ap return within, not-true _ given)

  -- A swap leaves everything as it was unless the gates are open.
  execute_swap-Open :
      (s : LiveSettings E) (v : Venue E) (r : SwapRequest) (c : Clock)
      (metrics_file : Option Encoded) (state_file : StateFile E) (w : World E)
      → Unless
          (Open s r c metrics_file state_file)
          w
          (execute_swap E s v r c metrics_file state_file w)
  unfolding execute_swap
  execute_swap-Open s v r c metrics_file state_file w =
      if-Unless s.kill_switch w _ _ (λ killed. same refl)
        λ alive.
          on-Unless (evaluate_readiness E s "latest_metrics.json" c.evaluated_at metrics_file) w _
            λ readiness evaluated.
              if-Unless (not (truth_of E "passed" readiness)) w _ _ (λ failed. same refl)
                λ passed. on-Unless (status E c.checked_at state_file) w _ λ arm_status answered.
                  if-Unless (not (truth_of E "armed" arm_status)) w _ _ (λ disarmed. same refl)
                    λ armed. elim (armed-Unless s v r c arm_status w) [
                      | same unchanged ↦ same unchanged
                      | open_gates (within, given) ↦ open_gates (
                        arm_status,
                        alive,
                        (evaluate_readiness-passed E s _ _ metrics_file readiness evaluated).0
                            (not-true _ passed),
                        answered,
                        not-true _ armed,
                        within,
                        given,
                      )
                    ]

  -- The arm of the abstract machine that permits a swap: it has not expired, and an amount of USDC
  -- is within its cap.
  abbrev pub Permits : LiveSettings E → SwapRequest → Instant → Mode E → Type 0
  Permits s r now (armed_until t cap) =
      (ltb t now ≡ false)
      × (r.input_mint ≡ s.live_usdc_mint → lt cap (int_div r.amount 1_000_000) ≡ false)
  Permits s r now _ = ⊥

  abbrev returned : Result Bool → Bool
  returned (return b) = b
  returned (raise e) = true

  within_cap :
      (s : LiveSettings E) (r : SwapRequest) (arm_status : Fields Float) (cap : Float)
      → get "max_notional_usdc" arm_status ≡ some (float cap)
      → above_cap E s r arm_status ≡ return false
      → r.input_mint ≡ s.live_usdc_mint
      → lt cap (int_div r.amount 1_000_000) ≡ false
  unfolding above_cap to_float
  within_cap s r arm_status cap kept within usdc =
      let is_usdc : str_eq r.input_mint s.live_usdc_mint ≡ true =
        eq→str_eq r.input_mint s.live_usdc_mint usdc in
      let h : ◌≡◌ {A = Result Bool} (return (lt cap (int_div r.amount 1_000_000))) (return false) =
        rw (is_usdc, kept) at within in
      ap returned h

  not_late : (b : Bool) → not b ≡ true → b ≡ false
  not_late true h = cc
  not_late false h = refl

  armed-Permits :
      (s : LiveSettings E) (r : SwapRequest) (now : Instant) (m : Mode E) (d : Fields Float)
      → Shows E now m d
      → truth_of E "armed" d ≡ true
      → above_cap E s r d ≡ return false
      → Permits s r now m
  armed-Permits s r now idle d (shown, name, cap) armed within = cc
  armed-Permits s r now (paused_for reason) d (shown, name, cap) armed within = cc
  armed-Permits s r now (armed_until t limit) d (shown, name, cap) armed within =
      (not_late _ (sym shown ∙ armed), within_cap s r d limit cap within)

  unwrap : {A : Type 0} (a b : A) → ◌≡◌ {A = Result A} (return a) (return b) → a ≡ b
  unwrap a b h = cc

  -- After any storable commands on an absent state file, a swap either leaves calls and ledger as
  -- they were, or the kill switch is off, the metrics file is ready, the machine of the commands is
  -- armed and not expired, USDC amounts are within the cap of that arming, and a signer is set.
  pub execute_swap-guarded :
      (C : IsObjectCodec E) (s : LiveSettings E) (v : Venue E) (r : SwapRequest) (c : Clock)
      (metrics_file : Option Encoded) (cs : List (Command E)) (w : World E)
      → AllStorable E cs
      → Unless
          ((s.kill_switch ≡ false)
            × HoldsReady E s metrics_file
            × Permits s r c.checked_at (replay_commands E cs idle)
            × (truthy s.signer_pubkey ≡ true))
          w
          (execute_swap E s v r c metrics_file (run E cs none) w)
  execute_swap-guarded C s v r c metrics_file cs w storable =
      elim (execute_swap-Open s v r c metrics_file (run E cs none) w) [
        | same unchanged ↦ same unchanged
        | open_gates (arm_status, alive, ready, answered, armed, within, given) ↦
            let (d, shown_by, shows) = status-refines E C cs c.checked_at storable in
            let is_d : arm_status ≡ d = unwrap arm_status d (sym answered ∙ shown_by) in
            open_gates (
              alive,
              ready,
              armed-Permits s r c.checked_at (replay_commands E cs idle) d shows (rw (← is_d) armed)
                  (rw (← is_d) within),
              given,
            )
      ]
