-- ===== src/Live/Executor.antt =====
-- live_execution/jupiter_micro.py: one gated swap. The HTTP client and the signer are parameters;
-- what is asked of them, and the ledger file, are the state.
use defi_engine.Base.{
  String, Bool, false, not, ◌&&◌, ◌||◌, Option, List, [], ◌∷◌, ◌++◌, str_eq, truthy, if◌then◌else◌,
}
use defi_engine.Base.Int.{ℤ}
use defi_engine.Base.Text.{codes, lower, same_codes}
use defi_engine.Base.Time.{Instant, isoformat_utc}
use defi_engine.Json.{Json, Fields, end, field, get_or, obj, texts, fields, float, num, null}
use defi_engine.Json.Convert.{to_bool, to_float}
use defi_engine.Env.{Env}
use defi_engine.Truth.{Result, return, raise}
use defi_engine.Live.Readiness.{LiveSettings, evaluate_readiness}
use defi_engine.Live.Arm.{StateFile, truth_of, status}

-- What leaves the program: a request for an order, for a signature, and to execute.
pub data Call : Type 0 where
  ordered : String → String → ℤ → ℤ → String → Call
  signed : String → String → Call
  executed : String → String → Call

-- The clock, where the swap reads it.
pub record Clock : Type 0 where
  pub evaluated_at : Instant
  pub checked_at : Instant
  pub executed_at : Instant

pub record SwapRequest : Type 0 where
  pub input_mint : String
  pub output_mint : String
  pub amount : ℤ
  pub slippage_bps : ℤ

module _ (E : Env) where
  open E use {Float, float_zero, int_div, lt, dumps, Encoded, str_of}

  -- The Jupiter API behind the HTTP client, and the operator's signer.
  pub record Venue : Type 0 where
    pub order : String → String → ℤ → ℤ → String → Result (Fields Float)
    pub sign : String → String → Result String
    pub execute : String → String → Result (Fields Float)

  pub record World : Type 0 where
    pub calls : List Call
    pub ledger : List Encoded

  -- `str(value or "")`
  unfoldable pub text_of : Json Float → String
  unfolding to_bool
  text_of (Json.text s) = s
  text_of v = if to_bool E v then str_of v else ""

  -- `a or b` on two decoded values.
  abbrev or_value : Json Float → Json Float → Json Float
  or_value a b = if to_bool E a then a else b

  -- What is read of an order: its transaction and its id.
  abbrev pub transaction_of : Fields Float → String
  transaction_of order = text_of (get_or "transaction" null order)

  abbrev pub request_id_of : Fields Float → String
  request_id_of order =
      text_of (or_value (get_or "requestId" null order) (get_or "request_id" null order))

  -- `_blocked`
  unfoldable pub blocked_answer : Json Float → Clock → List (String × Json Float) → Fields Float
  blocked_answer codes c extra = fields (
      ("status", Json.text "blocked")
      ∷ ("reason_codes", codes)
      ∷ ("executed_at_utc", Json.text (isoformat_utc c.executed_at))
      ∷ extra)

  -- `_notional_cap_reason`: whether the cap of the arm state is exceeded.
  unfoldable pub above_cap : LiveSettings E → SwapRequest → Fields Float → Result Bool
  above_cap s r arm_status =
      if not (str_eq r.input_mint s.live_usdc_mint)
      then return false
      else elim (to_float E (get_or "max_notional_usdc" (float float_zero) arm_status)) [
        | return cap ↦ return (lt cap (int_div r.amount 1_000_000))
        | raise e ↦ raise e
      ]

  -- `_safe_order_receipt`
  unfoldable pub safe_order_receipt : Fields Float → Fields Float
  safe_order_receipt end = end
  safe_order_receipt (field k v fs) =
      if str_eq k "transaction" || str_eq k "signedTransaction"
      then safe_order_receipt fs
      else field k v (safe_order_receipt fs)

  unfoldable pub swap_result :
      SwapRequest → Clock → String → Fields Float → Fields Float → Fields Float
  unfolding text_of safe_order_receipt
  swap_result r c request_id order execution =
      let state = lower (codes (text_of (get_or "status" null execution))) in
      let signature = text_of (get_or "signature" null execution) in
      fields (
        (
          "status",
          Json.text (
              if same_codes state (codes "success") && truthy signature
              then "success"
              else "failed"),
        )
        ∷ (
          "reason_codes",
          texts (if truthy signature then [] else "jupiter_execute_missing_signature" ∷ []),
        )
        ∷ ("signature", Json.text signature)
        ∷ ("request_id", Json.text request_id)
        ∷ ("input_mint", Json.text r.input_mint)
        ∷ ("output_mint", Json.text r.output_mint)
        ∷ ("amount", num r.amount)
        ∷ ("slippage_bps", num r.slippage_bps)
        ∷ ("order", obj (safe_order_receipt order))
        ∷ ("execution", obj execution)
        ∷ ("executed_at_utc", Json.text (isoformat_utc c.executed_at))
        ∷ [])

  abbrev pub called : Call → World → World
  called c w = record w { calls = w.calls ++ c ∷ [] }

  -- `_append_ledger`
  abbrev pub append_ledger : Fields Float → World → World
  append_ledger result w = record w { ledger = w.ledger ++ dumps (obj result) ∷ [] }

  -- A step that may raise, and the rest of the call.
  unfoldable pub on {ℓ} :
      {A : Type ℓ}
      → Result A
      → World
      → (A → Result (Fields Float) × World)
      → Result (Fields Float) × World
  on (return a) w k = k a
  on (raise e) w k = (raise e, w)

  unfoldable pub run_execution :
      Venue
      → SwapRequest
      → Clock
      → Fields Float
      → String
      → String
      → World
      → Result (Fields Float) × World
  unfolding swap_result on
  run_execution v r c order request_id signed_transaction w =
      let w' = called (executed signed_transaction request_id) w in
      on (v.execute signed_transaction request_id) w' λ execution.
        let result = swap_result r c request_id order execution in
        (return result, append_ledger result w')

  unfoldable pub run_order :
      Venue → SwapRequest → Clock → Fields Float → World → Result (Fields Float) × World
  unfolding run_execution blocked_answer text_of on
  run_order v r c order w =
      let transaction = transaction_of order in
      let request_id = request_id_of order in
      if not (truthy transaction) || not (truthy request_id)
      then (
        return (
            blocked_answer (texts ("jupiter_order_missing_transaction" ∷ [])) c
              (("order", obj order) ∷ [])),
        w,
      )
      else (let w' = called (signed transaction request_id) w in
          on (v.sign transaction request_id) w'
            λ signed_transaction. run_execution v r c order request_id signed_transaction w')

  -- The part of `execute_swap` behind the gates.
  unfoldable pub run_swap :
      Venue → SwapRequest → Clock → String → World → Result (Fields Float) × World
  unfolding run_order on
  run_swap v r c taker w =
      let w' = called (ordered r.input_mint r.output_mint r.amount r.slippage_bps taker) w in
      on (v.order r.input_mint r.output_mint r.amount r.slippage_bps taker) w'
        λ order. run_order v r c order w'

  -- The gates behind an arm state that says that it is armed.
  unfoldable pub execute_armed :
      LiveSettings E
      → Venue
      → SwapRequest
      → Clock
      → Fields Float
      → World
      → Result (Fields Float) × World
  unfolding above_cap run_swap blocked_answer on
  execute_armed s v r c arm_status w = on (above_cap s r arm_status) w λ above.
      if above
      then (
        return (
            blocked_answer (texts ("micro_live_notional_above_arm_cap" ∷ [])) c
              (("arm_status", obj arm_status) ∷ [])),
        w,
      )
      else if not (truthy s.signer_pubkey)
      then (return (blocked_answer (texts ("micro_live_signer_pubkey_missing" ∷ [])) c []), w)
      else run_swap v r c s.signer_pubkey w

  -- `execute_swap`, with the two files that it reads.
  unfoldable pub execute_swap :
      LiveSettings E
      → Venue
      → SwapRequest
      → Clock
      → Option Encoded
      → StateFile E
      → World
      → Result (Fields Float) × World
  unfolding execute_armed evaluate_readiness status truth_of blocked_answer on
  execute_swap s v r c metrics_file state_file w =
      if s.kill_switch
      then (return (blocked_answer (texts ("micro_live_kill_switch_active" ∷ [])) c []), w)
      else on (evaluate_readiness E s "latest_metrics.json" c.evaluated_at metrics_file) w
          λ readiness.
            if not (truth_of E "passed" readiness)
            then (
              return (
                  blocked_answer (texts ("live_readiness_not_passed" ∷ [])) c
                    (("readiness", obj readiness) ∷ [])),
              w,
            )
            else on (status E c.checked_at state_file) w λ arm_status.
              if not (truth_of E "armed" arm_status)
              then (
                return (
                    blocked_answer
                      (get_or "reason_codes" (texts ("micro_live_not_armed" ∷ [])) arm_status) c
                      []),
                w,
              )
              else execute_armed s v r c arm_status w
