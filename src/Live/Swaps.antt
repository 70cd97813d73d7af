-- ===== src/Live/Swaps.antt =====
-- live_execution/jupiter_micro.py: the steps of a swap that is behind its gates.
use defi_engine.Base.{◌≡◌, refl, String, true, [], ◌∷◌, Bool-cases, inl, inr, truthy}
use defi_engine.Json.{Fields, texts, obj}
use defi_engine.Env.{Env}
use defi_engine.Truth.{Exception, Result, return, raise}
use defi_engine.Live.Executor.{
  Venue, World, Clock, SwapRequest, ordered, signed, executed, on, run_swap, run_order,
  run_execution, called, append_ledger, swap_result, transaction_of, request_id_of, blocked_answer,
}

module _ (E : Env) where
  open E use {Float}

  module _ (v : Venue E) (r : SwapRequest) (c : Clock) (taker : String) (w : World E) where
    abbrev after_order : World E
    after_order = called E (ordered r.input_mint r.output_mint r.amount r.slippage_bps taker) w

    abbrev after_sign : Fields Float → World E
    after_sign order =
        called E (signed (transaction_of E order) (request_id_of E order)) after_order

    abbrev after_execute : Fields Float → String → World E
    after_execute order signature =
        called E (executed signature (request_id_of E order)) (after_sign order)

    -- An order that the API gave, with a transaction and an id.
    abbrev IsUsable : Fields Float → Type 0
    IsUsable order =
        (v.order r.input_mint r.output_mint r.amount r.slippage_bps taker ≡ return order)
        × (truthy (transaction_of E order) ≡ true)
        × (truthy (request_id_of E order) ≡ true)

    -- How far a swap came: an order is asked for, then its transaction is signed, then what was
    -- signed is executed under the id of the order; a ledger entry is the answer of an execution.
    pub data Progress : Result (Fields Float) × World E → Type 0 where
      no_order :
          (e : Exception)
          → v.order r.input_mint r.output_mint r.amount r.slippage_bps taker ≡ raise e
          → Progress (raise e, after_order)
      no_transaction :
          (order : Fields Float)
          → v.order r.input_mint r.output_mint r.amount r.slippage_bps taker ≡ return order
          → Progress (
            return (
                blocked_answer E
                  (texts ("jupiter_order_missing_transaction" ∷ []))
                  c
                  (("order", obj order) ∷ [])),
            after_order,
          )
      not_signed :
          (order : Fields Float) (e : Exception)
          → IsUsable order
          → v.sign (transaction_of E order) (request_id_of E order) ≡ raise e
          → Progress (raise e, after_sign order)
      not_executed :
          (order : Fields Float) (signature : String) (e : Exception)
          → IsUsable order
          → v.sign (transaction_of E order) (request_id_of E order) ≡ return signature
          → v.execute signature (request_id_of E order) ≡ raise e
          → Progress (raise e, after_execute order signature)
      settled :
          (order execution : Fields Float) (signature : String)
          → IsUsable order
          → v.sign (transaction_of E order) (request_id_of E order) ≡ return signature
          → v.execute signature (request_id_of E order) ≡ return execution
          → Progress (
            return (swap_result E r c (request_id_of E order) order execution),
            append_ledger E
                (swap_result E r c (request_id_of E order) order execution)
                (after_execute order signature),
          )

  module _ (v : Venue E) (r : SwapRequest) (c : Clock) (taker : String) (w : World E) where
    execution-Progress :
        (order : Fields Float) (signature : String)
        → IsUsable v r c taker w order
        → v.sign (transaction_of E order) (request_id_of E order) ≡ return signature
        → Progress v r c taker w (
            run_execution E v r c order
              (request_id_of E order)
              signature
              (after_sign v r c taker w order))
    unfolding run_execution on
    execution-Progress order signature usable s =
        go (v.execute signature (request_id_of E order)) refl
      where
        go :
            (x : Result (Fields Float))
            → v.execute signature (request_id_of E order) ≡ x
            → Progress v r c taker w (
                on E x (after_execute v r c taker w order signature) λ execution. (
                  return (swap_result E r c (request_id_of E order) order execution),
                  append_ledger E
                      (swap_result E r c (request_id_of E order) order execution)
                      (after_execute v r c taker w order signature),
                ))
        go (return execution) e = settled order execution signature usable s e
        go (raise x) e = not_executed order signature x usable s e

    sign-Progress :
        (order : Fields Float)
        → IsUsable v r c taker w order
        → Progress v r c taker w (
            on E
              (v.sign (transaction_of E order) (request_id_of E order))
              (after_sign v r c taker w order)
              λ signature.
                run_execution E v r c order
                  (request_id_of E order)
                  signature
                  (after_sign v r c taker w order))
    unfolding on
    sign-Progress order usable = go (v.sign (transaction_of E order) (request_id_of E order)) refl
      where
        go :
            (x : Result String)
            → v.sign (transaction_of E order) (request_id_of E order) ≡ x
            → Progress v r c taker w (
                on E x (after_sign v r c taker w order) λ signature.
                  run_execution E v r c order
                    (request_id_of E order)
                    signature
                    (after_sign v r c taker w order))
        go (return signature) e = execution-Progress order signature usable e
        go (raise x) e = not_signed order x usable e

    order-Progress :
        (order : Fields Float)
        → v.order r.input_mint r.output_mint r.amount r.slippage_bps taker ≡ return order
        → Progress v r c taker w (run_order E v r c order (after_order v r c taker w))
    unfolding run_order
    order-Progress order given = elim (Bool-cases (truthy (transaction_of E order))) [
      | inr missing ↦ rw missing (no_transaction order given)
      | inl present ↦ elim (Bool-cases (truthy (request_id_of E order))) [
        | inr missing ↦ rw (present, missing) (no_transaction order given)
        | inl named ↦ rw (present, named) (sign-Progress order (given, present, named))
      ]
    ]

    -- A swap that passed its gates asks for an order; it signs only the transaction of that order,
    -- executes only what was signed, under the id of the order; and it appends to the ledger exactly
    -- if the execution answered, and then the entry is what it returns.
    pub run_swap-Progress : Progress v r c taker w (run_swap E v r c taker w)
    unfolding run_swap on
    run_swap-Progress = go (v.order r.input_mint r.output_mint r.amount r.slippage_bps taker) refl
      where
        go :
            (x : Result (Fields Float))
            → v.order r.input_mint r.output_mint r.amount r.slippage_bps taker ≡ x
            → Progress v r c taker w (
                on E x
                  (after_order v r c taker w)
                  λ order. run_order E v r c order (after_order v r c taker w))
        go (return order) e = order-Progress order e
        go (raise x) e = no_order x e
