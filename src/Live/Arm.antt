-- ===== src/Live/Arm.antt =====
-- live_execution/arm_state.py: the expiring arm state, kept in one JSON file.
use defi_engine.Base.{
  suc, ◌+◌, ◌-◌, ◌*◌, String, Bool, true, false, Option, none, some, List, [], ◌∷◌, ltb, leb,
  if◌then◌else◌,
}
use defi_engine.Base.Int.{ℤ, pos, negsuc}
use defi_engine.Base.Time.{Instant, DateTime, naive, aware, isoformat_utc}
use defi_engine.Json.{Json, Fields, get_or, get, put, obj, texts, fields, float, num, null}
use defi_engine.Json.Convert.{to_bool}
use defi_engine.Env.{Env}
use defi_engine.Truth.{
  Result, return, raise, ◌>>=◌, or_raise, value_error, key_error, type_error, overflow_error,
}
use defi_engine.Live.Readiness.{read_dictionary}

-- datetime.max is the last microsecond before this one.
abbrev pub end_of_time : Instant
end_of_time = 253_402_300_800_000_000

-- `t + timedelta(minutes=n)`; no time is before the epoch.
unfoldable pub add_minutes : Instant → ℤ → Instant
add_minutes t (pos n) = t + n * 60_000_000
add_minutes t (negsuc n) = t - suc n * 60_000_000

module _ (E : Env) where
  open E use {Float, float_zero, dumps, Encoded, fromisoformat}

  -- The arguments of `arm` beside the readiness decision.
  pub record ArmRequest : Type 0 where
    pub max_notional_usdc : Float
    pub daily_loss_limit_usdc : Float
    pub weekly_loss_limit_usdc : Float
    pub ttl_minutes : ℤ

  -- The content of `state_path`; `none` is a file that does not exist.
  abbrev pub StateFile : Type 0
  StateFile = Option Encoded

  -- `readiness.get("passed")`, as a truth value.
  unfoldable pub truth_of : String → Fields Float → Bool
  unfolding to_bool get
  truth_of key d = to_bool E (get_or key null d)

  abbrev pub blocked_arm : Fields Float → Fields Float
  blocked_arm readiness = fields (
      ("armed", Json.bool false)
      ∷ ("status", Json.text "blocked")
      ∷ ("reason_codes", texts ("live_readiness_not_passed" ∷ []))
      ∷ ("readiness", obj readiness)
      ∷ [])

  abbrev pub armed_entries : Json Float → ArmRequest → Instant → List (String × Json Float)
  armed_entries evaluated_at r now =
      ("armed", Json.bool true)
      ∷ ("status", Json.text "armed")
      ∷ ("reason_codes", texts [])
      ∷ ("armed_at_utc", Json.text (isoformat_utc now))
      ∷ ("expires_at_utc", Json.text (isoformat_utc (add_minutes now r.ttl_minutes)))
      ∷ ("max_notional_usdc", float r.max_notional_usdc)
      ∷ ("daily_loss_limit_usdc", float r.daily_loss_limit_usdc)
      ∷ ("weekly_loss_limit_usdc", float r.weekly_loss_limit_usdc)
      ∷ ("ttl_minutes", num r.ttl_minutes)
      ∷ ("readiness_evaluated_at_utc", evaluated_at)
      ∷ []

  unfoldable pub armed_state : Fields Float → ArmRequest → Instant → Fields Float
  armed_state readiness r now =
      fields (armed_entries (get_or "evaluated_at_utc" null readiness) r now)

  abbrev pub paused_entries : String → Instant → List (String × Json Float)
  paused_entries reason now =
      ("armed", Json.bool false)
      ∷ ("status", Json.text "paused")
      ∷ ("reason_codes", texts (reason ∷ []))
      ∷ ("paused_at_utc", Json.text (isoformat_utc now))
      ∷ []

  unfoldable pub paused_state : String → Instant → Fields Float
  paused_state reason now = fields (paused_entries reason now)

  unfoldable pub write_state : Fields Float → StateFile
  write_state state = some (dumps (obj state))

  -- The branch of `arm` with a readiness that passed.
  unfoldable pub arm_passed :
      Fields Float → ArmRequest → Instant → StateFile → Result (Fields Float) × StateFile
  unfolding armed_state write_state add_minutes
  arm_passed readiness r now file =
      if leb end_of_time (add_minutes now r.ttl_minutes)
      then (raise (overflow_error "date value out of range"), file)
      else (return (armed_state readiness r now), write_state (armed_state readiness r now))

  unfoldable pub arm :
      Fields Float → ArmRequest → Instant → StateFile → Result (Fields Float) × StateFile
  unfolding truth_of arm_passed
  arm readiness r now file =
      if truth_of "passed" readiness
      then arm_passed readiness r now file
      else (return (blocked_arm readiness), file)

  unfoldable pub pause : String → Instant → StateFile → Result (Fields Float) × StateFile
  unfolding paused_state write_state
  pause reason now file = (return (paused_state reason now), write_state (paused_state reason now))

  abbrev pub not_armed : Fields Float
  not_armed = fields (
      ("armed", Json.bool false)
      ∷ ("status", Json.text "not_armed")
      ∷ ("reason_codes", texts ("micro_live_not_armed" ∷ []))
      ∷ [])

  -- `expired_state`: the state as it was, with three of its entries written over.
  unfoldable pub expired : Fields Float → Fields Float
  unfolding put
  expired state =
      put "reason_codes" (texts ("micro_live_arm_expired" ∷ []))
        (put "status" (Json.text "expired") (put "armed" (Json.bool false) state))

  -- `datetime.fromisoformat(value)`
  abbrev read_time : Json Float → Result DateTime
  read_time (Json.text s) = or_raise (fromisoformat s) (value_error "Invalid isoformat string")
  read_time _ = raise (type_error "fromisoformat: argument must be str")

  -- `current_time > expires_at`, with an aware current time.
  abbrev is_past : Instant → DateTime → Result Bool
  is_past now (aware t) = return (ltb t now)
  is_past now (naive t) = raise (type_error "can't compare offset-naive and offset-aware datetimes")

  -- The part of `status` for a state that says that it is armed.
  unfoldable pub check_expiry : Fields Float → Instant → Result (Fields Float)
  unfolding expired get
  check_expiry state now = do
    value ← or_raise (get "expires_at_utc" state) (key_error "expires_at_utc")
    expires_at ← read_time value
    past ← is_past now expires_at
    return (if past then expired state else state)

  unfoldable pub status : Instant → StateFile → Result (Fields Float)
  unfolding check_expiry truth_of read_dictionary
  status now none = return not_armed
  status now (some content) = do
    state ← read_dictionary E content
    if truth_of "armed" state then check_expiry state now else return state
