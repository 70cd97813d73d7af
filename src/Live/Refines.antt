-- ===== src/Live/Refines.antt =====
-- live_execution/arm_state.py: the state file, read through `status`, is the machine of three modes
-- that arming and pausing drive.
use defi_engine.Base.{
  ◌≡◌, refl, ◌∙◌, String, Bool, true, false, not, ◌&&◌, none, some, List, [], ◌∷◌, ltb, leb,
  if◌then◌else◌, str_eq, Bool-cases, inl, inr,
}
use defi_engine.Base.Time.{Instant, aware, isoformat_utc}
use defi_engine.Json.{Json, Fields, get, get_or, object, fields, null, float, is_writable, has_key}
use defi_engine.Env.{Env, IsObjectCodec}
use defi_engine.Truth.{return, ◌>>=◌, or_raise}
use defi_engine.Live.Readiness.{read_dictionary}
use defi_engine.Live.Arm.{
  ArmRequest, StateFile, add_minutes, truth_of, armed_entries, armed_state, paused_entries,
  paused_state, write_state, arm_passed, arm, pause, not_armed, expired, check_expiry, status,
  end_of_time,
}

module _ (E : Env) where
  open E use {Float, float_zero, fromisoformat, is_finite, loads, dumps}

  -- The operator's commands, each with the time of its call.
  pub data Command : Type 0 where
    arming : Fields Float → ArmRequest E → Instant → Command
    pausing : String → Instant → Command

  -- The abstract machine.
  pub data Mode : Type 0 where
    idle : Mode
    armed_until : Instant → Float → Mode
    paused_for : String → Mode

  unfoldable pub accepts : Fields Float → ArmRequest E → Instant → Bool
  accepts readiness r now =
      truth_of E "passed" readiness && not (leb end_of_time (add_minutes now r.ttl_minutes))

  unfoldable pub after : Command → Mode → Mode
  unfolding accepts
  after (arming readiness r now) m =
      if accepts readiness r now
      then armed_until (add_minutes now r.ttl_minutes) r.max_notional_usdc
      else m
  after (pausing reason now) m = paused_for reason

  unfoldable pub replay_commands : List Command → Mode → Mode
  unfolding after
  replay_commands [] m = m
  replay_commands (c ∷ cs) m = replay_commands cs (after c m)

  -- The same commands on the state file.
  unfoldable pub perform : Command → StateFile E → StateFile E
  unfolding arm pause
  perform (arming readiness r now) file = (arm E readiness r now file).1
  perform (pausing reason now) file = (pause E reason now file).1

  unfoldable pub run : List Command → StateFile E → StateFile E
  unfolding perform
  run [] file = file
  run (c ∷ cs) file = run cs (perform c file)

  -- What the libraries are relied on for: the state that an arm command writes is one that orjson
  -- writes as it is, and its expiry is a text that fromisoformat reads back.
  abbrev pub IsStorable : Command → Type 0
  IsStorable (arming readiness r now) =
      let expiry = add_minutes now r.ttl_minutes in
      (is_writable is_finite
          (object (armed_entries E (get_or "evaluated_at_utc" null readiness) r now))
        ≡ true)
      × (fromisoformat (isoformat_utc expiry) ≡ some (aware expiry))
  IsStorable (pausing reason now) = Unit

  abbrev pub AllStorable : List Command → Type 0
  AllStorable [] = Unit
  AllStorable (c ∷ cs) = IsStorable c × AllStorable cs

  -- Whether a mode permits execution at a time, and how it is called.
  abbrev pub is_armed : Instant → Mode → Bool
  is_armed now idle = false
  is_armed now (armed_until t cap) = not (ltb t now)
  is_armed now (paused_for reason) = false

  abbrev pub mode_name : Instant → Mode → String
  mode_name now idle = "not_armed"
  mode_name now (armed_until t cap) = if ltb t now then "expired" else "armed"
  mode_name now (paused_for reason) = "paused"

  abbrev pub KeepsCap : Mode → Fields Float → Type 0
  KeepsCap (armed_until t cap) d = get "max_notional_usdc" d ≡ some (float cap)
  KeepsCap _ d = Unit

  -- What `status` answers in a mode.
  abbrev pub Shows : Instant → Mode → Fields Float → Type 0
  Shows now m d =
      (truth_of E "armed" d ≡ is_armed now m)
      × (get "status" d ≡ some (Json.text (mode_name now m)))
      × KeepsCap m d

  -- The file of a mode.
  abbrev Represents : Mode → StateFile E → Type 0
  Represents idle file = file ≡ none
  Represents (armed_until t cap) file =
      (readiness : Fields Float) × (r : ArmRequest E) × (now : Instant) × (file
        ≡ write_state E (armed_state E readiness r now))
      × (t ≡ add_minutes now r.ttl_minutes)
      × (cap ≡ r.max_notional_usdc)
      × IsStorable (arming readiness r now)
  Represents (paused_for reason) file =
      (now : Instant) × (file ≡ write_state E (paused_state E reason now))

  arm-Represents :
      (readiness : Fields Float) (r : ArmRequest E) (now : Instant) (m : Mode) (file : StateFile E)
      → IsStorable (arming readiness r now)
      → Represents m file
      → Represents (after (arming readiness r now) m) (arm E readiness r now file).1
  unfolding after accepts arm arm_passed
  arm-Represents readiness r now m file storable h =
      elim (Bool-cases (truth_of E "passed" readiness)) [
        | inr failed ↦ rw failed h
        | inl passed ↦ elim (Bool-cases (leb end_of_time (add_minutes now r.ttl_minutes))) [
          | inl late ↦ rw (passed, late) h
          | inr early ↦ rw (passed, early) (readiness, r, now, refl, refl, refl, storable)
        ]
      ]

  perform-Represents :
      (c : Command) (m : Mode) (file : StateFile E)
      → IsStorable c
      → Represents m file
      → Represents (after c m) (perform c file)
  unfolding after perform pause
  perform-Represents (arming readiness r now) m file storable h =
      arm-Represents readiness r now m file storable h
  perform-Represents (pausing reason now) m file storable h = (now, refl)

  run-Represents :
      (cs : List Command) (m : Mode) (file : StateFile E)
      → AllStorable cs
      → Represents m file
      → Represents (replay_commands cs m) (run cs file)
  unfolding replay_commands run
  run-Represents [] m file storable h = h
  run-Represents (c ∷ cs) m file (one, others) h =
      run-Represents cs (after c m) (perform c file) others (perform-Represents c m file one h)

  -- A state that was written is read back.
  read_back :
      (C : IsObjectCodec E) (l : List (String × Json Float))
      → is_writable is_finite (object l) ≡ true
      → read_dictionary E (dumps (object l)) ≡ return (fields l)
  unfolding read_dictionary or_raise ◌>>=◌
  read_back C l writable = rw (C.loads-dumps_object l writable) refl

  status-paused :
      (C : IsObjectCodec E) (reason : String) (then_ now : Instant)
      → status E now (write_state E (paused_state E reason then_))
        ≡ return (paused_state E reason then_)
  unfolding status write_state paused_state ◌>>=◌ truth_of str_eq is_writable has_key
  status-paused C reason then_ now = rw (read_back C (paused_entries E reason then_) refl) refl

  check_expiry-armed :
      (readiness : Fields Float) (r : ArmRequest E) (then_ now : Instant)
      → IsStorable (arming readiness r then_)
      → check_expiry E (armed_state E readiness r then_) now
        ≡ return (
            if ltb (add_minutes then_ r.ttl_minutes) now
            then expired E (armed_state E readiness r then_)
            else armed_state E readiness r then_)
  unfolding check_expiry armed_state ◌>>=◌ or_raise str_eq
  check_expiry-armed readiness r then_ now (writable, readable) = rw readable refl

  status-armed :
      (C : IsObjectCodec E) (readiness : Fields Float) (r : ArmRequest E) (then_ now : Instant)
      → IsStorable (arming readiness r then_)
      → status E now (write_state E (armed_state E readiness r then_))
        ≡ check_expiry E (armed_state E readiness r then_) now
  unfolding status write_state armed_state ◌>>=◌ truth_of str_eq
  status-armed C readiness r then_ now (writable, readable) =
      rw (read_back C (armed_entries E (get_or "evaluated_at_utc" null readiness) r then_) writable)
        refl

  armed-Shows :
      (readiness : Fields Float) (r : ArmRequest E) (then_ now : Instant)
      → Shows now (armed_until (add_minutes then_ r.ttl_minutes) r.max_notional_usdc) (
          if ltb (add_minutes then_ r.ttl_minutes) now
          then expired E (armed_state E readiness r then_)
          else armed_state E readiness r then_)
  unfolding truth_of armed_state expired str_eq
  armed-Shows readiness r then_ now =
      elim (Bool-cases (ltb (add_minutes then_ r.ttl_minutes) now)) [
        | inl late ↦ rw late (refl, refl, refl)
        | inr early ↦ rw early (refl, refl, refl)
      ]

  -- What the file of a mode answers.
  abbrev Answers : Instant → Mode → StateFile E → Type 0
  Answers now m file = (d : Fields Float) × (status E now file ≡ return d) × Shows now m d

  idle-Answers : (now : Instant) → Answers now idle none
  unfolding status truth_of str_eq
  idle-Answers now = (not_armed E, refl, (refl, refl, tt))

  paused-Answers :
      (C : IsObjectCodec E) (reason : String) (then_ now : Instant)
      → Answers now (paused_for reason) (write_state E (paused_state E reason then_))
  unfolding truth_of paused_state str_eq
  paused-Answers C reason then_ now =
      (paused_state E reason then_, status-paused C reason then_ now, (refl, refl, tt))

  armed-Answers :
      (C : IsObjectCodec E) (readiness : Fields Float) (r : ArmRequest E) (then_ now : Instant)
      → IsStorable (arming readiness r then_)
      → Answers now
          (armed_until (add_minutes then_ r.ttl_minutes) r.max_notional_usdc)
          (write_state E (armed_state E readiness r then_))
  armed-Answers C readiness r then_ now storable = (
    _,
    status-armed C readiness r then_ now storable
        ∙ check_expiry-armed readiness r then_ now storable,
    armed-Shows readiness r then_ now,
  )

  Represents-Answers :
      (C : IsObjectCodec E) (now : Instant) (m : Mode) (file : StateFile E)
      → Represents m file
      → Answers now m file
  Represents-Answers C now idle file absent = rw absent (idle-Answers now)
  Represents-Answers C now (paused_for reason) file (then_, written) =
      rw written (paused-Answers C reason then_ now)
  Represents-Answers C now (armed_until t cap) file
        (rd, r, then_, written, same_t, same_cap, storable) =
      rw (written, same_t, same_cap) (armed-Answers C rd r then_ now storable)

  -- After any commands on an absent state file, each of them storable, `status` returns, and shows
  -- the mode of the abstract machine after the same commands: armed exactly if the last accepted
  -- arming was not paused since and has not expired, and with the notional cap of that arming.
  pub status-refines :
      (C : IsObjectCodec E) (cs : List Command) (now : Instant)
      → AllStorable cs
      → (d : Fields Float) × (status E now (run cs none) ≡ return d)
        × Shows now (replay_commands cs idle) d
  status-refines C cs now storable =
      Represents-Answers C now (replay_commands cs idle) (run cs none)
        (run-Represents cs idle none storable refl)
