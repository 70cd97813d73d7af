-- ===== src/Practice/Plans.antt =====
-- What the walk-forward starts from, and that it ends.
use mathlib.Core.Path.{subst}
use defi_engine.Base.{
  ◌≡◌, ◌⊎◌, inl, inr, ℕ, ◌+◌, ◌*◌, ◌≤◌, String, false, not, Option, none, some, List, [], ◌∷◌,
  is_nil, select, find_first, if◌then◌else◌, str_eq, truthy, Bool-cases, if-true, if-false, arith,
}
use defi_engine.Base.Int.{ℤ, pos}
use defi_engine.Base.Time.{Instant}
use defi_engine.Truth.{
  Exception, Result, return, ◌>>=◌, raise_if, or_raise, runtime_error, value_error,
}
use defi_engine.Truth.Returns.{bind-returns, then-returns, raise_if-returns, or_raise-returns}
use defi_engine.Practice.{
  PaperPracticeTrainingProfile, Replayer, WalkPlan, catalog_profile, looked_up,
  get_training_profile, selected_training_profile, quickstart_300d, full_730d, day, days_between,
  assess_training_history_window, required_history_days, from, bounds, bounded_start, plan_of,
  plan_replay, plan_history, plan,
}
use defi_engine.Practice.Bounds.{Encloses, bounds-Encloses, select-Above, select-Below}

-- The profiles that a request can resolve to.
abbrev pub InCatalog : PaperPracticeTrainingProfile → Type 0
InCatalog p = (p ≡ quickstart_300d) ⊎ (p ≡ full_730d)

some-same {ℓ} : {A : Type ℓ} (a b : A) → ◌≡◌ {A = Option A} (some b) (some a) → a ≡ b
some-same a b h = cc

return-same {ℓ} : {A : Type ℓ} (a b : A) → ◌≡◌ {A = Result A} (return a) (return b) → a ≡ b
return-same a b h = cc

catalog-InCatalog :
    (name : String) (p : PaperPracticeTrainingProfile) → catalog_profile name ≡ some p → InCatalog p
unfolding catalog_profile find_first
catalog-InCatalog name p h = elim (Bool-cases (str_eq "quickstart_300d" name)) [
  | inl e ↦ inl (some-same p quickstart_300d (if-true _ _ _ _ e h))
  | inr e ↦ elim (Bool-cases (str_eq "full_730d" name)) [
    | inl d ↦ inr (some-same p full_730d (if-true _ _ _ _ d (if-false _ _ _ _ e h)))
    | inr d ↦ cc (if-false _ _ _ _ d (if-false _ _ _ _ e h))
  ]
]

get-InCatalog :
    (name : String) (available : Option ℤ) (p : PaperPracticeTrainingProfile)
    → get_training_profile name available ≡ return p
    → InCatalog p
unfolding get_training_profile
get-InCatalog name available p h =
    let (found, _, got) =
      bind-returns (looked_up name available)
        (λ x. or_raise (catalog_profile x) (value_error "Unknown paper-practice training profile"))
        p h in
    catalog-InCatalog found p (
      or_raise-returns (catalog_profile found)
        (value_error "Unknown paper-practice training profile") p got)

selected-InCatalog :
    (configured : String) (available : ℕ) (requested : Option String)
    (p : PaperPracticeTrainingProfile)
    → selected_training_profile configured available requested ≡ return p
    → InCatalog p
unfolding selected_training_profile
selected-InCatalog configured available none p h =
    get-InCatalog configured (some (pos available)) p h
selected-InCatalog configured available (some name) p h =
    get-InCatalog (if truthy name then name else configured) (some (pos available)) p h

abbrev warmup_error : Exception
warmup_error =
    runtime_error "Need at least one replay window after the selected training regimen warmup."

ready_days :
    (s e : Instant) (q : PaperPracticeTrainingProfile)
    → s ≤ e
    → not (assess_training_history_window s e q).ready ≡ false
    → required_history_days q ≤ days_between s e
unfolding assess_training_history_window
ready_days s e q h test = ground arith

module _ {Row World Comparison Outcome : Type 0} (r : Replayer Row World Comparison Outcome) where
  -- The training days lie before the first window, and the first window before the end.
  pub record IsSound (p : WalkPlan Row) : Type 0 where
    pub in_catalog : InCatalog p.profile
    pub encloses : Encloses r.bucket_start_utc p.history_start p.history_end p.history
    pub ready : required_history_days p.profile ≤ days_between p.history_start p.history_end
    pub trained : p.history_start + p.profile.minimum_training_days * day ≤ p.window_start
    pub starts : p.window_start ≤ p.history_end

  replay-IsSound :
      (q : PaperPracticeTrainingProfile) (rows : List Row) (s e : Instant) (p : WalkPlan Row)
      → InCatalog q
      → Encloses r.bucket_start_utc s e rows
      → required_history_days q ≤ days_between s e
      → plan_replay r q rows s e ≡ return p
      → IsSound p
  unfolding plan_replay
  replay-IsSound q rows s e p catalog enclosed ready h =
      let replay_rows = select (from r (s + q.minimum_training_days * day)) rows in
      let (_, k) =
        then-returns (raise_if (is_nil replay_rows) warmup_error)
          (bounds r replay_rows >>= λ x. return (plan_of q rows s e x.0)) p h in
      let ((start, last), b, got) =
        bind-returns (bounds r replay_rows) (λ x. return (plan_of q rows s e x.0)) p k in
      let replayed = bounds-Encloses r start last replay_rows b in
      subst IsSound (return-same (plan_of q rows s e start) p got) (record {
        in_catalog = catalog;
        encloses = enclosed;
        ready = ready;
        trained = replayed.greatest _ (select-Above r.bucket_start_utc _ rows);
        starts = omega (
          arith,
          replayed.ordered,
          replayed.least e (select-Below r.bucket_start_utc e _ rows enclosed.below),
        );
      })

  history-IsSound :
      (q : PaperPracticeTrainingProfile) (rows : List Row) (p : WalkPlan Row)
      → InCatalog q
      → plan_history r q rows ≡ return p
      → IsSound p
  unfolding plan_history
  history-IsSound q rows p catalog h =
      let ((s, e), b, k) = bind-returns _ _ p h in
      let (test, l) = then-returns _ _ p k in
      let enclosed = bounds-Encloses r s e rows b in
      replay-IsSound q rows s e p catalog enclosed
        (ready_days s e q enclosed.ordered (raise_if-returns _ _ test)) l

  -- A plan that is made is of a profile of the catalog. Its history is as long as the profile
  -- requires, its rows lie between the plan's first and last bucket, and the first window starts
  -- after the profile's training days and not behind the last bucket.
  pub plan-IsSound :
      (configured : String) (requested : Option String) (rows : List Row) (p : WalkPlan Row)
      → plan r configured requested rows ≡ return p
      → IsSound p
  unfolding plan
  plan-IsSound configured requested [] p h = cc
  plan-IsSound configured requested (row ∷ rows) p h =
      let (reach, _, k) =
        bind-returns (bounds r (row ∷ rows))
          (λ x. selected_training_profile configured (days_between x.0 x.1) requested >>= λ q.
            plan_history r q (select (from r (bounded_start q x.0 x.1)) (row ∷ rows)))
          p h in
      let (q, selected, l) =
        bind-returns (selected_training_profile configured (days_between reach.0 reach.1) requested)
          (λ q. plan_history r q (select (from r (bounded_start q reach.0 reach.1)) (row ∷ rows))) p
          k in
      history-IsSound q (select (from r (bounded_start q reach.0 reach.1)) (row ∷ rows)) p
        (selected-InCatalog configured (days_between reach.0 reach.1) requested q selected) l
