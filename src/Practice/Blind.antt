-- ===== src/Practice/Blind.antt =====
-- The calls of the walk-forward loop on rows before a time: they end the same way in two worlds
-- that differ only from that time on.
use mathlib.Core.Path.{subst}
use defi_engine.Base.{
  ◌≡◌, refl, sym, ap, ◌∙◌, inl, inr, ℕ, suc, ◌≤◌, ◌<◌, ◌&&◌, String, true, List, [], ◌∷◌, length,
  select, map, ltb, leb, if◌then◌else◌, Bool-cases, arith,
}
use defi_engine.Base.Members.{All}
use defi_engine.Base.Time.{Instant, isoformat_date}
use defi_engine.Truth.{Result, return, raise}
use defi_engine.Practice.{
  Replayer, and_then, latest, before, within, window_end, replay_frame, window_step,
}

early : (u start stop t : Instant) → stop ≤ t → (leb start u && ltb u stop) ≡ true → u < t
early u start stop t h e = ground arith

return-same : {A : Type 0} (a b : A) → ◌≡◌ {A = Result A} (return a) (return b) → a ≡ b
return-same a b h = cc

-- Two calls end the same way, in worlds that `R` relates.
module _ {W : Type 0} (R : W → W → Type 0) where
  abbrev pub Alike : {A : Type 0} → Result A × W → Result A × W → Type 0
  Alike x y = (x.0 ≡ y.0) × R x.1 y.1

  pub and_then-Alike :
      {A B : Type 0} (x y : Result A × W) (k l : A → W → Result B × W)
      → Alike x y
      → ((a : A) (v w : W) → R v w → Alike (k a v) (l a w))
      → Alike (and_then x k) (and_then y l)
  unfolding and_then
  and_then-Alike (return a, v) (return b, w) k l (same, related) h =
      subst (λ c. Alike (k a v) (l c w)) (return-same a b same) (h a v w related)
  and_then-Alike (return a, v) (raise e, w) k l (same, related) h = cc
  and_then-Alike (raise e, v) (return b, w) k l (same, related) h = cc
  and_then-Alike (raise e, v) (raise d, w) k l (same, related) h = ((cc), related)

module _ {Row World Comparison Outcome : Type 0} (r : Replayer Row World Comparison Outcome) where
  select-before :
      (stop later : Instant) (rows : List Row)
      → stop ≤ later
      → select (before r stop) (select (before r later) rows) ≡ select (before r stop) rows
  unfolding select
  select-before stop later [] h = refl
  select-before stop later (row ∷ rows) h = elim (Bool-cases (ltb (r.bucket_start_utc row) later)) [
    | inl early ↦ (rw early (rw (select-before stop later rows h) refl))
    | inr late ↦ (rw late (ground (arith, select-before stop later rows h)))
  ]

  -- Two histories with the same rows before a time.
  abbrev pub SameBefore : Instant → List Row → List Row → Type 0
  SameBefore t rows rows' = select (before r t) rows ≡ select (before r t) rows'

  pub SameBefore-earlier :
      (stop later : Instant) (rows rows' : List Row)
      → stop ≤ later
      → SameBefore later rows rows'
      → SameBefore stop rows rows'
  SameBefore-earlier stop later rows rows' h same =
      sym (select-before stop later rows h)
      ∙ ap (select (before r stop)) same
      ∙ select-before stop later rows' h

  -- All rows are before a time.
  abbrev pub AllBefore : Instant → List Row → Type 0
  AllBefore t rows = All (λ row. r.bucket_start_utc row < t) rows

  within-AllBefore :
      (start stop t : Instant) (rows : List Row)
      → stop ≤ t
      → AllBefore t (select (within r start stop) rows)
  unfolding select
  within-AllBefore start stop t [] h = tt
  within-AllBefore start stop t (row ∷ rows) h = elim (Bool-cases (within r start stop row)) [
    | inl e ↦
        rw e (early (r.bucket_start_utc row) start stop t h e, within-AllBefore start stop t rows h)
    | inr e ↦ rw e (within-AllBefore start stop t rows h)
  ]

  before-AllBefore :
      (stop t : Instant) (rows : List Row) → stop ≤ t → AllBefore t (select (before r stop) rows)
  unfolding select
  before-AllBefore stop t [] h = tt
  before-AllBefore stop t (row ∷ rows) h = elim (Bool-cases (before r stop row)) [
    | inl e ↦ rw e (ground arith, before-AllBefore stop t rows h)
    | inr e ↦ rw e (before-AllBefore stop t rows h)
  ]

  latest-before :
      (t u : Instant) (rows : List Row)
      → u < t
      → AllBefore t rows
      → latest u (map r.bucket_start_utc rows) < t
  unfolding latest
  latest-before t u [] h all = h
  latest-before t u (row ∷ rows) h (here, all) =
      latest-before t (if ltb u (r.bucket_start_utc row) then r.bucket_start_utc row else u) rows
        (ground arith) all

  -- The calls of the loop do not see what `R` leaves open, as long as they are given rows before
  -- `t`, and the comparison the date of a time before `t`.
  pub record IsBlind (R : World → World → Type 0) (t : Instant) : Type 0 where
    pub scores :
        (rows : List Row) (v w : World)
        → AllBefore t rows
        → R v w
        → Alike R (r.score rows v) (r.score rows w)
    pub compares :
        (start : String) (u : Instant) (v w : World)
        → u < t
        → R v w
        → Alike R (r.compare start (isoformat_date u) v) (r.compare start (isoformat_date u) w)
    pub runs :
        (index : ℕ) (rows : List Row) (c : Comparison) (v w : World)
        → AllBefore t rows
        → R v w
        → Alike R (r.run_window index rows c v) (r.run_window index rows c w)

  module _ (R : World → World → Type 0) (t : Instant) (blind : IsBlind R t) where
    replay_frame-Alike :
        (history_start : Instant) (frame : List Row) (results : List Outcome) (v w : World)
        → AllBefore t frame
        → R v w
        → Alike R
            (replay_frame r history_start frame results v)
            (replay_frame r history_start frame results w)
    unfolding replay_frame window_end
    replay_frame-Alike history_start [] results v w all related = (refl, related)
    replay_frame-Alike history_start (row ∷ rows) results v w all related =
        let u = latest (r.bucket_start_utc row) (map r.bucket_start_utc rows) in
        and_then-Alike R (r.compare (isoformat_date history_start) (isoformat_date u) v)
          (r.compare (isoformat_date history_start) (isoformat_date u) w) _ _
          (blind.compares (isoformat_date history_start) u v w
            (latest-before t (r.bucket_start_utc row) rows all.0 all.1) related)
          (λ c v₁ w₁ related₁.
            and_then-Alike R (r.run_window (suc (length results)) (row ∷ rows) c v₁)
              (r.run_window (suc (length results)) (row ∷ rows) c w₁) _ _
              (blind.runs (suc (length results)) (row ∷ rows) c v₁ w₁ all related₁)
              (λ outcome v₂ w₂ related₂. (refl, related₂)))

    -- The same rows before a window's end, which is not behind `t`, give the same window.
    pub window_step-Alike :
        (history_start start stop : Instant) (rows rows' : List Row) (results : List Outcome)
        (v w : World)
        → stop ≤ t
        → SameBefore stop rows rows'
        → R v w
        → Alike R
            (window_step r history_start rows start stop results v)
            (window_step r history_start rows' start stop results w)
    unfolding window_step
    window_step-Alike history_start start stop rows rows' results v w h same related =
        let seen = select (before r stop) rows in
        subst
          (λ s. Alike R (window_step r history_start rows start stop results v) (
            and_then (r.score s w) λ scored w₁.
              replay_frame r history_start (select (within r start stop) scored) results w₁))
          same
          (and_then-Alike R (r.score seen v) (r.score seen w) _ _
            (blind.scores seen v w (before-AllBefore stop t rows h) related)
            (λ scored v₁ w₁ related₁.
              replay_frame-Alike history_start (select (within r start stop) scored) results v₁ w₁
                (within-AllBefore start stop t scored h) related₁))
