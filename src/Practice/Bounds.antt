-- ===== src/Practice/Bounds.antt =====
-- The first and the last bucket of the rows of a history: every row lies between them, and they
-- are buckets of rows.
use mathlib.Core.Path.{subst}
use defi_engine.Base.{
  ◌≡◌, refl, ◌≤◌, Bool, false, List, [], ◌∷◌, map, select, is_nil, ltb, leb, if◌then◌else◌,
  Bool-cases, inl, inr, arith,
}
use defi_engine.Base.Time.{Instant}
use defi_engine.Truth.Returns.{return-pair}
use defi_engine.Truth.{return}
use defi_engine.Practice.{Replayer, latest, earliest, bounds}

module _ {A : Type 0} (time : A → Instant) where
  -- No row is earlier, and no row is later.
  abbrev pub Above : Instant → List A → Type 0
  Above t [] = Unit
  Above t (row ∷ rows) = (t ≤ time row) × Above t rows

  abbrev pub Below : Instant → List A → Type 0
  Below t [] = Unit
  Below t (row ∷ rows) = (time row ≤ t) × Below t rows

  Above-le : (t u : Instant) (rows : List A) → t ≤ u → Above u rows → Above t rows
  Above-le t u [] h above = tt
  Above-le t u (row ∷ rows) h (here, above) = (omega arith, Above-le t u rows h above)

  earliest-Above :
      (t : Instant) (rows : List A)
      → (earliest t (map time rows) ≤ t) × Above (earliest t (map time rows)) rows
  unfolding earliest
  earliest-Above t [] = (omega arith, tt)
  earliest-Above t (row ∷ rows) =
      let later = earliest-Above (if ltb (time row) t then time row else t) rows in
      (ground (arith, later.0), (ground (arith, later.0), later.1))

  le-earliest :
      (s t : Instant) (rows : List A) → s ≤ t → Above s rows → s ≤ earliest t (map time rows)
  unfolding earliest
  le-earliest s t [] h above = h
  le-earliest s t (row ∷ rows) h (here, above) =
      le-earliest s (if ltb (time row) t then time row else t) rows (ground arith) above

  latest-le : (s t : Instant) (rows : List A) → t ≤ s → Below s rows → latest t (map time rows) ≤ s
  unfolding latest
  latest-le s t [] h below = h
  latest-le s t (row ∷ rows) h (here, below) =
      latest-le s (if ltb t (time row) then time row else t) rows (ground arith) below

  latest-ge : (t : Instant) (rows : List A) → t ≤ latest t (map time rows)
  unfolding latest
  latest-ge t [] = omega arith
  latest-ge t (row ∷ rows) =
      ground (arith, latest-ge (if ltb t (time row) then time row else t) rows)

  latest-Below : (t : Instant) (rows : List A) → Below (latest t (map time rows)) rows
  unfolding latest
  latest-Below t [] = tt
  latest-Below t (row ∷ rows) = (
    ground (arith, latest-ge (if ltb t (time row) then time row else t) rows),
    latest-Below (if ltb t (time row) then time row else t) rows,
  )

  -- What a selection keeps of the rows.
  pub select-Below :
      (t : Instant) (p : A → Bool) (rows : List A) → Below t rows → Below t (select p rows)
  unfolding select
  select-Below t p [] below = tt
  select-Below t p (row ∷ rows) (here, below) = elim (Bool-cases (p row)) [
    | inl e ↦ (rw e (here, select-Below t p rows below))
    | inr e ↦ (rw e (select-Below t p rows below))
  ]

  pub select-Above : (t : Instant) (rows : List A) → Above t (select (λ row. leb t (time row)) rows)
  unfolding select
  select-Above t [] = tt
  select-Above t (row ∷ rows) = elim (Bool-cases (leb t (time row))) [
    | inl e ↦ (rw e (ground arith, select-Above t rows))
    | inr e ↦ (rw e (select-Above t rows))
  ]

  -- A latest time is the time of a row, so that a selection from a time up to it is not empty.
  select-latest :
      (s t : Instant) (rows : List A)
      → leb s t ≡ false
      → s ≤ latest t (map time rows)
      → is_nil (select (λ row. leb s (time row)) rows) ≡ false
  unfolding select latest
  select-latest s t [] early h = ground arith
  select-latest s t (row ∷ rows) early h = elim (Bool-cases (leb s (time row))) [
    | inl e ↦ (rw e refl)
    | inr e ↦
        (rw e (select-latest s (if ltb t (time row) then time row else t) rows (ground arith) h))
  ]

  pub select-latest_row :
      (s : Instant) (row : A) (rows : List A)
      → s ≤ latest (time row) (map time rows)
      → is_nil (select (λ x. leb s (time x)) (row ∷ rows)) ≡ false
  unfolding select
  select-latest_row s row rows h = elim (Bool-cases (leb s (time row))) [
    | inl e ↦ (rw e refl)
    | inr e ↦ (rw e (select-latest s (time row) rows e h))
  ]

  -- Two times between which the rows lie, as close as can be.
  pub record Encloses (s e : Instant) (rows : List A) : Type 0 where
    pub above : Above s rows
    pub below : Below e rows
    pub ordered : s ≤ e
    pub greatest : (t : Instant) → Above t rows → t ≤ s
    pub least : (t : Instant) → Below t rows → e ≤ t
    pub reached : (t : Instant) → t ≤ e → is_nil (select (λ row. leb t (time row)) rows) ≡ false

  encloses :
      (row : A) (rows : List A)
      → Encloses
          (earliest (time row) (map time rows))
          (latest (time row) (map time rows))
          (row ∷ rows)
  encloses row rows = record {
    above = earliest-Above (time row) rows;
    below = (latest-ge (time row) rows, latest-Below (time row) rows);
    ordered = ground (arith, (earliest-Above (time row) rows).0, latest-ge (time row) rows);
    greatest = λ t (here, above). le-earliest t (time row) rows here above;
    least = λ t (here, below). latest-le t (time row) rows here below;
    reached = λ t. select-latest_row t row rows;
  }

module _ {Row World Comparison Outcome : Type 0} (r : Replayer Row World Comparison Outcome) where
  pub bounds-Encloses :
      (s e : Instant) (rows : List Row)
      → bounds r rows ≡ return (s, e)
      → Encloses r.bucket_start_utc s e rows
  unfolding bounds
  bounds-Encloses s e [] h = cc
  bounds-Encloses s e (row ∷ rows) h =
      let same = return-pair _ s _ e h in
      subst (λ x. Encloses r.bucket_start_utc x e (row ∷ rows)) same.0
        (subst
          (λ y.
            Encloses r.bucket_start_utc
              (earliest (r.bucket_start_utc row) (map r.bucket_start_utc rows)) y (row ∷ rows))
          same.1 (encloses r.bucket_start_utc row rows))

  pub bounds_of :
      (rows : List Row) → is_nil rows ≡ false → (x : Instant × Instant) × (bounds r rows ≡ return x)
  unfolding bounds
  bounds_of [] h = cc
  bounds_of (row ∷ rows) h = (_, refl)
