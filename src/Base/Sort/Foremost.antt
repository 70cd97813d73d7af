-- ===== src/Base/Sort/Foremost.antt =====
-- Ordered rows: the first one that passes a test comes before every other that does.
use defi_engine.Base.{
  ◌≡◌, Bool, true, false, Option, none, some, List, [], ◌∷◌, find_first, Bool-cases, inl, inr,
}
use defi_engine.Base.Members.{All}
use defi_engine.Base.Sort.{order_by, insert_row}
use defi_engine.Base.Sort.Kept.{All-insert_row}

-- Sorting by a total and transitive test.
module _ {A : Type 0} (first : A → A → Bool) where
  abbrev pub Before : A → List A → Type 0
  Before x xs = All (λ y. first x y ≡ true) xs

  abbrev pub IsSorted : List A → Type 0
  IsSorted [] = Unit
  IsSorted (x ∷ xs) = Before x xs × IsSorted xs

  abbrev pub IsTotal : Type 0
  IsTotal = (a b : A) → first a b ≡ false → first b a ≡ true

  abbrev pub IsTransitive : Type 0
  IsTransitive = (a b c : A) → first a b ≡ true → first b c ≡ true → first a c ≡ true

  abbrev pub IsReflexive : Type 0
  IsReflexive = (a : A) → first a a ≡ true

  All-of-insert_row :
      (P : A → Type 0) (row : A) (xs : List A) → All P (insert_row first row xs) → P row × All P xs
  unfolding insert_row
  All-of-insert_row P row [] all = (all.0, tt)
  All-of-insert_row P row (x ∷ xs) all = elim (Bool-cases (first row x)) [
    | inl e ↦ let h : P row × All P (x ∷ xs) = rw e at all in h
    | inr e ↦
        let h : P x × All P (insert_row first row xs) = rw e at all in
        let (mine, others) = All-of-insert_row P row xs h.1 in (mine, (h.0, others))
  ]

  All-of-order_by : (P : A → Type 0) (xs : List A) → All P (order_by first xs) → All P xs
  unfolding order_by
  All-of-order_by P [] all = tt
  All-of-order_by P (x ∷ xs) all =
      let (mine, others) = All-of-insert_row P x (order_by first xs) all in
      (mine, All-of-order_by P xs others)

  Before-trans :
      (trans : IsTransitive) (a b : A) (xs : List A) → first a b ≡ true → Before b xs → Before a xs
  Before-trans trans a b [] h before = tt
  Before-trans trans a b (x ∷ xs) h before =
      (trans a b x h before.0, Before-trans trans a b xs h before.1)

  insert_row-IsSorted :
      (total : IsTotal) (trans : IsTransitive) (row : A) (xs : List A)
      → IsSorted xs
      → IsSorted (insert_row first row xs)
  unfolding insert_row
  insert_row-IsSorted total trans row [] sorted = (tt, tt)
  insert_row-IsSorted total trans row (x ∷ xs) sorted = elim (Bool-cases (first row x)) [
    | inl e ↦ rw e ((e, Before-trans trans row x xs e sorted.0), sorted)
    | inr e ↦ rw e (
      All-insert_row (λ y. first x y ≡ true) first row xs (total row x e) sorted.0,
      insert_row-IsSorted total trans row xs sorted.1,
    )
  ]

  pub order_by-IsSorted :
      (total : IsTotal) (trans : IsTransitive) (xs : List A) → IsSorted (order_by first xs)
  unfolding order_by
  order_by-IsSorted total trans [] = tt
  order_by-IsSorted total trans (x ∷ xs) =
      insert_row-IsSorted total trans x (order_by first xs) (order_by-IsSorted total trans xs)

  -- The first row of an ordered list that passes a test comes before every other that does.
  abbrev pub Foremost : (A → Bool) → Option A → List A → Type 0
  Foremost p none xs = All (λ x. p x ≡ false) xs
  Foremost p (some a) xs = (p a ≡ true) × All (λ x. p x ≡ true → first a x ≡ true) xs

  Before-All :
      (p : A → Bool) (a : A) (xs : List A)
      → Before a xs
      → All (λ x. p x ≡ true → first a x ≡ true) xs
  Before-All p a [] before = tt
  Before-All p a (x ∷ xs) before = (λ _. before.0, Before-All p a xs before.1)

  skipped :
      (p : A → Bool) (x : A) (xs : List A) (o : Option A)
      → p x ≡ false
      → Foremost p o xs
      → Foremost p o (x ∷ xs)
  skipped p x xs none fails h = (fails, h)
  skipped p x xs (some a) fails (holds, all) = (holds, ((λ passes. cc), all))

  pub sorted-Foremost :
      (refl_ : IsReflexive) (p : A → Bool) (xs : List A)
      → IsSorted xs
      → Foremost p (find_first p xs) xs
  unfolding find_first
  sorted-Foremost refl_ p [] sorted = tt
  sorted-Foremost refl_ p (x ∷ xs) sorted = elim (Bool-cases (p x)) [
    | inl e ↦ rw e (e, ((λ _. refl_ x), Before-All p x xs sorted.0))
    | inr e ↦ rw e (skipped p x xs (find_first p xs) e (sorted-Foremost refl_ p xs sorted.1))
  ]

  Foremost-order_by :
      (p : A → Bool) (o : Option A) (xs : List A)
      → Foremost p o (order_by first xs)
      → Foremost p o xs
  Foremost-order_by p none xs h = All-of-order_by (λ x. p x ≡ false) xs h
  Foremost-order_by p (some a) xs (holds, all) =
      (holds, All-of-order_by (λ x. p x ≡ true → first a x ≡ true) xs all)

  -- The same, of the rows as they stand in the table.
  pub newest_row :
      (refl_ : IsReflexive) (total : IsTotal) (trans : IsTransitive) (p : A → Bool) (xs : List A)
      → Foremost p (find_first p (order_by first xs)) xs
  newest_row refl_ total trans p xs =
      Foremost-order_by p (find_first p (order_by first xs)) xs
        (sorted-Foremost refl_ p (order_by first xs) (order_by-IsSorted total trans xs))
