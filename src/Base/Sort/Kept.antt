-- ===== src/Base/Sort/Kept.antt =====
-- What ordering and filtering keep of the rows.
use mathlib.Core.Path.{◌≡◌}
use mathlib.Core.Bool.{Bool, true}
use mathlib.Core.List.{List, [], ◌∷◌}
use mathlib.Core.Logic.{inl, inr}
use defi_engine.Base.Tests.{Bool-cases}
use defi_engine.Base.Lists.{select}
use defi_engine.Base.Members.{All}
use defi_engine.Base.Sort.{order_by, insert_row}

-- An element-wise property survives ordering and filtering.
module _ {ℓ} {A : Type ℓ} (P : A → Type 0) where
  pub All-insert_row :
      (first : A → A → Bool) (row : A) (xs : List A)
      → P row
      → All P xs
      → All P (insert_row first row xs)
  unfolding insert_row
  All-insert_row first row [] h all = (h, tt)
  All-insert_row first row (x ∷ xs) h all = elim (Bool-cases (first row x)) [
    | inl e ↦ rw e (h, all)
    | inr e ↦ rw e (all.0, All-insert_row first row xs h all.1)
  ]

  pub All-order_by : (first : A → A → Bool) (xs : List A) → All P xs → All P (order_by first xs)
  unfolding order_by
  All-order_by first [] all = tt
  All-order_by first (x ∷ xs) all =
      All-insert_row first x (order_by first xs) all.0 (All-order_by first xs all.1)

  pub All-select :
      (p : A → Bool) (xs : List A) → All P xs → All (λ x. P x × (p x ≡ true)) (select p xs)
  unfolding select
  All-select p [] all = tt
  All-select p (x ∷ xs) all = elim (Bool-cases (p x)) [
    | inl e ↦ rw e ((all.0, e), All-select p xs all.1)
    | inr e ↦ rw e (All-select p xs all.1)
  ]
