-- ===== src/Base/Sort.antt =====
-- Rows in the order of a text column, ascending and stable: `order_by(key.asc())`.
pub mod Kept
pub mod Foremost
use Prim.Native.Nat.{Ordering}
use Prim.Native.String.{String, compare}
use mathlib.Core.Bool.{Bool, true, false}
use mathlib.Core.List.{List, [], ◌∷◌}
use defi_engine.Base.Tests.{if◌then◌else◌}

abbrev pub text_le : String → String → Bool
text_le s t = elim (compare s t) [ Ordering.gt ↦ false | _ ↦ true ]

module _ {ℓ} {A : Type ℓ} (key : A → String) where
  unfoldable pub insert_by : A → List A → List A
  insert_by row [] = row ∷ []
  insert_by row (x ∷ xs) = if text_le (key row) (key x) then row ∷ x ∷ xs else x ∷ insert_by row xs

  unfoldable pub sort_by : List A → List A
  unfolding insert_by
  sort_by [] = []
  sort_by (x ∷ xs) = insert_by x (sort_by xs)

-- Rows in the order of a test: `first a b` says that `a` may stand before `b`. Stable.
module _ {ℓ} {A : Type ℓ} (first : A → A → Bool) where
  unfoldable pub insert_row : A → List A → List A
  insert_row row [] = row ∷ []
  insert_row row (x ∷ xs) = if first row x then row ∷ x ∷ xs else x ∷ insert_row row xs

  unfoldable pub order_by : List A → List A
  unfolding insert_row
  order_by [] = []
  order_by (x ∷ xs) = insert_row x (order_by xs)
