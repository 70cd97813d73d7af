-- ===== src/Base/Lists.antt =====
-- Lists measured by native numbers, membership by a test, and searches that keep the first match.
use Prim.Native.Nat.{ℕ, suc}
use Prim.Native.String.{String}
use mathlib.Core.Path.{◌≡◌}
use mathlib.Core.Bool.{Bool, true, false, ◌||◌}
use mathlib.Core.List.{List, [], ◌∷◌}
use mathlib.Core.Logic.{inl, inr}
use mathlib.Core.Option.{Option, none, some}
use native.Mathlib.Omega.{arith}
use defi_engine.Base.Tests.{if◌then◌else◌, str_eq, Option-cases}

module _ {ℓ} {A : Type ℓ} where
  abbrev pub length : List A → ℕ
  length [] = 0
  length (x ∷ xs) = suc (length xs)

  -- Python's truth value of a list, negated.
  abbrev pub is_nil : List A → Bool
  is_nil [] = true
  is_nil (x ∷ xs) = false

  -- The first element that passes the test.
  unfoldable pub find_first : (A → Bool) → List A → Option A
  find_first p [] = none
  find_first p (x ∷ xs) = if p x then some x else find_first p xs

  -- What a search finds passes the test.
  pub find_first_holds :
      (p : A → Bool) (xs : List A) (a : A) → find_first p xs ≡ some a → p a ≡ true
  unfolding find_first
  find_first_holds p [] a h = ground arith
  find_first_holds p (x ∷ xs) a h = ground (arith, find_first_holds p xs a)

  -- The best element: `better a b` says that `b` replaces `a`. The rows stand in insertion order.
  unfoldable pub best : (A → A → Bool) → List A → Option A
  best better [] = none
  best better (x ∷ xs) = elim (best better xs) [
    | none ↦ some x
    | some y ↦ some (if better x y then y else x)
  ]

module _ {ℓ} {A : Type ℓ} where
  -- `filter_by(...).all()`, in insertion order.
  unfoldable pub select : (A → Bool) → List A → List A
  select p [] = []
  select p (x ∷ xs) = if p x then x ∷ select p xs else select p xs

  -- `order_by(key.desc(), ...).first()`
  pub best_holds :
      (p : A → Bool) (better : A → A → Bool) (xs : List A) (a : A)
      → best better (select p xs) ≡ some a
      → p a ≡ true
  unfolding best select
  best_holds p better [] a h = ground arith
  best_holds p better (x ∷ xs) a h = elim (Option-cases (best better (select p xs))) [
    | inl empty ↦ ground (arith, best_holds p better xs a)
    | inr (y, e) ↦ ground (arith, best_holds p better xs a, best_holds p better xs y e)
  ]

abbrev pub contains : String → List String → Bool
contains s [] = false
contains s (t ∷ ts) = str_eq s t || contains s ts

-- Rows that pass the test are rewritten in place.
module _ {ℓ} {A : Type ℓ} where
  unfoldable pub update : (A → Bool) → (A → A) → List A → List A
  update p f [] = []
  update p f (x ∷ xs) = (if p x then f x else x) ∷ update p f xs
