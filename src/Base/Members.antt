-- ===== src/Base/Members.antt =====
-- Properties of all and of some elements of a list, and what searches and appends do to them.
use mathlib.Core.Path.{◌≡◌, refl, ap, ◌∙◌, subst}
use mathlib.Core.Bool.{Bool, true, false}
use mathlib.Core.List.{List, [], ◌∷◌, ◌++◌}
use mathlib.Core.Logic.{◌⊎◌, inl, inr}
use mathlib.Core.Option.{Option, none, some}
use defi_engine.Base.Tests.{if◌then◌else◌, Bool-cases, if-true, if-false}
use defi_engine.Base.Lists.{find_first, best, update}

module _ {ℓ} {A : Type ℓ} where
  abbrev pub All : (A → Type 0) → List A → Type 0
  All P [] = Unit
  All P (x ∷ xs) = P x × All P xs

  abbrev pub Any : (A → Type 0) → List A → Type 0
  Any P [] = ⊥
  Any P (x ∷ xs) = P x ⊎ Any P xs

  pub All-append_one :
      (P : A → Type 0) (xs : List A) (x : A) → All P xs → P x → All P (xs ++ x ∷ [])
  All-append_one P [] x all holds = (holds, tt)
  All-append_one P (y ∷ ys) x all holds = (all.0, All-append_one P ys x all.1 holds)

  pub All-weaken : (P Q : A → Type 0) (xs : List A) → ((x : A) → P x → Q x) → All P xs → All Q xs
  All-weaken P Q [] f all = tt
  All-weaken P Q (x ∷ xs) f all = (f x all.0, All-weaken P Q xs f all.1)

  pub Any-append : (P : A → Type 0) (xs ys : List A) → Any P xs → Any P (xs ++ ys)
  Any-append P [] ys any = absurd any
  Any-append P (x ∷ xs) ys (inl h) = inl h
  Any-append P (x ∷ xs) ys (inr h) = inr (Any-append P xs ys h)

  pub Any-append_right : (P : A → Type 0) (xs ys : List A) → Any P ys → Any P (xs ++ ys)
  Any-append_right P [] ys any = any
  Any-append_right P (x ∷ xs) ys any = inr (Any-append_right P xs ys any)

  -- From an element with a property, and a property of all elements.
  pub All-Any :
      (P Q R : A → Type 0) (xs : List A)
      → ((x : A) → P x → Q x → R x)
      → All P xs
      → Any Q xs
      → Any R xs
  All-Any P Q R [] f all any = absurd any
  All-Any P Q R (x ∷ xs) f all (inl h) = inl (f x all.0 h)
  All-Any P Q R (x ∷ xs) f all (inr h) = inr (All-Any P Q R xs f all.1 h)

  pub Any-weaken : (P Q : A → Type 0) (xs : List A) → ((x : A) → P x → Q x) → Any P xs → Any Q xs
  Any-weaken P Q [] f any = absurd any
  Any-weaken P Q (x ∷ xs) f (inl h) = inl (f x h)
  Any-weaken P Q (x ∷ xs) f (inr h) = inr (Any-weaken P Q xs f h)

  if_cases :
      (b : Bool) (x a : A) (o : Option A)
      → (if b then some x else o) ≡ some a
      → (a ≡ x) ⊎ (o ≡ some a)
  if_cases true x a o e = inl cc
  if_cases false x a o e = inr e

  -- What a search finds is an element.
  pub find_first-Any :
      (P : A → Type 0) (p : A → Bool) (xs : List A) (a : A)
      → find_first p xs ≡ some a
      → P a
      → Any P xs
  unfolding find_first
  find_first-Any P p [] a e h = cc
  find_first-Any P p (x ∷ xs) a e h = elim (if_cases (p x) x a (find_first p xs) e) [
    | inl same ↦ inl (subst P same h)
    | inr found ↦ inr (find_first-Any P p xs a found h)
  ]

  best_cases :
      (better : A → A → Bool) (x a : A) (o : Option A)
      → (elim o [ none ↦ some x | some y ↦ some (if better x y then y else x) ]) ≡ some a
      → (a ≡ x) ⊎ (o ≡ some a)
  best_cases better x a none e = inl cc
  best_cases better x a (some y) e = go (better x y) e
    where
      go : (b : Bool) → some (if b then y else x) ≡ some a → (a ≡ x) ⊎ (some y ≡ some a)
      go true e = inr e
      go false e = inl cc

  pub best-Any :
      (P : A → Type 0) (better : A → A → Bool) (xs : List A) (a : A)
      → best better xs ≡ some a
      → P a
      → Any P xs
  unfolding best
  best-Any P better [] a e h = cc
  best-Any P better (x ∷ xs) a e h = elim (best_cases better x a (best better xs) e) [
    | inl same ↦ inl (subst P same h)
    | inr found ↦ inr (best-Any P better xs a found h)
  ]

  -- What holds of some element and does not speak of it, holds.
  pub any_of : {P : Type 0} (xs : List A) → Any (λ _. P) xs → P
  any_of [] any = absurd any
  any_of (x ∷ xs) (inl h) = h
  any_of (x ∷ xs) (inr h) = any_of xs h

-- A search for what an update does not change finds the updated element.
pub find_first-update {ℓ} :
    {A : Type ℓ} (p q : A → Bool) (f : A → A) (xs : List A) (a : A)
    → ((x : A) → p (f x) ≡ p x)
    → q a ≡ true
    → find_first p xs ≡ some a
    → find_first p (update q f xs) ≡ some (f a)
unfolding find_first update
find_first-update p q f [] a keeps chosen h = cc
find_first-update p q f (x ∷ xs) a keeps chosen h = elim (Bool-cases (p x)) [
  | inl here ↦
      let same = if-true (p x) (some x) (find_first p xs) (some a) here h in
      let x_is : x ≡ a = cc in
      let hit : q x ≡ true = ap q x_is ∙ chosen in rw (hit, keeps x, here, x_is)
  | inr later ↦
      let found = if-false (p x) (some x) (find_first p xs) (some a) later h in
      let rest = find_first-update p q f xs a keeps chosen found in
      elim (Bool-cases (q x)) [
        | inl hit ↦ rw (hit, keeps x, later, rest)
        | inr miss ↦ rw (miss, later, rest)
      ]
]

-- The rows that pass the test were rewritten as `P` says, the others are as they were, and the
-- order is kept.
abbrev pub Changed : {A : Type 0} → (A → Bool) → (A → A → Type 0) → List A → List A → Type 0
Changed p P [] [] = Unit
Changed p P (x ∷ xs) (y ∷ ys) =
    (((p x ≡ true) × P x y) ⊎ ((p x ≡ false) × (y ≡ x))) × Changed p P xs ys
Changed p P _ _ = ⊥

pub update-Changed :
    {A : Type 0} (p : A → Bool) (P : A → A → Type 0) (f : A → A) (xs : List A)
    → ((x : A) → P x (f x))
    → Changed p P xs (update p f xs)
unfolding update
update-Changed p P f [] h = tt
update-Changed p P f (x ∷ xs) h = elim (Bool-cases (p x)) [
  | inl e ↦ rw e (inl (refl, h x), update-Changed p P f xs h)
  | inr e ↦ rw e (inr (refl, refl), update-Changed p P f xs h)
]
