-- ===== src/Paper/Guards.antt =====
-- settlement/paper.py: when the single tests of the settlement checks find nothing.
use mathlib.Core.Path.{subst}
use defi_engine.Base.{
  ◌≡◌, refl, ap, ◌↔◌, ℕ, String, Bool, true, false, not, ◌==◌, Option, none, some, List, [], ◌∷◌,
  ◌++◌, arith, is_nil, str_eq→eq, eq→str_eq, is_text, same_text, is_none,
}
use defi_engine.Base.Int.{ℤ, pos, negsuc, eq_ℤ, eq_ℤ→eq}
use defi_engine.Intent.{when}
use defi_engine.Intent.Ready.{is_nil-when}
use defi_engine.Paper.Validation.{same_ℤ}

pub is_nil-append_four :
    (a b c d : List String)
    → (is_nil (a ++ (b ++ (c ++ d))) ≡ true)
      ↔ ((is_nil a ≡ true) × (is_nil b ≡ true) × (is_nil c ≡ true) × (is_nil d ≡ true))
is_nil-append_four [] [] [] d = (λ h. (refl, refl, refl, h), λ h. h.3)
is_nil-append_four (x ∷ a) b c d = (λ h. cc, λ h. cc)
is_nil-append_four [] (x ∷ b) c d = (λ h. cc, λ h. cc)
is_nil-append_four [] [] (x ∷ c) d = (λ h. cc, λ h. cc)

pub is_text_iff : (o : Option String) (s : String) → (is_text o s ≡ true) ↔ (o ≡ some s)
is_text_iff none s = (λ h. cc, λ h. cc)
is_text_iff (some t) s =
    (λ h. ap some (str_eq→eq t s h), λ h. let same : t ≡ s = cc in eq→str_eq t s same)

pub same_text_iff : (o o' : Option String) → (same_text o o' ≡ true) ↔ (o ≡ o')
same_text_iff none none = (λ _. refl, λ _. refl)
same_text_iff none (some t) = (λ h. cc, λ h. cc)
same_text_iff (some s) none = (λ h. cc, λ h. cc)
same_text_iff (some s) (some t) =
    (λ h. ap some (str_eq→eq s t h), λ h. let same : s ≡ t = cc in eq→str_eq s t same)

pub eq_ℤ_refl : (n : ℤ) → eq_ℤ n n ≡ true
eq_ℤ_refl (pos n) = ground arith
eq_ℤ_refl (negsuc n) = ground arith

pub same_ℤ_iff : (o o' : Option ℤ) → (same_ℤ o o' ≡ true) ↔ (o ≡ o')
same_ℤ_iff none none = (λ _. refl, λ _. refl)
same_ℤ_iff none (some t) = (λ h. cc, λ h. cc)
same_ℤ_iff (some s) none = (λ h. cc, λ h. cc)
same_ℤ_iff (some s) (some t) = (
  λ h. ap some (eq_ℤ→eq s t h),
  λ h. let same : s ≡ t = cc in subst (λ x. eq_ℤ s x ≡ true) same (eq_ℤ_refl s),
)

pub not-nil : (b : Bool) (code : String) → (is_nil (when (not b) code) ≡ true) ↔ (b ≡ true)
not-nil true code = (λ _. refl, λ _. refl)
not-nil false code = (λ h. cc, λ h. cc)

pub is_known : {A : Type 0} (o : Option A) → (is_none o ≡ false) ↔ ((a : A) × (o ≡ some a))
is_known none = (λ h. cc, λ (a, e). cc)
is_known (some a) = (λ _. (a, refl), λ _. refl)

-- Four checks in a row, and the same with fewer.
pub is_nil-whens :
    (a b c d : Bool) (u v w x : String)
    → (is_nil (when a u ++ (when b v ++ (when c w ++ when d x))) ≡ true)
      ↔ ((a ≡ false) × (b ≡ false) × (c ≡ false) × (d ≡ false))
is_nil-whens a b c d u v w x =
    let parts = is_nil-append_four (when a u) (when b v) (when c w) (when d x) in
    (
      λ h.
          let (p, q, r, t) = parts.0 h in
          (
            (is_nil-when a u).0 p,
            (is_nil-when b v).0 q,
            (is_nil-when c w).0 r,
            (is_nil-when d x).0 t,
          ),
      λ (p, q, r, t). parts.1 (
        (is_nil-when a u).1 p,
        (is_nil-when b v).1 q,
        (is_nil-when c w).1 r,
        (is_nil-when d x).1 t,
      ),
    )

pub not-flip : (b : Bool) → (not b ≡ false) ↔ (b ≡ true)
not-flip true = (λ _. refl, λ _. refl)
not-flip false = (λ h. cc, λ h. cc)

pub references_iff :
    (o : Option ℕ) (id : ℕ) (v t : Option ℕ) (x y z : String)
    → (is_nil (
          when (elim o [ none ↦ true | some i ↦ not (i == id) ]) x
          ++ (when (is_none v) y ++ when (is_none t) z))
        ≡ true)
      ↔ ((o ≡ some id) × ((n : ℕ) × (v ≡ some n)) × ((n : ℕ) × (t ≡ some n)))
references_iff none id v t x y z = (λ h. cc, λ (e, f, g). cc)
references_iff (some i) id none t x y z = (λ h. ground arith, λ (e, (n, f), g). cc)
references_iff (some i) id (some v) none x y z = (λ h. ground arith, λ (e, f, (n, g)). cc)
references_iff (some i) id (some v) (some t) x y z = (
  λ h. let same : i ≡ id = ground arith in (ap some same, (v, refl), (t, refl)),
  λ (e, f, g). let same : i ≡ id = cc in ground arith,
)
