-- ===== src/Base/Text/RoundTrip.antt =====
-- `int(str(n))` gives `n` back: the printed digits are read in order, and nothing is stripped.
use Prim.Native.Nat.{ℕ, zero, suc, ◌+◌, ◌-◌, ◌*◌, ◌/◌, ◌%◌, ◌≤◌, ◌<◌}
use Prim.Native.Char.{code}
use Prim.Native.String.{String}
use mathlib.Core.Path.{◌≡◌, refl, ap, ◌∙◌}
use mathlib.Core.Logic.{inl, inr}
use mathlib.Core.Bool.{Bool, true, false}
use mathlib.Core.Option.{some}
use mathlib.Core.List.{List, [], ◌∷◌, ◌++◌, reverse, reverse-cons, reverse-reverse}
use native.Mathlib.Omega.{arith}
use defi_engine.Base.Tests.{◌==◌, Bool-cases}
use defi_engine.Base.Int.{pos}
use defi_engine.Base.Text.{
  codes, digit, code-digit, show_digits, str_ℕ, parse_digits, parse_signed, to_ℤ, lstrip, strip,
  int_of, is_digit,
}

add-sub : (n : ℕ) → n + 48 - 48 ≡ n
add-sub n = omega arith

is_digit-add : (n : ℕ) → n < 10 → is_digit (n + 48) ≡ true
is_digit-add n h = ground arith

-- A digit is read as its value.
parse_digits-digit :
    (b : Bool) (acc n : ℕ) (cs : List ℕ)
    → n < 10
    → parse_digits b acc (code (digit n) ∷ cs) ≡ parse_digits true (acc * 10 + n) cs
unfolding parse_digits
parse_digits-digit b acc n cs h = rw (code-digit n h, is_digit-add n h, add-sub n) refl

parse_digits-show :
    (fuel n : ℕ) (b : Bool) (rest : String)
    → n < fuel
    → parse_digits b 0 (codes (show_digits fuel n rest)) ≡ parse_digits true n (codes rest)
unfolding show_digits
parse_digits-show zero n b rest h = elim h [ ]
parse_digits-show (suc fuel) n b rest h = elim (Bool-cases (n / 10 == 0)) [
  | inl small ↦ rw small (
      parse_digits-digit b 0 (n % 10) (codes rest) (omega arith)
      ∙ ap (λ k. parse_digits true k (codes rest)) (ground arith))
  | inr more ↦ rw more (
      parse_digits-show fuel (n / 10) b (String.◌∷◌ (digit (n % 10)) rest) (ground arith)
      ∙ parse_digits-digit true (n / 10) (n % 10) (codes rest) (omega arith)
      ∙ ap (λ k. parse_digits true k (codes rest)) (omega arith))
]

abbrev AllDigits : List ℕ → Type 0
AllDigits [] = Unit
AllDigits (c ∷ cs) = (48 ≤ c) × (c ≤ 57) × AllDigits cs

show_digits-AllDigits :
    (fuel n : ℕ) (rest : String)
    → AllDigits (codes rest)
    → AllDigits (codes (show_digits fuel n rest))
unfolding show_digits
show_digits-AllDigits zero n rest h = h
show_digits-AllDigits (suc fuel) n rest h =
    let here : AllDigits (code (digit (n % 10)) ∷ codes rest) =
      (omega (arith, code-digit (n % 10)), omega (arith, code-digit (n % 10)), h) in
    elim (Bool-cases (n / 10 == 0)) [
      | inl small ↦ rw small here
      | inr more ↦
          rw more (show_digits-AllDigits fuel (n / 10) (String.◌∷◌ (digit (n % 10)) rest) here)
    ]

AllDigits-append : (xs ys : List ℕ) → AllDigits xs → AllDigits ys → AllDigits (xs ++ ys)
AllDigits-append [] ys hx hy = hy
AllDigits-append (x ∷ xs) ys hx hy = (hx.0, hx.1, AllDigits-append xs ys hx.2 hy)

reverse-AllDigits : (xs : List ℕ) → AllDigits xs → AllDigits (reverse xs)
reverse-AllDigits [] h = tt
reverse-AllDigits (x ∷ xs) h =
    rw reverse-cons
      (AllDigits-append (reverse xs) (x ∷ []) (reverse-AllDigits xs h.2) (h.0, h.1, tt))

lstrip_digits : (xs : List ℕ) → AllDigits xs → lstrip xs ≡ xs
unfolding lstrip
lstrip_digits [] h = refl
lstrip_digits (x ∷ xs) h = ground arith

strip_digits : (xs : List ℕ) → AllDigits xs → strip xs ≡ xs
unfolding strip
strip_digits xs h =
    rw (lstrip_digits xs h)
      (rw (lstrip_digits (reverse xs) (reverse-AllDigits xs h)) (reverse-reverse xs))

parse_signed_digits :
    (xs : List ℕ) → AllDigits xs → parse_signed xs ≡ to_ℤ (parse_digits false 0 xs)
unfolding parse_signed
parse_signed_digits [] h = refl
parse_signed_digits (x ∷ xs) h = ground arith

-- `int(str(n)) == n` for every natural number.
pub int_of-str : (n : ℕ) → int_of (str_ℕ n) ≡ some (pos n)
unfolding int_of str_ℕ
int_of-str n =
    let digits = show_digits-AllDigits (suc n) n "" tt in
    rw (strip_digits _ digits)
      (parse_signed_digits _ digits ∙ ap to_ℤ (parse_digits-show (suc n) n false "" (omega arith)))
