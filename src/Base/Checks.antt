-- ===== src/Base/Checks.antt =====
-- Lists of tests with their codes: the codes of the tests that fire.
use defi_engine.Base.{
  ◌≡◌, refl, ◌↔◌, String, Bool, true, false, List, [], ◌∷◌, if◌then◌else◌, is_nil,
}

-- The codes of the tests that fire, in their order.
unfoldable pub failing : List (Bool × String) → List String
failing [] = []
failing ((fires, code) ∷ rest) = if fires then code ∷ failing rest else failing rest

-- No test fires.
abbrev pub Clear : List (Bool × String) → Type 0
Clear [] = Unit
Clear ((fires, code) ∷ rest) = (fires ≡ false) × Clear rest

pub failing_none : (l : List (Bool × String)) → (is_nil (failing l) ≡ true) ↔ Clear l
unfolding failing
failing_none [] = (λ _. tt, λ _. refl)
failing_none ((true, code) ∷ rest) = (λ h. cc, λ h. cc)
failing_none ((false, code) ∷ rest) =
    (λ h. (refl, (failing_none rest).0 h), λ h. (failing_none rest).1 h.1)
