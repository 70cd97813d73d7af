-- ===== src/Truth/Outcome.antt =====
-- How a call of an owner ends: it returns, or it raises one of these exceptions. The message of an
-- exception is its text; IntegrityError is what the database raises on a violated constraint.
use defi_engine.Base.{String, Bool, true, false, Option, none, some}

pub data Exception : Type 0 where
  runtime_error value_error type_error integrity_error : String → Exception
  key_error attribute_error overflow_error : String → Exception

pub data Result {ℓ} (A : Type ℓ) : Type ℓ where
  return : A → Result A
  raise : Exception → Result A

infixl 5 ◌>>=◌ ◌>>◌
unfoldable pub ◌>>=◌ {ℓ κ} : {A : Type ℓ} {B : Type κ} → Result A → (A → Result B) → Result B
return a >>= f = f a
raise e >>= f = raise e

unfoldable pub ◌>>◌ {ℓ} : {B : Type ℓ} → Result (Unit {0}) → Result B → Result B
m >> k = m >>= λ _. k

unfoldable pub raise_if : Bool → Exception → Result (Unit {0})
raise_if true e = raise e
raise_if false e = return tt

unfoldable pub or_raise {ℓ} : {A : Type ℓ} → Option A → Exception → Result A
or_raise none e = raise e
or_raise (some a) e = return a

-- A NOT NULL column.
abbrev pub not_null {ℓ} : {A : Type ℓ} → Option A → Result A
not_null o = or_raise o (integrity_error "NOT NULL constraint failed")
