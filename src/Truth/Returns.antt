-- ===== src/Truth/Returns.antt =====
-- What follows from a call that returned: every step of its do block returned as well.
use mathlib.Core.Path.{subst}
use defi_engine.Base.{◌≡◌, refl, sym, ◌⊎◌, inl, inr, Bool, true, false, Option, none, some}
use defi_engine.Env.{Env}
use defi_engine.Truth.Outcome.{Exception, Result, return, raise, ◌>>=◌, ◌>>◌, raise_if, or_raise}
use defi_engine.Truth.Tables.{Database, finish}

pub bind-returns {ℓ κ} :
    {A : Type ℓ} {B : Type κ} (m : Result A) (f : A → Result B) (b : B)
    → (m >>= f) ≡ return b
    → (a : A) × (m ≡ return a) × (f a ≡ return b)
unfolding ◌>>=◌
bind-returns (return a) f b h = (a, refl, h)
bind-returns (raise e) f b h = cc

pub then-returns {ℓ} :
    {B : Type ℓ} (m : Result (Unit {0})) (k : Result B) (b : B)
    → (m >> k) ≡ return b
    → (m ≡ return tt) × (k ≡ return b)
unfolding ◌>>=◌ ◌>>◌
then-returns (return tt) k b h = (refl, h)
then-returns (raise e) k b h = cc

pub raise_if-returns : (test : Bool) (e : Exception) → raise_if test e ≡ return tt → test ≡ false
unfolding raise_if
raise_if-returns true e h = cc
raise_if-returns false e h = refl

pub or_raise-returns {ℓ} :
    {A : Type ℓ} (o : Option A) (e : Exception) (a : A) → or_raise o e ≡ return a → o ≡ some a
unfolding or_raise
or_raise-returns none e a h = cc
or_raise-returns (some x) e a h = cc

-- A property of the database is kept by a call that keeps it when it returns.
pub finish-keeps {ℓ κ} :
    {E : Env} {A : Type ℓ} (P : Database E → Type κ) (db : Database E) (r : Result (A × Database E))
    → P db
    → ((a : A) (db' : Database E) → r ≡ return (a, db') → P db')
    → P (finish db r).1
finish-keeps P db (return (a, db')) holds f = f a db' refl
finish-keeps P db (raise e) holds f = holds

-- A call that ends by raising leaves the database as it was.
pub finish-raises {ℓ} :
    {E : Env} {A : Type ℓ} (db : Database E) (r : Result (A × Database E)) (e : Exception)
    → (finish db r).0 ≡ raise e
    → (finish db r).1 ≡ db
finish-raises db (return (a, db')) e h = cc
finish-raises db (raise e') e h = refl

pub finish-returns {ℓ} :
    {E : Env} {A : Type ℓ} (db : Database E) (r : Result (A × Database E)) (a : A)
    (db' : Database E)
    → ◌≡◌ {A = Result A × Database E} (finish db r) (return a, db')
    → r ≡ return (a, db')
finish-returns db (return (b, db'')) a db' h = cc
finish-returns db (raise e) a db' h = cc

pub return-pair {ℓ κ} :
    {A : Type ℓ} {B : Type κ} (a b : A) (x y : B)
    → ◌≡◌ {A = Result (A × B)} (return (a, x)) (return (b, y))
    → (a ≡ b) × (x ≡ y)
return-pair a b x y h = (cc, cc)

-- A property is kept by an owner's call that writes nothing when it raises and keeps it when it
-- returns.
pub owner-keeps {ℓ κ} :
    {E : Env} {A : Type ℓ} (P : Database E → Type κ) (db : Database E) (o : Result A × Database E)
    → P db
    → ((e : Exception) → o.0 ≡ raise e → o.1 ≡ db)
    → ((a : A) (db' : Database E) → ◌≡◌ {A = Result A × Database E} o (return a, db') → P db')
    → P o.1
owner-keeps P db (return a, db') holds raises returns = returns a db' refl
owner-keeps P db (raise e, db') holds raises returns = subst P (sym (raises e refl)) holds

pub Result-cases {ℓ} :
    {A : Type ℓ} (r : Result A) → ((a : A) × (r ≡ return a)) ⊎ ((e : Exception) × (r ≡ raise e))
Result-cases (return a) = inl (a, refl)
Result-cases (raise e) = inr (e, refl)
