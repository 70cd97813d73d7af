-- ===== src/Json/Convert.antt =====
-- Python's conversions of a decoded JSON value: `bool(x)`, `float(x)` and `int(x)`.
use defi_engine.Base.{Bool, true, false, not, ◌&&◌, if◌then◌else◌, truthy, ◌==◌}
use defi_engine.Base.Int.{ℤ, pos, negsuc}
use defi_engine.Base.Text.{int_of}
use defi_engine.Json.{Json, nil, cons, end, field}
use defi_engine.Env.{Env}
use defi_engine.Truth.{Result, return, raise, or_raise, type_error, value_error}

module _ (E : Env) where
  open E use {Float, float_zero, of_int, le, trunc, float_of}

  -- `bool(x)`
  unfoldable pub to_bool : Json Float → Bool
  to_bool Json.null = false
  to_bool (Json.bool b) = b
  to_bool (Json.num (pos n)) = not (n == 0)
  to_bool (Json.num (negsuc n)) = true
  to_bool (Json.float x) = not (le x float_zero && le float_zero x)
  to_bool (Json.text s) = truthy s
  to_bool (Json.arr nil) = false
  to_bool (Json.arr (cons x xs)) = true
  to_bool (Json.obj end) = false
  to_bool (Json.obj (field k v fs)) = true

  unfoldable pub to_float : Json Float → Result Float
  to_float (Json.bool b) = return (of_int (pos (if b then 1 else 0)))
  to_float (Json.num n) = return (of_int n)
  to_float (Json.float x) = return x
  to_float (Json.text s) = or_raise (float_of s) (value_error "could not convert string to float")
  to_float _ = raise (type_error "float() argument must be a string or a real number")

  unfoldable pub to_int : Json Float → Result ℤ
  to_int (Json.bool b) = return (pos (if b then 1 else 0))
  to_int (Json.num n) = return n
  to_int (Json.float x) = or_raise (trunc x) (value_error "cannot convert float NaN to integer")
  to_int (Json.text s) = or_raise (int_of s) (value_error "invalid literal for int() with base 10")
  to_int _ = raise (type_error "int() argument must be a string or a real number")
