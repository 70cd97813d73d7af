-- ===== src/Env.antt =====
-- What the program uses and does not implement: binary floats, orjson, and the database's choice
-- of primary keys. Every component takes one `Env` as its parameter.
use defi_engine.Base.{ℕ, String, Bool, true, Option, some, List, ◌≡◌}
use defi_engine.Base.Int.{ℤ}
use defi_engine.Base.Time.{DateTime}
use defi_engine.Json.{Json, texts, object, is_writable}

pub record Env : Type 1 where
  -- Python's float, its constants, conversions and operators. `int_div n k` is `n / k` on
  -- integers, `to_int` is `int(round(x))`.
  pub Float : Type 0
  pub float_zero : Float
  pub of_int : ℤ → Float
  pub int_div : ℤ → ℕ → Float
  pub add : Float → Float → Float
  pub sub : Float → Float → Float
  pub mul : Float → Float → Float
  pub div : Float → Float → Float
  pub lt : Float → Float → Bool
  pub le : Float → Float → Bool
  pub to_int : Float → ℤ
  -- `int(x)` on a finite float; `none` is the ValueError of a NaN.
  pub trunc : Float → Option ℤ
  -- `float(text)`, with `none` for the ValueError, and `math.isfinite`.
  pub float_of : String → Option Float
  pub is_finite : Float → Bool
  -- `round(x, 4)` and `abs(x)`.
  pub round4 : Float → Float
  pub abs : Float → Float
  -- `datetime.fromisoformat`; `none` is the ValueError.
  pub fromisoformat : String → Option DateTime
  -- orjson: the encoded text, `dumps(...).decode()`, `loads` (`none` is the JSONDecodeError), and
  -- `str(item)` of a decoded item that is not a text.
  pub Encoded : Type 0
  pub dumps : Json Float → Encoded
  pub loads : Encoded → Option (Json Float)
  pub str_of : Json Float → String
  -- The autoincrement key of a new row, from the keys in the table.
  pub new_id : List ℕ → ℕ

-- What orjson documents of its codec: a list of texts that was written is read back.
pub record IsCodec (E : Env) : Type 1 where
  pub loads-dumps : (l : List String) → E.loads (E.dumps (texts l)) ≡ some (texts l)

-- And of an object of finite numbers within 64 bits, texts and lists, each key at most once.
pub record IsObjectCodec (E : Env) : Type 1 where
  pub loads-dumps_object :
      (l : List (String × Json E.Float))
      → is_writable E.is_finite (object l) ≡ true
      → E.loads (E.dumps (object l)) ≡ some (object l)
