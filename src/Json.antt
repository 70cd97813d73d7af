-- ===== src/Json.antt =====
-- JSON values as orjson reads and writes them. The codec itself is a parameter (Env).
pub mod Convert
use defi_engine.Base.{
  ℕ, ◌^◌, String, Bool, true, false, not, ◌&&◌, Option, none, some, List, [], ◌∷◌, if◌then◌else◌,
  str_eq, ltb, leb,
}
use defi_engine.Base.Int.{ℤ, pos, negsuc}

-- Object keys are texts, in the order of the object. `F` is the type of floats.
mutual
  pub data Json (F : Type 0) : Type 0 where
    null : Json F
    bool : Bool → Json F
    num : ℤ → Json F
    float : F → Json F
    text : String → Json F
    arr : Items F → Json F
    obj : Fields F → Json F

  pub data Items (F : Type 0) : Type 0 where
    nil : Items F
    cons : Json F → Items F → Items F

  pub data Fields (F : Type 0) : Type 0 where
    end : Fields F
    field : String → Json F → Fields F → Fields F

module _ {F : Type 0} where
  -- `payload.get(key)`
  unfoldable pub get : String → Fields F → Option (Json F)
  get k end = none
  get k (field j v rest) = if str_eq j k then some v else get k rest

  abbrev pub items : List String → Items F
  items [] = nil
  items (s ∷ ss) = cons (text s) (items ss)

  -- A list of texts, as the reason codes are encoded.
  abbrev pub texts : List String → Json F
  texts ss = arr (items ss)

  abbrev pub fields : List (String × Json F) → Fields F
  fields [] = end
  fields ((k, v) ∷ rest) = field k v (fields rest)

  abbrev pub object : List (String × Json F) → Json F
  object l = obj (fields l)

  abbrev pub text? : Option String → Json F
  text? none = null
  text? (some s) = text s

  abbrev pub id : ℕ → Json F
  id n = num (pos n)

  abbrev pub id? : Option ℕ → Json F
  id? none = null
  id? (some n) = num (pos n)

  abbrev pub get_or : String → Json F → Fields F → Json F
  get_or k d o = elim (get k o) [ none ↦ d | some v ↦ v ]

  -- `payload[key] = value`: an existing key keeps its place.
  unfoldable pub put : String → Json F → Fields F → Fields F
  put k v end = field k v end
  put k v (field j w rest) = if str_eq j k then field j v rest else field j w (put k v rest)

  unfoldable pub has_key : String → Fields F → Bool
  has_key k end = false
  has_key k (field j v rest) = if str_eq j k then true else has_key k rest

abbrev fits : ℤ → Bool
fits (pos n) = ltb n (2 ^ 64)
fits (negsuc n) = ltb n (2 ^ 63)

-- What orjson writes as it is: finite floats, integers of 64 bits, each key once.
unfoldable mutual
  pub is_writable : {F : Type 0} → (F → Bool) → Json F → Bool
  is_writable finite null = true
  is_writable finite (bool b) = true
  is_writable finite (num n) = fits n
  is_writable finite (float x) = finite x
  is_writable finite (text s) = true
  is_writable finite (arr xs) = items_writable finite xs
  is_writable finite (obj fs) = fields_writable finite fs

  pub items_writable : {F : Type 0} → (F → Bool) → Items F → Bool
  items_writable finite nil = true
  items_writable finite (cons x xs) = is_writable finite x && items_writable finite xs

  pub fields_writable : {F : Type 0} → (F → Bool) → Fields F → Bool
  fields_writable finite end = true
  fields_writable finite (field k v fs) =
      not (has_key k fs) && is_writable finite v && fields_writable finite fs
