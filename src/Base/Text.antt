-- ===== src/Base/Text.antt =====
-- Texts: `str(n)` and `int(text)` on decimal integers, `strip`, `lower` and `", ".join(...)`.
-- The characters that matter to the program are ASCII.
pub mod RoundTrip
use Prim.Native.Nat.{ℕ, zero, suc, ◌+◌, ◌-◌, ◌*◌, ◌/◌, ◌%◌, ◌<◌}
use Prim.Native.Char.{Char, code}
use Prim.Native.String.{String, ◌++◌}
use mathlib.Core.Path.{◌≡◌, refl}
use mathlib.Core.Bool.{Bool, true, false, ◌&&◌, ◌||◌}
use mathlib.Core.Option.{Option, none, some}
use mathlib.Core.List.{List, [], ◌∷◌, reverse}
use native.Mathlib.Omega.{arith}
use defi_engine.Base.Tests.{leb, ◌==◌, if◌then◌else◌}
use defi_engine.Base.Int.{ℤ, pos, negsuc}

abbrev pub codes : String → List ℕ
codes String.[] = []
codes (String.◌∷◌ c s) = code c ∷ codes s

-- One decimal digit; above 9 the call is not made.
pub digit : ℕ → Char
digit zero = "0"
digit (suc zero) = "1"
digit (suc (suc zero)) = "2"
digit (suc (suc (suc zero))) = "3"
digit (suc (suc (suc (suc zero)))) = "4"
digit (suc (suc (suc (suc (suc zero))))) = "5"
digit (suc (suc (suc (suc (suc (suc zero)))))) = "6"
digit (suc (suc (suc (suc (suc (suc (suc zero))))))) = "7"
digit (suc (suc (suc (suc (suc (suc (suc (suc zero)))))))) = "8"
digit _ = "9"

code-digit : (n : ℕ) → n < 10 → code (digit n) ≡ n + 48
unfolding digit
code-digit zero h = refl
code-digit (suc zero) h = refl
code-digit (suc (suc zero)) h = refl
code-digit (suc (suc (suc zero))) h = refl
code-digit (suc (suc (suc (suc zero)))) h = refl
code-digit (suc (suc (suc (suc (suc zero))))) h = refl
code-digit (suc (suc (suc (suc (suc (suc zero)))))) h = refl
code-digit (suc (suc (suc (suc (suc (suc (suc zero))))))) h = refl
code-digit (suc (suc (suc (suc (suc (suc (suc (suc zero)))))))) h = refl
code-digit (suc (suc (suc (suc (suc (suc (suc (suc (suc zero))))))))) h = refl
code-digit (suc (suc (suc (suc (suc (suc (suc (suc (suc (suc n)))))))))) h = absurd (omega arith)

-- The digits of `n` in front of `rest`. A number has fewer digits than one more than itself.
unfoldable pub show_digits : ℕ → ℕ → String → String
unfolding digit
show_digits zero n rest = rest
show_digits (suc fuel) n rest =
    let more = show_digits fuel (n / 10) (String.◌∷◌ (digit (n % 10)) rest) in
    if n / 10 == 0 then String.◌∷◌ (digit (n % 10)) rest else more

-- `str(n)`
unfoldable pub str_ℕ : ℕ → String
unfolding show_digits
str_ℕ n = show_digits (suc n) n ""

unfoldable pub str_ℤ : ℤ → String
unfolding str_ℕ
str_ℤ (pos n) = str_ℕ n
str_ℤ (negsuc n) = "-" ++ str_ℕ (suc n)

-- Exactly `width` digits of `n` in front of `rest`, as `%02d` prints.
unfoldable pub pad : ℕ → ℕ → String → String
unfolding digit
pad zero n rest = rest
pad (suc width) n rest = pad width (n / 10) (String.◌∷◌ (digit (n % 10)) rest)

abbrev is_space : ℕ → Bool
is_space c = c == 32 || (leb 9 c && leb c 13) || (leb 28 c && leb c 31)

abbrev is_digit : ℕ → Bool
is_digit c = leb 48 c && leb c 57

-- `text.lstrip()` and `text.strip()`
unfoldable pub lstrip : List ℕ → List ℕ
lstrip [] = []
lstrip (c ∷ cs) = if is_space c then lstrip cs else c ∷ cs

unfoldable pub strip : List ℕ → List ℕ
unfolding lstrip
strip cs = reverse (lstrip (reverse (lstrip cs)))

-- The digits of `int`, with single underscores between digits.
unfoldable pub parse_digits : Bool → ℕ → List ℕ → Option ℕ
parse_digits after_digit acc [] = if after_digit then some acc else none
parse_digits after_digit acc (c ∷ cs) =
    let more = parse_digits true (acc * 10 + (c - 48)) cs in
    let gap = parse_digits false acc cs in
    if is_digit c then more else if c == 95 && after_digit then gap else none

abbrev negate : Option ℕ → Option ℤ
negate none = none
negate (some zero) = some (pos 0)
negate (some (suc n)) = some (negsuc n)

abbrev to_ℤ : Option ℕ → Option ℤ
to_ℤ none = none
to_ℤ (some n) = some (pos n)

unfoldable pub parse_signed : List ℕ → Option ℤ
unfolding parse_digits
parse_signed [] = none
parse_signed (c ∷ cs) =
    if c == 45
    then negate (parse_digits false 0 cs)
    else if c == 43
    then to_ℤ (parse_digits false 0 cs)
    else to_ℤ (parse_digits false 0 (c ∷ cs))

-- `int(text)`; `none` is the ValueError.
unfoldable pub int_of : String → Option ℤ
unfolding parse_signed strip
int_of s = parse_signed (strip (codes s))

-- `_parse_int`, which four owners share word for word.
unfoldable pub parse_int : Option String → Option ℤ
unfolding int_of
parse_int none = none
parse_int (some s) = int_of s

-- `lower()` on the letters A to Z, which is all of it on the ASCII words that the program compares.
abbrev pub lower : List ℕ → List ℕ
lower [] = []
lower (c ∷ cs) = (if leb 65 c && leb c 90 then c + 32 else c) ∷ lower cs

abbrev pub same_codes : List ℕ → List ℕ → Bool
same_codes [] [] = true
same_codes (a ∷ xs) (b ∷ ys) = a == b && same_codes xs ys
same_codes _ _ = false

-- `text.startswith(prefix)` and `part in text`, on codes.
abbrev pub starts : List ℕ → List ℕ → Bool
starts [] cs = true
starts (p ∷ ps) [] = false
starts (p ∷ ps) (c ∷ cs) = p == c && starts ps cs

abbrev pub has_part : List ℕ → List ℕ → Bool
has_part part [] = starts part []
has_part part (c ∷ cs) = starts part (c ∷ cs) || has_part part cs

-- `", ".join(parts)` with any separator.
unfoldable pub join : String → List String → String
join sep [] = ""
join sep (s ∷ []) = s
join sep (s ∷ t ∷ ts) = s ++ (sep ++ join sep (t ∷ ts))
