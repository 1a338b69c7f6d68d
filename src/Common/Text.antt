-- ===== src/Common/Text.antt =====
-- The text operations of Python's `str` that the program uses: concatenation (f-strings), `lower`,
-- `strip`, and the printing of integers. `lower` maps the ASCII letters and keeps every other
-- character; `strip` removes the characters for which `str.isspace` holds.
use Prim.Native.Nat.{ℕ, zero, suc, ◌-◌, ◌/◌, ◌%◌}
use Prim.Native.Char.{Char, code}
use Prim.Native.String as Native
use Prim.Native.String.{String, char_at}
use mathlib.Core.Path.{◌≡◌, refl}
use mathlib.Core.Bool.{Bool, true, false, ◌&&◌, ◌||◌}
use mathlib.Core.List.{List, [], ◌∷◌}
use mathlib.Core.Option.{Option, none, some}
use text.Mathlib.Text.{find?}
use back_office_fintech.Common.Tests.{ltb, leb, ◌==◌, if◌then◌else◌}
use back_office_fintech.Common.Int.{ℤ, pos, negsuc}

-- The pieces of an f-string, joined.
unfoldable pub concat : List String → String
concat [] = ""
concat (s ∷ ss) = Native.◌++◌ s (concat ss)

unfoldable pub lower_char : Char → Char
lower_char c =
    if leb 65 (code c) && leb (code c) 90
    then char_at "abcdefghijklmnopqrstuvwxyz" (code c - 65)
    else c

-- `s.lower()`
unfoldable pub lower : String → String
unfolding lower_char
lower String.[] = ""
lower (String.◌∷◌ c s) = String.◌∷◌ (lower_char c) (lower s)

abbrev between : ℕ → ℕ → ℕ → Bool
between a b n = leb a n && leb n b

-- `c.isspace()`
unfoldable pub is_space : Char → Bool
is_space c =
    let n = code c in
    between 9 13 n
    || between 28 32 n
    || n == 133
    || n == 160
    || n == 5760
    || between 8192 8202 n
    || between 8232 8233 n
    || n == 8239
    || n == 8287
    || n == 12288

unfoldable pub lstrip : String → String
unfolding is_space
lstrip String.[] = ""
lstrip (String.◌∷◌ c s) = let rest = lstrip s in if is_space c then rest else String.◌∷◌ c s

unfoldable pub rstrip : String → String
unfolding is_space
rstrip String.[] = ""
rstrip (String.◌∷◌ c s) = elim (rstrip s) [
  | String.[] ↦ if is_space c then "" else String.◌∷◌ c ""
  | String.◌∷◌ d r ↦ String.◌∷◌ c (String.◌∷◌ d r)
]

-- `s.strip()`
unfoldable pub strip : String → String
unfolding lstrip rstrip
strip s = rstrip (lstrip s)

show_digit : ℕ → String
show_digit n = String.◌∷◌ (char_at "0123456789" (n % 10)) ""

show_fuel : ℕ → ℕ → String
unfolding show_digit
show_fuel zero n = show_digit n
show_fuel (suc f) n = elim (ltb n 10) [
  | true ↦ show_digit n
  | false ↦ Native.◌++◌ (show_fuel f (n / 10)) (show_digit n)
]

-- `str(n)`: a number has fewer digits than its own size, so `n` is fuel enough.
unfoldable pub show_ℕ : ℕ → String
unfolding show_fuel
show_ℕ n = show_fuel n n

unfoldable pub show_ℤ : ℤ → String
unfolding show_ℕ
show_ℤ (pos n) = show_ℕ n
show_ℤ (negsuc n) = Native.◌++◌ "-" (show_ℕ (suc n))

-- `str(b)`
abbrev pub show_bool : Bool → String
show_bool true = "True"
show_bool false = "False"

-- `sub in s`
unfoldable pub has_substring : String → String → Bool
has_substring sub s = elim (find? s sub) [ none ↦ false | some _ ↦ true ]

-- `s or ""`
abbrev pub text_or_empty : Option String → String
text_or_empty none = ""
text_or_empty (some s) = s

-- `len(s)`
unfoldable pub text_length : String → ℕ
text_length String.[] = 0
text_length (String.◌∷◌ c s) = suc (text_length s)

-- Three digits, with zeros in front.
show_three : ℕ → String
unfolding show_digit
show_three n = Native.◌++◌ (show_digit (n / 100)) (Native.◌++◌ (show_digit (n / 10)) (show_digit n))

grouped_fuel : ℕ → ℕ → String
unfolding show_three show_ℕ
grouped_fuel zero n = show_ℕ n
grouped_fuel (suc f) n = elim (ltb n 1000) [
  | true ↦ show_ℕ n
  | false ↦ Native.◌++◌ (grouped_fuel f (n / 1000)) (Native.◌++◌ "," (show_three (n % 1000)))
]

-- `f"{n:,}"`: groups of three digits. A number has fewer groups than its own size.
unfoldable pub show_grouped : ℤ → String
unfolding grouped_fuel
show_grouped (pos n) = grouped_fuel n n
show_grouped (negsuc n) = Native.◌++◌ "-" (grouped_fuel (suc n) (suc n))

show_grouped_million : show_grouped (pos 1250042) ≡ "1,250,042"
unfolding show_grouped grouped_fuel show_three show_digit show_ℕ show_fuel
show_grouped_million = refl
