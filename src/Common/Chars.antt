-- ===== src/Common/Chars.antt =====
-- The methods of a JavaScript string that the code uses, character by character. Lengths and cuts
-- count UTF-16 units, where a character past U+FFFF has two; a cut inside such a pair leaves it out.
-- Letters change case within Basic Latin and Latin-1.
use Prim.Native.Nat.{ℕ, ◌+◌, ◌-◌}
use Prim.Native.Char.{Char, code}
use Prim.Native.String.{String}
use mathlib.Core.Bool.{Bool, true, false, ◌&&◌, ◌||◌, not}
use mathlib.Core.Option.{Option, none, some}
use mathlib.Core.List.{List}
use text.Mathlib.Text.{◌==◌ as str_eq, find?}
use federal_mcps.Common.Tests.{ltb, leb, ◌==◌, if◌then◌else◌}

abbrev pub in_range : ℕ → ℕ → Char → Bool
in_range low high c = leb low (code c) && leb (code c) high

abbrev pub is_digit : Char → Bool
is_digit c = in_range 48 57 c

abbrev pub is_upper : Char → Bool
is_upper c = in_range 65 90 c

abbrev pub is_letter : Char → Bool
is_letter c = in_range 65 90 c || in_range 97 122 c

-- `\s`, and what `trim` removes.
unfoldable pub is_space : Char → Bool
is_space c =
    in_range 9 13 c
    || code c == 32
    || code c == 160
    || code c == 5_760
    || in_range 8_192 8_202 c
    || in_range 8_232 8_233 c
    || code c == 8_239
    || code c == 8_287
    || code c == 12_288
    || code c == 65_279

-- What `.` does not match.
unfoldable pub is_line_end : Char → Bool
is_line_end c = code c == 10 || code c == 13 || in_range 8_232 8_233 c

abbrev pub units : Char → ℕ
units c = if ltb (code c) 65_536 then 1 else 2

-- `s.length`
unfoldable pub units_of : String → ℕ
units_of String.[] = 0
units_of (String.◌∷◌ c s) = units c + units_of s

unfoldable pub every_char : (Char → Bool) → String → Bool
every_char p String.[] = true
every_char p (String.◌∷◌ c s) = p c && every_char p s

abbrev pub is_empty : String → Bool
is_empty s = str_eq s ""

-- An optional text that is neither missing nor empty, as a condition takes it.
abbrev pub is_set : Option String → Bool
is_set none = false
is_set (some s) = not (is_empty s)

-- `/^\d{n}$/`
abbrev pub has_digits : ℕ → String → Bool
has_digits n s = every_char is_digit s && units_of s == n

unfoldable pub trim_start : String → String
trim_start String.[] = String.[]
trim_start (String.◌∷◌ c s) = let rest = trim_start s in if is_space c then rest else String.◌∷◌ c s

unfoldable pub trim_end : String → String
trim_end String.[] = String.[]
trim_end (String.◌∷◌ c s) =
    let rest = trim_end s in if is_space c && is_empty rest then rest else String.◌∷◌ c rest

abbrev pub trim : String → String
trim s = trim_end (trim_start s)

abbrev pub upper_letters : String
upper_letters = "ABCDEFGHIJKLMNOPQRSTUVWXYZÀÁÂÃÄÅÆÇÈÉÊËÌÍÎÏÐÑÒÓÔÕÖØÙÚÛÜÝÞ"

abbrev pub lower_letters : String
lower_letters = "abcdefghijklmnopqrstuvwxyzàáâãäåæçèéêëìíîïðñòóôõöøùúûüýþ"

-- The character that stands in the second text where the first has this one.
unfoldable pub counterpart : String → String → Char → Char
counterpart (String.◌∷◌ a s) (String.◌∷◌ b t) c =
    let later = counterpart s t c in if code a == code c then b else later
counterpart _ _ c = c

unfoldable pub map_chars : (Char → Char) → String → String
map_chars f String.[] = String.[]
map_chars f (String.◌∷◌ c s) = String.◌∷◌ (f c) (map_chars f s)

abbrev pub to_lower_case : String → String
to_lower_case s = map_chars (counterpart upper_letters lower_letters) s

abbrev pub to_upper_case : String → String
to_upper_case s = map_chars (counterpart lower_letters upper_letters) s

unfoldable pub ends_with : String → String → Bool
ends_with String.[] t = is_empty t
ends_with (String.◌∷◌ c s) t = str_eq (String.◌∷◌ c s) t || ends_with s t

-- `s.includes(t)`
abbrev pub includes : String → String → Bool
includes s t = elim (find? s t) [ none ↦ false | some _ ↦ true ]

-- `s.slice(0, n)`
unfoldable pub slice_to : ℕ → String → String
slice_to n String.[] = String.[]
slice_to n (String.◌∷◌ c s) =
    let rest = slice_to (n - units c) s in if leb (units c) n then String.◌∷◌ c rest else String.[]

-- `s.slice(n)`
unfoldable pub slice_from : ℕ → String → String
slice_from n String.[] = String.[]
slice_from n (String.◌∷◌ c s) =
    let rest = slice_from (n - units c) s in if ltb 0 n then rest else String.◌∷◌ c s

-- `s.replace(/[…]/g, "")`
unfoldable pub without : (Char → Bool) → String → String
without p String.[] = String.[]
without p (String.◌∷◌ c s) = let rest = without p s in if p c then rest else String.◌∷◌ c rest

abbrev pub put_first : Char → List String → List String
put_first c List.[] = List.◌∷◌ (String.◌∷◌ c String.[]) List.[]
put_first c (List.◌∷◌ piece pieces) = List.◌∷◌ (String.◌∷◌ c piece) pieces

-- `s.split(…)` at a single character
unfoldable pub split_at : (Char → Bool) → String → List String
split_at p String.[] = List.◌∷◌ "" List.[]
split_at p (String.◌∷◌ c s) =
    let rest = split_at p s in if p c then List.◌∷◌ "" rest else put_first c rest

abbrev pub is_comma : Char → Bool
is_comma c = code c == 44
