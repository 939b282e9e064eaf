-- ===== src/Geography/Names.antt =====
-- How a query's text is read (geography/resolver.ts): names without their kind, a state or a county
-- at the end, state and kind hints. A kind that is the name of a property every object inherits,
-- such as `constructor`, finds that property in the source's table, and is not modelled.
use Prim.Native.Char.{Char, code}
use Prim.Native.String
use federal_mcps.Common.{
  String, Bool, true, false, ◌&&◌, ◌||◌, not, Option, none, some, List, [], ◌∷◌, ltb, ◌==◌,
  if◌then◌else◌,
}
use federal_mcps.Common.Chars.{
  is_letter, is_space, is_line_end, every_char, is_empty, has_digits, units_of, trim_start, trim,
  to_lower_case, to_upper_case, without, is_comma,
}
use federal_mcps.Common.Dict.{Dict, lookup}
use federal_mcps.Common.Sets.{has}
use federal_mcps.Geography.Identifiers.{usps_to_fips}

abbrev pub lsad_words : List String
lsad_words =
    "county" ∷ "parish" ∷ "borough" ∷ "census area" ∷ "city and borough" ∷ "municipality" ∷ "city"
    ∷ "town" ∷ "village" ∷ "township" ∷ "metropolitan statistical area"
    ∷ "micropolitan statistical area" ∷ []

-- `.replace(LSAD_SUFFIX, "")`: cut at the first white space that nothing but one of the words follows.
unfoldable pub drop_lsad : String → String
drop_lsad String.[] = String.[]
drop_lsad (String.◌∷◌ c s) =
    let rest = drop_lsad s in
    if is_space c && has (trim_start s) lsad_words then String.[] else String.◌∷◌ c rest

abbrev pub is_dot_or_comma : Char → Bool
is_dot_or_comma c = code c == 46 || code c == 44

unfoldable pub normalize_name : String → String
normalize_name name = trim (without is_dot_or_comma (drop_lsad (to_lower_case name)))

unfoldable pub normalize_state : Option String → Option String
normalize_state none = none
normalize_state (some state) =
    let s = to_upper_case (trim state) in
    if is_empty state then none else if has_digits 2 s then some s else lookup s usps_to_fips

abbrev pub kind_hints : Dict (List String)
kind_hints =
    ("nation", "010" ∷ [])
    ∷ ("country", "010" ∷ [])
    ∷ ("us", "010" ∷ [])
    ∷ ("region", "020" ∷ [])
    ∷ ("division", "030" ∷ [])
    ∷ ("state", "040" ∷ [])
    ∷ ("county", "050" ∷ [])
    ∷ ("city", "160" ∷ [])
    ∷ ("place", "160" ∷ [])
    ∷ ("town", "160" ∷ "060" ∷ [])
    ∷ ("township", "060" ∷ [])
    ∷ ("county subdivision", "060" ∷ [])
    ∷ ("cousub", "060" ∷ [])
    ∷ ("mcd", "060" ∷ [])
    ∷ ("metro", "310" ∷ [])
    ∷ ("metro area", "310" ∷ [])
    ∷ ("cbsa", "310" ∷ [])
    ∷ ("metropolitan statistical area", "310" ∷ [])
    ∷ ("metro division", "314" ∷ [])
    ∷ ("csa", "330" ∷ [])
    ∷ ("zcta", "860" ∷ [])
    ∷ ("zip", "860" ∷ [])
    ∷ ("tract", "140" ∷ [])
    ∷ []

unfoldable pub normalize_kind : Option String → Option (List String)
normalize_kind none = none
normalize_kind (some kind) =
    let k = to_lower_case (trim kind) in
    if is_empty kind then none else if has_digits 3 k then some (k ∷ []) else lookup k kind_hints

-- One more character of the head, which no line end may be.
abbrev pub add_to_head : {A : Type 0} → Char → Option (String × A) → Option (String × A)
add_to_head c none = none
add_to_head c (some (head, a)) = if is_line_end c then none else some (String.◌∷◌ c head, a)

abbrev pub stop_here : {A : Type 0} → Option A → Option (String × A) → Option (String × A)
stop_here (some a) later = some ("", a)
stop_here none later = later

-- `/^(.+?),\s*(…)$/`: the text before and after the first comma whose rest is accepted.
unfoldable pub split_comma :
    {A : Type 0} → (String → Option A) → (started : Bool) → String → Option (String × A)
split_comma accept started String.[] = none
split_comma accept started (String.◌∷◌ c s) =
    let later = add_to_head c (split_comma accept true s) in
    if started && is_comma c then stop_here (accept s) later else later

-- `[A-Za-z .]`
abbrev pub is_state_char : Char → Bool
is_state_char c = is_letter c || code c == 32 || code c == 46

unfoldable pub is_state_tail : String → Bool
is_state_tail String.[] = false
is_state_tail (String.◌∷◌ c s) =
    is_letter c && every_char is_state_char s && ltb 0 (units_of s) && ltb (units_of s) 31

unfoldable pub state_tail : String → Option String
state_tail rest = let tail = trim_start rest in if is_state_tail tail then some tail else none

-- A query's head and the tail that may name a state, both trimmed and neither empty.
unfoldable pub head_and_tail : String → Option (String × String)
head_and_tail query = elim (split_comma state_tail false (trim query)) [
  | none ↦ none
  | some (head, tail) ↦
      (if is_empty (trim head) || is_empty (trim tail) then none else some (trim head, trim tail))
]

abbrev pub county_words : List String
county_words =
    "county" ∷ "parish" ∷ "borough" ∷ "census area" ∷ "planning region" ∷ "municipality" ∷ []

-- White space and a county word end the text, and something stands before them.
unfoldable pub has_county_end : (started : Bool) → String → Bool
has_county_end started String.[] = false
has_county_end started (String.◌∷◌ c s) =
    started && is_space c && has (to_lower_case s) county_words || has_county_end true s

-- `\s*([^,]+?\s(?:county|…))$`. Where two white spaces or more stand before a bare word, the second
-- last of them is what stands before the last.
unfoldable pub county_tail : String → Option String
county_tail rest =
    let body = trim_start rest in
    if not (every_char (λ c. not (is_comma c)) rest)
    then none
    else if has_county_end false body
    then some body
    else if has_county_end false rest
    then some (String.◌++◌ "  " body)
    else none

unfoldable pub split_county_suffix : String → String × Option String
split_county_suffix text = elim (split_comma county_tail false (trim text)) [
  | none ↦ (text, none)
  | some (head, county) ↦ (trim head, some (normalize_name county))
]
