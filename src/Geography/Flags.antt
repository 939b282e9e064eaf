-- ===== src/Geography/Flags.antt =====
-- The flags and the caveat of a resolved place (geography/flags.ts).
pub mod Laws
use Prim.Native.Char.{Char, code}
use Prim.Native.String
use federal_mcps.Common.{
  ◌≡◌, refl, String, Bool, true, false, ◌&&◌, ◌||◌, not, Option, none, some, List, [], ◌∷◌, ◌++◌,
  any, arith, ◌==◌, str_eq, if◌then◌else◌,
}
use federal_mcps.Common.Chars.{is_digit, is_letter, includes, to_lower_case}
use federal_mcps.Common.Sets.{has}
use federal_mcps.Common.Text.{join}
use federal_mcps.Geography.Types.{AgencyCode}

pub record EntityFacts : Type 0 where
  pub geoid : String
  pub sumlevel : String
  pub name : String
  pub lsad : Option String

abbrev pub non_nesting : List String
non_nesting = "310" ∷ "314" ∷ "330" ∷ "860" ∷ []

abbrev pub cdp_lsad : String
cdp_lsad = "57"

abbrev pub is_word_char : Char → Bool
is_word_char c = is_letter c || is_digit c || code c == 95

-- `/\bCDP$/`
unfoldable pub has_cdp_end : (bounded : Bool) → String → Bool
has_cdp_end bounded String.[] = false
has_cdp_end bounded (String.◌∷◌ c s) =
    bounded && str_eq (String.◌∷◌ c s) "CDP" || has_cdp_end (not (is_word_char c)) s

abbrev pub is_some_text : Option String → String → Bool
is_some_text none t = false
is_some_text (some s) t = str_eq s t

-- `/\(balance\)/i`
abbrev pub is_balance : String → Bool
is_balance name = includes (to_lower_case name) "(balance)"

unfoldable pub is_cdp : EntityFacts → Bool
is_cdp entity = is_some_text entity.lsad cdp_lsad || has_cdp_end true entity.name

unfoldable pub is_consolidated : EntityFacts → Bool
is_consolidated entity = str_eq entity.sumlevel "170" || is_balance entity.name

abbrev pub has_program : String → String → List AgencyCode → Bool
has_program agency program codes =
    any (λ c. str_eq c.agency agency && str_eq c.program program) codes

unfoldable pub has_laus : List AgencyCode → Bool
has_laus codes = has_program "bls" "LAUS" codes

abbrev pub cdp_caveat : String
cdp_caveat = "census designated place: unincorporated, no local government"

abbrev pub consolidated_caveat : String
consolidated_caveat = "consolidated city or its balance — not the surrounding county"

abbrev pub place_threshold_caveat : String
place_threshold_caveat =
    "below the LAUS 25,000-population threshold; unemployment comes from the surrounding county"

abbrev pub town_threshold_caveat : String
town_threshold_caveat =
    "LAUS publishes no series for this county subdivision; unemployment comes from the surrounding county"

abbrev pub vintage_caveat : String
vintage_caveat = "this area's code changed across vintages; joins across years may not line up"

-- The flags and the caveats so far.
abbrev pub Noted : Type 0
Noted = List String × List String

abbrev pub note_if : Bool → String → List String → Noted → Noted
note_if true flag caveats noted = (noted.0 ++ flag ∷ [], noted.1 ++ caveats)
note_if false flag caveats noted = noted

unfoldable pub is_unpublished : String → EntityFacts → List AgencyCode → Bool
is_unpublished sumlevel entity codes = str_eq entity.sumlevel sumlevel && not (has_laus codes)

unfoldable pub note_threshold : EntityFacts → List AgencyCode → Noted → Noted
note_threshold entity codes noted =
    if is_unpublished "160" entity codes
    then note_if true "below_threshold" (place_threshold_caveat ∷ []) noted
    else note_if (is_unpublished "060" entity codes) "below_threshold" (town_threshold_caveat ∷ [])
        noted

unfoldable pub note_all : EntityFacts → List AgencyCode → Bool → Noted
note_all entity codes changed = note_if changed "vintage_mismatch" (vintage_caveat ∷ []) (
    note_threshold entity codes (
      note_if (is_consolidated entity) "consolidated_city" (consolidated_caveat ∷ []) (
        note_if (is_cdp entity) "cdp" (cdp_caveat ∷ [])
          (note_if (has entity.sumlevel non_nesting) "non_nesting" [] ([], [])))))

-- `caveats.join("; ")`, where there are any
abbrev pub caveat_of : List String → Option String
caveat_of [] = none
caveat_of (c ∷ caveats) = some (join "; " (c ∷ caveats))

unfoldable pub derive_flags : EntityFacts → List AgencyCode → Bool → List String × Option String
derive_flags entity codes changed =
    let noted = note_all entity codes changed in (noted.0, caveat_of noted.1)
