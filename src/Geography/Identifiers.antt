-- ===== src/Geography/Identifiers.antt =====
-- Census identifiers (geography/identifiers.ts) and the codes of the states (geography/resolver.ts).
use text.Mathlib.TextLemmas.{append_cancel_left, append_cancel_right}
use federal_mcps.Common.{
  ◌≢◌, ◌≡◌, refl, sym, ◌∙◌, String, Bool, true, false, ◌&&◌, ◌||◌, not, Option, none, some, [], ◌∷◌,
  arith, str_eq, eq_iff, Bool-cases, inl, inr, if◌then◌else◌,
}
use federal_mcps.Common.Dict.{Dict, lookup}
use federal_mcps.Common.Text.{template}

unfoldable pub ucgid_of : String → String → String
ucgid_of sumlevel geoid =
    if str_eq sumlevel "010" then "0100000US" else template (sumlevel ∷ "0000US" ∷ geoid ∷ [])

unfoldable pub dcid_of : String → String → String
dcid_of sumlevel geoid =
    if str_eq sumlevel "010"
    then "country/USA"
    else (if str_eq sumlevel "310" || str_eq sumlevel "314"
        then template ("geoId/C" ∷ geoid ∷ [])
        else (if str_eq sumlevel "860"
            then template ("zip/" ∷ geoid ∷ [])
            else template ("geoId/" ∷ geoid ∷ [])))

abbrev pub usps_to_fips : Dict String
usps_to_fips =
    ("AL", "01")
    ∷ ("AK", "02")
    ∷ ("AZ", "04")
    ∷ ("AR", "05")
    ∷ ("CA", "06")
    ∷ ("CO", "08")
    ∷ ("CT", "09")
    ∷ ("DE", "10")
    ∷ ("DC", "11")
    ∷ ("FL", "12")
    ∷ ("GA", "13")
    ∷ ("HI", "15")
    ∷ ("ID", "16")
    ∷ ("IL", "17")
    ∷ ("IN", "18")
    ∷ ("IA", "19")
    ∷ ("KS", "20")
    ∷ ("KY", "21")
    ∷ ("LA", "22")
    ∷ ("ME", "23")
    ∷ ("MD", "24")
    ∷ ("MA", "25")
    ∷ ("MI", "26")
    ∷ ("MN", "27")
    ∷ ("MS", "28")
    ∷ ("MO", "29")
    ∷ ("MT", "30")
    ∷ ("NE", "31")
    ∷ ("NV", "32")
    ∷ ("NH", "33")
    ∷ ("NJ", "34")
    ∷ ("NM", "35")
    ∷ ("NY", "36")
    ∷ ("NC", "37")
    ∷ ("ND", "38")
    ∷ ("OH", "39")
    ∷ ("OK", "40")
    ∷ ("OR", "41")
    ∷ ("PA", "42")
    ∷ ("RI", "44")
    ∷ ("SC", "45")
    ∷ ("SD", "46")
    ∷ ("TN", "47")
    ∷ ("TX", "48")
    ∷ ("UT", "49")
    ∷ ("VT", "50")
    ∷ ("VA", "51")
    ∷ ("WA", "53")
    ∷ ("WV", "54")
    ∷ ("WI", "55")
    ∷ ("WY", "56")
    ∷ []

-- `Object.fromEntries` of the swapped entries: a later one replaces an earlier of the same key, so
-- the first entry found from the end is the one that stays.
unfoldable pub fips_to_usps : Dict String → String → Option String
fips_to_usps [] fips = none
fips_to_usps ((usps, code) ∷ d) fips =
    let later = fips_to_usps d fips in
    elim later [ some u ↦ some u | none ↦ (if str_eq code fips then some usps else none) ]

unfoldable pub usps_of_state_fips : String → Option String
usps_of_state_fips fips = fips_to_usps usps_to_fips fips

-- Whether some key has the value, and whether two keys share one.
unfoldable pub has_value : String → Dict String → Bool
has_value v [] = false
has_value v ((k, w) ∷ d) = str_eq w v || has_value v d

unfoldable pub is_injective : Dict String → Bool
is_injective [] = true
is_injective ((k, v) ∷ d) = not (has_value v d) && is_injective d

has_value-lookup : (k v : String) (d : Dict String) → lookup k d ≡ some v → has_value v d ≡ true
unfolding lookup has_value
has_value-lookup k v [] e = cc
has_value-lookup k v ((j, w) ∷ d) e = elim (Bool-cases (str_eq j k)) [
  | inl same ↦ ground (arith, eq_iff w v)
  | inr other ↦ ground (arith, has_value-lookup k v d)
]

no_value : (v : String) (d : Dict String) → has_value v d ≡ false → fips_to_usps d v ≡ none
unfolding fips_to_usps has_value
no_value v [] h = refl
no_value v ((k, w) ∷ d) h = ground (arith, no_value v d)

inverse :
    (d : Dict String) (k v : String)
    → is_injective d ≡ true
    → lookup k d ≡ some v
    → fips_to_usps d v ≡ some k
unfolding lookup is_injective fips_to_usps
inverse [] k v i e = cc
inverse ((j, w) ∷ d) k v i e = elim (Bool-cases (str_eq j k)) [
  | inl same ↦ ground (arith, eq_iff j k, eq_iff w v, no_value v d)
  | inr other ↦ ground (arith, inverse d k v)
]

codes_differ : is_injective usps_to_fips ≡ true
unfolding is_injective has_value
codes_differ = refl

-- The abbreviation that a state's code leads to is the one that the code is listed under.
pub usps_of_state_fips-lookup :
    (usps fips : String)
    → lookup usps usps_to_fips ≡ some fips
    → usps_of_state_fips fips ≡ some usps
unfolding usps_of_state_fips
usps_of_state_fips-lookup usps fips e = inverse usps_to_fips usps fips codes_differ e

ucgid-template :
    (sumlevel geoid : String)
    → sumlevel ≢ "010"
    → ucgid_of sumlevel geoid ≡ template (sumlevel ∷ "0000US" ∷ geoid ∷ [])
unfolding ucgid_of
ucgid-template sumlevel geoid other = ground (arith, eq_iff sumlevel "010")

-- At every level but the nation's, places with different GEOIDs have different UCGIDs.
pub ucgid_of-inj :
    (sumlevel geoid geoid' : String)
    → sumlevel ≢ "010"
    → ucgid_of sumlevel geoid ≡ ucgid_of sumlevel geoid'
    → geoid ≡ geoid'
ucgid_of-inj sumlevel geoid geoid' other e = append_cancel_right geoid geoid' "" (
    append_cancel_left "0000US" _ _ (
      append_cancel_left sumlevel _ _
        (sym (ucgid-template sumlevel geoid other) ∙ e ∙ ucgid-template sumlevel geoid' other)))
