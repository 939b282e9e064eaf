-- ===== src/Geography/Resolver/Rivals.antt =====
-- When places of one name are rivals, and how an answer says so (geography/resolver.ts:
-- `sameStateTownRivals`, `hasDominantState`, `townRivalsExplanation`, `dominanceNotice`).
use federal_mcps.Common.{
  filter, ℕ, ◌-◌, ◌*◌, String, Bool, true, false, ◌&&◌, ◌||◌, not, Option, none, some, List, [],
  ◌∷◌, map, length, take, ltb, leb, str_eq, or_else, if◌then◌else◌,
}
use federal_mcps.Common.Chars.{trim, is_empty}
use federal_mcps.Common.Sort.{sort}
use federal_mcps.Common.Text.{template, join}
use federal_mcps.Http.Notes.{decimal}
use federal_mcps.Geography.Identifiers.{usps_of_state_fips}
use federal_mcps.Geography.Types.{PlaceParent, PlaceCandidate}
use federal_mcps.Geography.Dominance.{Scored, people, is_level, state_dominance_ratio}

-- The same state's code, or none in both.
abbrev pub same_state : Option String → Option String → Bool
same_state none none = true
same_state (some a) (some b) = str_eq a b
same_state _ _ = false

-- `b.population - a.population` is negative.
abbrev pub more_people : Scored → Scored → Bool
more_people a b = ltb (people b) (people a)

abbrev pub by_population : List Scored → List Scored
by_population scored = sort more_people scored

-- Fewer than two, or the first has ten times the second's population.
unfoldable pub is_led : List Scored → Bool
is_led (lead ∷ next ∷ rest) = leb (state_dominance_ratio * people next) (people lead)
is_led _ = true

unfoldable pub town_rivals : Scored → List Scored → List Scored
town_rivals top scored =
    filter
      (λ c.
        c.is_exact
        && is_level "060" c
        && same_state c.candidate.state_fips top.candidate.state_fips)
      scored

unfoldable pub same_state_town_rivals : List Scored → Option (List Scored)
same_state_town_rivals [] = none
same_state_town_rivals (top ∷ scored) =
    let rivals = town_rivals top (top ∷ scored) in
    if not top.is_exact || not (is_level "060" top)
    then none
    else if is_led (by_population rivals)
    then none
    else some rivals

-- The first that lies in another state than the lead.
unfoldable pub runner_up : Option String → List Scored → Option Scored
runner_up state [] = none
runner_up state (c ∷ scored) =
    let rest = runner_up state scored in
    if same_state c.candidate.state_fips state then rest else some c

abbrev pub leads_by_ratio : Option ℕ → Option ℕ → Bool
leads_by_ratio (some lead) (some next) = leb (state_dominance_ratio * next) lead
leads_by_ratio _ _ = false

abbrev pub population_of : Option Scored → Option ℕ
population_of none = none
population_of (some c) = c.candidate.population

abbrev pub leads_other_states : List Scored → Bool
leads_other_states [] = false
leads_other_states (lead ∷ scored) =
    leads_by_ratio lead.candidate.population
      (population_of (runner_up lead.candidate.state_fips (lead ∷ scored)))

-- `rivals` sorted by population: the first has ten times the best of any other state.
unfoldable pub has_dominant_state : List Scored → Bool
has_dominant_state rivals = leads_other_states (by_population rivals)

unfoldable pub county_among : List PlaceParent → String → String
county_among [] own = own
county_among (p ∷ parents) own =
    let rest = county_among parents own in if str_eq p.sumlevel "050" then p.name else rest

abbrev pub county_of : Scored → String
county_of c = county_among c.candidate.parents c.candidate.name

abbrev pub first_state : List Scored → String
first_state [] = ""
first_state (c ∷ rivals) = or_else c.candidate.state_fips ""

abbrev pub first_county : List Scored → String
first_county [] = ""
first_county (c ∷ rivals) = county_of c

unfoldable pub town_rivals_explanation : String → String → List Scored → String
town_rivals_explanation query name rivals =
    let usps = or_else (usps_of_state_fips (first_state rivals)) "" in
    let listed =
      join ", "
        (map (λ c. template (county_of c ∷ " " ∷ c.candidate.geoid ∷ [])) (take 10 rivals)) in
    let more =
      if ltb 10 (length rivals)
      then template (", and " ∷ decimal (length rivals - 10) ∷ " more" ∷ [])
      else "" in
    template (
      "\""
      ∷ query
      ∷ "\" matches "
      ∷ decimal (length rivals)
      ∷ " county subdivisions in "
      ∷ (if is_empty usps then "one state" else usps)
      ∷ ". Choose by county, e.g. \""
      ∷ name
      ∷ ", "
      ∷ first_county rivals
      ∷ ", "
      ∷ usps
      ∷ "\", or by GEOID: "
      ∷ listed
      ∷ more
      ∷ "."
      ∷ [])

abbrev pub named : Scored → String
named c = elim (usps_of_state_fips (or_else c.candidate.state_fips "")) [
  | some usps ↦ template (c.candidate.name ∷ ", " ∷ usps ∷ [])
  | none ↦ c.candidate.name
]

unfoldable pub dominance_notice : String → PlaceCandidate → List Scored → String
dominance_notice query state passed_over =
    let names = map named (by_population passed_over) in
    let more =
      if ltb 3 (length names)
      then template ("; and " ∷ decimal (length names - 3) ∷ " more" ∷ [])
      else "" in
    template (
      "\""
      ∷ trim query
      ∷ "\" was read as the state of "
      ∷ state.name
      ∷ ", which has at least "
      ∷ decimal state_dominance_ratio
      ∷ " times the population of every other place with that name: "
      ∷ join "; " (take 3 names)
      ∷ more
      ∷ ". If you meant one of those, ask again with a kind (\"county\", \"city\") or a state."
      ∷ [])
