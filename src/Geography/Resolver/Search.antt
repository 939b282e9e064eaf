-- ===== src/Geography/Resolver/Search.antt =====
-- How the resolver searches its catalog (geography/resolver.ts: `splitStateSuffix`, `nationMatches`,
-- `withNation`, `searchSplittingTowns`).
use federal_mcps.Common.{
  filter, find, String, Bool, true, ◌&&◌, ◌||◌, not, Option, none, some, List, [], ◌∷◌, ◌++◌, map,
  str_eq, or_else, if◌then◌else◌,
}
use mathlib.Core.Option
use federal_mcps.Common.Chars.{is_letter, every_char, units_of, to_upper_case, is_set}
use federal_mcps.Common.Dict.{lookup}
use federal_mcps.Common.Sets.{has}
use federal_mcps.Geography.Identifiers.{usps_to_fips}
use federal_mcps.Geography.Types.{EntityRecord}
use federal_mcps.Geography.Names.{normalize_name, head_and_tail}
use federal_mcps.Geography.Catalog.{Catalog, SearchOptions}
use federal_mcps.Geography.Candidates.{is_exact_match}
use federal_mcps.Common.{◌==◌}

abbrev pub allows : Option (List String) → String → Bool
allows none sumlevel = true
allows (some sumlevels) sumlevel = has sumlevel sumlevels

abbrev pub nation_sumlevel : String
nation_sumlevel = "010"

-- The nation's matches first, then the others without them.
unfoldable pub with_nation : List EntityRecord → List EntityRecord → List EntityRecord
with_nation nation rows = nation ++ filter (λ e. not (has e.ucgid (map (λ n. n.ucgid) nation))) rows

-- The levels without the county subdivisions'.
unfoldable pub others_of : List String → List String
others_of [] = []
others_of (s ∷ sumlevels) =
    let rest = others_of sumlevels in if str_eq s "060" then rest else s ∷ rest

module _ (catalog : Catalog) where
  unfoldable pub nation_matches : String → Option (List String) → Option String → List EntityRecord
  nation_matches query sumlevels state =
      if is_set state || not (allows sumlevels nation_sumlevel)
      then []
      else filter (λ e. is_exact_match catalog e query) (catalog.entities_at_level nation_sumlevel)

  abbrev pub search_at : String → SearchOptions → List String → List EntityRecord
  search_at text options sumlevels =
      catalog.search_names text (record options { sumlevels = some sumlevels })

  -- The other levels' rows, then the county subdivisions'.
  abbrev pub search_others : String → SearchOptions → List String → List EntityRecord
  search_others text options [] = search_at text options ("060" ∷ [])
  search_others text options (s ∷ others) =
      search_at text options (s ∷ others) ++ search_at text options ("060" ∷ [])

  unfoldable pub search_splitting_towns : String → SearchOptions → List EntityRecord
  search_splitting_towns text options = elim options.sumlevels [
    | none ↦
        catalog.search_names text (record options { exclude_sumlevels = "060" ∷ [] })
        ++ search_at text options ("060" ∷ [])
    | some sumlevels ↦
        (if has "060" sumlevels
          then search_others text options (others_of sumlevels)
          else catalog.search_names text options)
  ]

  abbrev pub state_code : String → Option String
  state_code tail = lookup (to_upper_case tail) usps_to_fips

  -- The state of the catalog that has this name.
  unfoldable pub state_named : String → Option EntityRecord
  state_named tail =
      find (λ e. str_eq (normalize_name e.name) (normalize_name tail))
        (catalog.search_names tail (record {
          state_fips = none;
          state_usps = none;
          sumlevels = some ("040" ∷ []);
          exclude_sumlevels = [];
          limit = 5;
        }))

  unfoldable pub tail_state : String → Option String
  tail_state tail =
      if every_char is_letter tail && units_of tail == 2
      then state_code tail
      else Option.map (λ e. or_else e.state_fips e.geoid) (state_named tail)

  -- A query's name and the state that its end names.
  unfoldable pub split_state_suffix : String → String × Option String
  split_state_suffix query = elim (head_and_tail query) [
    | none ↦ (query, none)
    | some (head, tail) ↦ elim (tail_state tail) [
      | none ↦ (query, none)
      | some state ↦ (head, some state)
    ]
  ]
