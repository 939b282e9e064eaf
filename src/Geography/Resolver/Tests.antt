-- ===== src/Geography/Resolver/Tests.antt =====
-- Runs of the resolver on a catalog of a few places.
use federal_mcps.Common.{
  ℕ, ◌≡◌, refl, String, true, false, Option, none, some, List, [], ◌∷◌, arith, inl, inr, All,
  All-weaken, str_eq, eq_iff, filter, map,
}
use federal_mcps.Common.Members.{Member, filter-All}
use federal_mcps.Common.Chars.{
  map_chars, counterpart, every_char, units_of, trim_start, trim_end, is_space,
}
use federal_mcps.Common.Dict.{lookup}
use federal_mcps.Common.Sets.{has, distinct, leave_out}
use federal_mcps.Common.Sort.{sort, sort_in}
use federal_mcps.Geography.Types.{EntityRecord, ResolveOptions, ResolveResult}
use federal_mcps.Geography.Names.{normalize_kind}
use federal_mcps.Geography.Catalog.{Catalog}
use federal_mcps.Geography.Dominance.{Scored, largest, is_dominated_town, is_dominated_by_state}
use federal_mcps.Geography.Resolver.Rivals.{
  same_state_town_rivals, has_dominant_state, runner_up, by_population,
}
use federal_mcps.Geography.Resolver.Ranked.{ucgids, listed, decide-first}
use federal_mcps.Geography.Resolver.Asks.{decide-one_kind}
use federal_mcps.Geography.Resolver.States.{IsNoRival, decide-one_state}
use federal_mcps.Geography.Resolver.Answers.{candidates}
use federal_mcps.Geography.Resolver.Kinds.{IsFiltering, resolve_place-IsAmong}
use federal_mcps.Geography.Resolver.{
  Asked, decide, strong_kinds, is_strong, ranks_before, ranked, tier, asks_state, states_of,
  state_rivals, first_of, resolve_place,
}

abbrev entity : String → String → String → String → ℕ → ℕ → EntityRecord
entity geoid sumlevel name state aland population = record {
  ucgid = geoid;
  geoid = geoid;
  sumlevel = sumlevel;
  name = name;
  lsad = none;
  state_fips = some state;
  aland = some aland;
  population = some population;
}

abbrev rows_at : Option (List String) → List EntityRecord → List EntityRecord
rows_at (some sumlevels) rows = filter (λ e. has e.sumlevel sumlevels) rows
rows_at none rows = rows

-- A search that finds every place at its levels.
abbrev catalog_of : List EntityRecord → Catalog
catalog_of rows = record {
  search_names = λ text options. rows_at options.sumlevels rows;
  get_entity = λ ucgid. none;
  entities_at_level = λ sumlevel. filter (λ e. str_eq e.sumlevel sumlevel) rows;
  entities_by_geoid = λ geoid. filter (λ e. str_eq e.geoid geoid) rows;
  aliases_of = λ ucgid. [];
  parents_of = λ ucgid. [];
  overlaps_of = λ ucgid. [];
  agency_codes_of = λ ucgid. [];
  publishes_at = λ sumlevel. [];
  has_county_change = λ ucgid. false;
  lineage_from = λ ucgid. [];
}

catalog_of-IsFiltering : (rows : List EntityRecord) → IsFiltering (catalog_of rows)
catalog_of-IsFiltering rows = record {
  searched = λ text options s sumlevels e.
      rw e (filter-All (λ row. has row.sumlevel (s ∷ sumlevels)) rows);
  leveled = λ sumlevel.
      All-weaken (λ e. str_eq e.sumlevel sumlevel ≡ true) (λ e. e.sumlevel ≡ sumlevel) _
        (λ e h. (eq_iff e.sumlevel sumlevel).0 h) (filter-All _ rows);
}

abbrev places : Catalog
places = catalog_of (
    entity "3432250" "160" "Hoboken city" "34" 3_300_000 60_000
    ∷ entity "34017" "050" "Hudson County" "34" 119_000_000 700_000
    ∷ [])

abbrev cities : ResolveOptions
cities = record { kind = some "City"; state = none; limit = none }

abbrev city_levels : List String
city_levels = "160" ∷ []

resolve_place-IsAmong_example :
    All
      (λ p. has p.sumlevel city_levels ≡ true)
      (candidates (resolve_place places (λ n. n) "Hoboken" cities))
unfolding normalize_kind map_chars counterpart every_char units_of lookup trim_start trim_end
    is_space
resolve_place-IsAmong_example =
    resolve_place-IsAmong places (λ n. n) cities city_levels "Hoboken"
      (catalog_of-IsFiltering (
        entity "3432250" "160" "Hoboken city" "34" 3_300_000 60_000
        ∷ entity "34017" "050" "Hudson County" "34" 119_000_000 700_000
        ∷ []))
      refl

abbrev names : ResolveResult → List String
names r = map (λ p. p.ucgid) (candidates r)

abbrev place : String → String → String → ℕ → ℕ → Scored
place ucgid sumlevel state population score = record {
  candidate = record {
    geoid = ucgid;
    ucgid = ucgid;
    dcid = ucgid;
    name = ucgid;
    sumlevel = sumlevel;
    label = sumlevel;
    state_fips = some state;
    parents = [];
    agency_codes = [];
    available_at = [];
    flags = [];
    population = some population;
    caveat = none;
    score = record { gained = score; lost = 0 };
  };
  is_exact = true;
}

abbrev hoboken_nj : Scored
hoboken_nj = place "New Jersey" "160" "34" 60_000 6

abbrev hoboken_ga : Scored
hoboken_ga = place "Georgia" "160" "13" 500 7

abbrev hoboken : List Scored
hoboken = hoboken_nj ∷ hoboken_ga ∷ []

abbrev asked : Asked
asked = record {
  query = "Hoboken";
  search_text = "Hoboken";
  has_kind = false;
  state = none;
  limit = none;
}

-- The place with the larger land area is answered, though the other has over ten times its people.
hoboken_by_land : names (decide asked hoboken) ≡ "Georgia" ∷ "New Jersey" ∷ []
unfolding decide strong_kinds distinct sort filter sort_in ranks_before tier is_dominated_town
    is_dominated_by_state largest leave_out same_state_town_rivals asks_state states_of
    has_dominant_state runner_up
hoboken_by_land = refl

abbrev colorado_state : Scored
colorado_state = place "Colorado" "040" "08" 5_800_000 1000

abbrev colorado_county : Scored
colorado_county = place "Colorado County" "050" "48" 20_700 900

abbrev colorado : List Scored
colorado = colorado_county ∷ colorado_state ∷ []

colorado_first : names (decide asked colorado) ≡ "Colorado" ∷ "Colorado County" ∷ []
unfolding decide strong_kinds distinct sort filter sort_in ranks_before tier is_dominated_town
    is_dominated_by_state largest leave_out same_state_town_rivals asks_state states_of
    has_dominant_state runner_up
colorado_first = refl

decide-first_example :
    (a : Scored) × Member a colorado
    × (is_strong colorado a ≡ true)
    × (rest : List String) × (ucgids (decide asked colorado) ≡ a.candidate.ucgid ∷ rest)
unfolding is_dominated_town is_dominated_by_state largest
decide-first_example =
    decide-first asked colorado colorado_state (inr (inl refl)) refl (omega arith)

decide-one_kind_example : hoboken_nj.candidate.sumlevel ≡ hoboken_ga.candidate.sumlevel
unfolding decide strong_kinds distinct sort filter sort_in ranks_before tier is_dominated_town
    is_dominated_by_state largest leave_out same_state_town_rivals asks_state states_of
    has_dominant_state runner_up
decide-one_kind_example =
    decide-one_kind asked hoboken _ _ hoboken_nj hoboken_ga refl refl (inl refl) (inr (inl refl))
      refl refl

decide-one_state_example :
    (lead : Scored) × (first_of
        (by_population (state_rivals (first_of (listed asked hoboken)) (ranked hoboken)))
      ≡ some lead)
    × IsNoRival lead hoboken_nj
    × IsNoRival lead hoboken_ga
unfolding decide strong_kinds distinct sort filter sort_in ranks_before tier is_dominated_town
    is_dominated_by_state largest leave_out same_state_town_rivals asks_state states_of
    has_dominant_state runner_up
decide-one_state_example =
    decide-one_state asked hoboken _ _ hoboken_nj hoboken_ga refl refl (inr (inl refl)) (inl refl)
      refl refl refl
