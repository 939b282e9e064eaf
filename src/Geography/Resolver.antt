-- ===== src/Geography/Resolver.antt =====
-- The resolution of a place's name (geography/resolver.ts: `resolvePlace`). The catalog is the
-- record of its queries, `log10` the logarithm in millionths.
pub mod Search
pub mod Rivals
pub mod Ranked
pub mod Asks
pub mod States
pub mod Answers
pub mod Kinds
mod Tests
use federal_mcps.Common.Chars.{is_set}
use federal_mcps.Common.{
  filter, find, ℕ, ◌+◌, String, Bool, true, false, ◌&&◌, ◌||◌, not, Option, none, some, List, [],
  ◌∷◌, ◌++◌, map, length, take, ltb, ◌==◌, any, str_eq, or_else, if◌then◌else◌,
}
use mathlib.Core.Option
use federal_mcps.Common.Chars.{trim, slice_to, units_of, has_digits}
use federal_mcps.Common.Sets.{distinct}
use federal_mcps.Common.Sort.{sort}
use federal_mcps.Common.Text.{template, join}
use federal_mcps.Geography.Identifiers.{usps_of_state_fips}
use federal_mcps.Geography.Types.{
  Score, PlaceCandidate, EntityRecord, ResolveOptions, ResolveResult, resolved, ambiguous,
  label_for_sumlevel,
}
use federal_mcps.Geography.Names.{
  normalize_name, normalize_state, normalize_kind, split_county_suffix,
}
use federal_mcps.Geography.Dominance.{
  Scored, is_level, fold_town_twins, metros_as_fallback, is_dominated_town, is_dominated_by_state,
  flag_ambiguous,
}
use federal_mcps.Geography.Catalog.{Catalog, SearchOptions}
use federal_mcps.Geography.Candidates.{score_candidate}
use Search.{allows, nation_matches, with_nation, search_splitting_towns, split_state_suffix}
use Rivals.{same_state_town_rivals, has_dominant_state, town_rivals_explanation, dominance_notice}

abbrev pub max_query_length : ℕ
max_query_length = 200

abbrev pub is_dominated : List Scored → Scored → Bool
is_dominated scored c = is_dominated_town c scored || is_dominated_by_state c scored

unfoldable pub tier : List Scored → Scored → ℕ
tier scored c =
    if is_dominated_town c scored
    then 3
    else if not c.is_exact
    then 2
    else if is_dominated scored c
    then 1
    else 0

abbrev pub higher : Score → Score → Bool
higher a b = ltb (b.gained + a.lost) (a.gained + b.lost)

-- `tier(a) - tier(b) || b.score - a.score` is negative.
unfoldable pub ranks_before : List Scored → Scored → Scored → Bool
ranks_before scored a b =
    ltb (tier scored a) (tier scored b)
    || tier scored a == tier scored b && higher a.candidate.score b.candidate.score

abbrev pub ranked : List Scored → List Scored
ranked scored = sort (ranks_before scored) scored

abbrev pub candidates_of : List Scored → List PlaceCandidate
candidates_of scored = map (λ c. c.candidate) scored

-- The kinds of the exact matches that nothing dominates.
abbrev pub is_strong : List Scored → Scored → Bool
is_strong scored c = c.is_exact && not (is_dominated scored c)

unfoldable pub strong_kinds : List Scored → List String
strong_kinds scored =
    distinct (map (λ c. c.candidate.sumlevel) (filter (is_strong scored) (ranked scored)))

unfoldable pub kinds_explanation : String → List String → String
kinds_explanation query kinds = template (
    "\""
    ∷ query
    ∷ "\" matches more than one kind of place ("
    ∷ join ", " (map label_for_sumlevel kinds)
    ∷ "). Specify a kind to choose."
    ∷ [])

abbrev pub first_of : List Scored → Option Scored
first_of [] = none
first_of (c ∷ scored) = some c

abbrev pub has_state : Scored → Bool
has_state c = elim c.candidate.state_fips [ none ↦ false | some _ ↦ true ]

-- The exact matches of the first candidate's kind that lie in a state.
abbrev pub state_rivals : Option Scored → List Scored → List Scored
state_rivals none scored = []
state_rivals (some top) scored =
    filter (λ c. c.is_exact && is_level top.candidate.sumlevel c && has_state c) scored

unfoldable pub states_of : List Scored → List String
states_of scored = distinct (map (λ c. or_else c.candidate.state_fips "") scored)

abbrev pub label_of : Option Scored → String
label_of none = "place"
label_of (some top) = label_for_sumlevel top.candidate.sumlevel

abbrev pub state_name : String → String
state_name fips = or_else (usps_of_state_fips fips) fips

abbrev pub first_text : List String → String
first_text [] = ""
first_text (s ∷ r) = s

unfoldable pub states_explanation : String → String → String → List String → String
states_explanation query name label states = template (
    "\""
    ∷ query
    ∷ "\" matches a "
    ∷ label
    ∷ " in more than one state ("
    ∷ join ", " (map state_name states)
    ∷ "). Specify a state to choose, e.g. \""
    ∷ name
    ∷ ", "
    ∷ first_text (map state_name states)
    ∷ "\"."
    ∷ [])

-- Whether the exact matches of the first candidate's kind lie in several states, none dominant.
unfoldable pub asks_state : List Scored → List Scored → Bool
asks_state candidates scored =
    let rivals = state_rivals (first_of candidates) scored in
    ltb 1 (length (states_of rivals)) && not (has_dominant_state rivals)

-- What a query asks, after its text has been read.
pub record Asked : Type 0 where
  pub query : String
  pub search_text : String
  pub has_kind : Bool
  pub state : Option String
  pub limit : Option ℕ

abbrev pub with_dominant : PlaceCandidate → PlaceCandidate
with_dominant p = record p { flags = p.flags ++ "dominant_match" ∷ [] }

-- A state that won by the rule of ten says so.
abbrev pub answer : Asked → List Scored → List Scored → ResolveResult
answer asked by_state [] = resolved [] none
answer asked by_state (top ∷ candidates) =
    if not asked.has_kind && top.is_exact && is_level "040" top && ltb 0 (length by_state)
    then resolved (with_dominant top.candidate ∷ candidates_of candidates)
        (some (dominance_notice asked.query top.candidate by_state))
    else resolved (candidates_of (top ∷ candidates)) none

-- The end of `resolvePlace`, from the matches in the county that was asked for.
unfoldable pub decide : Asked → List Scored → ResolveResult
decide asked in_county =
    let scored = ranked in_county in
    let candidates = take (or_else asked.limit 10) scored in
    if not asked.has_kind && ltb 1 (length (strong_kinds in_county))
    then ambiguous (flag_ambiguous candidates)
        (kinds_explanation asked.query (strong_kinds in_county))
    else elim (same_state_town_rivals scored) [
      | some rivals ↦
          ambiguous (flag_ambiguous candidates)
            (town_rivals_explanation asked.query asked.search_text rivals)
      | none ↦
          (if not (is_set asked.state) && asks_state candidates scored
            then ambiguous (flag_ambiguous candidates) (
                states_explanation asked.query asked.search_text (label_of (first_of candidates))
                  (states_of (state_rivals (first_of candidates) scored)))
            else answer asked (filter (λ c. is_dominated_by_state c in_county) in_county)
                candidates)
    ]

-- The matches in the county, where one is named.
unfoldable pub in_county_of : Option String → List Scored → List Scored
in_county_of county scored =
    if is_set county
    then filter
        (λ c.
          any (λ p. str_eq p.sumlevel "050" && str_eq (normalize_name p.name) (or_else county ""))
            c.candidate.parents)
        scored
    else scored

abbrev pub is_geoid : String → Bool
is_geoid s = has_digits 7 s || has_digits 10 s || has_digits 11 s

abbrev pub is_none : {A : Type 0} → Option A → Bool
is_none none = true
is_none (some _) = false

module _ (catalog : Catalog) (log10 : ℕ → ℕ) where
  abbrev pub score_all : String → List EntityRecord → List Scored
  score_all query rows = map (score_candidate catalog log10 query) rows

  abbrev pub search_options : Option String → Option (List String) → SearchOptions
  search_options state sumlevels = record {
    state_fips = state;
    state_usps = elim state [ none ↦ none | some fips ↦ usps_of_state_fips fips ];
    sumlevels = sumlevels;
    exclude_sumlevels = [];
    limit = 50;
  }

  -- The rows that a search finds, scored and folded.
  unfoldable pub matches : String → Option String → Option (List String) → List Scored
  matches search_text state sumlevels =
      let query = normalize_name search_text in
      metros_as_fallback
        (fold_town_twins (
          score_all query (
            with_nation (nation_matches catalog query sumlevels state)
              (search_splitting_towns catalog search_text (search_options state sumlevels)))))
        (not (is_none state) && is_none sumlevels)

  abbrev pub chosen_state : Option String → Option String → Option String
  chosen_state (some state) suffix = some state
  chosen_state none suffix = suffix

  unfoldable pub resolve_by_search : String → ResolveOptions → String → ResolveResult
  resolve_by_search query options bounded =
      let suffix = split_state_suffix catalog bounded in
      let state = chosen_state (normalize_state options.state) suffix.1 in
      let county = split_county_suffix (if is_set suffix.1 then suffix.0 else bounded) in
      decide
        (record {
          query = query;
          search_text = county.0;
          has_kind = is_set options.kind;
          state = state;
          limit = options.limit;
        })
        (in_county_of county.1 (matches county.0 state (normalize_kind options.kind)))

  -- The places with this bare GEOID.
  abbrev pub by_geoid : String → Option (List String) → List Scored
  by_geoid bare sumlevels =
      score_all (normalize_name bare)
        (filter (λ e. allows sumlevels e.sumlevel) (catalog.entities_by_geoid bare))

  abbrev pub or_search : List Scored → ResolveResult → ResolveResult
  or_search [] searched = searched
  or_search (c ∷ found) searched = resolved (candidates_of (c ∷ found)) none

  unfoldable pub resolve_place : String → ResolveOptions → ResolveResult
  resolve_place query options =
      let bounded = slice_to max_query_length query in
      let sumlevels = normalize_kind options.kind in
      let searched = resolve_by_search query options bounded in
      if ltb (units_of (trim bounded)) 3
      then resolved
          (candidates_of (
            score_all (normalize_name bounded) (
              nation_matches catalog (normalize_name bounded) sumlevels
                (normalize_state options.state))))
          none
      else if is_geoid (trim bounded)
      then or_search (by_geoid (trim bounded) sumlevels) searched
      else searched
