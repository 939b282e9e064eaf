-- ===== src/Indicators/Series.antt =====
-- What the indicator tools share (indicators/tools.ts): the series of a place, notes, the source of
-- an answer. The clock is the current year and the time in ISO form.
use federal_mcps.Common.{
  ℕ, ◌-◌, String, Bool, true, false, ◌||◌, not, Option, none, some, List, [], ◌∷◌, str_eq, or_else,
  if◌then◌else◌,
}
use federal_mcps.Common.Chars.{is_set}
use federal_mcps.Common.Text.{template}
use federal_mcps.Http.Notes.{decimal}
use federal_mcps.Geography.Types.{
  PlaceCandidate, ResolveOptions, ResolveResult, resolved, ambiguous,
}
use federal_mcps.Geography.Catalog.{Catalog}
use federal_mcps.Geography.Resolver.{resolve_place}
use federal_mcps.Envelope.{Source, PlaceRef, build_citation, place_ref}
use federal_mcps.Indicators.Observations.{Observation, FetchOptions, first, period_label}
use federal_mcps.Indicators.Registry.{
  IndicatorDefinition, IndicatorFetch, IndicatorFallback, DimensionSelection, OwnSource,
}

pub record ToolsOptions (S N : Type 0) : Type 0 where
  pub agency : String
  pub definitions : List (IndicatorDefinition S N)
  pub api_key : Option String
  pub default_fetch : IndicatorFetch S N
  pub source_url : String
  pub citation_suffix : Option String
  pub source_program : Option String
  pub now : String
  pub current_year : ℕ

-- The arguments of the tools that name a place or a time.
pub record Where : Type 0 where
  pub kind : Option String
  pub state : Option String

pub record Years : Type 0 where
  pub start_year : Option ℕ
  pub end_year : Option ℕ

abbrev pub options_of : Where → ResolveOptions
options_of w = record { kind = w.kind; state = w.state; limit = none }

abbrev pub listed : ResolveResult → List PlaceCandidate
listed (resolved candidates notice) = candidates
listed (ambiguous candidates explanation) = candidates

-- The optional texts that are there.
unfoldable pub present : List (Option String) → List String
present [] = []
present (none ∷ texts) = present texts
present (some t ∷ texts) = t ∷ present texts

abbrev pub nation_sumlevel : String
nation_sumlevel = "010"

abbrev pub is_nation : PlaceCandidate → Bool
is_nation place = str_eq place.sumlevel nation_sumlevel

unfoldable pub nation_unavailable_note : String → PlaceCandidate → Option String
nation_unavailable_note program place =
    if is_nation place
    then some (
        template (
          program
          ∷ " publishes no national (United States) series that this server reads; ask for a state, county or metro area instead."
          ∷ []))
    else none

-- `placeRef` of a candidate itself
abbrev pub reference : PlaceCandidate → PlaceRef
reference place =
    place_ref
      (record {
        geoid = place.geoid;
        sumlevel = place.sumlevel;
        label = place.label;
        name = place.name;
      })
      []

abbrev pub united_states : PlaceRef
united_states =
    place_ref (record { geoid = "US"; sumlevel = "010"; label = "nation"; name = "United States" })
      []

pub data SeriesResolution : Type 0 where
  found :
      (place : PlaceCandidate) (code : String) (caveat notice : Option String) → SeriesResolution
  unclear : (explanation : String) → List PlaceCandidate → SeriesResolution
  not_found : SeriesResolution
  unavailable : (place : PlaceCandidate) (notice : Option String) → SeriesResolution

-- The code of a place's own series with its caveat, or a fallback's; an empty code is none.
pub record Coverage : Type 0 where
  pub code : Option String
  pub caveat : Option String
  pub substitute : Option IndicatorFallback

abbrev pub substituted : Option String → Option IndicatorFallback → Coverage
substituted code none = record { code = code; caveat = none; substitute = none }
substituted code (some fb) = record {
  code = some fb.code;
  caveat = some fb.caveat;
  substitute = some fb;
}

module _ {S N : Type 0} (catalog : Catalog) (def : IndicatorDefinition S N) where
  unfoldable pub coverage_of : PlaceCandidate → DimensionSelection → Coverage
  coverage_of place dimensions =
      let code = def.agency_code_of place in
      if is_set code
      then record { code = code; caveat = def.caveat_of place dimensions; substitute = none }
      else substituted code (def.fallback catalog place)

  abbrev pub resolution_of : PlaceCandidate → Option String → Coverage → SeriesResolution
  resolution_of place notice c =
      if is_set c.code
      then found place (or_else c.code "") c.caveat notice
      else unavailable place notice

  abbrev pub series_of : ResolveResult → DimensionSelection → SeriesResolution
  series_of (ambiguous candidates explanation) dimensions = unclear explanation candidates
  series_of (resolved [] notice) dimensions = not_found
  series_of (resolved (top ∷ candidates) notice) dimensions =
      resolution_of top notice (coverage_of top dimensions)

  unfoldable pub resolve_series :
      (log10 : ℕ → ℕ) → String → Where → DimensionSelection → SeriesResolution
  resolve_series log10 name w dimensions =
      series_of (resolve_place catalog log10 name (options_of w)) dimensions

abbrev pub top_of : ResolveResult → Option PlaceCandidate
top_of (ambiguous candidates explanation) = none
top_of (resolved candidates notice) = first candidates

abbrev pub not_a_figure : String → String → Option String
not_a_figure program name =
    some (
      template (program ∷ " is published nationally only; this is not a " ∷ name ∷ " figure." ∷ []))

abbrev pub mentioned_caveat : String → String → Option PlaceCandidate → Option String
mentioned_caveat program place none = not_a_figure program place
mentioned_caveat program place (some top) =
    if is_nation top then none else not_a_figure program top.name

unfoldable pub mentioned_place_caveat :
    (catalog : Catalog) (log10 : ℕ → ℕ) → String → String → Where → Option String
mentioned_place_caveat catalog log10 program place w =
    mentioned_caveat program place (top_of (resolve_place catalog log10 place (options_of w)))

abbrev pub year_text : Option ℕ → String
year_text none = "…"
year_text (some y) = decimal y

abbrev pub asks_years : Years → Bool
asks_years p = elim p.start_year [
  | some _ ↦ true
  | none ↦ elim p.end_year [ some _ ↦ true | none ↦ false ]
]

abbrev pub returned_period : {N : Type 0} → Option (Observation N) → String
returned_period none = "no published period"
returned_period (some o) = period_label o

abbrev pub url_of : Option OwnSource → String → String
url_of none url = url
url_of (some own) url = own.url

abbrev pub program_of : Option OwnSource → String → String
program_of none program = program
program_of (some own) program = or_else own.program program

abbrev pub label_of : Option OwnSource → String → String
label_of none series_id = series_id
label_of (some own) series_id = own.label

module _ {S N : Type 0} where
  unfoldable pub history_note :
      IndicatorDefinition S N → Years → Option (Observation N) → Option String
  history_note def p latest =
      if def.serves_history || not (asks_years p)
      then none
      else some (
          template (
            def.program
            ∷ " serves only its latest published period ("
            ∷ returned_period latest
            ∷ "); the requested "
            ∷ year_text p.start_year
            ∷ "–"
            ∷ year_text p.end_year
            ∷ " range was not applied."
            ∷ []))

  unfoldable pub fetch_options : ToolsOptions S N → Years → FetchOptions
  fetch_options o p = record {
    start_year = or_else p.start_year (o.current_year - 1);
    end_year = or_else p.end_year o.current_year;
    api_key = if is_set o.api_key then o.api_key else none;
    explicit_years = asks_years p;
  }

  unfoldable pub cite : ToolsOptions S N → String → List String → String → String
  cite o program ids url =
      let base = build_citation o.agency program ids url o.now in
      if is_set o.citation_suffix
      then template (base ∷ " " ∷ or_else o.citation_suffix "" ∷ [])
      else base

  abbrev pub own_source :
      IndicatorDefinition S N → String → Option (Observation N) → Option OwnSource
  own_source def series_id latest = elim def.source_of [
    | none ↦ none
    | some source_of ↦ source_of series_id latest
  ]

  -- The source block of one indicator's answer.
  unfoldable pub source_for :
      ToolsOptions S N → IndicatorDefinition S N → String → Option (Observation N) → Source
  source_for o def series_id latest =
      let own = own_source def series_id latest in
      let url = url_of own o.source_url in
      let program = program_of own def.program in
      record {
        agency = o.agency;
        program = program;
        ids = series_id ∷ [];
        url = url;
        citation = cite o program (label_of own series_id ∷ []) url;
      }

  -- The source block of an answer that has no series.
  abbrev pub no_source : ToolsOptions S N → String → Source
  no_source o program = record {
    agency = o.agency;
    program = program;
    ids = [];
    url = o.source_url;
    citation = "";
  }
