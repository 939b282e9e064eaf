-- ===== src/Indicators/GetIndicator.antt =====
-- `<agency>_get_indicator` (indicators/tools.ts: the `handler` of `indicatorTools`, with
-- `nationalIndicator`). The arguments are those that the tool's schema has parsed.
pub mod Shape
pub mod Idle
pub mod Honest
use federal_mcps.Common.{
  ℕ, ◌≡◌, refl, String, Bool, true, false, ◌&&◌, ◌||◌, not, Option, none, some, List, [], ◌∷◌, ◌++◌,
  map, arith, str_eq, or_else, if◌then◌else◌,
}
use mathlib.Core.Option
use federal_mcps.Common.Chars.{is_set}
use federal_mcps.Common.Checked.{Checked, valid, invalid}
use federal_mcps.Common.Dict.{Dict, lookup, insert}
use federal_mcps.Common.Text.{template}
use federal_mcps.Http.Client.{Failure, Result, ok, err}
use federal_mcps.Geography.Types.{PlaceCandidate, PlaceParent, ResolveResult, resolved, ambiguous}
use federal_mcps.Geography.Catalog.{Catalog}
use federal_mcps.Geography.Resolver.{resolve_place}
use federal_mcps.Envelope.{Source, Footnote, PlaceRef, Place, place_of, place_ref}
use federal_mcps.Indicators.Observations.{
  Observation, SeriesResult, FetchOptions, first, collect_footnotes, period_key,
}
use federal_mcps.Indicators.Registry.{
  IndicatorDefinition, IndicatorFallback, DimensionSelection, dimension_arguments, declared_of,
  fetch_strategy_of, resolve_dimensions, create_indicator_registry,
}
use federal_mcps.Indicators.Series.{
  ToolsOptions, Where, Years, options_of, present, Coverage, coverage_of, reference, united_states,
  nation_unavailable_note, mentioned_place_caveat, history_note, fetch_options, source_for,
  no_source,
}
unfoldable pub use Shape.*

module _ {S N : Type 0} (o : ToolsOptions S N) where
  -- The answer from what was fetched.
  unfoldable pub values_result :
      IndicatorDefinition S N
      → IndicatorArgs
      → DimensionSelection
      → Bool
      → String
      → Reported
      → List (SeriesResult N)
      → ToolResult (IndicatorData N)
  values_result def args dimensions adjusted series_id reported series =
      let observations = observations_of series in
      let latest = first observations in
      record {
        value = values (record {
          measure = reported.measure;
          seasonally_adjusted = adjusted;
          dimensions = declared_dimensions def dimensions;
          latest = Option.map (λ l. (period_key l, l.value)) latest;
          observations = observations;
        });
        source = source_for o def series_id latest;
        place = some reported.place;
        footnotes = collect_footnotes observations;
        vintage = Option.map period_key latest;
        limitations =
            present (reported.said ++ history_note def args.years latest ∷ []) ++ notes_of series;
      }

  abbrev pub after_fetch :
      (List (SeriesResult N) → ToolResult (IndicatorData N))
      → Result (List (SeriesResult N)) × S
      → ToolOutcome (IndicatorData N) × S
  after_fetch result (ok series, s) = (answered (result series), s)
  after_fetch result (err e, s) = (failed e, s)

  abbrev pub fetch_built :
      IndicatorDefinition S N
      → IndicatorArgs
      → DimensionSelection
      → Bool
      → Reported
      → Checked String
      → S
      → ToolOutcome (IndicatorData N) × S
  fetch_built def args dimensions adjusted reported (invalid message) s = (refused message, s)
  fetch_built def args dimensions adjusted reported (valid series_id) s =
      after_fetch (values_result def args dimensions adjusted series_id reported)
        (fetch_strategy_of def o.default_fetch (series_id ∷ []) (fetch_options o args.years) s)

  -- Builds the series of a code and fetches it.
  unfoldable pub fetch_series :
      IndicatorDefinition S N
      → IndicatorArgs
      → DimensionSelection
      → Reported
      → String
      → S
      → ToolOutcome (IndicatorData N) × S
  fetch_series def args dimensions reported code s =
      let adjusted = or_else args.seasonally_adjusted def.default_seasonally_adjusted in
      fetch_built def args dimensions adjusted reported
        (def.build_series_id code
          (record { seasonally_adjusted = adjusted; dimensions = dimensions }))
        s

  unfoldable pub no_series_result :
      IndicatorDefinition S N
      → String
      → PlaceCandidate
      → Option String
      → ToolResult (IndicatorData N)
  no_series_result def measure top notice = record {
    value = no_series measure;
    source = no_source o def.program;
    place = some (reference top);
    footnotes = [];
    vintage = none;
    limitations =
        present (notice ∷ [])
        ++ template (
            def.program ∷ " publishes no series for " ∷ top.name ∷ " and no fallback was found."
            ∷ [])
          ∷ present (def.unavailable_note top ∷ nation_unavailable_note def.program top ∷ []);
  }

  -- What is answered for the place that a name was resolved to.
  unfoldable pub answer_place :
      IndicatorDefinition S N
      → IndicatorArgs
      → DimensionSelection
      → PlaceCandidate
      → Option String
      → Coverage
      → S
      → ToolOutcome (IndicatorData N) × S
  answer_place def args dimensions top notice c s =
      if is_set c.code
      then fetch_series def args dimensions
          (record {
            measure = args.indicator;
            place = reported_place top c.substitute;
            said = notice ∷ c.caveat ∷ [];
          })
          (or_else c.code "") s
      else (answered (no_series_result def args.indicator top notice), s)

  abbrev pub without_series :
      IndicatorDefinition S N → IndicatorData N → String → ToolResult (IndicatorData N)
  without_series def value limitation = record {
    value = value;
    source = no_source o def.program;
    place = none;
    footnotes = [];
    vintage = none;
    limitations = limitation ∷ [];
  }

  module _ (catalog : Catalog) (log10 : ℕ → ℕ) where
    abbrev pub answer_resolved :
        IndicatorDefinition S N
        → IndicatorArgs
        → DimensionSelection
        → String
        → ResolveResult
        → S
        → ToolOutcome (IndicatorData N) × S
    answer_resolved def args dimensions query (ambiguous candidates explanation) s =
        (answered (without_series def (which_place candidates) explanation), s)
    answer_resolved def args dimensions query (resolved [] notice) s = (
      answered (
          without_series def (no_place query)
            (template ("No place matched \"" ∷ query ∷ "\"." ∷ []))),
      s,
    )
    answer_resolved def args dimensions query (resolved (top ∷ candidates) notice) s =
        answer_place def args dimensions top notice (coverage_of catalog def top dimensions) s

    abbrev pub mentioned : IndicatorDefinition S N → IndicatorArgs → Option String
    mentioned def args = elim args.place [
      | none ↦ none
      | some place ↦ mentioned_place_caveat catalog log10 def.program place args.where_
    ]

    unfoldable pub national_indicator :
        IndicatorDefinition S N
        → IndicatorArgs
        → DimensionSelection
        → S
        → ToolOutcome (IndicatorData N) × S
    national_indicator def args dimensions s =
        fetch_series def args dimensions
          (record { measure = def.name; place = united_states; said = mentioned def args ∷ [] })
          "US" s

    abbrev pub answer_placed :
        IndicatorDefinition S N
        → IndicatorArgs
        → DimensionSelection
        → Option String
        → S
        → ToolOutcome (IndicatorData N) × S
    answer_placed def args dimensions none s = (
      refused (
          template (
            "place is required for " ∷ args.indicator
            ∷ "; only national-scope indicators answer without one." ∷ [])),
      s,
    )
    answer_placed def args dimensions (some place) s =
        answer_resolved def args dimensions place
          (resolve_place catalog log10 place (options_of args.where_)) s

    abbrev pub answer_defined :
        IndicatorDefinition S N
        → IndicatorArgs
        → Checked DimensionSelection
        → S
        → ToolOutcome (IndicatorData N) × S
    answer_defined def args (invalid message) s = (refused message, s)
    answer_defined def args (valid dimensions) s =
        if def.national
        then national_indicator def args dimensions s
        else answer_placed def args dimensions args.place s

    abbrev pub answer_known :
        IndicatorArgs → Option (IndicatorDefinition S N) → S → ToolOutcome (IndicatorData N) × S
    answer_known args none s =
        (refused (template ("unknown indicator \"" ∷ args.indicator ∷ "\"." ∷ [])), s)
    answer_known args (some def) s =
        answer_defined def args (dimensions_or_throw def args.dimensions) s

    unfoldable pub get_indicator : IndicatorArgs → S → ToolOutcome (IndicatorData N) × S
    get_indicator args s =
        answer_known args (lookup args.indicator (create_indicator_registry o.definitions)) s
