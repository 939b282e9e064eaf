-- ===== src/Indicators/Compare.antt =====
-- `<agency>_compare_places` (indicators/tools.ts). The arguments are those that the tool's schema
-- has parsed.
pub mod Shape
pub mod Report
pub mod Periods
pub mod Observed
pub mod Rows
use federal_mcps.Common.{
  ℕ, ◌≡◌, refl, String, Bool, true, false, ◌&&◌, ◌||◌, not, Option, none, some, List, [], ◌∷◌, ◌++◌,
  map, take, all, find, filter, arith, str_eq, or_else, if◌then◌else◌,
}
use mathlib.Core.Option
use federal_mcps.Common.Chars.{is_set}
use federal_mcps.Common.Checked.{Checked, valid, invalid, ◌>>=◌}
use federal_mcps.Common.Dict.{Dict, lookup, insert}
use federal_mcps.Common.Sets.{has, distinct}
use federal_mcps.Common.Sort.{sort}
use federal_mcps.Common.Text.{template}
use federal_mcps.Common.TextOrder.{text_before}
use federal_mcps.Http.Client.{Failure, Result, ok, err}
use federal_mcps.Geography.Types.{PlaceCandidate}
use federal_mcps.Geography.Catalog.{Catalog}
use federal_mcps.Envelope.{Source, Footnote, PlaceRef}
use federal_mcps.Indicators.Observations.{
  Observation, SeriesResult, FetchOptions, first, add_footnotes, all_footnotes, period_key,
}
use federal_mcps.Indicators.Registry.{
  IndicatorDefinition, DimensionSelection, Aligned, fetch_strategy_of, create_indicator_registry,
}
use federal_mcps.Indicators.Series.{
  ToolsOptions, Where, Years, present, reference, nation_unavailable_note, history_note,
  fetch_options, cite, own_source, url_of, label_of, SeriesResolution, found, unclear, not_found,
  unavailable, resolve_series,
}
use federal_mcps.Indicators.GetIndicator.{
  ToolResult, ToolOutcome, answered, refused, failed, dimensions_or_throw, declared_dimensions,
}
unfoldable pub use Shape.*
unfoldable pub use Report.*

module _ {S N : Type 0} (o : ToolsOptions S N) where
  abbrev pub after_compare :
      (List (SeriesResult N) → ToolResult (Comparison N))
      → Result (List (SeriesResult N)) × S
      → ToolOutcome (Comparison N) × S
  after_compare result (ok series, s) = (answered (result series), s)
  after_compare result (err e, s) = (failed e, s)

  -- Nothing is fetched where no place has a series.
  abbrev pub fetch_ids :
      IndicatorDefinition S N → Years → List String → S → Result (List (SeriesResult N)) × S
  fetch_ids def years [] s = (ok [], s)
  fetch_ids def years (id ∷ ids) s =
      fetch_strategy_of def o.default_fetch (id ∷ ids) (fetch_options o years) s

  abbrev pub compare_built :
      IndicatorDefinition S N
      → CompareArgs
      → Bool
      → DimensionSelection
      → Resolutions
      → List String
      → Checked (Dict String)
      → S
      → ToolOutcome (Comparison N) × S
  compare_built def args adjusted dimensions resolutions notes (invalid message) s =
      (refused message, s)
  compare_built def args adjusted dimensions resolutions notes (valid by_name) s =
      after_compare (comparison o def args adjusted dimensions resolutions notes by_name)
        (fetch_ids def args.years (distinct (map (λ e. e.1) by_name)) s)

  abbrev pub aligned_dimensions : Option Aligned → DimensionSelection → DimensionSelection
  aligned_dimensions none requested = requested
  aligned_dimensions (some aligned) requested = aligned.dimensions

  unfoldable pub compare_resolved :
      IndicatorDefinition S N
      → CompareArgs
      → DimensionSelection
      → Resolutions
      → S
      → ToolOutcome (Comparison N) × S
  compare_resolved def args requested resolutions s =
      let adjusted = or_else args.seasonally_adjusted def.default_seasonally_adjusted in
      let aligned = def.align_dimensions (covered resolutions) requested in
      let dimensions = aligned_dimensions aligned requested in
      let entries = realign_all def aligned resolutions in
      compare_built def args adjusted dimensions entries
        (notes_before_fetch def aligned resolutions) (series_ids def adjusted dimensions entries [])
        s

  module _ (catalog : Catalog) (log10 : ℕ → ℕ) where
    unfoldable pub resolutions_of :
        IndicatorDefinition S N → CompareArgs → DimensionSelection → Resolutions
    resolutions_of def args requested =
        map (λ name. (name, resolve_series catalog def log10 name args.where_ requested))
          args.places

    abbrev pub compare_defined :
        IndicatorDefinition S N
        → CompareArgs
        → Checked DimensionSelection
        → S
        → ToolOutcome (Comparison N) × S
    compare_defined def args (invalid message) s = (refused message, s)
    compare_defined def args (valid requested) s =
        compare_resolved def args requested (resolutions_of def args requested) s

    abbrev pub national_message : String → String
    national_message indicator = template (
        indicator
        ∷ " is published nationally only, so there is nothing to compare across places; use "
        ∷ o.agency ∷ "_get_indicator." ∷ [])

    abbrev pub compare_known :
        CompareArgs → Option (IndicatorDefinition S N) → S → ToolOutcome (Comparison N) × S
    compare_known args none s =
        (refused (template ("unknown indicator \"" ∷ args.indicator ∷ "\"." ∷ [])), s)
    compare_known args (some def) s =
        if def.national
        then (refused (national_message args.indicator), s)
        else compare_defined def args (dimensions_or_throw def args.dimensions) s

    unfoldable pub compare_places : CompareArgs → S → ToolOutcome (Comparison N) × S
    compare_places args s =
        compare_known args (lookup args.indicator (create_indicator_registry o.definitions)) s
