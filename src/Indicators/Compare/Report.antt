-- ===== src/Indicators/Compare/Report.antt =====
-- The rows, notes and source of a comparison (indicators/tools.ts: the handler of compare_places).
use federal_mcps.Common.{
  String, Bool, Option, none, some, List, [], ◌∷◌, ◌++◌, map, take, filter, or_else, if◌then◌else◌,
}
use mathlib.Core.Option
use federal_mcps.Common.Chars.{is_set}
use federal_mcps.Common.Checked.{Checked, valid, ◌>>=◌}
use federal_mcps.Common.Dict.{Dict, lookup, insert}
use federal_mcps.Common.Sets.{distinct}
use federal_mcps.Envelope.{Source}
use federal_mcps.Indicators.Observations.{Observation, SeriesResult, add_footnotes, period_key}
use federal_mcps.Indicators.Registry.{IndicatorDefinition, DimensionSelection, Aligned}
use federal_mcps.Indicators.Series.{
  ToolsOptions, present, reference, nation_unavailable_note, history_note, cite, own_source,
  label_of, SeriesResolution, found, unclear, not_found, unavailable,
}
use federal_mcps.Indicators.GetIndicator.{ToolResult, declared_dimensions}
use federal_mcps.Indicators.Compare.Shape.{
  CompareArgs, Resolutions, RowStatus, Comparison, notice_of, aligned_period, observation_at,
  value_of, margin_of, reliability_of, footnotes_in, notes_in, first_observation, note_of,
  ambiguous_row, not_found_row, unavailable_row, value_row,
}

module _ {S N : Type 0} where
  -- What an alignment of the dimensions does to a caveat.
  abbrev pub realign :
      IndicatorDefinition S N → DimensionSelection → SeriesResolution → SeriesResolution
  realign def dimensions (found place code caveat notice) =
      found place code (def.caveat_of place dimensions) notice
  realign def dimensions r = r

  unfoldable pub realign_all : IndicatorDefinition S N → Option Aligned → Resolutions → Resolutions
  realign_all def none resolutions = resolutions
  realign_all def (some aligned) resolutions =
      map (λ r. (r.0, realign def aligned.dimensions r.1)) resolutions

  abbrev pub unavailable_notes : IndicatorDefinition S N → SeriesResolution → List String
  unavailable_notes def (unavailable place notice) =
      filter (λ why. is_set (some why))
        (present (def.unavailable_note place ∷ nation_unavailable_note def.program place ∷ []))
  unavailable_notes def _ = []

  abbrev pub all_unavailable_notes : IndicatorDefinition S N → Resolutions → List String
  all_unavailable_notes def [] = []
  all_unavailable_notes def (r ∷ rest) = unavailable_notes def r.1 ++ all_unavailable_notes def rest

  unfoldable pub notes_before_fetch :
      IndicatorDefinition S N → Option Aligned → Resolutions → List String
  notes_before_fetch def aligned resolutions =
      present (map (λ r. notice_of r.1) resolutions)
      ++ present (note_of aligned ∷ [])
      ++ all_unavailable_notes def resolutions

  -- The series' ids by name.
  unfoldable pub series_ids :
      IndicatorDefinition S N
      → Bool
      → DimensionSelection
      → Resolutions
      → Dict String
      → Checked (Dict String)
  series_ids def adjusted dimensions [] by_name = valid by_name
  series_ids def adjusted dimensions ((name, found place code caveat notice) ∷ rest) by_name =
      def.build_series_id code (record { seasonally_adjusted = adjusted; dimensions = dimensions })
      >>= λ id. series_ids def adjusted dimensions rest (insert name id by_name)
  series_ids def adjusted dimensions ((name, _) ∷ rest) by_name =
      series_ids def adjusted dimensions rest by_name

  abbrev pub row_url :
      IndicatorDefinition S N → Option String → Option (Observation N) → Option String
  row_url def none observed = none
  row_url def (some id) observed = Option.map (λ own. own.url) (own_source def id observed)

  unfoldable pub row_of :
      IndicatorDefinition S N
      → Dict String
      → List (SeriesResult N)
      → Option String
      → String
      → SeriesResolution
      → RowStatus N
  row_of def by_name series period name (unclear explanation candidates) =
      ambiguous_row (take 5 candidates)
  row_of def by_name series period name not_found = not_found_row
  row_of def by_name series period name (unavailable place notice) =
      unavailable_row (reference place)
  row_of def by_name series period name (found place code caveat notice) =
      let id = lookup name by_name in
      let observed = observation_at series id period in
      value_row (record {
        is_fallback = is_set caveat;
        series_id = id;
        period = Option.map period_key observed;
        value = value_of observed;
        margin_of_error = margin_of observed;
        reliability = if is_set (reliability_of observed) then reliability_of observed else none;
        place = reference place;
        caveat = if is_set caveat then caveat else none;
        source_url = row_url def id observed;
      })

  abbrev pub home_url : ToolsOptions S N → IndicatorDefinition S N → String
  home_url o def = elim def.source_of [
    | none ↦ o.source_url
    | some _ ↦ or_else def.source_home o.source_url
  ]

  abbrev pub compared_citation : ToolsOptions S N → IndicatorDefinition S N → List String → String
  compared_citation o def [] = ""
  compared_citation o def (id ∷ ids) =
      cite o def.program (map (λ i. label_of (own_source def i none) i) (id ∷ ids)) (home_url o def)

  unfoldable pub compared_source : ToolsOptions S N → IndicatorDefinition S N → List String → Source
  compared_source o def ids = record {
    agency = o.agency;
    program = def.program;
    ids = ids;
    url = home_url o def;
    citation = compared_citation o def ids;
  }

  unfoldable pub comparison :
      ToolsOptions S N
      → IndicatorDefinition S N
      → CompareArgs
      → Bool
      → DimensionSelection
      → Resolutions
      → List String
      → Dict String
      → List (SeriesResult N)
      → ToolResult (Comparison N)
  comparison o def args adjusted dimensions resolutions notes by_name series =
      let period = aligned_period series in
      record {
        value = record {
          indicator = args.indicator;
          seasonally_adjusted = adjusted;
          dimensions = declared_dimensions def dimensions;
          period = period;
          rows = map (λ r. (r.0, row_of def by_name series period r.0 r.1)) resolutions;
        };
        source = compared_source o def (distinct (map (λ e. e.1) by_name));
        place = none;
        footnotes = add_footnotes (footnotes_in series) [];
        vintage = none;
        limitations =
            notes
            ++ filter (λ h. is_set (some h))
                (present (history_note def args.years (first_observation series) ∷ []))
            ++ distinct (notes_in series);
      }
