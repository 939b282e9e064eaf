-- ===== src/Indicators/Compare/Rows.antt =====
-- The rows of a comparison (indicators/tools.ts: the handler of `<agency>_compare_places`).
use federal_mcps.Common.{
  ℕ, ◌≡◌, refl, ap, ◌∙◌, String, Bool, Option, none, some, List, [], ◌∷◌, map, if-both, All,
}
use mathlib.Core.Option
use mathlib.Core.Option.{none-ne-some}
use federal_mcps.Common.Chars.{is_set}
use federal_mcps.Common.{if◌then◌else◌}
use federal_mcps.Common.Checked.{Checked, valid, invalid}
use federal_mcps.Common.Dict.{Dict, lookup}
use federal_mcps.Http.Client.{Result, ok, err}
use federal_mcps.Geography.Catalog.{Catalog}
use federal_mcps.Indicators.Observations.{SeriesResult, period_key}
use federal_mcps.Indicators.Registry.{
  IndicatorDefinition, DimensionSelection, Aligned, create_indicator_registry,
}
use federal_mcps.Indicators.Series.{
  ToolsOptions, SeriesResolution, found, unclear, not_found, unavailable, resolve_series, reference,
}
use federal_mcps.Indicators.GetIndicator.{ToolOutcome, answered}
use federal_mcps.Indicators.Compare.{
  CompareArgs, Resolutions, RowStatus, margin_of, reliability_of, row_url, fetch_ids, Comparison,
  covered, observation_at, value_of, realign_all, row_of, comparison, after_compare, compare_built,
  compare_resolved, resolutions_of, compare_defined, compare_known, compare_places, aligned_period,
}
use federal_mcps.Indicators.Compare.Observed.{IsAt, row-IsAt, observation_at-IsGiven}

abbrev pub names_of : Resolutions → List String
names_of resolutions = map (λ r. r.0) resolutions

module _ {S N : Type 0} (def : IndicatorDefinition S N) where
  row_of-IsAt :
      (by_name : Dict String) (series : List (SeriesResult N)) (period : Option String)
      (name : String) (r : SeriesResolution)
      → IsAt series period (row_of def by_name series period name r)
  unfolding row_of
  row_of-IsAt by_name series period name (unclear explanation candidates) = tt
  row_of-IsAt by_name series period name not_found = tt
  row_of-IsAt by_name series period name (unavailable place notice) = tt
  row_of-IsAt by_name series period name (found place code caveat notice) =
      let id = lookup name by_name in
      let observed = observation_at series id period in
      row-IsAt series period
        (record {
          is_fallback = is_set caveat;
          series_id = id;
          period = Option.map period_key observed;
          value = value_of observed;
          margin_of_error = margin_of observed;
          reliability = if is_set (reliability_of observed) then reliability_of observed else none;
          place = reference place;
          caveat = if is_set caveat then caveat else none;
          source_url = row_url def id observed;
        })
        observed (observation_at-IsGiven series id period) refl refl refl

  rows-IsAt :
      (by_name : Dict String) (series : List (SeriesResult N)) (period : Option String)
      (resolutions : Resolutions)
      → All
          (λ (row : String × RowStatus N). IsAt series period row.1)
          (map (λ r. (r.0, row_of def by_name series period r.0 r.1)) resolutions)
  rows-IsAt by_name series period [] = tt
  rows-IsAt by_name series period (r ∷ rest) =
      (row_of-IsAt by_name series period r.0 r.1, rows-IsAt by_name series period rest)

  rows-names :
      (by_name : Dict String) (series : List (SeriesResult N)) (period : Option String)
      (resolutions : Resolutions)
      → map
          (λ (row : String × RowStatus N). row.0)
          (map (λ r. (r.0, row_of def by_name series period r.0 r.1)) resolutions)
        ≡ names_of resolutions
  rows-names by_name series period [] = refl
  rows-names by_name series period (r ∷ rest) =
      ap (λ l. r.0 ∷ l) (rows-names by_name series period rest)

  realign_all-names :
      (aligned : Option Aligned) (resolutions : Resolutions)
      → names_of (realign_all def aligned resolutions) ≡ names_of resolutions
  unfolding realign_all
  realign_all-names none resolutions = refl
  realign_all-names (some aligned) [] = refl
  realign_all-names (some aligned) (r ∷ rest) =
      ap (λ l. r.0 ∷ l) (realign_all-names (some aligned) rest)

module _ {S N : Type 0} (o : ToolsOptions S N) (args : CompareArgs) (s : S) where
  -- An answer has one row for each place, in order, at the period of the comparison, from the series
  -- that the indicator's fetch gave.
  abbrev pub IsComparison : ToolOutcome (Comparison N) × S → Type 0
  IsComparison (answered r, s') =
      (map (λ (row : String × RowStatus N). row.0) r.value.rows ≡ args.places)
      × (def : IndicatorDefinition S N) × (ids : List String) × (series : List (SeriesResult N))
      × (lookup args.indicator (create_indicator_registry o.definitions) ≡ some def)
      × ((fetch_ids o def args.years ids s).0 ≡ ok series)
      × All (λ (row : String × RowStatus N). IsAt series r.value.period row.1) r.value.rows
  IsComparison _ = Unit

  module _ (def : IndicatorDefinition S N)
      (known : lookup args.indicator (create_indicator_registry o.definitions) ≡ some def) where
    compared-IsComparison :
        (adjusted : Bool) (dimensions : DimensionSelection) (resolutions : Resolutions)
        (notes : List String) (by_name : Dict String) (ids : List String)
        (fetched : Result (List (SeriesResult N)) × S)
        → names_of resolutions ≡ args.places
        → fetch_ids o def args.years ids s ≡ fetched
        → IsComparison (
            after_compare o
              (comparison o def args adjusted dimensions resolutions notes by_name)
              fetched)
    compared-IsComparison adjusted dimensions resolutions notes by_name ids (ok series, s') e f =
        unfold comparison in
        (
          rows-names def by_name series (aligned_period series) resolutions ∙ e,
          def,
          ids,
          series,
          known,
          ap (λ p. p.0) f,
          rows-IsAt def by_name series (aligned_period series) resolutions,
        )
    compared-IsComparison adjusted dimensions resolutions notes by_name ids (err x, s') e f = tt

    built-IsComparison :
        (adjusted : Bool) (dimensions : DimensionSelection) (resolutions : Resolutions)
        (notes : List String) (built : Checked (Dict String))
        → names_of resolutions ≡ args.places
        → IsComparison (compare_built o def args adjusted dimensions resolutions notes built s)
    built-IsComparison adjusted dimensions resolutions notes (invalid message) e = tt
    built-IsComparison adjusted dimensions resolutions notes (valid by_name) e =
        compared-IsComparison adjusted dimensions resolutions notes by_name _ _ e refl

    resolved-IsComparison :
        (requested : DimensionSelection) (resolutions : Resolutions)
        → names_of resolutions ≡ args.places
        → IsComparison (compare_resolved o def args requested resolutions s)
    unfolding compare_resolved
    resolved-IsComparison requested resolutions e = built-IsComparison _ _ _ _ _ (
        realign_all-names def (def.align_dimensions (covered resolutions) requested) resolutions
        ∙ e)

module _ {S N : Type 0} (o : ToolsOptions S N) (catalog : Catalog) (log10 : ℕ → ℕ) where
  resolutions_of-names :
      (def : IndicatorDefinition S N) (args : CompareArgs) (requested : DimensionSelection)
      (places : List String)
      → names_of
          (map (λ name. (name, resolve_series catalog def log10 name args.where_ requested)) places)
        ≡ places
  resolutions_of-names def args requested [] = refl
  resolutions_of-names def args requested (p ∷ places) =
      ap (λ l. p ∷ l) (resolutions_of-names def args requested places)

  defined-IsComparison :
      (def : IndicatorDefinition S N) (args : CompareArgs) (requested : Checked DimensionSelection)
      (s : S)
      → lookup args.indicator (create_indicator_registry o.definitions) ≡ some def
      → IsComparison o args s (compare_defined o catalog log10 def args requested s)
  unfolding resolutions_of
  defined-IsComparison def args (invalid message) s known = tt
  defined-IsComparison def args (valid requested) s known =
      resolved-IsComparison o args s def known requested _
        (resolutions_of-names def args requested args.places)

  known-IsComparison :
      (args : CompareArgs) (def : Option (IndicatorDefinition S N)) (s : S)
      → lookup args.indicator (create_indicator_registry o.definitions) ≡ def
      → IsComparison o args s (compare_known o catalog log10 args def s)
  known-IsComparison args none s known = tt
  known-IsComparison args (some def) s known =
      if-both (IsComparison o args s) def.national tt (defined-IsComparison def args _ s known)

  -- A comparison has one row for each place that was asked for, in that order. A row with a value has
  -- that value and its margin of error from an observation at the one period of the comparison, in a
  -- series that the indicator's fetch gave and that has the row's id; a row of values has no period
  -- and no value only where its series is not there or has no observation at that period.
  pub compare_places-IsComparison :
      (args : CompareArgs) (s : S) → IsComparison o args s (compare_places o catalog log10 args s)
  unfolding compare_places
  compare_places-IsComparison args s = known-IsComparison args _ s refl
