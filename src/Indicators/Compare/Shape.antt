-- ===== src/Indicators/Compare/Shape.antt =====
-- What compare_places returns, and the period that its places share (indicators/tools.ts).
use federal_mcps.Common.{
  String, Bool, true, false, Option, none, some, List, [], ◌∷◌, ◌++◌, map, all, find, filter,
  str_eq, or_else, if◌then◌else◌,
}
use federal_mcps.Common.Sets.{has, distinct}
use federal_mcps.Common.Sort.{sort}
use federal_mcps.Common.TextOrder.{text_before}
use federal_mcps.Geography.Types.{PlaceCandidate}
use federal_mcps.Envelope.{PlaceRef}
use federal_mcps.Indicators.Observations.{
  Observation, SeriesResult, first, all_footnotes, period_key,
}
use federal_mcps.Indicators.Registry.{DimensionSelection, Aligned}
use federal_mcps.Indicators.Series.{Where, Years, SeriesResolution, found, unavailable}

pub record CompareArgs : Type 0 where
  pub indicator : String
  pub places : List String
  pub where_ : Where
  pub years : Years
  pub seasonally_adjusted : Option Bool
  pub dimensions : DimensionSelection

abbrev pub Resolutions : Type 0
Resolutions = List (String × SeriesResolution)

pub record ValueRow (N : Type 0) : Type 0 where
  pub is_fallback : Bool
  pub series_id : Option String
  pub period : Option String
  pub value : Option N
  pub margin_of_error : Option (Option N)
  pub reliability : Option String
  pub place : PlaceRef
  pub caveat : Option String
  pub source_url : Option String

pub data RowStatus (N : Type 0) : Type 0 where
  ambiguous_row : List PlaceCandidate → RowStatus N
  not_found_row : RowStatus N
  unavailable_row : PlaceRef → RowStatus N
  value_row : ValueRow N → RowStatus N

pub record Comparison (N : Type 0) : Type 0 where
  pub indicator : String
  pub seasonally_adjusted : Bool
  pub dimensions : Option DimensionSelection
  pub period : Option String
  pub rows : List (String × RowStatus N)

-- The places that have coverage.
unfoldable pub covered : Resolutions → List PlaceCandidate
covered [] = []
covered ((name, found place code caveat notice) ∷ rest) = place ∷ covered rest
covered ((name, _) ∷ rest) = covered rest

abbrev pub notice_of : SeriesResolution → Option String
notice_of (found place code caveat notice) = notice
notice_of (unavailable place notice) = notice
notice_of _ = none

unfoldable pub last_of : List String → Option String
last_of [] = none
last_of (x ∷ []) = some x
last_of (x ∷ y ∷ xs) = last_of (y ∷ xs)

module _ {N : Type 0} where
  abbrev pub periods_of : SeriesResult N → List String
  periods_of series = distinct (map period_key series.observations)

  abbrev pub has_data : SeriesResult N → Bool
  has_data series = elim series.observations [ [] ↦ false | ◌∷◌ _ _ ↦ true ]

  -- The periods of the first series that every other one has.
  abbrev pub common_periods : List (SeriesResult N) → List String
  common_periods [] = []
  common_periods (series ∷ rest) =
      filter (λ k. all (λ other. has k (periods_of other)) rest) (periods_of series)

  -- The latest period that every series with data shares.
  unfoldable pub aligned_period : List (SeriesResult N) → Option String
  aligned_period series = last_of (sort text_before (common_periods (filter has_data series)))

  -- The series of an id, of several the last.
  unfoldable pub series_by_id : String → List (SeriesResult N) → Option (SeriesResult N)
  series_by_id id [] = none
  series_by_id id (series ∷ rest) =
      let later = series_by_id id rest in
      elim later [
        | some s ↦ some s
        | none ↦ (if str_eq series.series_id id then some series else none)
      ]

  -- The observation of a series at a period.
  unfoldable pub observation_at :
      List (SeriesResult N) → Option String → Option String → Option (Observation N)
  observation_at series id none = none
  observation_at series id (some period) = elim (series_by_id (or_else id "") series) [
    | none ↦ none
    | some s ↦ find (λ o. str_eq (period_key o) period) s.observations
  ]

  abbrev pub value_of : Option (Observation N) → Option N
  value_of none = none
  value_of (some o) = o.value

  abbrev pub margin_of : Option (Observation N) → Option (Option N)
  margin_of none = none
  margin_of (some o) = o.margin_of_error

  abbrev pub reliability_of : Option (Observation N) → Option String
  reliability_of none = none
  reliability_of (some o) = o.reliability

  abbrev pub footnotes_in : List (SeriesResult N) → List (String × String)
  footnotes_in [] = []
  footnotes_in (series ∷ rest) = all_footnotes series.observations ++ footnotes_in rest

  abbrev pub notes_in : List (SeriesResult N) → List String
  notes_in [] = []
  notes_in (series ∷ rest) = series.notes ++ notes_in rest

  abbrev pub first_observation : List (SeriesResult N) → Option (Observation N)
  first_observation [] = none
  first_observation (series ∷ rest) = first series.observations

abbrev pub note_of : Option Aligned → Option String
note_of none = none
note_of (some aligned) = aligned.note
