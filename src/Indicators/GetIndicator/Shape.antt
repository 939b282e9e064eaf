-- ===== src/Indicators/GetIndicator/Shape.antt =====
-- What get_indicator takes and returns, and how it reports a place (indicators/tools.ts).
use federal_mcps.Common.{String, Bool, Option, none, some, List, [], ◌∷◌, map}
use mathlib.Core.Option
use federal_mcps.Common.Checked.{Checked}
use federal_mcps.Common.Dict.{lookup, insert}
use federal_mcps.Http.Client.{Failure}
use federal_mcps.Geography.Types.{PlaceCandidate, PlaceParent}
use federal_mcps.Envelope.{Source, Footnote, PlaceRef, Place, place_of, place_ref}
use federal_mcps.Indicators.Observations.{Observation, SeriesResult}
use federal_mcps.Indicators.Registry.{
  IndicatorDefinition, IndicatorFallback, DimensionSelection, dimension_arguments, declared_of,
  resolve_dimensions,
}
use federal_mcps.Indicators.Series.{Where, Years}

pub record IndicatorArgs : Type 0 where
  pub place : Option String
  pub indicator : String
  pub where_ : Where
  pub years : Years
  pub seasonally_adjusted : Option Bool
  pub dimensions : DimensionSelection

pub record Values (N : Type 0) : Type 0 where
  pub measure : String
  pub seasonally_adjusted : Bool
  pub dimensions : Option DimensionSelection
  pub latest : Option (String × Option N)
  pub observations : List (Observation N)

pub data IndicatorData (N : Type 0) : Type 0 where
  which_place : List PlaceCandidate → IndicatorData N
  no_place : (query : String) → IndicatorData N
  no_series : (measure : String) → IndicatorData N
  values : Values N → IndicatorData N

-- `ToolHandlerResult`; footnotes and limitations that are missing are none.
pub record ToolResult (D : Type 0) : Type 0 where
  pub value : D
  pub source : Source
  pub place : Option PlaceRef
  pub footnotes : List Footnote
  pub vintage : Option String
  pub limitations : List String

-- A tool answers, throws an error with a message, or fails as its client does.
pub data ToolOutcome (D : Type 0) : Type 0 where
  answered : ToolResult D → ToolOutcome D
  refused : String → ToolOutcome D
  failed : Failure → ToolOutcome D

abbrev pub pick : DimensionSelection → List String → DimensionSelection → DimensionSelection
pick given [] out = out
pick given (a ∷ arguments) out = elim (lookup a given) [
  | none ↦ pick given arguments out
  | some value ↦ pick given arguments (insert a value out)
]

unfoldable pub pick_dimension_args : DimensionSelection → DimensionSelection
pick_dimension_args given = pick given dimension_arguments []

module _ {S N : Type 0} where
  abbrev pub dimensions_or_throw :
      IndicatorDefinition S N → DimensionSelection → Checked DimensionSelection
  dimensions_or_throw def given =
      resolve_dimensions def.name (declared_of def) (pick_dimension_args given)

  abbrev pub declared_dimensions :
      IndicatorDefinition S N → DimensionSelection → Option DimensionSelection
  declared_dimensions def dimensions = Option.map (λ _. dimensions) def.dimensions

abbrev pub observations_of : {N : Type 0} → List (SeriesResult N) → List (Observation N)
observations_of [] = []
observations_of (series ∷ _) = series.observations

abbrev pub notes_of : {N : Type 0} → List (SeriesResult N) → List String
notes_of [] = []
notes_of (series ∷ _) = series.notes

-- What an answer is about, and what is said of it first.
pub record Reported : Type 0 where
  pub measure : String
  pub place : PlaceRef
  pub said : List (Option String)

abbrev pub parent_ref : PlaceParent → Place
parent_ref p =
    place_of (record { geoid = p.geoid; sumlevel = p.sumlevel; label = p.label; name = p.name })

abbrev pub reported_place : PlaceCandidate → Option IndicatorFallback → PlaceRef
reported_place top none =
    place_ref
      (record { geoid = top.geoid; sumlevel = top.sumlevel; label = top.label; name = top.name })
      (map parent_ref top.parents)
reported_place top (some fb) =
    place_ref
      (record { geoid = fb.geoid; sumlevel = fb.sumlevel; label = top.label; name = fb.name }) []
