-- ===== src/Indicators/Registry.antt =====
-- The definitions of indicators, their dimensions and their registry (indicators/registry.ts). A
-- dimension's argument is its name; a definition's optional functions that give nothing where they
-- are missing are functions that give nothing.
pub mod Dimensions
use federal_mcps.Common.{
  ℕ, ◌≡◌, refl, String, Bool, true, false, ◌&&◌, ◌||◌, not, Option, none, some, List, [], ◌∷◌, ◌++◌,
  map, any, arith, str_eq, or_else, if◌then◌else◌, find, filter,
}
use federal_mcps.Common.Chars.{is_set}
use federal_mcps.Common.Checked.{Checked, valid, invalid}
use federal_mcps.Common.Dict.{Dict, lookup, insert}
use federal_mcps.Common.Sets.{has}
use federal_mcps.Common.Text.{template, join}
use federal_mcps.Http.Client.{Action}
use federal_mcps.Geography.Types.{PlaceCandidate}
use federal_mcps.Geography.Catalog.{Catalog}
use federal_mcps.Indicators.Observations.{Observation, SeriesResult, FetchOptions}

abbrev pub dimension_arguments : List String
dimension_arguments =
    "item" ∷ "industry" ∷ "ownership" ∷ "occupation" ∷ "statistic" ∷ "product" ∷ "frequency"
    ∷ "bedrooms" ∷ "level" ∷ "household_size" ∷ "program" ∷ []

pub record VocabularyEntry : Type 0 where
  pub code : String
  pub label : String

pub record DimensionDefinition : Type 0 where
  pub argument : String
  pub description : String
  pub vocabulary : List VocabularyEntry
  pub default : String
  pub accepts_code : String → Bool
  pub open_codes : Option String

abbrev pub DimensionSelection : Type 0
DimensionSelection = Dict String

pub record IndicatorFallback : Type 0 where
  pub geoid : String
  pub name : String
  pub sumlevel : String
  pub code : String
  pub caveat : String

pub record BuildOptions : Type 0 where
  pub seasonally_adjusted : Bool
  pub dimensions : DimensionSelection

pub record OwnSource : Type 0 where
  pub url : String
  pub label : String
  pub program : Option String

pub record Aligned : Type 0 where
  pub dimensions : DimensionSelection
  pub note : Option String

module _ (S N : Type 0) where
  -- How an indicator turns its series' keys into observations, on a state of its client.
  abbrev pub IndicatorFetch : Type 0
  IndicatorFetch = List String → FetchOptions → Action S (List (SeriesResult N))

  pub record IndicatorDefinition : Type 0 where
    pub name : String
    pub program : String
    pub description : String
    pub national : Bool
    pub default_seasonally_adjusted : Bool
    pub agency_code_of : PlaceCandidate → Option String
    pub build_series_id : String → BuildOptions → Checked String
    pub dimensions : Option (List DimensionDefinition)
    pub caveat_of : PlaceCandidate → DimensionSelection → Option String
    pub align_dimensions : List PlaceCandidate → DimensionSelection → Option Aligned
    pub serves_history : Bool
    pub source_of : Option (String → Option (Observation N) → Option OwnSource)
    pub source_home : Option String
    pub unavailable_note : PlaceCandidate → Option String
    pub fallback : Catalog → PlaceCandidate → Option IndicatorFallback
    pub fetch : Option IndicatorFetch

module _ {S N : Type 0} where
  abbrev pub fetch_strategy_of : IndicatorDefinition S N → IndicatorFetch S N → IndicatorFetch S N
  fetch_strategy_of def default_fetch = or_else def.fetch default_fetch

  abbrev pub declared_of : IndicatorDefinition S N → List DimensionDefinition
  declared_of def = or_else def.dimensions []

abbrev pub arguments_of : List DimensionDefinition → List String
arguments_of declared = map (λ d. d.argument) declared

abbrev pub is_given : DimensionSelection → String → Bool
is_given args argument = elim (lookup argument args) [ none ↦ false | some _ ↦ true ]

-- The first argument that was given and that the indicator does not declare.
unfoldable pub undeclared :
    DimensionSelection → List DimensionDefinition → List String → Option String
undeclared args declared arguments =
    find (λ a. is_given args a && not (has a (arguments_of declared))) arguments

abbrev pub takes : List DimensionDefinition → String
takes [] = "no dimension arguments"
takes (d ∷ declared) = join ", " (arguments_of (d ∷ declared))

abbrev pub undeclared_message : String → List DimensionDefinition → String → String
undeclared_message name declared argument = template (
    "\""
    ∷ argument
    ∷ "\" is not accepted: indicator "
    ∷ name
    ∷ " takes "
    ∷ takes declared
    ∷ "."
    ∷ [])

abbrev pub is_accepted : DimensionDefinition → String → Bool
is_accepted dim value = any (λ v. str_eq v.code value) dim.vocabulary || dim.accepts_code value

abbrev pub entry_text : VocabularyEntry → String
entry_text v = template (v.code ∷ " (" ∷ v.label ∷ ")" ∷ [])

unfoldable pub vocabulary_message : String → DimensionDefinition → String → String
vocabulary_message name dim value = template (
    dim.argument
    ∷ " \""
    ∷ value
    ∷ "\" is not in "
    ∷ name
    ∷ "'s vocabulary; accepted: "
    ∷ join ", " (map entry_text dim.vocabulary)
    ∷ (if is_set dim.open_codes then template ("; or " ∷ or_else dim.open_codes "" ∷ []) else "")
    ∷ ". See bls_list_indicators."
    ∷ [])

abbrev pub value_for : DimensionSelection → DimensionDefinition → String
value_for args dim = or_else (lookup dim.argument args) dim.default

unfoldable pub select :
    String
    → DimensionSelection
    → List DimensionDefinition
    → DimensionSelection
    → Checked DimensionSelection
select name args [] selection = valid selection
select name args (dim ∷ declared) selection =
    let value = value_for args dim in
    let rest = select name args declared (insert dim.argument value selection) in
    if is_accepted dim value then rest else invalid (vocabulary_message name dim value)

abbrev pub unless_undeclared :
    String
    → List DimensionDefinition
    → DimensionSelection
    → Option String
    → Checked DimensionSelection
unless_undeclared name declared args (some argument) =
    invalid (undeclared_message name declared argument)
unless_undeclared name declared args none = select name args declared []

-- The codes for an indicator's dimensions, defaults filled, or why they are refused.
unfoldable pub resolve_dimensions :
    String → List DimensionDefinition → DimensionSelection → Checked DimensionSelection
resolve_dimensions name declared args =
    unless_undeclared name declared args (undeclared args declared dimension_arguments)

module _ {S N : Type 0} where
  unfoldable pub register :
      List (IndicatorDefinition S N)
      → Dict (IndicatorDefinition S N)
      → Dict (IndicatorDefinition S N)
  register [] by_name = by_name
  register (d ∷ rest) by_name = register rest (insert d.name d by_name)

  -- A registry is a map by name: of two definitions with one name the later stays, where the first
  -- stood.
  unfoldable pub create_indicator_registry :
      List (IndicatorDefinition S N) → Dict (IndicatorDefinition S N)
  create_indicator_registry definitions = register definitions []
