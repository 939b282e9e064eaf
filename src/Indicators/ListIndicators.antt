-- ===== src/Indicators/ListIndicators.antt =====
-- `<agency>_list_indicators` (indicators/tools.ts).
use federal_mcps.Common.{
  ℕ, String, Bool, true, false, Option, none, some, List, [], ◌∷◌, map, if◌then◌else◌,
}
use mathlib.Core.Option
use federal_mcps.Common.Chars.{is_set}
use federal_mcps.Common.Dict.{Dict}
use federal_mcps.Geography.Types.{PlaceCandidate, ResolveResult, resolved, ambiguous}
use federal_mcps.Geography.Catalog.{Catalog}
use federal_mcps.Geography.Resolver.{resolve_place}
use federal_mcps.Indicators.Registry.{
  IndicatorDefinition, IndicatorFallback, VocabularyEntry, DimensionDefinition,
  create_indicator_registry,
}
use federal_mcps.Indicators.Series.{ToolsOptions, Where, options_of, present, reference, no_source}
use federal_mcps.Indicators.GetIndicator.{ToolResult}

pub record DescribedDimension : Type 0 where
  pub argument : String
  pub description : String
  pub default : String
  pub vocabulary : List VocabularyEntry
  pub also_accepts : Option String

pub record CatalogEntry : Type 0 where
  pub indicator : String
  pub program : String
  pub description : String
  pub national : Bool
  pub dimensions : Option (List DescribedDimension)

-- Whether a place has a series of its own, and the substitute's name where it has not.
pub record Published : Type 0 where
  pub entry : CatalogEntry
  pub published_at_level : Bool
  pub fallback_to : Option String

pub data Listing : Type 0 where
  entries : List CatalogEntry → Listing
  which_place : List CatalogEntry → List PlaceCandidate → Listing
  no_place : List CatalogEntry → String → Listing
  published : List Published → Listing

abbrev pub describe : DimensionDefinition → DescribedDimension
describe d = record {
  argument = d.argument;
  description = d.description;
  default = d.default;
  vocabulary = d.vocabulary;
  also_accepts = if is_set d.open_codes then d.open_codes else none;
}

abbrev pub is_there : Option String → Bool
is_there none = false
is_there (some code) = true

abbrev pub name_of : Option IndicatorFallback → Option String
name_of none = none
name_of (some fb) = some fb.name

module _ {S N : Type 0} where
  unfoldable pub catalog_entry : IndicatorDefinition S N → CatalogEntry
  catalog_entry def = record {
    indicator = def.name;
    program = def.program;
    description = def.description;
    national = def.national;
    dimensions = Option.map (λ l. map describe l) def.dimensions;
  }

  abbrev pub definitions_of : Dict (IndicatorDefinition S N) → List (IndicatorDefinition S N)
  definitions_of registry = map (λ e. e.1) registry

  unfoldable pub published_of : Catalog → PlaceCandidate → IndicatorDefinition S N → Published
  published_of catalog top def = record {
    entry = catalog_entry def;
    published_at_level = is_there (def.agency_code_of top);
    fallback_to =
        if is_there (def.agency_code_of top) then none else name_of (def.fallback catalog top);
  }

  module _ (o : ToolsOptions S N) (catalog : Catalog) (log10 : ℕ → ℕ) where
    abbrev pub listed : List (IndicatorDefinition S N)
    listed = definitions_of (create_indicator_registry o.definitions)

    abbrev pub without_place : Listing → List String → ToolResult Listing
    without_place listing limitations = record {
      value = listing;
      source = no_source o (elim o.source_program [ none ↦ "indicators" | some p ↦ p ]);
      place = none;
      footnotes = [];
      vintage = none;
      limitations = limitations;
    }

    abbrev pub list_resolved : String → ResolveResult → ToolResult Listing
    list_resolved query (ambiguous candidates explanation) =
        without_place (which_place (map catalog_entry listed) candidates) (explanation ∷ [])
    list_resolved query (resolved [] notice) =
        without_place (no_place (map catalog_entry listed) query) []
    list_resolved query (resolved (top ∷ candidates) notice) =
        record (without_place (published (map (published_of catalog top) listed))
          (present (notice ∷ []))) { place = some (reference top) }

    unfoldable pub list_indicators : Option String → Where → ToolResult Listing
    list_indicators none w = without_place (entries (map catalog_entry listed)) []
    list_indicators (some place) w =
        if is_set (some place)
        then list_resolved place (resolve_place catalog log10 place (options_of w))
        else without_place (entries (map catalog_entry listed)) []
