-- ===== src/Geography/Tools.antt =====
-- The geography tools (geography/tools.ts: the handlers of `geographyTools` and `edgeTool`, and
-- `placeRefOf`). The arguments are those that a tool's schema has parsed.
use federal_mcps.Common.{
  ℕ, ◌≡◌, refl, String, Bool, Option, none, some, List, [], ◌∷◌, map, any, str_eq, if◌then◌else◌,
}
use federal_mcps.Common.Chars.{is_set}
use federal_mcps.Common.Text.{template}
use federal_mcps.Envelope.{Place, PlaceRef, Source}
use federal_mcps.Geography.Types.{
  PlaceCandidate, PlaceParent, Availability, GeographyEdge, ResolveResult, resolved, ambiguous,
}
use federal_mcps.Geography.Identifiers.{ucgid_of, dcid_of}
use federal_mcps.Geography.Catalog.{Catalog, LineageEdge}
use federal_mcps.Geography.Candidates.{get_containment, get_overlap, get_lineage, get_availability}
use federal_mcps.Geography.Resolver.{resolve_place}

pub data GeographyToolName : Type 0 where
  resolve_place_tool get_containment_tool get_overlap_tool get_lineage_tool list_availability_tool :
      GeographyToolName

abbrev pub geography_source : Source
geography_source = record {
  agency = "census";
  program = "geography";
  ids = [];
  url = "https://www.census.gov/programs-surveys/geography.html";
  citation =
      "U.S. Census Bureau geographic reference files, OMB delineations, and BLS area codes (federal-mcps geography catalog).";
}

abbrev pub parent_place : PlaceParent → Place
parent_place p = record {
  geoid = p.geoid;
  ucgid = ucgid_of p.sumlevel p.geoid;
  dcid = dcid_of p.sumlevel p.geoid;
  name = p.name;
  sumlevel = p.sumlevel;
  label = p.label;
}

unfoldable pub place_ref_of : PlaceCandidate → PlaceRef
place_ref_of c = record {
  place = record {
    geoid = c.geoid;
    ucgid = c.ucgid;
    dcid = c.dcid;
    name = c.name;
    sumlevel = c.sumlevel;
    label = c.label;
  };
  parents = map parent_place c.parents;
  caveat = c.caveat;
}

-- What the handlers return as `data`.
pub data GeographyData : Type 0 where
  places_data : ResolveResult → GeographyData
  edges_data : List GeographyEdge → GeographyData
  lineage_data : List LineageEdge → GeographyData
  availability_data : List Availability → GeographyData

pub record GeographyResult : Type 0 where
  pub value : GeographyData
  pub source : Source
  pub place : Option PlaceRef
  pub limitations : Option (List String)

abbrev pub candidates_of_result : ResolveResult → List PlaceCandidate
candidates_of_result (resolved places notice) = places
candidates_of_result (ambiguous places explanation) = places

abbrev pub top_place : List PlaceCandidate → Option PlaceRef
top_place [] = none
top_place (c ∷ _) = some (place_ref_of c)

abbrev pub noticed : Option String → Option (List String)
noticed none = none
noticed (some notice) = if is_set (some notice) then some (notice ∷ []) else none

abbrev pub result_limitations : ResolveResult → Option (List String)
result_limitations (ambiguous places explanation) = some (explanation ∷ [])
result_limitations (resolved places notice) = noticed notice

abbrev pub plain_result : GeographyData → GeographyResult
plain_result value = record {
  value = value;
  source = geography_source;
  place = none;
  limitations = none;
}

module _ (catalog : Catalog) (log10 : ℕ → ℕ) where
  unfoldable pub handle_resolve_place : String → (kind state : Option String) → GeographyResult
  handle_resolve_place query kind state =
      let result =
        resolve_place catalog log10 query (record { kind = kind; state = state; limit = none }) in
      record {
        value = places_data result;
        source = geography_source;
        place = top_place (candidates_of_result result);
        limitations = result_limitations result;
      }

  -- The tools that take a UCGID; `resolve_place` is not one of them.
  unfoldable pub handle_by_ucgid : GeographyToolName → String → Option GeographyResult
  handle_by_ucgid resolve_place_tool ucgid = none
  handle_by_ucgid get_containment_tool ucgid =
      some (plain_result (edges_data (get_containment catalog ucgid)))
  handle_by_ucgid get_overlap_tool ucgid =
      some (plain_result (edges_data (get_overlap catalog ucgid)))
  handle_by_ucgid get_lineage_tool ucgid =
      some (plain_result (lineage_data (get_lineage catalog ucgid)))
  handle_by_ucgid list_availability_tool ucgid =
      some (plain_result (availability_data (get_availability catalog ucgid)))

abbrev pub tool_verb : GeographyToolName → String
tool_verb resolve_place_tool = "resolve_place"
tool_verb get_containment_tool = "get_containment"
tool_verb get_overlap_tool = "get_overlap"
tool_verb get_lineage_tool = "get_lineage"
tool_verb list_availability_tool = "list_availability"

abbrev pub is_included : Option (List GeographyToolName) → GeographyToolName → Bool
is_included none tool = str_eq (tool_verb tool) "resolve_place"
is_included (some include) tool = any (λ t. str_eq (tool_verb t) (tool_verb tool)) include

unfoldable pub keep_included :
    String → Option (List GeographyToolName) → List GeographyToolName → List String
keep_included agency include [] = []
keep_included agency include (tool ∷ tools) =
    let rest = keep_included agency include tools in
    if is_included include tool then template (agency ∷ "_" ∷ tool_verb tool ∷ []) ∷ rest else rest

-- The names of the tools that a server mounts, `resolve_place` alone when it names none.
unfoldable pub geography_tools : String → Option (List GeographyToolName) → List String
geography_tools agency include = keep_included agency include (
    resolve_place_tool ∷ get_containment_tool ∷ get_overlap_tool ∷ get_lineage_tool
    ∷ list_availability_tool ∷ [])

agency_server : geography_tools "bls" none ≡ "bls_resolve_place" ∷ []
unfolding geography_tools keep_included
agency_server = refl
