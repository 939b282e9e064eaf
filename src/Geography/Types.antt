-- ===== src/Geography/Types.antt =====
-- The shapes of the geography resolver (geography/types.ts, and the rows of geography/catalog.ts).
-- Shares are counted in millionths, areas in square metres.
use federal_mcps.Common.{ℕ, String, Bool, Option, List, [], ◌∷◌, or_else}
use federal_mcps.Common.Dict.{Dict, lookup}
use federal_mcps.Common.Text.{template}

pub record PlaceParent : Type 0 where
  pub geoid : String
  pub name : String
  pub sumlevel : String
  pub label : String

pub record AgencyCode : Type 0 where
  pub agency : String
  pub program : String
  pub code : String
  pub note : Option String

pub data KeyedBy : Type 0 where
  census agency_code : KeyedBy

-- A row of `publishes_at`.
pub record Published : Type 0 where
  pub agency : String
  pub program : String
  pub sumlevel : String
  pub constraint_note : Option String
  pub keyed_by : KeyedBy

pub record Availability : Type 0 where
  pub published : Published
  pub has_code : Bool

-- A ranking score in millionths: what raises it and what lowers it.
pub record Score : Type 0 where
  pub gained : ℕ
  pub lost : ℕ

pub record PlaceCandidate : Type 0 where
  pub geoid : String
  pub ucgid : String
  pub dcid : String
  pub name : String
  pub sumlevel : String
  pub label : String
  pub state_fips : Option String
  pub parents : List PlaceParent
  pub agency_codes : List AgencyCode
  pub available_at : List Availability
  pub flags : List String
  pub population : Option ℕ
  pub caveat : Option String
  pub score : Score

-- What the resolver reads of a row of `entity`.
pub record EntityRecord : Type 0 where
  pub ucgid : String
  pub geoid : String
  pub sumlevel : String
  pub name : String
  pub lsad : Option String
  pub state_fips : Option String
  pub aland : Option ℕ
  pub population : Option ℕ

pub record ResolveOptions : Type 0 where
  pub kind : Option String
  pub state : Option String
  pub limit : Option ℕ

pub data ResolveResult : Type 0 where
  resolved : List PlaceCandidate → (notice : Option String) → ResolveResult
  ambiguous : List PlaceCandidate → (explanation : String) → ResolveResult

pub data Relation : Type 0 where
  nests overlaps : Relation

pub record GeographyEdge : Type 0 where
  pub geoid : String
  pub name : String
  pub sumlevel : String
  pub label : String
  pub share : ℕ
  pub relation : Relation

abbrev pub sumlevel_labels : Dict String
sumlevel_labels =
    ("010", "nation")
    ∷ ("020", "region")
    ∷ ("030", "division")
    ∷ ("040", "state")
    ∷ ("050", "county")
    ∷ ("060", "county subdivision")
    ∷ ("140", "census tract")
    ∷ ("160", "place")
    ∷ ("170", "consolidated city")
    ∷ ("310", "metropolitan statistical area")
    ∷ ("314", "metropolitan division")
    ∷ ("330", "combined statistical area")
    ∷ ("500", "congressional district")
    ∷ ("860", "ZCTA")
    ∷ []

unfoldable pub label_for_sumlevel : String → String
label_for_sumlevel sumlevel =
    or_else (lookup sumlevel sumlevel_labels) (template ("summary level " ∷ sumlevel ∷ []))
