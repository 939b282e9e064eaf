-- ===== src/Geography/Catalog.antt =====
-- What the resolver asks of its catalog (geography/catalog.ts), which keeps its rows in SQLite.
use federal_mcps.Common.{ℕ, String, Bool, Option, List}
use federal_mcps.Geography.Types.{EntityRecord, AgencyCode, Published}

-- The filters of `searchNames`.
pub record SearchOptions : Type 0 where
  pub state_fips : Option String
  pub state_usps : Option String
  pub sumlevels : Option (List String)
  pub exclude_sumlevels : List String
  pub limit : ℕ

pub record LineageEdge : Type 0 where
  pub from_geoid : String
  pub to_geoid : String
  pub from_vintage : ℕ
  pub to_vintage : ℕ
  pub share : ℕ

pub record Catalog : Type 0 where
  pub search_names : String → SearchOptions → List EntityRecord
  pub get_entity : String → Option EntityRecord
  pub entities_at_level : String → List EntityRecord
  pub entities_by_geoid : String → List EntityRecord
  pub aliases_of : String → List String
  pub parents_of : String → List (EntityRecord × ℕ)
  pub overlaps_of : String → List (EntityRecord × ℕ)
  pub agency_codes_of : String → List AgencyCode
  pub publishes_at : String → List Published
  pub has_county_change : String → Bool
  pub lineage_from : String → List LineageEdge
