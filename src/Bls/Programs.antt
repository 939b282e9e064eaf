-- ===== src/Bls/Programs.antt =====
-- The indicators of LAUS, CPI and CES (packages/server-bls/src: laus-indicators.ts, cpi-indicators.ts and
-- ces-indicators.ts): which code a place has, and what stands in for a place without one.
pub mod Laus
pub mod Ces
pub mod Cpi
use federal_mcps.Common.{
  ℕ, ltb, String, Bool, true, false, ◌&&◌, not, Option, none, some, List, [], ◌∷◌, map, filter,
  find, str_eq, if◌then◌else◌,
}
use federal_mcps.Common.Chars.{is_empty, is_set}
use federal_mcps.Common.Checked.{Checked, valid, invalid}
use federal_mcps.Common.Sets.{has}
use federal_mcps.Common.Sort.{sort}
use federal_mcps.Common.Text.{template}
use federal_mcps.Geography.Identifiers.{ucgid_of}
use federal_mcps.Geography.Types.{PlaceCandidate, AgencyCode, EntityRecord, GeographyEdge}
use federal_mcps.Geography.Catalog.{Catalog}
use federal_mcps.Geography.Candidates.{get_containment}
use federal_mcps.Indicators.Registry.{IndicatorFallback, OwnSource}
use federal_mcps.Bls.SeriesIds.{
  LausMeasure, build_cps_series_id, build_laus_series_id, is_cps_series_id, build_sm_series_id,
  build_ces_national_series_id, is_ces_national_series_id,
}

abbrev pub nation_code : String
nation_code = "US"

abbrev pub is_nation : PlaceCandidate → Bool
is_nation place = str_eq place.sumlevel "010"

abbrev pub is_program_code : String → AgencyCode → Bool
is_program_code program c = str_eq c.agency "bls" && str_eq c.program program

abbrev pub found_code : Option AgencyCode → Option String
found_code none = none
found_code (some c) = some c.code

-- `codes.find(…)?.code`
abbrev pub program_code : String → List AgencyCode → Option String
program_code program codes = found_code (find (is_program_code program) codes)

abbrev pub found_note : Option AgencyCode → Option String
found_note none = none
found_note (some c) = c.note
