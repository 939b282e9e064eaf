-- ===== src/Bls/Programs/Cpi.antt =====
-- The CPI indicator's ladder of fallbacks (packages/server-bls/src/cpi-indicators.ts).
pub mod Ladder
use federal_mcps.Common.{
  ℕ, ltb, String, Bool, true, false, ◌&&◌, not, Option, none, some, List, [], ◌∷◌, map, filter,
  find, str_eq, if◌then◌else◌,
}
use federal_mcps.Common.Chars.{is_empty, is_set}
use federal_mcps.Common.Checked.{Checked, valid, invalid}
use federal_mcps.Common.Sets.{has}
use federal_mcps.Common.Sort.{sort}
use federal_mcps.Common.Text.{template}
use federal_mcps.Geography.Identifiers.{ucgid_of}
use federal_mcps.Geography.Types.{PlaceCandidate, AgencyCode, EntityRecord, GeographyEdge}
use federal_mcps.Geography.Catalog.{Catalog}
use federal_mcps.Geography.Candidates.{get_containment}
use federal_mcps.Indicators.Registry.{IndicatorFallback, OwnSource}
use federal_mcps.Bls.SeriesIds.{
  LausMeasure, build_cps_series_id, build_laus_series_id, is_cps_series_id, build_sm_series_id,
  build_ces_national_series_id, is_ces_national_series_id,
}
use federal_mcps.Bls.Programs.{nation_code, is_nation, is_program_code, program_code, found_note}

abbrev pub cpi_area_of : PlaceCandidate → Option String
cpi_area_of place = program_code "CPI" place.agency_codes

abbrev pub cpi_code_of_ucgid : Catalog → String → Option String
cpi_code_of_ucgid catalog ucgid = program_code "CPI" (catalog.agency_codes_of ucgid)

-- The parent of an area at a level.
abbrev pub parent_at : Catalog → String → String → Option EntityRecord
parent_at catalog sumlevel ucgid =
    find (λ e. str_eq e.sumlevel sumlevel) (map (λ p. p.0) (catalog.parents_of ucgid))

abbrev pub us_average : PlaceCandidate → IndicatorFallback
us_average place = record {
  geoid = "US";
  name = "U.S. city average";
  sumlevel = "010";
  code = "0000";
  caveat = template (
      "CPI is not published for " ∷ place.name
      ∷ "; showing the U.S. city average (CPI-U). Local CPI is available only for about 23 large metro areas, census divisions and regions."
      ∷ []);
}

abbrev pub division_answer : PlaceCandidate → EntityRecord → String → IndicatorFallback
division_answer place division code = record {
  geoid = division.geoid;
  name = template (division.name ∷ " division" ∷ []);
  sumlevel = "030";
  code = code;
  caveat = template (
      "CPI is not published for " ∷ place.name ∷ "; showing the " ∷ division.name
      ∷ " division (CPI-U). Local CPI is available only for about 23 large metro areas; many division series publish bimonthly."
      ∷ []);
}

abbrev pub region_answer : PlaceCandidate → EntityRecord → String → IndicatorFallback
region_answer place region code = record {
  geoid = region.geoid;
  name = template (region.name ∷ " region" ∷ []);
  sumlevel = "020";
  code = code;
  caveat = template (
      "CPI is not published for " ∷ place.name ∷ "; showing the " ∷ region.name
      ∷ " region (CPI-U). Local CPI is available only for about 23 large metro areas; some region series publish bimonthly."
      ∷ []);
}

-- The code of a step of the ladder, or the next step where it is missing or empty.
abbrev pub step :
    Option String → (String → IndicatorFallback) → IndicatorFallback → IndicatorFallback
step none answer next = next
step (some code) answer next = if is_empty code then next else answer code

abbrev pub from_region : Catalog → PlaceCandidate → Option EntityRecord → IndicatorFallback
from_region catalog place none = us_average place
from_region catalog place (some region) =
    step (cpi_code_of_ucgid catalog region.ucgid) (region_answer place region) (us_average place)

abbrev pub from_division : Catalog → PlaceCandidate → Option EntityRecord → IndicatorFallback
from_division catalog place none = us_average place
from_division catalog place (some division) =
    step (cpi_code_of_ucgid catalog division.ucgid) (division_answer place division)
      (from_region catalog place (parent_at catalog "020" division.ucgid))

abbrev pub from_state : Catalog → PlaceCandidate → Option String → IndicatorFallback
from_state catalog place none = us_average place
from_state catalog place (some state) =
    if is_empty state
    then us_average place
    else from_division catalog place (parent_at catalog "030" (ucgid_of "040" state))

unfoldable pub cpi_fallback : Catalog → PlaceCandidate → IndicatorFallback
cpi_fallback catalog place = from_state catalog place place.state_fips
