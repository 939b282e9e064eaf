-- ===== src/Bls/Programs/Ces.antt =====
-- The CES indicator (packages/server-bls/src/ces-indicators.ts).
use federal_mcps.Common.{String, Bool, Option, none, some, [], ◌∷◌, find, str_eq, if◌then◌else◌}
use federal_mcps.Common.Checked.{Checked, valid}
use federal_mcps.Common.Text.{template}
use federal_mcps.Geography.Types.{PlaceCandidate}
use federal_mcps.Indicators.Registry.{OwnSource}
use federal_mcps.Bls.SeriesIds.{
  build_sm_series_id, build_ces_national_series_id, is_ces_national_series_id,
}
use federal_mcps.Bls.Programs.{nation_code, is_nation, is_program_code, program_code, found_note}

unfoldable pub ces_code_of : PlaceCandidate → Option String
ces_code_of place =
    if is_nation place
    then some nation_code
    else if str_eq place.sumlevel "040"
    then some (template (place.geoid ∷ "00000" ∷ []))
    else if str_eq place.sumlevel "310"
    then program_code "SM" place.agency_codes
    else none

abbrev pub ces_national_caveat : String
ces_national_caveat =
    "National figure from the CES national survey estimate (CE series), not State and Area (SM): national and state CES are estimated and benchmarked separately, so the national figure is not the sum of the states."

abbrev pub ces_caveat_of : PlaceCandidate → Option String
ces_caveat_of place =
    if is_nation place
    then some ces_national_caveat
    else found_note (find (is_program_code "SM") place.agency_codes)

abbrev pub ces_series_id : String → Bool → Checked String
ces_series_id code adjusted =
    if str_eq code nation_code
    then valid (build_ces_national_series_id adjusted)
    else build_sm_series_id code adjusted

abbrev pub ces_source_of : String → Option OwnSource
ces_source_of key =
    if is_ces_national_series_id key
    then some (record {
      url = "https://api.bls.gov/publicAPI/v2/timeseries/data/";
      label = template (key ∷ " (CES national)" ∷ []);
      program = some "CES";
    })
    else none
