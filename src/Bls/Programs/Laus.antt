-- ===== src/Bls/Programs/Laus.antt =====
-- The LAUS indicators (packages/server-bls/src/laus-indicators.ts).
use federal_mcps.Common.{
  ltb, String, Bool, not, Option, none, some, List, [], ◌∷◌, filter, str_eq, if◌then◌else◌,
}
use federal_mcps.Common.Chars.{is_empty}
use federal_mcps.Common.Checked.{Checked, valid}
use federal_mcps.Common.Sets.{has}
use federal_mcps.Common.Sort.{sort}
use federal_mcps.Common.Text.{template}
use federal_mcps.Geography.Identifiers.{ucgid_of}
use federal_mcps.Geography.Types.{PlaceCandidate, GeographyEdge}
use federal_mcps.Geography.Catalog.{Catalog}
use federal_mcps.Geography.Candidates.{get_containment}
use federal_mcps.Indicators.Registry.{IndicatorFallback, OwnSource}
use federal_mcps.Bls.SeriesIds.{
  LausMeasure, build_cps_series_id, build_laus_series_id, is_cps_series_id,
}
use federal_mcps.Bls.Programs.{nation_code, is_nation, program_code}

abbrev pub laus_or_nation_code_of : PlaceCandidate → Option String
laus_or_nation_code_of place =
    if is_nation place then some nation_code else program_code "LAUS" place.agency_codes

pub record County : Type 0 where
  pub geoid : String
  pub name : String
  pub code : String

abbrev pub county_or : GeographyEdge → Option String → Option County → Option County
county_or county none later = later
county_or county (some code) later =
    if is_empty code
    then later
    else some (record { geoid = county.geoid; name = county.name; code = code })

-- The first county with a code.
unfoldable pub first_county : Catalog → List GeographyEdge → Option County
first_county catalog [] = none
first_county catalog (county ∷ counties) =
    county_or county (program_code "LAUS" (catalog.agency_codes_of (ucgid_of "050" county.geoid)))
      (first_county catalog counties)

abbrev pub has_more : GeographyEdge → GeographyEdge → Bool
has_more a b = ltb b.share a.share

unfoldable pub laus_county_lookup : Catalog → PlaceCandidate → Option County
laus_county_lookup catalog place =
    first_county catalog
      (sort has_more (filter (λ e. str_eq e.sumlevel "050") (get_containment catalog place.ucgid)))

abbrev pub county_fallback : PlaceCandidate → Option County → Option IndicatorFallback
county_fallback place none = none
county_fallback place (some county) = some (record {
  geoid = county.geoid;
  name = county.name;
  sumlevel = "050";
  code = county.code;
  caveat = template (
      "Covers " ∷ county.name ∷ ", not just " ∷ place.name ∷ ": " ∷ place.name
      ∷ " is below the LAUS 25,000 city threshold, so no city-level series exists." ∷ []);
})

unfoldable pub laus_fallback : Catalog → PlaceCandidate → Option IndicatorFallback
laus_fallback catalog place =
    if not (has "below_threshold" place.flags)
    then none
    else county_fallback place (laus_county_lookup catalog place)

abbrev pub laus_series_id : LausMeasure → String → Bool → Checked String
laus_series_id measure code adjusted =
    if str_eq code nation_code
    then valid (build_cps_series_id measure adjusted)
    else build_laus_series_id code measure adjusted

abbrev pub cps_source_of : String → Option OwnSource
cps_source_of key =
    if is_cps_series_id key
    then some (record {
      url = "https://api.bls.gov/publicAPI/v2/timeseries/data/";
      label = template (key ∷ " (Current Population Survey)" ∷ []);
      program = some "CPS";
    })
    else none

abbrev pub cps_national_caveat : String
cps_national_caveat =
    "National figure from the Current Population Survey (CPS), the national household survey, not LAUS: LAUS publishes no national series. LAUS state estimates are benchmarked to the CPS national totals, so the two are consistent."

abbrev pub laus_caveat_of : PlaceCandidate → Option String
laus_caveat_of place = if is_nation place then some cps_national_caveat else none
