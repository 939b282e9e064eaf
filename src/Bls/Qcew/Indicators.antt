-- ===== src/Bls/Qcew/Indicators.antt =====
-- The QCEW indicators (packages/server-bls/src/qcew-indicators.ts: `qcewAreaCodeOf`, `qcewSourceOf`, the
-- dimensions and `qcewIndicatorDefinitions`; nation.ts).
use federal_mcps.Common.{
  String, Bool, true, false, ◌&&◌, ◌||◌, Option, none, some, List, [], ◌∷◌, find, str_eq, or_else,
  if◌then◌else◌,
}
use federal_mcps.Common.Checked.{Checked, valid, invalid}
use federal_mcps.Common.Dict.{lookup}
use federal_mcps.Common.Text.{template}
use federal_mcps.Geography.Types.{PlaceCandidate, AgencyCode}
use federal_mcps.Http.Client.{Failure, Result, ok, err}
use federal_mcps.Indicators.Observations.{Observation, SeriesResult, FetchOptions, quarter_of}
use federal_mcps.Indicators.Registry.{
  VocabularyEntry, DimensionDefinition, BuildOptions, OwnSource, IndicatorFetch,
  IndicatorDefinition,
}
use federal_mcps.Bls.Qcew.Calendar.{Quarter}
use federal_mcps.Bls.Qcew.Periods.{Period, YearRange, qcew_endpoint, annual_address, area_address}
use federal_mcps.Bls.Qcew.Keys.{Key, build_qcew_key, parse_qcew_key}
use federal_mcps.Bls.Qcew.History.{Slice, Measure, of_employment, of_wage, qcew_fetch}
use federal_mcps.Bls.Qcew.{Numbers, own_total_covered, industry_all, us_total_area, is_detailed}

abbrev pub is_nation : PlaceCandidate → Bool
is_nation place = str_eq place.sumlevel "010"

abbrev pub is_qcew_code : AgencyCode → Bool
is_qcew_code c = str_eq c.agency "bls" && str_eq c.program "QCEW"

abbrev pub code_of : Option AgencyCode → Option String
code_of none = none
code_of (some c) = some c.code

unfoldable pub qcew_area_code_of : PlaceCandidate → Option String
qcew_area_code_of place =
    if is_nation place
    then some us_total_area
    else if str_eq place.sumlevel "050"
    then some place.geoid
    else if str_eq place.sumlevel "040"
    then some (template (place.geoid ∷ "000" ∷ []))
    else if str_eq place.sumlevel "310"
    then code_of (find is_qcew_code place.agency_codes)
    else none

abbrev entry : String → String → VocabularyEntry
entry code label = record { code = code; label = label }

abbrev pub ownership_vocabulary : List VocabularyEntry
ownership_vocabulary =
    entry "0" "total covered (all ownerships)"
    ∷ entry "5" "private"
    ∷ entry "1" "federal government"
    ∷ entry "2" "state government"
    ∷ entry "3" "local government"
    ∷ []

abbrev pub industry_vocabulary : List VocabularyEntry
industry_vocabulary =
    entry "10" "all industries"
    ∷ entry "11" "agriculture, forestry, fishing and hunting"
    ∷ entry "21" "mining, quarrying, and oil and gas extraction"
    ∷ entry "22" "utilities"
    ∷ entry "23" "construction"
    ∷ entry "31-33" "manufacturing"
    ∷ entry "42" "wholesale trade"
    ∷ entry "44-45" "retail trade"
    ∷ entry "48-49" "transportation and warehousing"
    ∷ entry "51" "information"
    ∷ entry "52" "finance and insurance"
    ∷ entry "53" "real estate and rental and leasing"
    ∷ entry "54" "professional, scientific, and technical services"
    ∷ entry "55" "management of companies and enterprises"
    ∷ entry "56" "administrative and support and waste management services"
    ∷ entry "61" "educational services"
    ∷ entry "62" "health care and social assistance"
    ∷ entry "71" "arts, entertainment, and recreation"
    ∷ entry "72" "accommodation and food services"
    ∷ entry "81" "other services (except public administration)"
    ∷ entry "92" "public administration"
    ∷ []

abbrev pub ownership_dimension : DimensionDefinition
ownership_dimension = record {
  argument = "ownership";
  description = "QCEW ownership sector.";
  vocabulary = ownership_vocabulary;
  default = own_total_covered;
  accepts_code = λ code. false;
  open_codes = none;
}

abbrev pub industry_dimension : DimensionDefinition
industry_dimension = record {
  argument = "industry";
  description =
      "QCEW NAICS industry: a supersector/sector from the list, or any 3- to 6-digit NAICS code (e.g. 236 construction of buildings). Detail below the sector is often suppressed for small areas.";
  vocabulary = industry_vocabulary;
  default = industry_all;
  accepts_code = is_detailed;
  open_codes = some "any 3- to 6-digit NAICS code (e.g. 236, 2361, 236118)";
}

abbrev pub frequency_dimension : DimensionDefinition
frequency_dimension = record {
  argument = "frequency";
  description =
      "quarterly (default) or annual averages. With startYear/endYear, QCEW returns every published period in the range, at most 5 years of quarters per call.";
  vocabulary = entry "quarterly" "quarterly" ∷ entry "annual" "annual averages" ∷ [];
  default = "quarterly";
  accepts_code = λ code. false;
  open_codes = none;
}

abbrev label_or : Option VocabularyEntry → String → String
label_or none text = text
label_or (some v) text = v.label

abbrev pub ownership_label : String → String
ownership_label own =
    label_or (find (λ v. str_eq v.code own) ownership_vocabulary)
      (template ("ownership " ∷ own ∷ []))

abbrev pub industry_label : String → String
industry_label industry =
    if str_eq industry industry_all
    then "all industries"
    else template (
        "NAICS "
        ∷ industry
        ∷ " ("
        ∷ label_or (find (λ v. str_eq v.code industry) industry_vocabulary) "industry"
        ∷ ")"
        ∷ [])

abbrev pub data_home : String
data_home = template (qcew_endpoint ∷ "/" ∷ [])

abbrev pub quarter_url : String → String → Option String → String
quarter_url area year none = data_home
quarter_url area year (some quarter) = area_address area year quarter

abbrev pub key_label : Key → String
key_label key = template (
    "area "
    ∷ key.area
    ∷ ", "
    ∷ ownership_label key.selection.own_code
    ∷ ", "
    ∷ industry_label key.selection.industry_code
    ∷ ", "
    ∷ (if key.annual then "annual averages" else "quarterly")
    ∷ [])

module _ {N : Type 0} where
  -- The numeral of a year, read as a number and printed, is itself.
  abbrev pub file_url : Key → Option (Observation N) → String
  file_url key none = data_home
  file_url key (some latest) =
      if key.annual || str_eq latest.period "A01"
      then annual_address key.area latest.year
      else quarter_url key.area latest.year (quarter_of latest.period)

  abbrev pub key_source : Option Key → Option (Observation N) → Option OwnSource
  key_source none latest = none
  key_source (some key) latest =
      some (record { url = file_url key latest; label = key_label key; program = none })

  unfoldable pub qcew_source_of : String → Option (Observation N) → Option OwnSource
  qcew_source_of key latest = key_source (parse_qcew_key key) latest

abbrev pub is_annual_frequency : Option String → Bool
is_annual_frequency none = false
is_annual_frequency (some frequency) = str_eq frequency "annual"

abbrev pub build_series_id : String → BuildOptions → Checked String
build_series_id code options =
    build_qcew_key code (or_else (lookup "ownership" options.dimensions) own_total_covered)
      (or_else (lookup "industry" options.dimensions) industry_all)
      (is_annual_frequency (lookup "frequency" options.dimensions))

-- `slices` says what the fetches of a call turn out to be and leaves the client's state; `thrown` is the
-- failure that an `Error` with a message is.
module _ {S N : Type 0} (numbers : Numbers N) (thrown : String → Failure) (latest : Quarter)
    (slices : S → (String → List Period → List Slice) × S) where
  abbrev pub years_of : FetchOptions → YearRange
  years_of options = record {
    start_year = some options.start_year;
    end_year = some options.end_year;
    explicit_years = options.explicit_years;
  }

  abbrev pub as_result : Checked (List (SeriesResult N)) → Result (List (SeriesResult N))
  as_result (valid series) = ok series
  as_result (invalid message) = err (thrown message)

  abbrev pub fetch_measure : Measure → IndicatorFetch S N
  fetch_measure measure keys options s =
      let (fetched, s') = slices s in
      (as_result (qcew_fetch numbers fetched latest measure keys (years_of options)), s')

  abbrev pub qcew_definition : String → String → Measure → IndicatorDefinition S N
  qcew_definition name description measure = record {
    name = name;
    program = "QCEW";
    description = description;
    national = false;
    default_seasonally_adjusted = false;
    agency_code_of = qcew_area_code_of;
    build_series_id = build_series_id;
    dimensions = some (industry_dimension ∷ ownership_dimension ∷ frequency_dimension ∷ []);
    caveat_of = λ place dimensions. none;
    align_dimensions = λ places dimensions. none;
    serves_history = true;
    source_of = some qcew_source_of;
    source_home = some data_home;
    unavailable_note = λ place. none;
    fallback = λ catalog place. none;
    fetch = some (fetch_measure measure);
  }

  abbrev pub qcew_indicator_definitions : List (IndicatorDefinition S N)
  qcew_indicator_definitions =
      qcew_definition "covered_employment"
        "QCEW covered employment (quarterly average of the monthly levels)." of_employment
      ∷ qcew_definition "average_weekly_wage" "QCEW average weekly wage (dollars)." of_wage
      ∷ []
