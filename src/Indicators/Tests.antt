-- ===== src/Indicators/Tests.antt =====
-- Runs of the indicator tools on one indicator and a catalog of one place.
use federal_mcps.Common.{
  ℕ, ◌≡◌, refl, String, true, false, Option, none, some, [], ◌∷◌, filter, find,
}
use federal_mcps.Common.Checked.{valid}
use federal_mcps.Common.Dict.{lookup, insert}
use federal_mcps.Common.Sets.{has, distinct, leave_out}
use federal_mcps.Common.TextOrder.{text_before}
use federal_mcps.Http.Client.{ok}
use federal_mcps.Geography.Types.{PlaceCandidate, EntityRecord}
use federal_mcps.Geography.Catalog.{Catalog}
use federal_mcps.Geography.Names.{normalize_name, normalize_kind}
use federal_mcps.Geography.Candidates.{score_candidate}
use federal_mcps.Common.Chars.{
  slice_to, slice_from, trim_start, trim_end, units_of, every_char, is_space, is_line_end,
}
use federal_mcps.Geography.Resolver.{resolve_place}
use federal_mcps.Indicators.Observations.{Observation, SeriesResult, period_label, quarter_of}
use federal_mcps.Indicators.Registry.{
  DimensionDefinition, IndicatorDefinition, IndicatorFetch, resolve_dimensions, select, undeclared,
  create_indicator_registry, register,
}
use federal_mcps.Indicators.Series.{ToolsOptions, Where, Years}
use federal_mcps.Indicators.GetIndicator.{IndicatorArgs, get_indicator, pick_dimension_args}
use federal_mcps.Indicators.GetIndicator.Idle.{IsIdle, get_indicator-IsIdle}
use federal_mcps.Indicators.GetIndicator.Honest.{IsHonest, get_indicator-IsHonest}
use federal_mcps.Indicators.Compare.{CompareArgs, compare_places, aligned_period}
use federal_mcps.Indicators.Compare.Periods.{IsCommon, aligned_period-latest}
use federal_mcps.Indicators.Compare.Rows.{IsComparison, compare_places-IsComparison}

abbrev ten : String → Option ℕ → Observation ℕ
ten period value = record {
  year = "2024";
  period = period;
  period_name = "";
  value = value;
  footnotes = ("P", "preliminary") ∷ [];
  margin_of_error = none;
  reliability = none;
}

abbrev series : SeriesResult ℕ
series = record {
  series_id = "X1";
  observations = ten "M02" (some 7) ∷ ten "M01" (some 6) ∷ [];
  notes = [];
}

abbrev older : SeriesResult ℕ
older = record { series_id = "X2"; observations = ten "M01" (some 5) ∷ []; notes = [] }

-- The state counts the fetches.
abbrev fetch : IndicatorFetch ℕ ℕ
fetch ids options s = (ok (series ∷ []), s)

abbrev item : DimensionDefinition
item = record {
  argument = "item";
  description = "";
  vocabulary =
      record { code = "SA0"; label = "all items" } ∷ record { code = "SAF1"; label = "food" } ∷ [];
  default = "SA0";
  accepts_code = λ code. false;
  open_codes = none;
}

abbrev def : IndicatorDefinition ℕ ℕ
def = record {
  name = "cpi";
  program = "CPI";
  description = "";
  national = false;
  default_seasonally_adjusted = false;
  agency_code_of = λ place. some place.geoid;
  build_series_id = λ code options. valid code;
  dimensions = some (item ∷ []);
  caveat_of = λ place dimensions. none;
  align_dimensions = λ places dimensions. none;
  serves_history = true;
  source_of = none;
  source_home = none;
  unavailable_note = λ place. none;
  fallback = λ catalog place. none;
  fetch = none;
}

abbrev options : ToolsOptions ℕ ℕ
options = record {
  agency = "bls";
  definitions = def ∷ [];
  api_key = none;
  default_fetch = fetch;
  source_url = "https://api.bls.gov";
  citation_suffix = none;
  source_program = none;
  now = "2025-02-01T00:00:00.000Z";
  current_year = 2025;
}

abbrev denver : EntityRecord
denver = record {
  ucgid = "1600000US0820000";
  geoid = "0820000";
  sumlevel = "160";
  name = "Denver";
  lsad = none;
  state_fips = some "08";
  aland = some 400;
  population = some 700;
}

abbrev catalog : Catalog
catalog = record {
  search_names = λ text o. denver ∷ [];
  get_entity = λ ucgid. some denver;
  entities_at_level = λ sumlevel. [];
  entities_by_geoid = λ geoid. denver ∷ [];
  aliases_of = λ ucgid. [];
  parents_of = λ ucgid. [];
  overlaps_of = λ ucgid. [];
  agency_codes_of = λ ucgid. [];
  publishes_at = λ sumlevel. [];
  has_county_change = λ ucgid. false;
  lineage_from = λ ucgid. [];
}

abbrev anywhere : Where
anywhere = record { kind = none; state = none }

abbrev default_years : Years
default_years = record { start_year = none; end_year = none }

-- A place by its bare GEOID.
abbrev args : IndicatorArgs
args = record {
  place = some "0820000";
  indicator = "cpi";
  where_ = anywhere;
  years = default_years;
  seasonally_adjusted = none;
  dimensions = [];
}

second_quarter : period_label (ten "Q02" (some 1)) ≡ "2024 Q2"
unfolding period_label quarter_of every_char slice_from units_of
second_quarter = refl

get_indicator-IsIdle_example :
    IsIdle 0 (get_indicator options catalog (λ n. n) (record args { place = none }) 0)
get_indicator-IsIdle_example =
    get_indicator-IsIdle options catalog (λ n. n) (record args { place = none }) 0

abbrev top : PlaceCandidate
top = (score_candidate catalog (λ n. n) (normalize_name "0820000") denver).candidate

get_indicator-IsHonest_example :
    IsHonest options catalog def top args
      (("item", "SA0") ∷ [])
      0
      (get_indicator options catalog (λ n. n) args 0)
unfolding lookup insert create_indicator_registry register resolve_place slice_to trim_start
    trim_end units_of every_char is_space filter resolve_dimensions undeclared find select
    pick_dimension_args normalize_kind is_line_end
get_indicator-IsHonest_example =
    get_indicator-IsHonest options catalog (λ n. n) def args (("item", "SA0") ∷ []) "0820000" top []
      none 0 refl refl refl refl refl

aligned_period-latest_example :
    (k : String) × (aligned_period (series ∷ older ∷ []) ≡ some k)
    × IsCommon k (series ∷ older ∷ [])
    × (text_before k "2024-M01" ≡ false)
unfolding filter distinct leave_out has
aligned_period-latest_example =
    aligned_period-latest (series ∷ older ∷ []) (older ∷ []) series "2024-M01" refl
      (refl, (refl, tt))

abbrev two_places : CompareArgs
two_places = record {
  indicator = "cpi";
  places = "0820000" ∷ "0820000" ∷ [];
  where_ = anywhere;
  years = default_years;
  seasonally_adjusted = none;
  dimensions = [];
}

compare_places-IsComparison_example :
    IsComparison options two_places 0 (compare_places options catalog (λ n. n) two_places 0)
compare_places-IsComparison_example =
    compare_places-IsComparison options catalog (λ n. n) two_places 0
