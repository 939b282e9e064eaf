-- ===== src/Bls/Qcew/Periods.antt =====
-- The periods that a QCEW call reads (packages/server-bls/src/qcew-indicators.ts: `candidatePeriods`,
-- and the addresses and names of periods). A year is a numeral of the calendar.
pub mod Range
use federal_mcps.Common.{
  ℕ, zero, suc, ◌+◌, ◌-◌, ◌*◌, min, String, Bool, true, false, Option, none, some, List, [], ◌∷◌,
  or_else, leb, ltb, if◌then◌else◌,
}
use federal_mcps.Common.Text.{template}
use federal_mcps.Time.{digit, four_digits}
use federal_mcps.Bls.Qcew.Calendar.{Quarter, prior_quarter}
use federal_mcps.Bls.Qcew.{earliest_year}

abbrev pub qcew_endpoint : String
qcew_endpoint = "https://data.bls.gov/cew/data/api"

abbrev pub max_lookback : ℕ
max_lookback = 3

abbrev pub max_periods : ℕ
max_periods = 20

pub data Period : Type 0 where
  in_quarter : Quarter → Period
  in_year : ℕ → Period

abbrev pub annual_address : String → String → String
annual_address area year = template (qcew_endpoint ∷ "/" ∷ year ∷ "/a/area/" ∷ area ∷ ".csv" ∷ [])

abbrev pub area_address : String → String → String → String
area_address area year quarter =
    template (qcew_endpoint ∷ "/" ∷ year ∷ "/" ∷ quarter ∷ "/area/" ∷ area ∷ ".csv" ∷ [])

unfoldable pub annual_url : String → ℕ → String
annual_url area year = annual_address area (four_digits year)

unfoldable pub area_url : String → Quarter → String
area_url area q = area_address area (four_digits q.year) (digit q.quarter)

abbrev pub period_url : String → Period → String
period_url area (in_year year) = annual_url area year
period_url area (in_quarter q) = area_url area q

unfoldable pub period_name : Period → String
period_name (in_year year) = template (four_digits year ∷ " annual" ∷ [])
period_name (in_quarter q) = template (four_digits q.year ∷ " Q" ∷ digit q.quarter ∷ [])

-- `for (let y = from; y > from - n; y--)`
unfoldable pub years_down : ℕ → ℕ → List Period
years_down zero year = []
years_down (suc n) year = in_year year ∷ years_down n (year - 1)

-- The latest quarters, as many as are counted.
unfoldable pub last_quarters : ℕ → Quarter → List Period
last_quarters zero q = []
last_quarters (suc n) q = in_quarter q ∷ last_quarters n (prior_quarter q)

-- `while (q.year >= startYear)`, on fuel.
unfoldable pub quarters_down : ℕ → ℕ → Quarter → List Period
quarters_down zero start q = []
quarters_down (suc fuel) start q =
    let rest = quarters_down fuel start (prior_quarter q) in
    if leb start q.year then in_quarter q ∷ rest else []

abbrev pub quarters_since : ℕ → Quarter → List Period
quarters_since start q = quarters_down (4 * (q.year + 1 - start)) start q

pub record YearRange : Type 0 where
  pub start_year : Option ℕ
  pub end_year : Option ℕ
  pub explicit_years : Bool

abbrev pub asked_start : YearRange → Quarter → ℕ
asked_start options latest = or_else options.start_year (or_else options.end_year latest.year)

abbrev pub start_of : YearRange → Quarter → ℕ
start_of options latest =
    let start = asked_start options latest in
    if ltb start earliest_year then earliest_year else start

abbrev pub end_of : YearRange → Quarter → ℕ
end_of options latest = min (or_else options.end_year latest.year) latest.year

abbrev pub last_of : YearRange → Quarter → Quarter
last_of options latest =
    if ltb (end_of options latest) latest.year
    then record { year = end_of options latest; quarter = 4 }
    else latest

abbrev pub floor_note : ℕ → String
floor_note start = template (
    "QCEW open data begin in "
    ∷ four_digits earliest_year
    ∷ "; the range was started there instead of "
    ∷ four_digits start
    ∷ "."
    ∷ [])

abbrev pub latest_candidates : Bool → Quarter → List Period
latest_candidates true latest = years_down max_lookback latest.year
latest_candidates false latest = last_quarters max_lookback latest

abbrev pub candidates_in : Bool → ℕ → ℕ → Quarter → List Period
candidates_in true start end last = years_down (end + 1 - start) end
candidates_in false start end last = quarters_since start last

-- The periods, newest first, and the notes; `latest` is the latest quarter taken to be published.
unfoldable pub candidate_periods : Bool → YearRange → Quarter → List Period × List String
candidate_periods annual options latest =
    if options.explicit_years
    then (
      candidates_in annual (start_of options latest) (end_of options latest)
          (last_of options latest),
      if ltb (asked_start options latest) earliest_year
          then floor_note (asked_start options latest) ∷ []
          else [],
    )
    else (latest_candidates annual latest, [])
