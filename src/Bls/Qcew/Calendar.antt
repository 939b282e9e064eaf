-- ===== src/Bls/Qcew/Calendar.antt =====
-- The quarters of the calendar (packages/server-bls/src/qcew.ts: `QcewQuarter`, `priorQuarter`,
-- `latestPublishedQuarter`). A year is after the year 0.
use federal_mcps.Common.{
  ℕ, suc, ◌+◌, ◌-◌, ◌*◌, ◌/◌, ◌%◌, ◌≤◌, ◌≡◌, Bool, ◌&&◌, ◌||◌, not, arith, ◌==◌, ltb, if◌then◌else◌,
}
use federal_mcps.Time.{civil, day_ms}

pub record Quarter : Type 0 where
  pub year : ℕ
  pub quarter : ℕ

unfoldable pub prior_quarter : Quarter → Quarter
prior_quarter q =
    if ltb 1 q.quarter
    then record { year = q.year; quarter = q.quarter - 1 }
    else record { year = q.year - 1; quarter = 4 }

abbrev pub is_leap : ℕ → Bool
is_leap year = year % 4 == 0 && (not (year % 100 == 0) || year % 400 == 0)

unfoldable pub days_in : ℕ → ℕ → ℕ
days_in year month =
    if month == 2
    then (if is_leap year then 29 else 28)
    else if month == 4 || month == 6 || month == 9 || month == 11
    then 30
    else 31

-- A day that the month does not have is one of the next month's, as `setUTCMonth` makes it.
unfoldable pub overflow : ℕ → ℕ → ℕ → ℕ
overflow year month day = if ltb (days_in year month) day then suc month else month

-- `setUTCMonth(getUTCMonth() - 6)` and the quarter of the month; December has every day.
unfoldable pub six_months_before : ℕ → ℕ → ℕ → Quarter
six_months_before year month day =
    if ltb 6 month
    then record { year = year; quarter = (overflow year (month - 6) day - 1) / 3 + 1 }
    else record { year = year - 1; quarter = (overflow (year - 1) (month + 6) day - 1) / 3 + 1 }

abbrev pub latest_published_quarter : ℕ → Quarter
latest_published_quarter now =
    let (year, month, day) = civil (now / day_ms) in six_months_before year month day

-- The quarters in order, by number.
abbrev pub ordinal : Quarter → ℕ
ordinal q = 4 * q.year + q.quarter

-- One of the four quarters, of any year.
abbrev pub IsInYear : Quarter → Type 0
IsInYear q = (1 ≤ q.quarter) × (q.quarter ≤ 4)

abbrev pub IsQuarter : Quarter → Type 0
IsQuarter q = IsInYear q × (1 ≤ q.year)

-- By how many quarters the latest quarter lies before that of a day.
abbrev pub lag : ℕ → ℕ → ℕ
lag month day = if (month == 3 || month == 12) && day == 31 then 1 else 2

-- The quarter before another is the one with the number before.
pub prior_quarter-ordinal : (q : Quarter) → IsQuarter q → ordinal (prior_quarter q) + 1 ≡ ordinal q
unfolding prior_quarter
prior_quarter-ordinal q ((low, high), year) = ground arith

pub prior_quarter-IsInYear : (q : Quarter) → IsInYear q → IsInYear (prior_quarter q)
unfolding prior_quarter
prior_quarter-IsInYear q (low, high) = (ground arith, ground arith)

-- The latest quarter that is taken to be published is a quarter of a year, and lies two before that
-- of the day, but only one before on the last day of March and of December.
pub six_months_before_lem :
    (year month day : ℕ)
    → 2 ≤ year
    → 1 ≤ month
    → month ≤ 12
    → day ≤ 31
    → IsQuarter (six_months_before year month day)
      × (ordinal (six_months_before year month day) + lag month day
          ≡ 4 * year + ((month - 1) / 3 + 1))
unfolding six_months_before overflow days_in
six_months_before_lem year month day after low high short =
    (((ground arith, ground arith), ground arith), ground arith)
