-- ===== src/Bls/Qcew/Missing.antt =====
-- The limitation that names the periods a deadline stopped (packages/server-bls/src/qcew-indicators.ts:
-- `formatMissingPeriods`).
pub mod Order
pub mod Groups
use federal_mcps.Common.{
  ℕ, ◌+◌, ◌-◌, ◌*◌, ◌==◌, ltb, String, Bool, true, false, ◌&&◌, Option, none, some, List, [], ◌∷◌,
  ◌++◌, map, length, if◌then◌else◌,
}
use federal_mcps.Common.Sort.{sort}
use federal_mcps.Common.Text.{template, join}
use federal_mcps.Time.{digit, four_digits}
use federal_mcps.Bls.Qcew.Calendar.{Quarter}
use federal_mcps.Bls.Qcew.Periods.{Period, in_quarter, in_year, period_name}

abbrev pub period_sort_key : Period → ℕ
period_sort_key (in_year year) = year * 10
period_sort_key (in_quarter q) = q.year * 10 + q.quarter

abbrev pub comes_before : Period → Period → Bool
comes_before a b = ltb (period_sort_key a) (period_sort_key b)

-- The quarter `p` follows `prev` in the same year.
abbrev pub is_next_quarter : Period → Period → Bool
is_next_quarter (in_quarter prev) (in_quarter p) =
    prev.year == p.year && prev.quarter + 1 == p.quarter
is_next_quarter _ _ = false

-- The last of a list that begins with `p`.
abbrev pub last_from : Period → List Period → Period
last_from p [] = p
last_from p (q ∷ periods) = last_from q periods

abbrev pub continues : List Period → Period → Bool
continues [] p = false
continues (first ∷ group) p = is_next_quarter (last_from first group) p

unfoldable pub add_period : List (List Period) → Period → List (List Period)
add_period [] p = (p ∷ []) ∷ []
add_period (group ∷ []) p =
    if continues group p then (group ++ p ∷ []) ∷ [] else group ∷ (p ∷ []) ∷ []
add_period (group ∷ next ∷ groups) p = group ∷ add_period (next ∷ groups) p

unfoldable pub add_periods : List (List Period) → List Period → List (List Period)
add_periods groups [] = groups
add_periods groups (p ∷ periods) = add_periods (add_period groups p) periods

abbrev pub groups_of : List Period → List (List Period)
groups_of missing = add_periods [] (sort comes_before missing)

abbrev pub range_label : Period → Period → String
range_label (in_quarter first) (in_quarter last) =
    template (four_digits first.year ∷ " Q" ∷ digit first.quarter ∷ "–Q" ∷ digit last.quarter ∷ [])
range_label first last = template (period_name first ∷ "–" ∷ period_name last ∷ [])

abbrev pub group_label : List Period → String
group_label [] = ""
group_label (first ∷ []) = period_name first
group_label (first ∷ next ∷ group) = range_label first (last_from next group)

unfoldable pub format_missing_periods : List Period → String
format_missing_periods missing = template (
    "QCEW "
    ∷ join ", " (map group_label (groups_of missing))
    ∷ " "
    ∷ (if ltb 1 (length missing) then "were" else "was")
    ∷ " not retrieved within the time limit; ask again, and the quarters already fetched will come from cache."
    ∷ [])
