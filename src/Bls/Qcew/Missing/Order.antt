-- ===== src/Bls/Qcew/Missing/Order.antt =====
-- The order in which a limitation names periods (packages/server-bls/src/qcew-indicators.ts:
-- `formatMissingPeriods`).
use federal_mcps.Common.{◌<◌, ◌≡◌, false, List, [], ◌∷◌, All, arith, ◌⊎◌}
use federal_mcps.Common.Members.{All-Member, All-of_Member, sort-Member}
use federal_mcps.Common.Sort.{IsOrder, IsSorted, sort, sort-IsSorted}
use federal_mcps.Bls.Qcew.Calendar.{IsInYear}
use federal_mcps.Bls.Qcew.Periods.{Period, in_quarter, in_year}
use federal_mcps.Bls.Qcew.Missing.{comes_before}

-- A quarter is one of the four.
abbrev pub IsDated : Period → Type 0
IsDated (in_quarter q) = IsInYear q
IsDated (in_year year) = Unit

-- Of two quarters, or of two years, the first is the earlier one.
abbrev pub IsEarlier : Period → Period → Type 0
IsEarlier (in_quarter p) (in_quarter q) =
    (p.year < q.year) ⊎ ((p.year ≡ q.year) × (p.quarter < q.quarter))
IsEarlier (in_year p) (in_year q) = p < q
IsEarlier _ _ = ⊥

-- No period is earlier than one that stands before it.
abbrev pub IsInTime : List Period → Type 0
IsInTime [] = Unit
IsInTime (p ∷ periods) = All (λ q. ¬ IsEarlier q p) periods × IsInTime periods

comes_before-IsOrder : IsOrder comes_before
comes_before-IsOrder = record {
  asymmetric = λ a b e. ground arith;
  transitive = λ a b c e f. ground arith;
}

comes_before-IsEarlier :
    (p q : Period) → IsDated p → IsDated q → comes_before q p ≡ false → ¬ IsEarlier q p
comes_before-IsEarlier (in_quarter p) (in_quarter q) dp dq e = λ earlier. ground arith
comes_before-IsEarlier (in_year p) (in_year q) dp dq e = λ earlier. ground arith
comes_before-IsEarlier (in_quarter p) (in_year q) dp dq e = λ impossible. impossible
comes_before-IsEarlier (in_year p) (in_quarter q) dp dq e = λ impossible. impossible

IsSorted-IsInTime :
    (periods : List Period) → All IsDated periods → IsSorted comes_before periods → IsInTime periods
IsSorted-IsInTime [] dated h = tt
IsSorted-IsInTime (p ∷ periods) (dp, dated) (first, h) = (
  All-of_Member (λ q. ¬ IsEarlier q p) periods
      (λ q m.
        comes_before-IsEarlier p q dp (All-Member IsDated periods q dated m)
          (All-Member (λ y. comes_before y p ≡ false) periods q first m)),
  IsSorted-IsInTime periods dated h,
)

pub sort-IsInTime :
    (periods : List Period) → All IsDated periods → IsInTime (sort comes_before periods)
sort-IsInTime periods dated =
    IsSorted-IsInTime (sort comes_before periods)
      (All-of_Member IsDated (sort comes_before periods)
        (λ p m. All-Member IsDated periods p dated (sort-Member comes_before p periods m)))
      (sort-IsSorted comes_before comes_before-IsOrder periods)
