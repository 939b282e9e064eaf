-- ===== src/Bls/Qcew/Missing/Groups.antt =====
-- What the groups of a limitation name (packages/server-bls/src/qcew-indicators.ts:
-- `formatMissingPeriods`).
use federal_mcps.Common.{
  ◌≡◌, ◌+◌, ◌↔◌, refl, sym, ap, ◌∙◌, subst, true, false, arith, Bool-cases, inl, inr, List, [], ◌∷◌,
  ◌++◌, All, append_empty, if-cases, if-both,
}
use federal_mcps.Common.Members.{Member, sort-Member, Member-sort}
use federal_mcps.Common.Sort.{sort}
use federal_mcps.Bls.Chunks.{concat}
use federal_mcps.Bls.Qcew.Periods.{Period, in_quarter, in_year}
use federal_mcps.Bls.Qcew.Missing.Order.{IsDated, IsInTime, sort-IsInTime}
use federal_mcps.Bls.Qcew.Missing.{
  comes_before, is_next_quarter, last_from, continues, add_period, add_periods, groups_of,
}

-- The quarter that `q` names is the next of the same year.
abbrev pub Follows : Period → Period → Type 0
Follows (in_quarter p) (in_quarter q) = (q.year ≡ p.year) × (q.quarter ≡ p.quarter + 1)
Follows _ _ = ⊥

next_quarter-Follows : (p q : Period) → is_next_quarter p q ≡ true → Follows p q
next_quarter-Follows (in_quarter p) (in_quarter q) e = ground arith
next_quarter-Follows (in_quarter p) (in_year year) e = cc
next_quarter-Follows (in_year year) q e = cc

next_quarter-parts : (p q : Period) → is_next_quarter p q ≡ false → ¬ Follows p q
next_quarter-parts (in_quarter p) (in_quarter q) e = λ (same, next). ground arith
next_quarter-parts (in_quarter p) (in_year year) e = λ impossible. impossible
next_quarter-parts (in_year year) q e = λ impossible. impossible

-- A run of quarters of one year, each the next one's neighbour, or a single period.
abbrev pub IsRun : List Period → Type 0
IsRun [] = ⊥
IsRun (p ∷ []) = Unit
IsRun (p ∷ q ∷ group) = Follows p q × IsRun (q ∷ group)

IsRun-append :
    (first p : Period) (group : List Period)
    → IsRun (first ∷ group)
    → Follows (last_from first group) p
    → IsRun (first ∷ group ++ p ∷ [])
IsRun-append first p [] run next = (next, tt)
IsRun-append first p (q ∷ group) (step, run) next = (step, IsRun-append q p group run next)

append_assoc : (k l m : List Period) → (k ++ l) ++ m ≡ k ++ (l ++ m)
append_assoc [] l m = refl
append_assoc (x ∷ k) l m = ap (λ t. x ∷ t) (append_assoc k l m)

concat-add_period :
    (groups : List (List Period)) (p : Period)
    → concat (add_period groups p) ≡ concat groups ++ p ∷ []
unfolding add_period
concat-add_period [] p = refl
concat-add_period (group ∷ []) p =
    let flat = ap (λ t. t ++ p ∷ []) (append_empty group) in
    if-both (λ l. concat l ≡ (group ++ []) ++ p ∷ []) (continues group p)
      (append_empty (group ++ p ∷ []) ∙ sym flat) (sym flat)
concat-add_period (group ∷ next ∷ groups) p =
    ap (λ t. group ++ t) (concat-add_period (next ∷ groups) p)
    ∙ sym (append_assoc group (concat (next ∷ groups)) (p ∷ []))

add_period-IsRun :
    (groups : List (List Period)) (p : Period) → All IsRun groups → All IsRun (add_period groups p)
unfolding add_period
add_period-IsRun [] p h = (tt, tt)
add_period-IsRun ([] ∷ []) p (impossible, h) = absurd impossible
add_period-IsRun ((first ∷ group) ∷ []) p (run, h) =
    if-cases (All IsRun) (continues (first ∷ group) p)
      (λ next.
        (IsRun-append first p group run (next_quarter-Follows (last_from first group) p next), tt))
      (λ parted. (run, (tt, tt)))
add_period-IsRun (group ∷ next ∷ groups) p (run, h) = (run, add_period-IsRun (next ∷ groups) p h)

concat-add_periods :
    (groups : List (List Period)) (periods : List Period)
    → concat (add_periods groups periods) ≡ concat groups ++ periods
unfolding add_periods
concat-add_periods groups [] = sym (append_empty (concat groups))
concat-add_periods groups (p ∷ periods) =
    concat-add_periods (add_period groups p) periods
    ∙ ap (λ t. t ++ periods) (concat-add_period groups p)
    ∙ append_assoc (concat groups) (p ∷ []) periods

add_periods-IsRun :
    (groups : List (List Period)) (periods : List Period)
    → All IsRun groups
    → All IsRun (add_periods groups periods)
unfolding add_periods
add_periods-IsRun groups [] h = h
add_periods-IsRun groups (p ∷ periods) h =
    add_periods-IsRun (add_period groups p) periods (add_period-IsRun groups p h)

-- The last period of a group is not followed by the first of the next.
abbrev IsBreak : List Period → List Period → Type 0
IsBreak (first ∷ group) (p ∷ next) = ¬ Follows (last_from first group) p
IsBreak _ _ = ⊥

-- No group could be joined with the one after it.
abbrev pub IsParted : List (List Period) → Type 0
IsParted [] = Unit
IsParted (group ∷ []) = Unit
IsParted (group ∷ next ∷ groups) = IsBreak group next × IsParted (next ∷ groups)

IsBreak-append :
    (group next : List Period) (p : Period) → IsBreak group next → IsBreak group (next ++ p ∷ [])
IsBreak-append (first ∷ group) (q ∷ next) p h = h
IsBreak-append (first ∷ group) [] p h = absurd h
IsBreak-append [] next p h = absurd h

-- A group before others stays parted from them when a period is added to the last.
IsParted-cons :
    (group next : List Period) (groups : List (List Period)) (p : Period)
    → IsBreak group next
    → IsParted (add_period (next ∷ groups) p)
    → IsParted (group ∷ add_period (next ∷ groups) p)
unfolding add_period
IsParted-cons group next (other ∷ groups) p h parted = (h, parted)
IsParted-cons group next [] p h parted = elim (Bool-cases (continues next p)) [
  | inl goes_on ↦ rw (goes_on, add_period) (IsBreak-append group next p h, tt)
  | inr ends ↦ rw (ends, add_period) (h, rw (ends, add_period) at parted)
]

add_period-IsParted :
    (groups : List (List Period)) (p : Period)
    → All IsRun groups
    → IsParted groups
    → IsParted (add_period groups p)
unfolding add_period
add_period-IsParted [] p runs parted = tt
add_period-IsParted ([] ∷ []) p (impossible, runs) parted = absurd impossible
add_period-IsParted ((first ∷ group) ∷ []) p (run, runs) parted =
    if-cases IsParted (continues (first ∷ group) p) (λ next. tt)
      (λ parts. (next_quarter-parts (last_from first group) p parts, tt))
add_period-IsParted (group ∷ next ∷ groups) p (run, runs) (h, parted) =
    IsParted-cons group next groups p h (add_period-IsParted (next ∷ groups) p runs parted)

add_periods-IsParted :
    (groups : List (List Period)) (periods : List Period)
    → All IsRun groups
    → IsParted groups
    → IsParted (add_periods groups periods)
unfolding add_periods
add_periods-IsParted groups [] runs parted = parted
add_periods-IsParted groups (p ∷ periods) runs parted =
    add_periods-IsParted (add_period groups p) periods (add_period-IsRun groups p runs)
      (add_period-IsParted groups p runs parted)

-- The groups that a limitation names are runs, each of consecutive quarters of one year or of a
-- single period, and no two neighbouring groups make a longer run. They stand for just the periods
-- that were missed, one after the other in the order of time. A quarter is one of the four of its
-- year.
pub groups_of-IsRun :
    (missing : List Period)
    → All IsDated missing
    → All IsRun (groups_of missing)
      × IsParted (groups_of missing)
      × IsInTime (concat (groups_of missing))
      × ((p : Period) → Member p missing ↔ Member p (concat (groups_of missing)))
groups_of-IsRun missing dated =
    let flat = concat-add_periods [] (sort comes_before missing) in
    (
      add_periods-IsRun [] (sort comes_before missing) tt,
      add_periods-IsParted [] (sort comes_before missing) tt tt,
      subst IsInTime (sym flat) (sort-IsInTime missing dated),
      λ p. (
        λ m. subst (λ l. Member p l) (sym flat) (Member-sort comes_before p missing m),
        λ m. sort-Member comes_before p missing (subst (λ l. Member p l) flat m),
      ),
    )
