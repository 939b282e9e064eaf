-- ===== src/Bls/Qcew/Periods/Range.antt =====
-- Which periods a QCEW call with years reads (packages/server-bls/src/qcew-indicators.ts:
-- `candidatePeriods`).
use federal_mcps.Common.{
  ℕ, zero, suc, ◌+◌, ◌*◌, ◌≤◌, ◌<◌, ◌≡◌, ap, subst, true, false, or_else, leb, ltb, arith,
  Bool-cases, if-both, inl, inr, leb→le, le→leb,
}
use federal_mcps.Common.Members.{Member}
use federal_mcps.Bls.Qcew.{earliest_year}
use federal_mcps.Bls.Qcew.Calendar.{
  Quarter, IsInYear, ordinal, prior_quarter, prior_quarter-ordinal, prior_quarter-IsInYear,
}
use federal_mcps.Bls.Qcew.Periods.{
  in_quarter, quarters_down, YearRange, asked_start, start_of, end_of, last_of, candidate_periods,
}

Quarter-ext : (p q : Quarter) → p.year ≡ q.year → p.quarter ≡ q.quarter → p ≡ q
Quarter-ext p q same_year same_quarter = cc

-- One quarter has one number.
ordinal-inj : (p q : Quarter) → IsInYear p → IsInYear q → ordinal p ≡ ordinal q → p ≡ q
ordinal-inj p q (lp, hp) (lq, hq) e = Quarter-ext p q (omega arith) (omega arith)

ordinal-year : (p q : Quarter) → IsInYear p → IsInYear q → ordinal p ≤ ordinal q → p.year ≤ q.year
ordinal-year p q (lp, hp) (lq, hq) before = omega arith

in_quarter-inj : (p q : Quarter) → in_quarter p ≡ in_quarter q → p ≡ q
in_quarter-inj p q e = cc

-- The quarters from `q` down to the start are read.
quarters_down-Member :
    (fuel start : ℕ) (q p : Quarter)
    → 1 ≤ start
    → IsInYear q
    → IsInYear p
    → start ≤ p.year
    → ordinal p ≤ ordinal q
    → ordinal q < fuel + 4 * start + 1
    → Member (in_quarter p) (quarters_down fuel start q)
unfolding quarters_down
quarters_down-Member zero start q p positive (lq, hq) (lp, hp) after before fits =
    absurd (omega arith)
quarters_down-Member (suc fuel) start q p positive iq ip after before fits =
    let year = ordinal-year p q ip iq before in
    let reaches = le→leb start q.year (omega arith) in
    elim (Bool-cases (leb (ordinal q) (ordinal p))) [
      | inl last ↦
          let same = ordinal-inj q p iq ip (omega (arith, leb→le (ordinal q) (ordinal p) last)) in
          rw reaches (inl (ap (λ x. in_quarter x) same))
      | inr later ↦
          let number = prior_quarter-ordinal q (iq, omega arith) in
          rw reaches (
            inr (
              quarters_down-Member fuel start (prior_quarter q) p positive
                (prior_quarter-IsInYear q iq) ip after (ground (arith, later, number))
                (omega (arith, number, fits))))
    ]

-- And no other.
Member-quarters_down :
    (fuel start : ℕ) (q p : Quarter)
    → 1 ≤ start
    → IsInYear q
    → Member (in_quarter p) (quarters_down fuel start q)
    → IsInYear p × (start ≤ p.year) × (ordinal p ≤ ordinal q)
unfolding quarters_down
Member-quarters_down zero start q p positive iq m = absurd m
Member-quarters_down (suc fuel) start q p positive iq m = elim (Bool-cases (leb start q.year)) [
  | inl reaches ↦
      let after = leb→le start q.year reaches in
      elim (rw reaches at m) [
        | inl e ↦
            subst (λ x. IsInYear x × (start ≤ x.year) × (ordinal x ≤ ordinal q))
              (in_quarter-inj q p e) (iq, after, omega arith)
        | inr later ↦
            let (ip, year, before) =
              Member-quarters_down fuel start (prior_quarter q) p positive
                (prior_quarter-IsInYear q iq) later in
            (ip, year, omega (arith, prior_quarter-ordinal q (iq, omega arith)))
      ]
  | inr ends ↦ absurd (rw ends at m)
]

-- What is asked for: a year from 2014 on, within the years that were given, and no later than the
-- latest quarter that can be published.
abbrev pub IsAsked : YearRange → Quarter → Quarter → Type 0
IsAsked options latest p =
    (earliest_year ≤ p.year)
    × (asked_start options latest ≤ p.year)
    × (p.year ≤ or_else options.end_year latest.year)
    × (ordinal p ≤ ordinal latest)

last_of-IsInYear :
    (options : YearRange) (latest : Quarter) → IsInYear latest → IsInYear (last_of options latest)
last_of-IsInYear options latest h =
    if-both IsInYear (ltb (end_of options latest) latest.year) (omega arith, omega arith) h

-- With years given, the quarterly candidates (the list from which `fetchRows` takes the quarters that
-- it asks for, as far as its caps on slices and rows let it) are the quarters that were asked for, and
-- all of them.
pub candidate_periods-IsAsked :
    (options : YearRange) (latest p : Quarter)
    → options.explicit_years ≡ true
    → IsInYear latest
    → (Member (in_quarter p) (candidate_periods false options latest).0
        → IsInYear p × IsAsked options latest p)
      × (IsInYear p
          → IsAsked options latest p
          → Member (in_quarter p) (candidate_periods false options latest).0)
unfolding candidate_periods
candidate_periods-IsAsked options latest p explicit h =
    let start = start_of options latest in
    let last = last_of options latest in
    let positive : 1 ≤ start = ground arith in
    rw explicit (
      λ m.
          let (ip, after, before) =
            Member-quarters_down _ start last p positive (last_of-IsInYear options latest h) m in
          (ip, (ground arith, ground arith, ground arith, ground arith)),
      λ ip asked.
          let (floor, after, before, published) = asked in
          quarters_down-Member _ start last p positive (last_of-IsInYear options latest h) ip
            (ground arith) (ground arith) (ground arith),
    )
