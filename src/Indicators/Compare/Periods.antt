-- ===== src/Indicators/Compare/Periods.antt =====
-- The period at which places are compared (indicators/tools.ts: `alignedPeriod`).
use federal_mcps.Common.{
  ◌≡◌, refl, sym, subst, String, true, false, some, List, [], ◌∷◌, all, filter, arith, inl, inr,
  All, some_inj,
}
use federal_mcps.Common.Members.{
  Member, All-Member, sort-Member, Member-sort, filter-Member, Member-filter,
}
use federal_mcps.Common.Sets.{has, has-Member, Member-has}
use federal_mcps.Common.Sort.{sort, IsSorted, sort-IsSorted}
use federal_mcps.Common.TextOrder.{text_before, text_before-IsOrder, text_before_self}
use federal_mcps.Indicators.Observations.{SeriesResult}
use federal_mcps.Indicators.Compare.{last_of, periods_of, has_data, common_periods, aligned_period}

-- Every series with data has the period.
abbrev pub IsCommon : {N : Type 0} → String → List (SeriesResult N) → Type 0
IsCommon k series = All (λ s. has k (periods_of s) ≡ true) (filter has_data series)

last_of-Member : (l : List String) (k : String) → last_of l ≡ some k → Member k l
unfolding last_of
last_of-Member [] k e = cc
last_of-Member (x ∷ []) k e = inl (some_inj e)
last_of-Member (x ∷ y ∷ l) k e = inr (last_of-Member (y ∷ l) k e)

last_of-cons : (x : String) (l : List String) → (k : String) × (last_of (x ∷ l) ≡ some k)
unfolding last_of
last_of-cons x [] = (x, refl)
last_of-cons x (y ∷ l) = last_of-cons y l

-- Nothing in a sorted list comes after its last.
last_of-greatest :
    (l : List String) (j k : String)
    → IsSorted text_before l
    → Member j l
    → last_of l ≡ some k
    → text_before k j ≡ false
unfolding last_of
last_of-greatest [] j k s m e = absurd m
last_of-greatest (x ∷ []) j k s m e = elim m [
  | inl here ↦
      subst (λ t. text_before k t ≡ false) here
        (subst (λ t. text_before t x ≡ false) (some_inj e) (text_before_self x))
  | inr nowhere ↦ absurd nowhere
]
last_of-greatest (x ∷ y ∷ l) j k (f, s) m e = elim m [
  | inl here ↦
      subst (λ t. text_before k t ≡ false) here
        (All-Member (λ z. text_before z x ≡ false) (y ∷ l) k f (last_of-Member (y ∷ l) k e))
  | inr later ↦ last_of-greatest (y ∷ l) j k s later e
]

some_last : (l : List String) (j : String) → Member j l → (k : String) × (last_of l ≡ some k)
some_last [] j m = absurd m
some_last (x ∷ l) j m = last_of-cons x l

module _ {N : Type 0} where
  all-All :
      (k : String) (rest : List (SeriesResult N))
      → all (λ other. has k (periods_of other)) rest ≡ true
      → All (λ s. has k (periods_of s) ≡ true) rest
  all-All k [] h = tt
  all-All k (s ∷ rest) h = (ground arith, all-All k rest (ground arith))

  All-all :
      (k : String) (rest : List (SeriesResult N))
      → All (λ s. has k (periods_of s) ≡ true) rest
      → all (λ other. has k (periods_of other)) rest ≡ true
  All-all k [] h = refl
  All-all k (s ∷ rest) (e, h) = ground (arith, All-all k rest h)

  common_periods-All :
      (l : List (SeriesResult N)) (k : String)
      → Member k (common_periods l)
      → All (λ s. has k (periods_of s) ≡ true) l
  common_periods-All [] k m = absurd m
  common_periods-All (s ∷ rest) k m =
      let (there, others) = filter-Member _ k (periods_of s) m in
      (has-Member k (periods_of s) there, all-All k rest others)

  Member-common_periods :
      (s : SeriesResult N) (rest : List (SeriesResult N)) (k : String)
      → All (λ t. has k (periods_of t) ≡ true) (s ∷ rest)
      → Member k (common_periods (s ∷ rest))
  Member-common_periods s rest k (there, others) =
      Member-filter _ k (periods_of s) (Member-has k (periods_of s) there) (All-all k rest others)

  -- The aligned period is one that every series with data has.
  pub aligned_period-IsCommon :
      (series : List (SeriesResult N)) (k : String)
      → aligned_period series ≡ some k
      → IsCommon k series
  unfolding aligned_period
  aligned_period-IsCommon series k e =
      common_periods-All (filter has_data series) k
        (sort-Member text_before k _ (last_of-Member _ k e))

  latest_of :
      (l : List (SeriesResult N)) (j : String)
      → Member j (common_periods l)
      → (k : String) × (last_of (sort text_before (common_periods l)) ≡ some k)
        × (text_before k j ≡ false)
  latest_of l j m =
      let there = Member-sort text_before j (common_periods l) m in
      let (k, e) = some_last _ j there in
      (k, e, last_of-greatest _ j k (sort-IsSorted text_before text_before-IsOrder _) there e)

  -- Where some series has data and every one that has shares a period, places are compared at a
  -- period that all of them share, and at none that comes before it in the order of texts.
  pub aligned_period-latest :
      (series rest : List (SeriesResult N)) (s : SeriesResult N) (j : String)
      → filter has_data series ≡ s ∷ rest
      → IsCommon j series
      → (k : String) × (aligned_period series ≡ some k)
        × IsCommon k series
        × (text_before k j ≡ false)
  unfolding aligned_period
  aligned_period-latest series rest s j e h =
      let m =
        subst (λ l. Member j (common_periods l)) (sym e)
          (Member-common_periods s rest j
            (subst (λ l. All (λ t. has j (periods_of t) ≡ true) l) e h)) in
      let (k, f, g) = latest_of (filter has_data series) j m in
      (k, f, aligned_period-IsCommon series k f, g)
