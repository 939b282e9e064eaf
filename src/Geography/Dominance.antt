-- ===== src/Geography/Dominance.antt =====
-- How the resolver folds, ranks and flags the places that match a name (geography/resolver.ts): the
-- folding and the dominance rules do not read a candidate's score.
use federal_mcps.Common.{
  filter, ℕ, ◌*◌, ◌≤◌, ◌<◌, ◌≡◌, refl, sym, ap, String, Bool, true, false, true≢false, map, ◌&&◌,
  ◌||◌, not, none, some, List, [], ◌∷◌, ◌++◌, arith, leb, ltb, max, any, All, str_eq, or_else,
  if◌then◌else◌, Bool-cases, inl, inr, eq_refl,
}
use federal_mcps.Common.Members.{Member}
use federal_mcps.Geography.Types.{PlaceParent, PlaceCandidate}

pub record Scored : Type 0 where
  pub candidate : PlaceCandidate
  pub is_exact : Bool

abbrev pub state_dominance_ratio : ℕ
state_dominance_ratio = 10

abbrev pub people : Scored → ℕ
people s = or_else s.candidate.population 0

abbrev pub is_level : String → Scored → Bool
is_level sumlevel s = str_eq s.candidate.sumlevel sumlevel

-- `.filter(p).reduce(max, 0)` of the populations.
unfoldable pub largest : (Scored → Bool) → List Scored → ℕ
largest p [] = 0
largest p (s ∷ scored) = let rest = largest p scored in if p s then max (people s) rest else rest

abbrev pub is_exact_non_town : Scored → Bool
is_exact_non_town s = s.is_exact && not (is_level "060" s)

abbrev pub is_exact_state : Scored → Bool
is_exact_state s = s.is_exact && is_level "040" s

-- `lead > 0 && lead >= STATE_DOMINANCE_RATIO * population`
abbrev pub outweighs : ℕ → ℕ → Bool
outweighs lead population = ltb 0 lead && leb (state_dominance_ratio * population) lead

unfoldable pub is_dominated_town : Scored → List Scored → Bool
is_dominated_town c scored =
    is_level "060" c && outweighs (largest is_exact_non_town scored) (people c)

abbrev pub has_population : Scored → Bool
has_population c = elim c.candidate.population [ none ↦ false | some _ ↦ true ]

unfoldable pub is_dominated_by_state : Scored → List Scored → Bool
is_dominated_by_state c scored =
    c.is_exact
    && not (is_level "040" c)
    && has_population c
    && outweighs (largest is_exact_state scored) (people c)

-- The towns that are the parents of a place in the results.
unfoldable pub town_parents : List PlaceParent → List String
town_parents [] = []
town_parents (p ∷ parents) =
    let rest = town_parents parents in if str_eq p.sumlevel "060" then p.geoid ∷ rest else rest

unfoldable pub twin_towns : List Scored → List String
twin_towns [] = []
twin_towns (s ∷ scored) =
    let rest = twin_towns scored in
    if is_level "160" s then town_parents s.candidate.parents ++ rest else rest

abbrev pub is_twin : List String → Scored → Bool
is_twin twins s = is_level "060" s && any (λ geoid. str_eq geoid s.candidate.geoid) twins

unfoldable pub fold_town_twins : List Scored → List Scored
fold_town_twins scored = filter (λ s. not (is_twin (twin_towns scored) s)) scored

-- Under a state filter with no kind, a metro answers only when nothing else matches exactly.
unfoldable pub metros_as_fallback : List Scored → Bool → List Scored
metros_as_fallback scored applies =
    if not applies || not (any (λ c. c.is_exact && not (is_level "310" c)) scored)
    then scored
    else filter (λ c. not (is_level "310" c)) scored

unfoldable pub flag_ambiguous : List Scored → List PlaceCandidate
flag_ambiguous [] = []
flag_ambiguous (c ∷ candidates) =
    let p = c.candidate in
    (if any (λ flag. str_eq flag "ambiguous") p.flags
      then p
      else record p { flags = p.flags ++ "ambiguous" ∷ [] })
    ∷ flag_ambiguous candidates

-- A place of the results that outweighs `population` and passes the test.
abbrev pub IsLead : (Scored → Bool) → List Scored → ℕ → Type 0
IsLead p scored population =
    (s : Scored) × Member s scored
    × (p s ≡ true)
    × (0 < people s)
    × (state_dominance_ratio * population ≤ people s)

pub largest-attained :
    (p : Scored → Bool) (scored : List Scored)
    → 0 < largest p scored
    → (s : Scored) × Member s scored × (p s ≡ true) × (people s ≡ largest p scored)
unfolding largest
largest-attained p [] pos = absurd (omega arith)
largest-attained p (s ∷ scored) pos = elim (Bool-cases (p s)) [
  | inr fails ↦
      let (t, m, passes, e) = largest-attained p scored (ground arith) in
      (t, inr m, passes, ground arith)
  | inl holds ↦ elim (Bool-cases (leb (largest p scored) (people s))) [
    | inl first ↦ (s, inl refl, holds, ground arith)
    | inr later ↦
        let (t, m, passes, e) = largest-attained p scored (ground arith) in
        (t, inr m, passes, ground arith)
  ]
]

outweighs-IsLead :
    (p : Scored → Bool) (scored : List Scored) (population : ℕ)
    → outweighs (largest p scored) population ≡ true
    → IsLead p scored population
outweighs-IsLead p scored population e =
    let (t, m, passes, same) = largest-attained p scored (ground arith) in
    (t, m, passes, ground arith, ground arith)

-- A place that a state dominates matches exactly, is no state itself and has a known population, and
-- some state among the results matches exactly and has ten times its population.
pub is_dominated_by_state-IsLead :
    (c : Scored) (scored : List Scored)
    → is_dominated_by_state c scored ≡ true
    → (c.is_exact ≡ true) × (is_level "040" c ≡ false) × IsLead is_exact_state scored (people c)
unfolding is_dominated_by_state
is_dominated_by_state-IsLead c scored e =
    (ground arith, ground arith, outweighs-IsLead is_exact_state scored (people c) (ground arith))

-- A county subdivision that is dominated stands beside a place of another kind that matches exactly
-- and has ten times its population.
pub is_dominated_town-IsLead :
    (c : Scored) (scored : List Scored)
    → is_dominated_town c scored ≡ true
    → (is_level "060" c ≡ true) × IsLead is_exact_non_town scored (people c)
unfolding is_dominated_town
is_dominated_town-IsLead c scored e =
    (ground arith, outweighs-IsLead is_exact_non_town scored (people c) (ground arith))

abbrev is_metro : Scored → Bool
is_metro c = is_level "310" c

any-filter :
    (scored : List Scored)
    → any (λ c. c.is_exact && not (is_metro c)) scored ≡ true
    → (any (λ c. c.is_exact) (filter (λ c. not (is_metro c)) scored) ≡ true)
      × (any (λ c. c.is_exact) scored ≡ true)
unfolding filter
any-filter [] e = absurd (true≢false (sym e))
any-filter (c ∷ scored) e = ground (arith, any-filter scored)

-- Setting metros aside never leaves a query without an exact match that it had.
pub metros_as_fallback-exact :
    (scored : List Scored) (applies : Bool)
    → any (λ c. c.is_exact) (metros_as_fallback scored applies) ≡ any (λ c. c.is_exact) scored
unfolding metros_as_fallback
metros_as_fallback-exact scored applies =
    elim (Bool-cases (any (λ c. c.is_exact && not (is_metro c)) scored)) [
      | inr without ↦ ground arith
      | inl found ↦ let (kept, there) = any-filter scored found in ground arith
    ]

any-last :
    (flags : List String) → any (λ f. str_eq f "ambiguous") (flags ++ "ambiguous" ∷ []) ≡ true
any-last [] = ground (arith, eq_refl "ambiguous")
any-last (f ∷ flags) = ground (arith, any-last flags)

-- Every candidate of an ambiguous answer carries the flag, and keeps its identity.
pub flag_ambiguous-flagged :
    (scored : List Scored)
    → All (λ p. any (λ f. str_eq f "ambiguous") p.flags ≡ true) (flag_ambiguous scored)
      × (map (λ p. p.geoid) (flag_ambiguous scored) ≡ map (λ s. s.candidate.geoid) scored)
unfolding flag_ambiguous
flag_ambiguous-flagged [] = (tt, refl)
flag_ambiguous-flagged (c ∷ scored) =
    let (h, e) = flag_ambiguous-flagged scored in
    elim (Bool-cases (any (λ f. str_eq f "ambiguous") c.candidate.flags)) [
      | inl there ↦ rw (there, flag_ambiguous) ((there, h), ap (λ r. c.candidate.geoid ∷ r) e)
      | inr missing ↦
          rw (missing, flag_ambiguous)
            ((any-last c.candidate.flags, h), ap (λ r. c.candidate.geoid ∷ r) e)
    ]
