-- ===== src/Geography/Resolver/Ranked.antt =====
-- The order in which the resolver lists its matches (geography/resolver.ts: `tier` and the sort).
use federal_mcps.Common.{
  ℕ, zero, suc, ◌<◌, ◌≡◌, refl, true, false, List, [], ◌∷◌, ◌∙◌, List-cases, take, filter, subst,
  sym, ap, map, String, arith, inl, inr, or_else,
}
use federal_mcps.Common.Members.{Member, All-Member, sort-Member, Member-sort}
use federal_mcps.Common.Sort.{IsOrder, IsSorted, sort-IsSorted}
use federal_mcps.Geography.Types.{ResolveResult, resolved, ambiguous}
use federal_mcps.Geography.Dominance.{Scored, is_dominated_by_state, flag_ambiguous}
use federal_mcps.Geography.Resolver.{
  tier, ranks_before, ranked, candidates_of, is_strong, Asked, decide, answer,
}

ranks_before-IsOrder : (scored : List Scored) → IsOrder (ranks_before scored)
unfolding ranks_before
ranks_before-IsOrder scored = record {
  asymmetric = λ a b e. ground arith;
  transitive = λ a b c e f. ground arith;
}

strong-tier : (scored : List Scored) (c : Scored) → is_strong scored c ≡ true → tier scored c ≡ 0
unfolding tier
strong-tier scored c e = ground arith

tier-strong : (scored : List Scored) (c : Scored) → tier scored c ≡ 0 → is_strong scored c ≡ true
unfolding tier
tier-strong scored c e = ground arith

first-tier :
    (scored : List Scored) (a c : Scored)
    → ranks_before scored c a ≡ false
    → tier scored c ≡ 0
    → tier scored a ≡ 0
unfolding ranks_before
first-tier scored a c e f = ground arith

-- Where some match is strong, the match that is listed first is.
pub ranked-first :
    (scored : List Scored) (c a : Scored) (rest : List Scored)
    → Member c scored
    → is_strong scored c ≡ true
    → ranked scored ≡ a ∷ rest
    → is_strong scored a ≡ true
ranked-first scored c a rest m strong e =
    let sorted =
      subst (λ l. IsSorted (ranks_before scored) l) e
        (sort-IsSorted (ranks_before scored) (ranks_before-IsOrder scored) scored) in
    elim (subst (λ l. Member c l) e (Member-sort (ranks_before scored) c scored m)) [
      | inl same ↦ subst (λ s. is_strong scored s ≡ true) (sym same) strong
      | inr later ↦ tier-strong scored a (
          first-tier scored a c
            (All-Member (λ y. ranks_before scored y a ≡ false) rest c sorted.0 later)
            (strong-tier scored c strong))
    ]

abbrev pub ucgids : ResolveResult → List String
ucgids (resolved candidates notice) = map (λ p. p.ucgid) candidates
ucgids (ambiguous candidates explanation) = map (λ p. p.ucgid) candidates

abbrev pub ucgids_of : List Scored → List String
ucgids_of scored = map (λ c. c.candidate.ucgid) scored

flag_ambiguous-ucgids : (l : List Scored) → map (λ p. p.ucgid) (flag_ambiguous l) ≡ ucgids_of l
unfolding flag_ambiguous
flag_ambiguous-ucgids [] = refl
flag_ambiguous-ucgids (c ∷ l) = ground (arith, flag_ambiguous-ucgids l)

candidates-ucgids : (l : List Scored) → map (λ p. p.ucgid) (candidates_of l) ≡ ucgids_of l
candidates-ucgids [] = refl
candidates-ucgids (c ∷ l) = ap (λ r. c.candidate.ucgid ∷ r) (candidates-ucgids l)

answer-ucgids :
    (asked : Asked) (by_state l : List Scored) → ucgids (answer asked by_state l) ≡ ucgids_of l
answer-ucgids asked by_state [] = refl
answer-ucgids asked by_state (top ∷ l) = ground (arith, candidates-ucgids l)

abbrev pub listed : Asked → List Scored → List Scored
listed asked scored = take (or_else asked.limit 10) (ranked scored)

-- However it ends, a resolution lists the first of the ranking, as many as were asked for.
pub decide-ucgids :
    (asked : Asked) (scored : List Scored)
    → ucgids (decide asked scored) ≡ ucgids_of (listed asked scored)
unfolding decide
decide-ucgids asked scored = ground (
  arith,
  flag_ambiguous-ucgids (listed asked scored),
  answer-ucgids asked (filter (λ c. is_dominated_by_state c scored) scored) (listed asked scored),
)

-- The first of a list that is cut after one item or more.
take-first :
    (n : ℕ) (a : Scored) (rest l : List Scored)
    → 0 < n
    → l ≡ a ∷ rest
    → (r : List String) × (ucgids_of (take n l) ≡ a.candidate.ucgid ∷ r)
take-first zero a rest l pos e = absurd (omega arith)
take-first (suc n) a rest l pos e =
    (ucgids_of (take n rest), ap (λ k. ucgids_of (take (suc n) k)) e)

-- Where some match is strong and an answer may list any, it lists a strong match first.
pub decide-first :
    (asked : Asked) (scored : List Scored) (c : Scored)
    → Member c scored
    → is_strong scored c ≡ true
    → 0 < or_else asked.limit 10
    → (a : Scored) × Member a scored
      × (is_strong scored a ≡ true)
      × (rest : List String) × (ucgids (decide asked scored) ≡ a.candidate.ucgid ∷ rest)
decide-first asked scored c m strong pos =
    let there = Member-sort (ranks_before scored) c scored m in
    elim (List-cases (ranked scored)) [
      | inl none_there ↦ absurd (subst (λ l. Member c l) none_there there)
      | inr (a, rest, e) ↦
          let (r, f) = take-first (or_else asked.limit 10) a rest (ranked scored) pos e in
          (
            a,
            sort-Member (ranks_before scored) a scored (subst (λ l. Member a l) (sym e) (inl refl)),
            ranked-first scored c a rest m strong e,
            r,
            decide-ucgids asked scored ∙ f,
          )
    ]
