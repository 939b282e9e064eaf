-- ===== src/Geography/Resolver/States.antt =====
-- When exact matches in several states stop a resolution (geography/resolver.ts: `hasDominantState`
-- and the check by state).
use federal_mcps.Common.Chars.{is_set}
use federal_mcps.Common.{
  ℕ, ◌*◌, ◌≤◌, ◌≡◌, ◌⊎◌, refl, sym, ap, ◌∙◌, subst, String, true, false, true≢false, eq_iff, Option,
  none, some, List, [], ◌∷◌, length, map, arith, ltb, inl, inr, or_else, Bool-cases, List-cases,
  Option-cases, some_inj,
}
use federal_mcps.Common.Members.{Member, All-Member, sort-Member, Member-sort, Member-map}
use federal_mcps.Common.Sets.{has, has-Member, distinct-single}
use federal_mcps.Common.Sort.{IsOrder, IsSorted, sort-IsSorted}
use federal_mcps.Geography.Types.{PlaceCandidate, resolved}
use federal_mcps.Geography.Dominance.{Scored, people, state_dominance_ratio}
use federal_mcps.Geography.Resolver.Rivals.{
  has_dominant_state, same_state, more_people, by_population, runner_up, leads_by_ratio,
  population_of, leads_other_states,
}
use federal_mcps.Geography.Resolver.Asks.{decide-IsUnasked}
use federal_mcps.Geography.Resolver.Ranked.{listed}
use federal_mcps.Geography.Resolver.{
  ranked, first_of, Asked, decide, asks_state, state_rivals, states_of, has_state,
}

more_people-IsOrder : IsOrder more_people
more_people-IsOrder = record {
  asymmetric = λ a b e. ground arith;
  transitive = λ a b c e f. ground arith;
}

not_more : (c a : Scored) → more_people a c ≡ false → people a ≤ people c
not_more c a e = ground arith

-- Of a list by population, the first in another state has the most people of those.
runner_up-bound :
    (state : Option String) (l : List Scored) (r a : Scored)
    → IsSorted more_people l
    → runner_up state l ≡ some r
    → Member a l
    → same_state a.candidate.state_fips state ≡ false
    → people a ≤ people r
unfolding runner_up
runner_up-bound state [] r a s e m other = absurd m
runner_up-bound state (c ∷ l) r a (first, s) e m other =
    elim (Bool-cases (same_state c.candidate.state_fips state)) [
      | inl same ↦ elim m [
        | inl here ↦
            absurd (
              true≢false
                (sym same ∙ ap (λ x. same_state x.candidate.state_fips state) here ∙ other))
        | inr later ↦ runner_up-bound state l r a s (ground arith) later other
      ]
      | inr differs ↦
          let found = some_inj (rw (differs, runner_up) at e) in
          elim m [
            | inl here ↦
                subst (λ x. people x ≤ people r) here
                  (subst (λ x. people c ≤ people x) found (omega arith))
            | inr later ↦
                subst (λ x. people a ≤ people x) found
                  (not_more c a (All-Member (λ y. more_people y c ≡ false) l a first later))
          ]
    ]

-- `a` lies in the state of `lead`, or has at most a tenth of its people.
abbrev pub IsNoRival : Scored → Scored → Type 0
IsNoRival lead a =
    (same_state a.candidate.state_fips lead.candidate.state_fips ≡ true)
    ⊎ (state_dominance_ratio * people a ≤ people lead)

leads-bound :
    (lead r : Scored) (rest : List Scored)
    → leads_other_states (lead ∷ rest) ≡ true
    → runner_up lead.candidate.state_fips (lead ∷ rest) ≡ some r
    → state_dominance_ratio * people r ≤ people lead
leads-bound lead r rest h e =
    known lead.candidate.population r.candidate.population
      (ap (λ q. leads_by_ratio lead.candidate.population (population_of q)) (sym e) ∙ h)
  where
    known :
        (p q : Option ℕ)
        → leads_by_ratio p q ≡ true
        → state_dominance_ratio * or_else q 0 ≤ or_else p 0
    known none q h = cc
    known (some p) none h = cc
    known (some p) (some q) h = ground arith

leads-IsNoRival :
    (lead : Scored) (rest : List Scored) (a : Scored)
    → IsSorted more_people (lead ∷ rest)
    → leads_other_states (lead ∷ rest) ≡ true
    → Member a (lead ∷ rest)
    → IsNoRival lead a
leads-IsNoRival lead rest a s h m =
    elim (Bool-cases (same_state a.candidate.state_fips lead.candidate.state_fips)) [
      | inl same ↦ inl same
      | inr other ↦ elim (Option-cases (runner_up lead.candidate.state_fips (lead ∷ rest))) [
        | inl nobody ↦ absurd (
            true≢false (
              sym h
              ∙ unled lead.candidate.population (runner_up lead.candidate.state_fips (lead ∷ rest))
                  nobody))
        | inr (r, e) ↦
            let bound = runner_up-bound lead.candidate.state_fips (lead ∷ rest) r a s e m other in
            inr (omega (arith, leads-bound lead r rest h e))
      ]
    ]
  where
    unled :
        (p : Option ℕ) (q : Option Scored) → q ≡ none → leads_by_ratio p (population_of q) ≡ false
    unled none none e = refl
    unled (some p) none e = refl
    unled p (some c) e = cc

-- A dominant state has a lead, the most populous of the rivals, that no rival of another state rivals.
pub has_dominant_state-lead :
    (rivals : List Scored) (a : Scored)
    → has_dominant_state rivals ≡ true
    → Member a rivals
    → (lead : Scored) × (first_of (by_population rivals) ≡ some lead)
      × Member lead rivals
      × IsNoRival lead a
unfolding has_dominant_state
has_dominant_state-lead rivals a h m = elim (List-cases (by_population rivals)) [
  | inl empty ↦ absurd (subst (λ l. Member a l) empty (Member-sort more_people a rivals m))
  | inr (lead, rest, e) ↦ (
    lead,
    ap (λ l. first_of l) e,
    sort-Member more_people lead rivals (subst (λ l. Member lead l) (sym e) (inl refl)),
    leads-IsNoRival lead rest a
        (subst (λ l. IsSorted more_people l) e
          (sort-IsSorted more_people more_people-IsOrder rivals))
        (sym (ap (λ l. leads_other_states l) e) ∙ h)
        (subst (λ l. Member a l) e (Member-sort more_people a rivals m)),
  )
]

state-same :
    (a b : Scored)
    → has_state a ≡ true
    → has_state b ≡ true
    → or_else a.candidate.state_fips "" ≡ or_else b.candidate.state_fips ""
    → same_state a.candidate.state_fips b.candidate.state_fips ≡ true
state-same a b ha hb e = known a.candidate.state_fips b.candidate.state_fips ha hb e
  where
    known :
        (p q : Option String)
        → elim p [ none ↦ false | some _ ↦ true ] ≡ true
        → elim q [ none ↦ false | some _ ↦ true ] ≡ true
        → or_else p "" ≡ or_else q ""
        → same_state p q ≡ true
    known none q hp hq e = cc
    known (some p) none hp hq e = cc
    known (some p) (some q) hp hq e = (eq_iff p q).1 e

states_of-has :
    (rivals : List Scored) (a : Scored)
    → Member a rivals
    → has (or_else a.candidate.state_fips "") (map (λ c. or_else c.candidate.state_fips "") rivals)
      ≡ true
states_of-has rivals a m =
    has-Member _ _ (Member-map (λ c. or_else c.candidate.state_fips "") a rivals m)

several_states :
    (rivals : List Scored) (a b : Scored)
    → Member a rivals
    → Member b rivals
    → has_state a ≡ true
    → has_state b ≡ true
    → same_state a.candidate.state_fips b.candidate.state_fips ≡ false
    → ltb 1 (length (states_of rivals)) ≡ true
unfolding states_of
several_states rivals a b ma mb ha hb other =
    elim (Bool-cases (ltb 1 (length (states_of rivals)))) [
      | inl several ↦ several
      | inr few ↦ absurd (
          true≢false (
            sym (
              state-same a b ha hb (
                distinct-single _ _ _ (ground arith) (states_of-has rivals a ma)
                  (states_of-has rivals b mb)))
            ∙ other))
    ]

-- A query without a state that is answered, and not asked back about, though two exact matches of the
-- first candidate's kind lie in different states, has a most populous such match, whose people are
-- ten times those of each of the two that lies in another state than its own.
pub decide-one_state :
    (asked : Asked) (scored : List Scored) (candidates : List PlaceCandidate)
    (notice : Option String) (a b : Scored)
    → is_set asked.state ≡ false
    → decide asked scored ≡ resolved candidates notice
    → Member a (state_rivals (first_of (listed asked scored)) (ranked scored))
    → Member b (state_rivals (first_of (listed asked scored)) (ranked scored))
    → has_state a ≡ true
    → has_state b ≡ true
    → same_state a.candidate.state_fips b.candidate.state_fips ≡ false
    → (lead : Scored) × (first_of
          (by_population (state_rivals (first_of (listed asked scored)) (ranked scored)))
        ≡ some lead)
      × IsNoRival lead a
      × IsNoRival lead b
unfolding asks_state
decide-one_state asked scored candidates notice a b stateless e ma mb ha hb other =
    let rivals = state_rivals (first_of (listed asked scored)) (ranked scored) in
    let u = decide-IsUnasked asked scored candidates notice e in
    let dominant : has_dominant_state rivals ≡ true =
      ground (arith, u.no_states, several_states rivals a b ma mb ha hb other) in
    let (lead, first, there, none_a) = has_dominant_state-lead rivals a dominant ma in
    let (lead', first', there', none_b) = has_dominant_state-lead rivals b dominant mb in
    (lead, first, none_a, subst (λ l. IsNoRival l b) (some_inj (sym first' ∙ first)) none_b)
