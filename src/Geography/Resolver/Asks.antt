-- ===== src/Geography/Resolver/Asks.antt =====
-- When a resolution answers and when it asks back (geography/resolver.ts: the ambiguity checks).
use federal_mcps.Common.Chars.{is_set}
use federal_mcps.Common.{
  ◌*◌, ◌≤◌, ◌≡◌, refl, sym, ap, ◌∙◌, subst, String, Bool, true, false, ◌&&◌, not, true≢false,
  eq_iff, Option, none, some, List, [], ◌∷◌, take, filter, length, map, arith, ltb, str_eq, inl,
  inr, or_else, Bool-cases,
}
use federal_mcps.Common.Members.{
  Member, take-Member, sort-Member, Member-sort, Member-filter, Member-map,
}
use federal_mcps.Common.Sets.{has, has-Member, distinct-single}
use federal_mcps.Geography.Types.{PlaceCandidate, resolved}
use federal_mcps.Geography.Dominance.{
  Scored, people, largest, largest-attained, is_exact_state, is_exact_non_town, is_level,
  is_dominated_town, is_dominated_by_state, state_dominance_ratio,
}
use federal_mcps.Geography.Resolver.Rivals.{same_state_town_rivals}
use federal_mcps.Geography.Resolver.{
  ranks_before, ranked, is_dominated, is_strong, strong_kinds, Asked, decide, answer, asks_state,
}

-- What an answer without a question back rests on.
pub record IsUnasked (asked : Asked) (scored : List Scored) : Type 0 where
  pub one_kind : (not asked.has_kind && ltb 1 (length (strong_kinds scored))) ≡ false
  pub no_towns : same_state_town_rivals (ranked scored) ≡ none
  pub no_states :
      (not (is_set asked.state)
        && asks_state (take (or_else asked.limit 10) (ranked scored)) (ranked scored))
      ≡ false
  pub answers :
      decide asked scored
      ≡ answer asked
          (filter (λ c. is_dominated_by_state c scored) scored)
          (take (or_else asked.limit 10) (ranked scored))

pub decide-IsUnasked :
    (asked : Asked) (scored : List Scored) (candidates : List PlaceCandidate)
    (notice : Option String)
    → decide asked scored ≡ resolved candidates notice
    → IsUnasked asked scored
unfolding decide
decide-IsUnasked asked scored candidates notice e = ground arith

strong_kinds-has :
    (scored : List Scored) (c : Scored)
    → Member c scored
    → is_strong scored c ≡ true
    → has c.candidate.sumlevel
        (map (λ s. s.candidate.sumlevel) (filter (is_strong scored) (ranked scored)))
      ≡ true
strong_kinds-has scored c m strong = has-Member c.candidate.sumlevel _ (
    Member-map (λ s. s.candidate.sumlevel) c (filter (is_strong scored) (ranked scored))
      (Member-filter (is_strong scored) c (ranked scored)
        (Member-sort (ranks_before scored) c scored m) strong))

one_kind :
    (scored : List Scored) (a b : Scored)
    → Member a scored
    → Member b scored
    → is_strong scored a ≡ true
    → is_strong scored b ≡ true
    → length (strong_kinds scored) ≤ 1
    → a.candidate.sumlevel ≡ b.candidate.sumlevel
unfolding strong_kinds
one_kind scored a b ma mb sa sb short =
    distinct-single _ a.candidate.sumlevel b.candidate.sumlevel short
      (strong_kinds-has scored a ma sa) (strong_kinds-has scored b mb sb)

-- A query without a kind that is answered, and not asked back about, has no two exact matches of
-- different kinds that nothing dominates.
pub decide-one_kind :
    (asked : Asked) (scored : List Scored) (candidates : List PlaceCandidate)
    (notice : Option String) (a b : Scored)
    → asked.has_kind ≡ false
    → decide asked scored ≡ resolved candidates notice
    → Member a scored
    → Member b scored
    → is_strong scored a ≡ true
    → is_strong scored b ≡ true
    → a.candidate.sumlevel ≡ b.candidate.sumlevel
decide-one_kind asked scored candidates notice a b kindless e ma mb sa sb =
    let u = decide-IsUnasked asked scored candidates notice e in
    one_kind scored a b ma mb sa sb (ground (arith, u.one_kind))

largest-bound :
    (p : Scored → Bool) (scored : List Scored) (c : Scored)
    → Member c scored
    → p c ≡ true
    → people c ≤ largest p scored
unfolding largest
largest-bound p [] c m h = absurd m
largest-bound p (x ∷ scored) c m h = elim m [
  | inl e ↦ subst (λ s. people s ≤ largest p (x ∷ scored)) e (ground (arith, ap p e))
  | inr later ↦ ground (arith, largest-bound p scored c later h)
]

-- What a notice rests on: the first match is a state, and no kind was asked for.
noticed-top :
    (asked : Asked) (by_state l : List Scored) (candidates : List PlaceCandidate) (notice : String)
    → answer asked by_state l ≡ resolved candidates (some notice)
    → (asked.has_kind ≡ false)
      × (top : Scored) × Member top l
      × (top.is_exact ≡ true)
      × (is_level "040" top ≡ true)
noticed-top asked by_state [] candidates notice e = cc
noticed-top asked by_state (top ∷ l) candidates notice e =
    (ground arith, top, inl refl, ground arith, ground arith)

other_level :
    (a b : Scored)
    → a.candidate.sumlevel ≡ b.candidate.sumlevel
    → is_level "040" a ≡ true
    → is_level "040" b ≡ true
other_level a b e h = ap (λ t. str_eq t "040") (sym e) ∙ h

state-not-town : (c : Scored) → is_level "040" c ≡ true → is_level "060" c ≡ false
state-not-town c h = ap (λ t. str_eq t "060") ((eq_iff c.candidate.sumlevel "040").0 h)

module _ (scored : List Scored)
    (kinds : (a b : Scored)
      → Member a scored
      → Member b scored
      → is_strong scored a ≡ true
      → is_strong scored b ≡ true
      → a.candidate.sumlevel ≡ b.candidate.sumlevel)
    (top : Scored) (there : Member top scored) (exact : top.is_exact ≡ true)
    (state : is_level "040" top ≡ true) where
  top-IsStrong : is_strong scored top ≡ true
  unfolding is_dominated_by_state is_dominated_town
  top-IsStrong = ground (arith, state-not-town top state)

  -- Every other exact match is dominated.
  all_dominated :
      (c : Scored)
      → Member c scored
      → c.is_exact ≡ true
      → is_level "040" c ≡ false
      → is_dominated scored c ≡ true
  all_dominated c m exact_c other = elim (Bool-cases (is_dominated scored c)) [
    | inl dominated ↦ dominated
    | inr free ↦ absurd (
        true≢false
          (sym (other_level top c (kinds top c there m top-IsStrong (ground arith)) state) ∙ other))
  ]

  non_town_bound :
      (c : Scored)
      → Member c scored
      → is_exact_non_town c ≡ true
      → people c ≤ largest is_exact_state scored
  unfolding is_dominated_by_state is_dominated_town
  non_town_bound c m h = elim (Bool-cases (is_level "040" c)) [
    | inl is_state ↦ largest-bound is_exact_state scored c m (ground arith)
    | inr other ↦ ground (arith, all_dominated c m (ground arith) other)
  ]

  dominated_bound :
      (c : Scored)
      → Member c scored
      → c.is_exact ≡ true
      → is_level "040" c ≡ false
      → state_dominance_ratio * people c ≤ largest is_exact_state scored
  unfolding is_dominated_by_state is_dominated_town
  dominated_bound c m exact_c other = elim (Bool-cases (is_dominated_by_state c scored)) [
    | inl by_state ↦ ground arith
    | inr not_by ↦
        let (t, mt, passes, same) =
          largest-attained is_exact_non_town scored
            (ground (arith, all_dominated c m exact_c other)) in
        ground (arith, all_dominated c m exact_c other, non_town_bound t mt passes)
  ]

-- A notice that a state was chosen is true: every other exact match that is no state has at most a
-- tenth of the people of some exact match that is one.
pub decide-notice :
    (asked : Asked) (scored : List Scored) (candidates : List PlaceCandidate) (notice : String)
    (c : Scored)
    → decide asked scored ≡ resolved candidates (some notice)
    → Member c scored
    → c.is_exact ≡ true
    → is_level "040" c ≡ false
    → state_dominance_ratio * people c ≤ largest is_exact_state scored
decide-notice asked scored candidates notice c e m exact other =
    let u = decide-IsUnasked asked scored candidates (some notice) e in
    let (kindless, top, mt, exact_top, state) =
      noticed-top asked _ _ candidates notice (sym u.answers ∙ e) in
    dominated_bound scored
      (λ a b ma mb sa sb.
        decide-one_kind asked scored candidates (some notice) a b kindless e ma mb sa sb)
      top
      (sort-Member (ranks_before scored) top scored
        (take-Member (or_else asked.limit 10) top (ranked scored) mt))
      exact_top state c m exact other
