-- ===== src/Geography/Resolver/Answers.antt =====
-- Where the places of an answer come from (geography/resolver.ts: `resolvePlace` as a whole).
use federal_mcps.Common.Chars.{is_set}
use federal_mcps.Common.{
  ℕ, ◌≡◌, refl, String, Bool, ◌&&◌, ◌||◌, not, Option, List, [], ◌∷◌, take, filter, length, if-both,
  any, inl, inr, All, All-append, or_else, Option-cases, str_eq, ltb,
}
use federal_mcps.Common.Members.{All-filter, All-take, All-sort}
use federal_mcps.Common.Chars.{slice_to, trim, units_of}
use federal_mcps.Geography.Types.{
  PlaceCandidate, EntityRecord, ResolveOptions, ResolveResult, resolved, ambiguous,
}
use federal_mcps.Geography.Names.{normalize_name, normalize_kind}
use federal_mcps.Geography.Dominance.{
  Scored, is_level, fold_town_twins, metros_as_fallback, flag_ambiguous, is_dominated_by_state,
}
use federal_mcps.Geography.Catalog.{Catalog}
use federal_mcps.Geography.Candidates.{score_candidate}
use federal_mcps.Geography.Resolver.Search.{
  allows, nation_matches, with_nation, search_splitting_towns,
}
use federal_mcps.Geography.Resolver.Rivals.{same_state_town_rivals}
use federal_mcps.Geography.Resolver.{
  Asked, decide, answer, candidates_of, ranks_before, ranked, strong_kinds, asks_state,
  in_county_of, matches, score_all, search_options, resolve_by_search, resolve_place, or_search,
  is_geoid, max_query_length,
}

abbrev pub candidates : ResolveResult → List PlaceCandidate
candidates (resolved ps notice) = ps
candidates (ambiguous ps explanation) = ps

module _ (Q : EntityRecord → Type 0) where
  -- A candidate that describes a row of the catalog.
  abbrev pub IsFrom : PlaceCandidate → Type 0
  IsFrom p =
      (e : EntityRecord) × Q e
      × (p.ucgid ≡ e.ucgid)
      × (p.geoid ≡ e.geoid)
      × (p.name ≡ e.name)
      × (p.sumlevel ≡ e.sumlevel)

  abbrev AllFrom : List Scored → Type 0
  AllFrom scored = All (λ s. IsFrom s.candidate) scored

  candidates-All : (l : List Scored) → AllFrom l → All IsFrom (candidates_of l)
  candidates-All [] h = tt
  candidates-All (c ∷ l) (p, h) = (p, candidates-All l h)

  flagged-All : (l : List Scored) → AllFrom l → All IsFrom (flag_ambiguous l)
  unfolding flag_ambiguous
  flagged-All [] h = tt
  flagged-All (c ∷ l) (p, h) = (
    if-both IsFrom (any (λ flag. str_eq flag "ambiguous") c.candidate.flags) p p,
    flagged-All l h,
  )

  answer-All :
      (asked : Asked) (by_state l : List Scored)
      → AllFrom l
      → All IsFrom (candidates (answer asked by_state l))
  answer-All asked by_state [] h = tt
  answer-All asked by_state (top ∷ l) (p, h) =
      if-both (λ r. All IsFrom (candidates r))
        (not asked.has_kind && top.is_exact && is_level "040" top && ltb 0 (length by_state))
        (p, candidates-All l h) (p, candidates-All l h)

  decide-All :
      (asked : Asked) (scored : List Scored)
      → AllFrom scored
      → All IsFrom (candidates (decide asked scored))
  unfolding decide
  decide-All asked scored h =
      let l = take (or_else asked.limit 10) (ranked scored) in
      let k : AllFrom l =
        All-take (λ s. IsFrom s.candidate) (or_else asked.limit 10) (ranked scored)
          (All-sort (ranks_before scored) (λ s. IsFrom s.candidate) scored h) in
      if-both (λ r. All IsFrom (candidates r))
        (not asked.has_kind && ltb 1 (length (strong_kinds scored))) (flagged-All l k)
        (elim (Option-cases (same_state_town_rivals (ranked scored))) [
          | inr (rivals, e) ↦ rw e (flagged-All l k)
          | inl none_there ↦ rw none_there (
              if-both (λ r. All IsFrom (candidates r))
                (not (is_set asked.state) && asks_state l (ranked scored)) (flagged-All l k)
                (answer-All asked (filter (λ c. is_dominated_by_state c scored) scored) l k))
        ])

  abbrev Origin : Scored → Type 0
  Origin s = IsFrom s.candidate

  fold_town_twins-All : (l : List Scored) → AllFrom l → AllFrom (fold_town_twins l)
  unfolding fold_town_twins
  fold_town_twins-All l h = All-filter Origin _ l h

  metros_as_fallback-All :
      (l : List Scored) (applies : Bool) → AllFrom l → AllFrom (metros_as_fallback l applies)
  unfolding metros_as_fallback
  metros_as_fallback-All l applies h =
      if-both AllFrom (not applies || not (any (λ c. c.is_exact && not (is_level "310" c)) l)) h
        (All-filter Origin _ l h)

  in_county_of-All :
      (county : Option String) (l : List Scored) → AllFrom l → AllFrom (in_county_of county l)
  unfolding in_county_of
  in_county_of-All county l h = if-both AllFrom (is_set county) (All-filter Origin _ l h) h

  with_nation-All :
      (nation rows : List EntityRecord)
      → All Q nation
      → All Q rows
      → All Q (with_nation nation rows)
  unfolding with_nation
  with_nation-All nation rows hn hr = All-append Q nation _ hn (All-filter Q _ rows hr)

  module _ (catalog : Catalog) (log10 : ℕ → ℕ) where
    score_all-All :
        (query : String) (rows : List EntityRecord)
        → All Q rows
        → AllFrom (score_all catalog log10 query rows)
    unfolding score_candidate
    score_all-All query [] h = tt
    score_all-All query (e ∷ rows) (q, h) =
        ((e, q, refl, refl, refl, refl), score_all-All query rows h)

    matches-All :
        (text : String) (state : Option String) (sumlevels : Option (List String))
        → All Q (nation_matches catalog (normalize_name text) sumlevels state)
        → All Q (search_splitting_towns catalog text (search_options catalog log10 state sumlevels))
        → AllFrom (matches catalog log10 text state sumlevels)
    unfolding matches
    matches-All text state sumlevels hn hs =
        metros_as_fallback-All _ _ (
          fold_town_twins-All _ (score_all-All (normalize_name text) _ (with_nation-All _ _ hn hs)))

    module _ (options : ResolveOptions)
        (nations : (query : String) (state : Option String)
          → All Q (nation_matches catalog query (normalize_kind options.kind) state))
        (found : (text : String) (state : Option String)
          → All Q (
              search_splitting_towns catalog text
                (search_options catalog log10 state (normalize_kind options.kind))))
        (by_id : (geoid : String)
          → All Q (
              filter
                (λ e. allows (normalize_kind options.kind) e.sumlevel)
                (catalog.entities_by_geoid geoid))) where
      searched-All :
          (query bounded : String)
          → All IsFrom (candidates (resolve_by_search catalog log10 query options bounded))
      unfolding resolve_by_search
      searched-All query bounded = decide-All _ _ (
          in_county_of-All _ _
            (matches-All _ _ (normalize_kind options.kind) (nations _ _) (found _ _)))

      or_search-All :
          (l : List Scored) (searched : ResolveResult)
          → AllFrom l
          → All IsFrom (candidates searched)
          → All IsFrom (candidates (or_search catalog log10 l searched))
      or_search-All [] searched h k = k
      or_search-All (c ∷ l) searched h k = candidates-All (c ∷ l) h

      -- Every place of an answer describes a row of the catalog that the queries give.
      pub resolve_place-All :
          (query : String) → All IsFrom (candidates (resolve_place catalog log10 query options))
      unfolding resolve_place
      resolve_place-All query =
          let bounded = slice_to max_query_length query in
          let searched = searched-All query bounded in
          if-both (λ r. All IsFrom (candidates r)) (ltb (units_of (trim bounded)) 3)
            (candidates-All _ (score_all-All (normalize_name bounded) _ (nations _ _)))
            (if-both (λ r. All IsFrom (candidates r)) (is_geoid (trim bounded))
              (or_search-All _ _ (score_all-All (normalize_name (trim bounded)) _ (by_id _))
                searched)
              searched)
