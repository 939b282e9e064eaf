-- ===== src/Geography/Resolver/Kinds.antt =====
-- What a kind hint does to an answer (geography/resolver.ts: `normalizeKind` through `resolvePlace`).
use federal_mcps.Common.Chars.{is_set}
use federal_mcps.Common.{
  ℕ, ◌≡◌, refl, sym, ap, ◌∙◌, String, Bool, true, eq_iff, ◌&&◌, ◌||◌, not, Option, none, some, List,
  [], ◌∷◌, arith, length, ltb, if-cases, inl, inr, All, All-append, All-weaken, Bool-cases,
  some_inj, str_eq,
}
use federal_mcps.Common.Members.{All-filter, filter-All}
use federal_mcps.Common.Chars.{to_lower_case, trim}
use federal_mcps.Common.Dict.{Dict, lookup}
use federal_mcps.Common.Sets.{has}
use federal_mcps.Geography.Types.{EntityRecord, ResolveOptions}
use federal_mcps.Geography.Names.{normalize_kind, kind_hints}
use federal_mcps.Geography.Catalog.{Catalog, SearchOptions}
use federal_mcps.Geography.Resolver.Search.{
  nation_matches, nation_sumlevel, search_splitting_towns, search_others, search_at, others_of,
}
use federal_mcps.Geography.Resolver.Answers.{IsFrom, candidates, resolve_place-All}
use federal_mcps.Geography.Resolver.{resolve_place}

abbrev pub IsAmong : List String → EntityRecord → Type 0
IsAmong sumlevels e = has e.sumlevel sumlevels ≡ true

-- What the queries of the catalog promise: a search at some levels finds places at those levels, and
-- the places at a level are at that level.
pub record IsFiltering (catalog : Catalog) : Type 0 where
  pub searched :
      (text : String) (options : SearchOptions) (s : String) (sumlevels : List String)
      → options.sumlevels ≡ some (s ∷ sumlevels)
      → All (IsAmong (s ∷ sumlevels)) (catalog.search_names text options)
  pub leveled :
      (sumlevel : String) → All (λ e. e.sumlevel ≡ sumlevel) (catalog.entities_at_level sumlevel)

abbrev are_nonempty : Dict (List String) → Bool
are_nonempty [] = true
are_nonempty ((k, sumlevels) ∷ d) = ltb 0 (length sumlevels) && are_nonempty d

lookup-nonempty :
    (d : Dict (List String)) (k : String) (sumlevels : List String)
    → are_nonempty d ≡ true
    → lookup k d ≡ some sumlevels
    → ltb 0 (length sumlevels) ≡ true
unfolding lookup
lookup-nonempty [] k sumlevels h e = cc
lookup-nonempty ((j, l) ∷ d) k sumlevels h e = elim (Bool-cases (str_eq j k)) [
  | inl same ↦ ap (λ x. ltb 0 (length x)) (sym (some_inj (rw same at e))) ∙ ground arith
  | inr other ↦ lookup-nonempty d k sumlevels (ground arith) (rw other at e)
]

normalize_kind-nonempty :
    (kind : Option String) (sumlevels : List String)
    → normalize_kind kind ≡ some sumlevels
    → ltb 0 (length sumlevels) ≡ true
unfolding normalize_kind
normalize_kind-nonempty none sumlevels e = cc
normalize_kind-nonempty (some kind) sumlevels e =
    ground (arith, lookup-nonempty kind_hints (to_lower_case (trim kind)) sumlevels refl)

others_of-has :
    (s : String) (sumlevels : List String)
    → has s (others_of sumlevels) ≡ true
    → has s sumlevels ≡ true
unfolding has others_of
others_of-has s [] h = h
others_of-has s (t ∷ sumlevels) h = ground (arith, others_of-has s sumlevels)

alone : (s t : String) → has s (t ∷ []) ≡ true → s ≡ t
unfolding has
alone s t h = ground (arith, eq_iff t s)

module _ (catalog : Catalog) (filtering : IsFiltering catalog) (sumlevels : List String)
    (positive : ltb 0 (length sumlevels) ≡ true) where
  nation_matches-IsAmong :
      (query : String) (state : Option String)
      → All (IsAmong sumlevels) (nation_matches catalog query (some sumlevels) state)
  unfolding nation_matches
  nation_matches-IsAmong query state =
      if-cases (All (IsAmong sumlevels)) (is_set state || not (has nation_sumlevel sumlevels))
        (λ out. tt)
        (λ within. All-filter (IsAmong sumlevels) _ _ (
          All-weaken (λ e. e.sumlevel ≡ nation_sumlevel) (IsAmong sumlevels) _
            (λ e same. ap (λ t. has t sumlevels) same ∙ ground arith)
            (filtering.leveled nation_sumlevel)))

  towns-IsAmong :
      (text : String) (options : SearchOptions)
      → has "060" sumlevels ≡ true
      → All (IsAmong sumlevels) (search_at catalog text options ("060" ∷ []))
  towns-IsAmong text options h =
      All-weaken (IsAmong ("060" ∷ [])) (IsAmong sumlevels) _
        (λ e same. ap (λ t. has t sumlevels) (alone e.sumlevel "060" same) ∙ h)
        (filtering.searched text (record options { sumlevels = some ("060" ∷ []) }) "060" [] refl)

  All-IsAmong :
      (text : String) (options : SearchOptions) (l : List String)
      → options.sumlevels ≡ some l
      → ltb 0 (length l) ≡ true
      → All (IsAmong l) (catalog.search_names text options)
  All-IsAmong text options [] e h = cc
  All-IsAmong text options (s ∷ l) e h = filtering.searched text options s l e

  others-IsAmong :
      (text : String) (options : SearchOptions) (others : List String)
      → has "060" sumlevels ≡ true
      → ((s : String) → has s others ≡ true → has s sumlevels ≡ true)
      → All (IsAmong sumlevels) (search_others catalog text options others)
  others-IsAmong text options [] towns sub = towns-IsAmong text options towns
  others-IsAmong text options (s ∷ others) towns sub =
      All-append (IsAmong sumlevels) _ _
        (All-weaken (IsAmong (s ∷ others)) (IsAmong sumlevels) _ (λ e h. sub e.sumlevel h)
          (filtering.searched text (record options { sumlevels = some (s ∷ others) }) s others
            refl))
        (towns-IsAmong text options towns)

  search-IsAmong :
      (text : String) (options : SearchOptions)
      → options.sumlevels ≡ some sumlevels
      → All (IsAmong sumlevels) (search_splitting_towns catalog text options)
  unfolding search_splitting_towns
  search-IsAmong text options e = rw e (
      if-cases (All (IsAmong sumlevels)) (has "060" sumlevels)
        (λ towns.
          others-IsAmong text options (others_of sumlevels) towns
            (λ s h. others_of-has s sumlevels h))
        (λ none_there.
          All-IsAmong text (record options { sumlevels = some sumlevels }) sumlevels refl positive))

-- Under a kind hint every place of an answer is of one of the kinds that the hint stands for.
pub resolve_place-IsAmong :
    (catalog : Catalog) (log10 : ℕ → ℕ) (options : ResolveOptions) (sumlevels : List String)
    (query : String)
    → IsFiltering catalog
    → normalize_kind options.kind ≡ some sumlevels
    → All
        (λ p. has p.sumlevel sumlevels ≡ true)
        (candidates (resolve_place catalog log10 query options))
resolve_place-IsAmong catalog log10 options sumlevels query filtering e =
    let positive = normalize_kind-nonempty options.kind sumlevels e in
    All-weaken (IsFrom (IsAmong sumlevels)) (λ p. has p.sumlevel sumlevels ≡ true) _
      (λ p (row, among, u, g, n, same). ap (λ t. has t sumlevels) same ∙ among)
      (resolve_place-All (IsAmong sumlevels) catalog log10 options
        (λ q state. rw e (nation_matches-IsAmong catalog filtering sumlevels positive q state))
        (λ text state. search-IsAmong catalog filtering sumlevels positive text _ e)
        (λ geoid.
          rw e (filter-All (λ e. has e.sumlevel sumlevels) (catalog.entities_by_geoid geoid)))
        query)
