-- ===== src/Indicators/GetIndicator/Honest.antt =====
-- What an answer of `<agency>_get_indicator` is about (indicators/tools.ts).
use federal_mcps.Common.{
  ℕ, ◌≡◌, ◌⊎◌, refl, sym, ap, ◌∙◌, subst, String, Bool, true, false, true≢false, Option, none, some,
  List, [], ◌∷◌, if◌then◌else◌, if-cases, inl, inr, some_inj, or_else,
}
use mathlib.Core.Option
use federal_mcps.Common.Members.{Member, Member-append_left}
use federal_mcps.Common.Chars.{is_set}
use federal_mcps.Common.Checked.{Checked, valid, invalid}
use federal_mcps.Common.Dict.{lookup}
use federal_mcps.Http.Client.{Result, ok, err}
use federal_mcps.Geography.Types.{PlaceCandidate, resolved}
use federal_mcps.Geography.Catalog.{Catalog}
use federal_mcps.Geography.Resolver.{resolve_place}
use federal_mcps.Envelope.{PlaceRef, place_of}
use federal_mcps.Indicators.Observations.{SeriesResult, first, period_key}
use federal_mcps.Indicators.Registry.{
  IndicatorDefinition, IndicatorFallback, DimensionSelection, create_indicator_registry,
  fetch_strategy_of,
}
use federal_mcps.Indicators.Series.{
  ToolsOptions, options_of, fetch_options, present, substituted, Coverage, coverage_of,
}
use federal_mcps.Indicators.GetIndicator.{
  IndicatorArgs, IndicatorData, Values, values, Reported, observations_of, ToolResult, ToolOutcome,
  answered, reported_place, values_result, after_fetch, fetch_built, fetch_series, answer_place,
  answer_resolved, answer_placed, answer_defined, answer_known, national_indicator, get_indicator,
  no_series_result, dimensions_or_throw, notes_of,
}

-- A reference to a place by its GEOID, level and name.
abbrev pub IsAbout : String → String → String → Option PlaceRef → Type 0
IsAbout geoid sumlevel name none = ⊥
IsAbout geoid sumlevel name (some p) = (p.geoid ≡ geoid) × (p.sumlevel ≡ sumlevel) × (p.name ≡ name)

IsAbout-own :
    (top : PlaceCandidate) (q : Option IndicatorFallback)
    → q ≡ none
    → IsAbout top.geoid top.sumlevel top.name (some (reported_place top q))
unfolding place_of
IsAbout-own top none e = (refl, refl, refl)
IsAbout-own top (some fb) e = cc

IsAbout-substitute :
    (top : PlaceCandidate) (fb : IndicatorFallback) (q : Option IndicatorFallback)
    → q ≡ some fb
    → IsAbout fb.geoid fb.sumlevel fb.name (some (reported_place top q))
unfolding place_of
IsAbout-substitute top fb none e = cc
IsAbout-substitute top fb (some q) e =
    let same = some_inj e in
    (
      ap (λ (x : IndicatorFallback). x.geoid) same,
      ap (λ (x : IndicatorFallback). x.sumlevel) same,
      ap (λ (x : IndicatorFallback). x.name) same,
    )

-- What an answer with values says of its place: the place's own, from a code of its own, or a
-- substitute's, from the substitute's code and with the caveat among the limitations.
module _ {S N : Type 0} (o : ToolsOptions S N) (catalog : Catalog) (def : IndicatorDefinition S N)
    (top : PlaceCandidate) (args : IndicatorArgs) (dimensions : DimensionSelection) (s : S) where
  -- The values are the observations that the indicator's fetch gives for the series of `code`, and the
  -- latest of them is the first.
  abbrev pub IsSeriesOf : String → Values N → Type 0
  IsSeriesOf code v =
      (id : String) × (series : List (SeriesResult N)) × (def.build_series_id code (record {
        seasonally_adjusted = or_else args.seasonally_adjusted def.default_seasonally_adjusted;
        dimensions = dimensions;
      })
        ≡ valid id)
      × ((fetch_strategy_of def o.default_fetch (id ∷ []) (fetch_options o args.years) s).0
          ≡ ok series)
      × (v.observations ≡ observations_of series)
      × (v.latest ≡ Option.map (λ l. (period_key l, l.value)) (first v.observations))

  abbrev pub IsDirect : ToolResult (IndicatorData N) → Values N → Type 0
  IsDirect r v =
      (code : String) × (def.agency_code_of top ≡ some code)
      × (is_set (some code) ≡ true)
      × IsAbout top.geoid top.sumlevel top.name r.place
      × IsSeriesOf code v

  abbrev pub IsSubstitute : ToolResult (IndicatorData N) → Values N → Type 0
  IsSubstitute r v =
      (is_set (def.agency_code_of top) ≡ false)
      × (fb : IndicatorFallback) × (def.fallback catalog top ≡ some fb)
      × IsAbout fb.geoid fb.sumlevel fb.name r.place
      × Member fb.caveat r.limitations
      × IsSeriesOf fb.code v

  abbrev pub IsHonestResult : ToolResult (IndicatorData N) → IndicatorData N → Type 0
  IsHonestResult r (values v) = IsDirect r v ⊎ IsSubstitute r v
  IsHonestResult r _ = is_set (def.agency_code_of top) ≡ false

  abbrev pub IsHonest : ToolOutcome (IndicatorData N) × S → Type 0
  IsHonest (answered r, s') = IsHonestResult r r.value
  IsHonest _ = Unit

module _ {S N : Type 0} (o : ToolsOptions S N) (catalog : Catalog) (def : IndicatorDefinition S N)
    (top : PlaceCandidate) where
  present-Member :
      (texts : List (Option String)) (t : String) → Member (some t) texts → Member t (present texts)
  unfolding present
  present-Member [] t m = m
  present-Member (none ∷ texts) t m = elim m [
    | inl e ↦ cc
    | inr later ↦ present-Member texts t later
  ]
  present-Member (some u ∷ texts) t m = elim m [
    | inl e ↦ inl (some_inj e)
    | inr later ↦ inr (present-Member texts t later)
  ]

  abbrev IsSaid : Coverage → Type 0
  IsSaid c =
      ((c.substitute ≡ none)
        × (code : String) × (def.agency_code_of top ≡ some code)
        × (is_set (some code) ≡ true)
        × (c.code ≡ some code))
      ⊎ ((is_set (def.agency_code_of top) ≡ false)
          × (fb : IndicatorFallback) × (def.fallback catalog top ≡ some fb)
          × (c.substitute ≡ some fb)
          × (c.caveat ≡ some fb.caveat)
          × (c.code ≡ some fb.code))

  substituted-IsSaid :
      (code : Option String) (q : Option IndicatorFallback)
      → is_set code ≡ false
      → is_set (def.agency_code_of top) ≡ false
      → def.fallback catalog top ≡ q
      → is_set (substituted code q).code ≡ true
      → IsSaid (substituted code q)
  substituted-IsSaid code none fails other e h = absurd (true≢false (sym h ∙ fails))
  substituted-IsSaid code (some fb) fails other e h = inr (other, fb, e, refl, refl, refl)

  own-IsSaid :
      (dimensions : DimensionSelection) (code : Option String)
      → def.agency_code_of top ≡ code
      → is_set code ≡ true
      → IsSaid (record { code = code; caveat = def.caveat_of top dimensions; substitute = none })
  own-IsSaid dimensions none e h = cc
  own-IsSaid dimensions (some code) e h = inl (refl, code, e, h, refl)

  coverage_of-IsSaid :
      (dimensions : DimensionSelection)
      → is_set (coverage_of catalog def top dimensions).code ≡ true
      → IsSaid (coverage_of catalog def top dimensions)
  unfolding coverage_of
  coverage_of-IsSaid dimensions =
      if-cases (λ c. is_set c.code ≡ true → IsSaid c) (is_set (def.agency_code_of top))
        (λ own h. own-IsSaid dimensions (def.agency_code_of top) refl own)
        (λ other.
          substituted-IsSaid (def.agency_code_of top) (def.fallback catalog top) other other refl)

  uncovered-false :
      (dimensions : DimensionSelection)
      → is_set (coverage_of catalog def top dimensions).code ≡ false
      → is_set (def.agency_code_of top) ≡ false
  unfolding coverage_of
  uncovered-false dimensions =
      if-cases (λ (c : Coverage). is_set c.code ≡ false → is_set (def.agency_code_of top) ≡ false)
        (is_set (def.agency_code_of top)) (λ own h. absurd (true≢false (sym own ∙ h)))
        (λ other h. other)

  module _ (args : IndicatorArgs) (dimensions : DimensionSelection) (s : S) (notice : Option String)
      (c : Coverage) where
    -- What the answer reports beside its values.
    abbrev reported : Reported
    reported = record {
      measure = args.indicator;
      place = reported_place top c.substitute;
      said = notice ∷ c.caveat ∷ [];
    }

    abbrev adjusted : Bool
    adjusted = or_else args.seasonally_adjusted def.default_seasonally_adjusted

    abbrev build : String → Checked String
    build code =
        def.build_series_id code
          (record { seasonally_adjusted = adjusted; dimensions = dimensions })

    abbrev fetch : String → Result (List (SeriesResult N)) × S
    fetch id = fetch_strategy_of def o.default_fetch (id ∷ []) (fetch_options o args.years) s

    values-IsHonest :
        (id : String) (series : List (SeriesResult N))
        → IsSaid c
        → build (or_else c.code "") ≡ valid id
        → (fetch id).0 ≡ ok series
        → IsHonest o catalog def top args dimensions s
            (answered (values_result o def args dimensions adjusted id reported series), s)
    unfolding values_result
    values-IsHonest id series said built fetched = elim said [
      | inl (direct, code, own, set, same) ↦ inl (
        code,
        own,
        set,
        IsAbout-own top c.substitute direct,
        (id, series, ap (λ k. build (or_else k "")) (sym same) ∙ built, fetched, refl, refl),
      )
      | inr (other, fb, e, sub, caveat, same) ↦ inr (
        other,
        fb,
        e,
        IsAbout-substitute top fb c.substitute sub,
        Member-append_left fb.caveat _ (notes_of series)
            (present-Member _ fb.caveat (inr (inl caveat))),
        (id, series, ap (λ k. build (or_else k "")) (sym same) ∙ built, fetched, refl, refl),
      )
    ]

    fetched-IsHonest :
        (id : String) (fetched : Result (List (SeriesResult N)) × S)
        → IsSaid c
        → build (or_else c.code "") ≡ valid id
        → fetch id ≡ fetched
        → IsHonest o catalog def top args dimensions s
            (after_fetch o (values_result o def args dimensions adjusted id reported) fetched)
    fetched-IsHonest id (ok series, s') said built e =
        values-IsHonest id series said built (ap (λ p. p.0) e)
    fetched-IsHonest id (err e, s') said built _ = tt

    built-IsHonest :
        (built : Checked String)
        → IsSaid c
        → build (or_else c.code "") ≡ built
        → IsHonest o catalog def top args dimensions s
            (fetch_built o def args dimensions adjusted reported built s)
    built-IsHonest (invalid message) said e = tt
    built-IsHonest (valid id) said e = fetched-IsHonest id (fetch id) said e refl

  answer_place-IsHonest :
      (args : IndicatorArgs) (dimensions : DimensionSelection) (notice : Option String) (s : S)
      → IsHonest o catalog def top args dimensions s
          (answer_place o def args dimensions top notice (coverage_of catalog def top dimensions) s)
  unfolding answer_place fetch_series no_series_result
  answer_place-IsHonest args dimensions notice s =
      let c = coverage_of catalog def top dimensions in
      if-cases (IsHonest o catalog def top args dimensions s) (is_set c.code)
        (λ covered.
          built-IsHonest args dimensions s notice c _ (coverage_of-IsSaid dimensions covered) refl)
        (λ uncovered. uncovered-false dimensions uncovered)

-- For a place that was found, an answer with values is about that place by its GEOID, level and name
-- and has the observations of the series that is built of the place's own code, or it is about the
-- substitute that the indicator's fallback names, has the observations of the series of the
-- substitute's code, and the fallback's caveat among its limitations; an answer without a series is
-- given only where the place has no code.
pub get_indicator-IsHonest :
    {S N : Type 0} (o : ToolsOptions S N) (catalog : Catalog) (log10 : ℕ → ℕ)
    (def : IndicatorDefinition S N) (args : IndicatorArgs) (dimensions : DimensionSelection)
    (place : String) (top : PlaceCandidate) (others : List PlaceCandidate) (notice : Option String)
    (s : S)
    → lookup args.indicator (create_indicator_registry o.definitions) ≡ some def
    → dimensions_or_throw def args.dimensions ≡ valid dimensions
    → def.national ≡ false
    → args.place ≡ some place
    → resolve_place catalog log10 place (options_of args.where_) ≡ resolved (top ∷ others) notice
    → IsHonest o catalog def top args dimensions s (get_indicator o catalog log10 args s)
unfolding get_indicator
get_indicator-IsHonest o catalog log10 def args dimensions place top others notice s known accepted
      local given resolves =
    subst
      (λ d. IsHonest o catalog def top args dimensions s (answer_known o catalog log10 args d s))
      (sym known)
      (subst
        (λ d.
          IsHonest o catalog def top args dimensions s
            (answer_defined o catalog log10 def args d s))
        (sym accepted)
        (subst
          (λ b. IsHonest o catalog def top args dimensions s (
            if b
            then national_indicator o catalog log10 def args dimensions s
            else answer_placed o catalog log10 def args dimensions args.place s))
          (sym local)
          (subst
            (λ p.
              IsHonest o catalog def top args dimensions s
                (answer_placed o catalog log10 def args dimensions p s))
            (sym given)
            (subst
              (λ r.
                IsHonest o catalog def top args dimensions s
                  (answer_resolved o catalog log10 def args dimensions place r s))
              (sym resolves) (answer_place-IsHonest o catalog def top args dimensions notice s)))))
