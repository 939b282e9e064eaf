-- ===== src/Indicators/GetIndicator/Idle.antt =====
-- When `<agency>_get_indicator` leaves its client alone (indicators/tools.ts).
use federal_mcps.Common.{ℕ, ◌≡◌, refl, String, Bool, Option, none, some, List, [], ◌∷◌, if-both}
use federal_mcps.Common.Chars.{is_set}
use federal_mcps.Common.Checked.{Checked, valid, invalid}
use federal_mcps.Http.Client.{Result, ok, err}
use federal_mcps.Geography.Types.{PlaceCandidate, ResolveResult, resolved, ambiguous}
use federal_mcps.Geography.Catalog.{Catalog}
use federal_mcps.Indicators.Observations.{SeriesResult}
use federal_mcps.Indicators.Registry.{IndicatorDefinition, DimensionSelection}
use federal_mcps.Indicators.Series.{ToolsOptions, Coverage}
use federal_mcps.Indicators.GetIndicator.{
  IndicatorArgs, IndicatorData, values, ToolOutcome, answered, refused, failed, Reported,
  values_result, after_fetch, fetch_built, fetch_series, answer_place, answer_resolved,
  answer_placed, answer_defined, answer_known, national_indicator, get_indicator, no_series_result,
  dimensions_or_throw,
}

module _ {S N : Type 0} (s : S) where
  abbrev pub IsIdleAt : IndicatorData N → S → Type 0
  IsIdleAt (values v) s' = Unit
  IsIdleAt _ s' = s' ≡ s

  -- An outcome without values, and without a failure of the client, leaves the client alone.
  abbrev pub IsIdle : ToolOutcome (IndicatorData N) × S → Type 0
  IsIdle (answered r, s') = IsIdleAt r.value s'
  IsIdle (refused message, s') = s' ≡ s
  IsIdle (failed e, s') = Unit

module _ {S N : Type 0} (o : ToolsOptions S N) where
  fetched-IsIdle :
      (def : IndicatorDefinition S N) (args : IndicatorArgs) (dimensions : DimensionSelection)
      (adjusted : Bool) (id : String) (reported : Reported)
      (fetched : Result (List (SeriesResult N)) × S) (s : S)
      → IsIdle s (after_fetch o (values_result o def args dimensions adjusted id reported) fetched)
  unfolding values_result
  fetched-IsIdle def args dimensions adjusted id reported (ok series, s') s = tt
  fetched-IsIdle def args dimensions adjusted id reported (err e, s') s = tt

  built-IsIdle :
      (def : IndicatorDefinition S N) (args : IndicatorArgs) (dimensions : DimensionSelection)
      (adjusted : Bool) (reported : Reported) (built : Checked String) (s : S)
      → IsIdle s (fetch_built o def args dimensions adjusted reported built s)
  built-IsIdle def args dimensions adjusted reported (invalid message) s = refl
  built-IsIdle def args dimensions adjusted reported (valid id) s =
      fetched-IsIdle def args dimensions adjusted id reported _ s

  fetch_series-IsIdle :
      (def : IndicatorDefinition S N) (args : IndicatorArgs) (dimensions : DimensionSelection)
      (reported : Reported) (code : String) (s : S)
      → IsIdle s (fetch_series o def args dimensions reported code s)
  unfolding fetch_series
  fetch_series-IsIdle def args dimensions reported code s =
      built-IsIdle def args dimensions _ reported _ s

  answer_place-IsIdle :
      (def : IndicatorDefinition S N) (args : IndicatorArgs) (dimensions : DimensionSelection)
      (top : PlaceCandidate) (notice : Option String) (c : Coverage) (s : S)
      → IsIdle s (answer_place o def args dimensions top notice c s)
  unfolding answer_place no_series_result
  answer_place-IsIdle def args dimensions top notice c s =
      if-both (IsIdle s) (is_set c.code) (fetch_series-IsIdle def args dimensions _ _ s) refl

  module _ (catalog : Catalog) (log10 : ℕ → ℕ) where
    answer_resolved-IsIdle :
        (def : IndicatorDefinition S N) (args : IndicatorArgs) (dimensions : DimensionSelection)
        (query : String) (r : ResolveResult) (s : S)
        → IsIdle s (answer_resolved o catalog log10 def args dimensions query r s)
    answer_resolved-IsIdle def args dimensions query (ambiguous candidates explanation) s = refl
    answer_resolved-IsIdle def args dimensions query (resolved [] notice) s = refl
    answer_resolved-IsIdle def args dimensions query (resolved (top ∷ _) notice) s =
        answer_place-IsIdle def args dimensions top notice _ s

    answer_placed-IsIdle :
        (def : IndicatorDefinition S N) (args : IndicatorArgs) (dimensions : DimensionSelection)
        (place : Option String) (s : S)
        → IsIdle s (answer_placed o catalog log10 def args dimensions place s)
    answer_placed-IsIdle def args dimensions none s = refl
    answer_placed-IsIdle def args dimensions (some place) s =
        answer_resolved-IsIdle def args dimensions place _ s

    answer_defined-IsIdle :
        (def : IndicatorDefinition S N) (args : IndicatorArgs)
        (dimensions : Checked DimensionSelection) (s : S)
        → IsIdle s (answer_defined o catalog log10 def args dimensions s)
    unfolding national_indicator
    answer_defined-IsIdle def args (invalid message) s = refl
    answer_defined-IsIdle def args (valid dimensions) s =
        if-both (IsIdle s) def.national (fetch_series-IsIdle def args dimensions _ "US" s)
          (answer_placed-IsIdle def args dimensions args.place s)

    answer_known-IsIdle :
        (args : IndicatorArgs) (def : Option (IndicatorDefinition S N)) (s : S)
        → IsIdle s (answer_known o catalog log10 args def s)
    answer_known-IsIdle args none s = refl
    answer_known-IsIdle args (some def) s =
        answer_defined-IsIdle def args (dimensions_or_throw def args.dimensions) s

    -- Whatever is asked, an answer without values (a question back, no place, no series) and a refusal
    -- leave the client as it was: nothing is fetched for them.
    pub get_indicator-IsIdle :
        (args : IndicatorArgs) (s : S) → IsIdle s (get_indicator o catalog log10 args s)
    unfolding get_indicator
    get_indicator-IsIdle args s = answer_known-IsIdle args _ s
