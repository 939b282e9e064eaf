-- ===== src/Indicators/Compare/Observed.antt =====
-- What a row of a comparison is given (indicators/tools.ts: the handler of `<agency>_compare_places`).
use federal_mcps.Common.{
  ◌≡◌, ◌⊎◌, refl, ap, ◌∙◌, String, Bool, Option, none, some, List, [], ◌∷◌, find, find-true, str_eq,
  eq_iff, or_else, inl, inr, All, sym, false, some_inj, Bool-cases, Option-cases,
}
use mathlib.Core.Option
use mathlib.Core.Option.{none-ne-some}
use federal_mcps.Common.Members.{Member}
use federal_mcps.Indicators.Observations.{Observation, SeriesResult, period_key}
use federal_mcps.Indicators.Compare.{
  ValueRow, RowStatus, value_row, margin_of, observation_at, series_by_id, value_of,
}

module _ {N : Type 0} (series : List (SeriesResult N)) (period : Option String) where
  -- A row with an observation: that of a fetched series with the row's id, at the period.
  abbrev pub IsObserved : ValueRow N → Type 0
  IsObserved v =
      (p : String) × (t : SeriesResult N) × (x : Observation N) × (period ≡ some p)
      × Member t series
      × (t.series_id ≡ or_else v.series_id "")
      × Member x t.observations
      × (period_key x ≡ p)
      × (v.period ≡ some p)
      × (v.value ≡ x.value)
      × (v.margin_of_error ≡ x.margin_of_error)

  -- A row without one: there is no period, or no series with the row's id, or that series has no
  -- observation at the period.
  abbrev pub IsMissing : ValueRow N → Type 0
  IsMissing v =
      (v.period ≡ none)
      × (v.value ≡ none)
      × ((period ≡ none)
          ⊎ ((p : String) × (period ≡ some p)
              × ((series_by_id (or_else v.series_id "") series ≡ none)
                  ⊎ ((t : SeriesResult N) × (series_by_id (or_else v.series_id "") series ≡ some t)
                      × All (λ x. str_eq (period_key x) p ≡ false) t.observations))))

  abbrev pub IsAt : RowStatus N → Type 0
  IsAt (value_row v) = IsObserved v ⊎ IsMissing v
  IsAt _ = Unit

module _ {N : Type 0} where
  find-Member :
      (p : Observation N → Bool) (l : List (Observation N)) (x : Observation N)
      → find p l ≡ some x
      → Member x l
  unfolding find
  find-Member p [] x e = cc
  find-Member p (y ∷ l) x e = elim (Bool-cases (p y)) [
    | inl yes' ↦ inl (some_inj (sym (rw yes' refl) ∙ e))
    | inr no' ↦ inr (find-Member p l x (sym (rw no' refl) ∙ e))
  ]

  find-none :
      (p : Observation N → Bool) (l : List (Observation N))
      → find p l ≡ none
      → All (λ x. p x ≡ false) l
  unfolding find
  find-none p [] e = tt
  find-none p (y ∷ l) e = elim (Bool-cases (p y)) [
    | inl yes' ↦ absurd (none-ne-some y (sym e ∙ rw yes' refl))
    | inr no' ↦ (no', find-none p l (sym (rw no' refl) ∙ e))
  ]

  series_by_id-Member :
      (id : String) (series : List (SeriesResult N)) (t : SeriesResult N)
      → series_by_id id series ≡ some t
      → Member t series × (t.series_id ≡ id)
  unfolding series_by_id
  series_by_id-Member id [] t e = cc
  series_by_id-Member id (first ∷ rest) t e = elim (Option-cases (series_by_id id rest)) [
    | inl none_later ↦ elim (Bool-cases (str_eq first.series_id id)) [
      | inl same ↦
          let is : first ≡ t = some_inj (sym (rw (none_later, same) refl) ∙ e) in
          (
            inl is,
            ap (λ (x : SeriesResult N). x.series_id) (sym is) ∙ (eq_iff first.series_id id).0 same,
          )
      | inr other ↦ absurd (none-ne-some t (sym (rw (none_later, other) refl) ∙ e))
    ]
    | inr (later, found_later) ↦
        let is : later ≡ t = some_inj (sym (rw found_later refl) ∙ e) in
        let (m, same) = series_by_id-Member id rest t (found_later ∙ ap some is) in (inr m, same)
  ]

  -- What a row of a series is given, from the observation that was found.
  pub IsGiven :
      List (SeriesResult N) → Option String → Option String → Option (Observation N) → Type 0
  IsGiven series period id o =
      ((p : String) × (t : SeriesResult N) × (x : Observation N) × (period ≡ some p)
        × Member t series
        × (t.series_id ≡ or_else id "")
        × Member x t.observations
        × (period_key x ≡ p)
        × (o ≡ some x))
      ⊎ ((o ≡ none)
          × ((period ≡ none)
              ⊎ ((p : String) × (period ≡ some p)
                  × ((series_by_id (or_else id "") series ≡ none)
                      ⊎ ((t : SeriesResult N) × (series_by_id (or_else id "") series ≡ some t)
                          × All (λ x. str_eq (period_key x) p ≡ false) t.observations)))))

  found-IsGiven :
      (series : List (SeriesResult N)) (p : String) (id : Option String) (t : SeriesResult N)
      (o : Option (Observation N))
      → series_by_id (or_else id "") series ≡ some t
      → find (λ x. str_eq (period_key x) p) t.observations ≡ o
      → IsGiven series (some p) id o
  unfolding IsGiven
  found-IsGiven series p id t none is e =
      inr (refl, inr (p, refl, inr (t, is, find-none _ t.observations e)))
  found-IsGiven series p id t (some x) is e =
      let (m, same) = series_by_id-Member (or_else id "") series t is in
      inl (
        p,
        t,
        x,
        refl,
        m,
        same,
        find-Member _ t.observations x e,
        (eq_iff (period_key x) p).0 (find-true _ t.observations x e),
        refl,
      )

  looked-IsGiven :
      (series : List (SeriesResult N)) (p : String) (id : Option String)
      (q : Option (SeriesResult N))
      → series_by_id (or_else id "") series ≡ q
      → IsGiven series
          (some p)
          id
          (elim q [ none ↦ none | some t ↦ find (λ o. str_eq (period_key o) p) t.observations ])
  unfolding IsGiven
  looked-IsGiven series p id none is = inr (refl, inr (p, refl, inl is))
  looked-IsGiven series p id (some t) is = found-IsGiven series p id t _ is refl

  pub observation_at-IsGiven :
      (series : List (SeriesResult N)) (id period : Option String)
      → IsGiven series period id (observation_at series id period)
  unfolding observation_at IsGiven
  observation_at-IsGiven series id none = inr (refl, inl refl)
  observation_at-IsGiven series id (some p) = looked-IsGiven series p id _ refl

  pub row-IsAt :
      (series : List (SeriesResult N)) (period : Option String) (v : ValueRow N)
      (o : Option (Observation N))
      → IsGiven series period v.series_id o
      → v.period ≡ Option.map period_key o
      → v.value ≡ value_of o
      → v.margin_of_error ≡ margin_of o
      → IsAt series period (value_row v)
  unfolding IsGiven
  row-IsAt series period v o (inl (p, t, x, at, m, same, mx, is, given)) ep ev em = inl (
    p,
    t,
    x,
    at,
    m,
    same,
    mx,
    is,
    ep ∙ ap (Option.map period_key) given ∙ ap some is,
    ev ∙ ap value_of given,
    em ∙ ap margin_of given,
  )
  row-IsAt series period v o (inr (given, why)) ep ev em =
      inr (ep ∙ ap (Option.map period_key) given, ev ∙ ap value_of given, why)
