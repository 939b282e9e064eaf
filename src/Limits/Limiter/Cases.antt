-- ===== src/Limits/Limiter/Cases.antt =====
-- The ways that a charge and a query can go, one equation for each.
use federal_mcps.Common.{
  ℕ, String, ◌≡◌, refl, Option, none, some, arith, inl, inr, ◌⊎◌, Option-cases, ap,
}
use federal_mcps.Limits.Config.{LimitsConfig, Caller, LimitKind, LimitInfo, UsageSnapshot}
use federal_mcps.Limits.CounterStore.{CounterStore, IncrementResult}
use federal_mcps.Limits.Keys.{Counted, exceeded, service_counted, share_counted}
use federal_mcps.Limits.Limiter.{
  Outcome, done, refused, LimiterState, finish, on_store_failure, refuse_if_known_over, settle,
  count_one, charge, report, charge_share, charge_service, charge_both, before_upstream, snapshot,
}

pub Outcome-cases {ℓ} :
    {A : Type ℓ} (r : Outcome A)
    → ((a : A) × (r ≡ done a)) ⊎ ((info : LimitInfo) × (r ≡ refused info))
Outcome-cases (done a) = inl (a, refl)
Outcome-cases (refused info) = inr (info, refl)

pub report-eq-done :
    (counted : Counted) (source : String) (r : Outcome ℕ) {snap : UsageSnapshot}
    → report counted source r ≡ done (some snap)
    → (v : ℕ) × (r ≡ done v) × (snap ≡ snapshot counted source v)
report-eq-done counted source (done v) e = (v, refl, ground arith)
report-eq-done counted source (refused info) e = cc

pub report-eq-refused :
    (counted : Counted) (source : String) (r : Outcome ℕ) {info : LimitInfo}
    → report counted source r ≡ refused info
    → r ≡ refused info
report-eq-refused counted source (done v) e = cc
report-eq-refused counted source (refused info) e = ground arith

module _ (c : CounterStore) where
  -- A charge is refused from memory and changes nothing, or is counted.
  pub charge-cases :
      (counted : Counted) (at now : ℕ) (s : LimiterState c.State)
      → ((info : LimitInfo) × (refuse_if_known_over (some counted) s ≡ some info)
          × (charge c counted at now s ≡ (refused info, s)))
        ⊎ ((refuse_if_known_over (some counted) s ≡ none)
            × (charge c counted at now s ≡ count_one c counted at now s))
  unfolding charge
  charge-cases counted at now s = elim (Option-cases (refuse_if_known_over (some counted) s)) [
    | inl unknown ↦ inr (unknown, rw (unknown, charge))
    | inr (info, known) ↦ inl (info, known, rw (known, charge))
  ]

  settle-refused :
      (counted : Counted) (at now : ℕ) (r : Option IncrementResult) (s : LimiterState c.State)
      (info : LimitInfo)
      → (settle c counted at now r s).0 ≡ refused info
      → info ≡ exceeded counted info.used
  unfolding settle on_store_failure finish
  settle-refused counted at now none s info e = ground arith
  settle-refused counted at now (some result) s info e = ground arith

  known_over-eq :
      (counted : Counted) (s : LimiterState c.State) {info : LimitInfo}
      → refuse_if_known_over (some counted) s ≡ some info
      → info ≡ exceeded counted info.used
  unfolding refuse_if_known_over
  known_over-eq counted s e = ground arith

  count_one-refused :
      (counted : Counted) (at now : ℕ) (s : LimiterState c.State) (info : LimitInfo)
      → (count_one c counted at now s).0 ≡ refused info
      → info ≡ exceeded counted info.used
  unfolding count_one
  count_one-refused counted at now s info e = settle-refused counted at now _ _ info e

  -- A refusal carries the facts of the counter that refused.
  pub charge-refused :
      (counted : Counted) (at now : ℕ) (s : LimiterState c.State) (info : LimitInfo)
      → (charge c counted at now s).0 ≡ refused info
      → info ≡ exceeded counted info.used
  charge-refused counted at now s info e = elim (charge-cases counted at now s) [
    | inl (info', known, e') ↦ known_over-eq counted s (cc (known, e', e, ap (λ r. r.0) e'))
    | inr (unknown, e') ↦ count_one-refused counted at now s info (rw e' at e)
  ]

  pub charge_both-cases :
      (share service : Option Counted) (source : String) (at now : ℕ) (s : LimiterState c.State)
      → let (r, s') = charge_share c share at now s in
        ((info : LimitInfo) × (r ≡ refused info)
          × (charge_both c share service source at now s ≡ (refused info, s')))
        ⊎ ((r ≡ done tt)
            × (charge_both c share service source at now s
                ≡ charge_service c service source at now s'))
  unfolding charge_both
  charge_both-cases share service source at now s =
      elim (Outcome-cases (charge_share c share at now s).0) [
        | inl (_, e) ↦ inr (e, rw (e, charge_both))
        | inr (info, e) ↦ inl (info, e, rw (e, charge_both))
      ]

  module _ (config : LimitsConfig) where
    pub before_upstream-cases :
        (source : String) (caller : Option Caller) (at now : ℕ) (s : LimiterState c.State)
        → let share = share_counted config caller LimitKind.upstream (some source) at in
          let service = service_counted config source at in
          ((info : LimitInfo) × ((refuse_if_known_over share s ≡ some info)
              ⊎ (refuse_if_known_over service s ≡ some info))
            × (before_upstream c config source caller at now s ≡ (refused info, s)))
          ⊎ (before_upstream c config source caller at now s
              ≡ charge_both c share service source at now s)
    unfolding before_upstream
    before_upstream-cases source caller at now s =
        elim (Option-cases (
          refuse_if_known_over (share_counted config caller LimitKind.upstream (some source) at)
            s)) [
              | inr (info, e) ↦ inl (info, inl e, rw (e, before_upstream))
              | inl free ↦
                  elim (Option-cases (refuse_if_known_over (service_counted config source at) s)) [
                    | inr (info, e) ↦ inl (info, inr e, rw (free, e, before_upstream))
                    | inl free' ↦ inr (rw (free, free', before_upstream))
                  ]
            ]
