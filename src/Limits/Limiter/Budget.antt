-- ===== src/Limits/Limiter/Budget.antt =====
-- What `beforeUpstream` (limits/persistent-limiter.ts) spends of a service budget.
pub mod Run
use federal_mcps.Common.{
  ℕ, ◌+◌, ◌≤◌, ◌<◌, String, ◌≡◌, ◌≢◌, refl, Bool, true, false, Option, none, some, arith, inl, inr,
  ◌⊎◌, Option-cases, ap, ◌∙◌,
}
use federal_mcps.Common.Dict.{lookup, lookup?}
use federal_mcps.Limits.Config.{
  LimitsConfig, Caller, LimitScope, LimitKind, LimitInfo, UsageSnapshot,
}
use federal_mcps.Limits.CounterStore.{CounterStore, IsCounterStore}
use federal_mcps.Limits.Keys.{Counted, service_key, budget, service_counted, share_counted}
use federal_mcps.Limits.Keys.Distinct.{
  service_counted-eq, service_counted-some, share_counted-ne-service_key,
}
use federal_mcps.Limits.Limiter.{
  Outcome, done, refused, LimiterState, refuse_if_known_over, charge, charge_share, charge_service,
  charge_both, before_upstream, begin_tool_call, snapshot,
}
use federal_mcps.Limits.Limiter.Cases.{
  report-eq-done, report-eq-refused, charge-refused, charge_both-cases, before_upstream-cases,
}
use federal_mcps.Limits.Limiter.Charge.{count-charge_other, charge-le-limit, fallback-charge}

module _ (c : CounterStore) (h : IsCounterStore c) where
  -- A share's charge spends nothing of any service budget.
  pub count-charge_share :
      (share : Option Counted) (at now : ℕ) (s : LimiterState c.State) (j : String)
      → ((counted : Counted)
          → share ≡ some counted
          → (counted.key ≢ j) × (counted.scope ≢ LimitScope.service))
      → let s' = (charge_share c share at now s).1 in
        (h.count s'.store j ≤ h.count s.store j) × (s'.fallback ≡ s.fallback)
  unfolding charge_share
  count-charge_share none at now s j apart = (omega arith, refl)
  count-charge_share (some counted) at now s j apart =
      let (ne, private) = apart counted refl in
      (
        count-charge_other c h counted at now s j ne,
        elim (fallback-charge c counted at now s) [ inl e ↦ e | inr (e, _) ↦ absurd (private e) ],
      )

  charge_service-within :
      (counted : Counted) (source : String) (at now : ℕ) (s : LimiterState c.State)
      (snap : UsageSnapshot)
      → counted.scope ≡ LimitScope.service
      → 1 ≤ counted.limit
      → (charge_service c (some counted) source at now s).0 ≡ done (some snap)
      → (1 ≤ snap.used) × (snap.used ≤ snap.limit) × (snap.limit ≡ counted.limit)
  unfolding charge_service
  charge_service-within counted source at now s snap sc pos e =
      let (v, counts, is) = report-eq-done counted source _ e in
      let (one, le) = charge-le-limit c h counted at now v s sc pos counts in rw is (one, le, refl)

  charge_service-refused :
      (counted : Counted) (source : String) (at now : ℕ) (s : LimiterState c.State)
      (info : LimitInfo)
      → (charge_service c (some counted) source at now s).0 ≡ refused info
      → info.scope ≡ counted.scope
  unfolding charge_service
  charge_service-refused counted source at now s info e =
      ap (λ i. i.scope)
        (charge-refused c counted at now s info (report-eq-refused counted source _ e))

  service_refusal :
      (service : Option Counted)
      → ((counted : Counted) → service ≡ some counted → counted.scope ≡ LimitScope.service)
      → (source : String) (at now : ℕ) (s : LimiterState c.State) (info : LimitInfo)
      → (charge_service c service source at now s).0 ≡ refused info
      → ¬ (info.scope ≢ LimitScope.service)
  service_refusal none whole source at now s info e private = unfold charge_service in (cc e)
  service_refusal (some counted) whole source at now s info e private =
      private (charge_service-refused counted source at now s info e ∙ whole counted refl)

  both-within :
      (share : Option Counted) (counted : Counted) (source : String) (at now : ℕ)
      (s : LimiterState c.State) (snap : UsageSnapshot)
      → counted.scope ≡ LimitScope.service
      → 1 ≤ counted.limit
      → (charge_both c share (some counted) source at now s).0 ≡ done (some snap)
      → (1 ≤ snap.used) × (snap.used ≤ snap.limit) × (snap.limit ≡ counted.limit)
  both-within share counted source at now s snap sc pos e =
      elim (charge_both-cases c share (some counted) source at now s) [
        | inl (info, _, e') ↦ absurd (cc (e, ap (λ r. r.0) e'))
        | inr (_, e') ↦ charge_service-within counted source at now _ snap sc pos (rw e' at e)
      ]

  both-refused_share :
      (share service : Option Counted) (source : String) (at now : ℕ) (s : LimiterState c.State)
      (info : LimitInfo) (j : String)
      → ((counted : Counted)
          → share ≡ some counted
          → (counted.key ≢ j) × (counted.scope ≢ LimitScope.service))
      → ((counted : Counted) → service ≡ some counted → counted.scope ≡ LimitScope.service)
      → (charge_both c share service source at now s).0 ≡ refused info
      → info.scope ≢ LimitScope.service
      → let s' = (charge_both c share service source at now s).1 in
        (h.count s'.store j ≤ h.count s.store j) × (s'.fallback ≡ s.fallback)
  both-refused_share share service source at now s info j apart whole e private =
      elim (charge_both-cases c share service source at now s) [
        | inl (_, _, e') ↦ rw e' (count-charge_share share at now s j apart)
        | inr (_, e') ↦
            absurd (service_refusal service whole source at now _ info (rw e' at e) private)
      ]

  module _ (config : LimitsConfig) where
    -- A query that is let through is counted: the use it reports is 1 at least and within the
    -- configured daily limit (1 or more) of its source.
    pub before_upstream-within :
        (source : String) (caller : Option Caller) (at now limit : ℕ) (s : LimiterState c.State)
        (snap : UsageSnapshot)
        → lookup? config.service_daily source ≡ some limit
        → 1 ≤ limit
        → (before_upstream c config source caller at now s).0 ≡ done (some snap)
        → (1 ≤ snap.used) × (snap.used ≤ snap.limit) × (snap.limit ≡ limit)
    before_upstream-within source caller at now limit s snap daily pos e =
        elim (before_upstream-cases c config source caller at now s) [
          | inl (info, _, e') ↦ absurd (cc (e, ap (λ r. r.0) e'))
          | inr e' ↦
              both-within _ (budget source limit at) source at now s snap refl pos
                (rw (service_counted-some config source at limit daily) at (rw e' at e))
        ]

    -- A caller that is refused its own share, from memory or by the store, has spent nothing of any
    -- service budget, in the store or in memory.
    pub before_upstream_refused_share :
        (source : String) (caller : Option Caller) (at now : ℕ) (s : LimiterState c.State)
        (info : LimitInfo) (source' : String) (at' : ℕ)
        → (before_upstream c config source caller at now s).0 ≡ refused info
        → info.scope ≢ LimitScope.service
        → let s' = (before_upstream c config source caller at now s).1 in
          (h.count s'.store (service_key source' at') ≤ h.count s.store (service_key source' at'))
          × (s'.fallback ≡ s.fallback)
    before_upstream_refused_share source caller at now s info source' at' e private =
        elim (before_upstream-cases c config source caller at now s) [
          | inl (_, _, e') ↦ rw e' (omega arith, refl)
          | inr e' ↦ rw e' (
              both-refused_share _ _ source at now s info (service_key source' at')
                (λ counted is. share_counted-ne-service_key config caller _ _ at source' at' is)
                (λ counted is. (service_counted-eq config source at is).2) (rw e' at e) private)
        ]
