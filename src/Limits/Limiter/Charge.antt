-- ===== src/Limits/Limiter/Charge.antt =====
-- What `charge` does to the counters of a store that keeps its contract, and what it returns.
use federal_mcps.Common.{
  ℕ, ◌≤◌, String, ◌≡◌, ◌≢◌, refl, Option, none, some, arith, inl, inr, ◌⊎◌, ap,
}
use federal_mcps.Limits.Config.{LimitScope}
use federal_mcps.Limits.CounterStore.{CounterStore, IsCounterStore, IncrementResult, Incremented}
use federal_mcps.Limits.MemoryStore
use federal_mcps.Limits.MemoryStore.{Counts}
use federal_mcps.Limits.Keys.{Counted}
use federal_mcps.Limits.Limiter.{
  done, LimiterState, finish, on_store_failure, settle, count_one, charge, expiry,
}
use federal_mcps.Limits.Limiter.Cases.{charge-cases}

pub Incremented-le :
    (before m after : ℕ) (r : Option IncrementResult)
    → Incremented before 1 (some m) r after
    → before ≤ m
    → after ≤ m
Incremented-le before m after none i le = ground arith
Incremented-le before m after (some r) i le = ground arith

module _ (c : CounterStore) where
  -- Past the call of the store nothing more is written to it.
  store-settle :
      (counted : Counted) (at now : ℕ) (r : Option IncrementResult) (s : LimiterState c.State)
      → (settle c counted at now r s).1.store ≡ s.store
  unfolding settle on_store_failure finish
  store-settle counted at now none s = ground arith
  store-settle counted at now (some result) s = ground arith

  abbrev store_after : Counted → ℕ → ℕ → c.State → c.State
  store_after counted at now store =
      (c.increment now counted.key 1 (expiry at) (some counted.limit) store).1

  store-count_one :
      (counted : Counted) (at now : ℕ) (s : LimiterState c.State)
      → (count_one c counted at now s).1.store ≡ store_after counted at now s.store
  unfolding count_one
  store-count_one counted at now s = store-settle counted at now _ _

  abbrev fallback_after : Counted → ℕ → ℕ → Counts → Counts
  fallback_after counted at now fallback =
      (MemoryStore.increment now counted.key 1 (expiry at) (some counted.limit) fallback).1

  fallback-settle :
      (counted : Counted) (at now : ℕ) (r : Option IncrementResult) (s : LimiterState c.State)
      → ((settle c counted at now r s).1.fallback ≡ s.fallback)
        ⊎ ((counted.scope ≡ LimitScope.service)
            × ((settle c counted at now r s).1.fallback ≡ fallback_after counted at now s.fallback))
  unfolding settle on_store_failure finish
  fallback-settle counted at now none s = ground arith
  fallback-settle counted at now (some result) s = ground arith

  -- Only the service budget is counted in memory, and only when the store fails.
  pub fallback-charge :
      (counted : Counted) (at now : ℕ) (s : LimiterState c.State)
      → ((charge c counted at now s).1.fallback ≡ s.fallback)
        ⊎ ((counted.scope ≡ LimitScope.service)
            × ((charge c counted at now s).1.fallback
                ≡ (MemoryStore.increment now counted.key 1
                    (expiry at)
                    (some counted.limit)
                    s.fallback).1))
  fallback-charge counted at now s = elim (charge-cases c counted at now s) [
    | inl (info, known, e) ↦ rw e (inl refl)
    | inr (unknown, e) ↦ rw e (unfold count_one in fallback-settle counted at now _ _)
  ]

  -- The count that a charge returns for the service budget is within the limit.
  settle-le-limit :
      (counted : Counted) (at now before after v : ℕ) (r : Option IncrementResult)
      (s : LimiterState c.State)
      → counted.scope ≡ LimitScope.service
      → Incremented before 1 (some counted.limit) r after
      → (settle c counted at now r s).0 ≡ done v
      → (1 ≤ v) × (v ≤ counted.limit)
  unfolding settle on_store_failure finish MemoryStore.increment
  settle-le-limit counted at now before after v none s sc i e = ground arith
  settle-le-limit counted at now before after v (some result) s sc i e = ground arith

  module _ (h : IsCounterStore c) where
    pub count-charge_other :
        (counted : Counted) (at now : ℕ) (s : LimiterState c.State) (j : String)
        → counted.key ≢ j
        → h.count (charge c counted at now s).1.store j ≤ h.count s.store j
    count-charge_other counted at now s j ne = elim (charge-cases c counted at now s) [
      | inl (info, known, e) ↦ rw e (omega arith)
      | inr (unknown, e) ↦ rw (e, store-count_one) (h.increment_other _ _ _ _ _ _ _ ne)
    ]

    -- A charge keeps its counter within its limit, if the limit is 1 at least.
    pub count-charge_self :
        (counted : Counted) (at now : ℕ) (s : LimiterState c.State)
        → 1 ≤ counted.limit
        → h.count s.store counted.key ≤ counted.limit
        → h.count (charge c counted at now s).1.store counted.key ≤ counted.limit
    count-charge_self counted at now s pos le = elim (charge-cases c counted at now s) [
      | inl (info, known, e) ↦ rw e le
      | inr (unknown, e) ↦
          rw (e, store-count_one)
            (Incremented-le _ counted.limit _ _
              (h.increment_self _ _ 1 _ (some counted.limit) _ pos) le)
    ]

    pub charge-le-limit :
        (counted : Counted) (at now v : ℕ) (s : LimiterState c.State)
        → counted.scope ≡ LimitScope.service
        → 1 ≤ counted.limit
        → (charge c counted at now s).0 ≡ done v
        → (1 ≤ v) × (v ≤ counted.limit)
    charge-le-limit counted at now v s sc pos e = elim (charge-cases c counted at now s) [
      | inl (info, known, e') ↦ absurd (cc (ap (λ r. r.0) e', e))
      | inr (unknown, e') ↦
          unfold count_one in
          settle-le-limit counted at now _ _ v _ _ sc
            (h.increment_self now _ 1 (expiry at) (some counted.limit) s.store pos) (rw e' at e)
    ]
