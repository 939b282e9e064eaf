-- ===== src/Limits/Limiter/Failing.antt =====
-- A charge whose store fails (limits/persistent-limiter.ts: `charge`).
use federal_mcps.Common.{
  ℕ, ◌+◌, ◌≤◌, ◌≡◌, ◌≢◌, refl, sym, ap, subst, String, Option, none, some, arith, ltb,
  if◌then◌else◌, Bool-cases, Option-cases, inl, inr,
}
use federal_mcps.Common.Dict.{lookup, insert}
use federal_mcps.Limits.Config.{LimitScope}
use federal_mcps.Limits.CounterStore.{CounterStore, IncrementResult}
use federal_mcps.Limits.MemoryStore
use federal_mcps.Limits.MemoryStore.{read}
use federal_mcps.Limits.MemoryStore.Laws.{increment_self, increment-other}
use federal_mcps.Limits.Keys.{Counted, exceeded}
use federal_mcps.Limits.Limiter.{
  Outcome, done, refused, LimiterState, Operation, for_service, for_share, degraded, finish,
  charge_fallback, on_store_failure, refuse_if_known_over, settle, count_one, charge, expiry,
}

module _ {S : Type 0} where
  -- The service budget, counted in memory: a charge past the limit is refused with the count, which
  -- stays, and marked; any other is let through and counted. No other count in memory grows.
  abbrev IsCountedInMemory : Counted → LimiterState S → Outcome ℕ × LimiterState S → Type 0
  IsCountedInMemory counted s (r, s') =
      let before = read counted.key s.fallback in
      (if ltb counted.limit (before + 1)
        then ((r ≡ refused (exceeded counted before))
            × (s'.fallback ≡ s.fallback)
            × (s'.over ≡ insert counted.key before s.over))
        else ((r ≡ done (before + 1))
            × (read counted.key s'.fallback ≡ before + 1)
            × (s'.over ≡ s.over)))
      × ((key : String) → counted.key ≢ key → read key s'.fallback ≤ read key s.fallback)
      × (s'.store ≡ s.store)

  -- How a charge ends whose store has failed, by its scope.
  abbrev pub FailsAs : LimitScope → Counted → LimiterState S → Outcome ℕ × LimiterState S → Type 0
  FailsAs LimitScope.service counted s p = IsCountedInMemory counted s p
  FailsAs _ counted s (r, s') =
      (r ≡ done 0) × ((s'.fallback ≡ s.fallback) × (s'.over ≡ s.over) × (s'.store ≡ s.store))

  charge_fallback-IsCountedInMemory :
      (counted : Counted) (expires_at now : ℕ) (s : LimiterState S)
      → IsCountedInMemory counted s (charge_fallback counted expires_at now s)
  unfolding charge_fallback finish MemoryStore.increment
  charge_fallback-IsCountedInMemory counted expires_at now s =
      let most = some counted.limit in
      let self = increment_self now counted.key 1 expires_at most s.fallback in
      let others = increment-other now counted.key 1 expires_at most s.fallback in
      elim (Bool-cases (ltb counted.limit (read counted.key s.fallback + 1))) [
        | inl over ↦ rw over ((refl, refl, refl), (λ key differ. omega arith), refl)
        | inr room ↦
            let counts = rw room at self in
            let kept = rw room at others in
            rw room ((refl, (counts.0 (ground arith)).2, refl), kept, refl)
      ]

  -- The counts and marks are those before a warning.
  IsCountedInMemory-after :
      (counted : Counted) (s s₁ : LimiterState S) (p : Outcome ℕ × LimiterState S)
      → (s₁.fallback ≡ s.fallback) × (s₁.over ≡ s.over) × (s₁.store ≡ s.store)
      → IsCountedInMemory counted s₁ p
      → IsCountedInMemory counted s p
  IsCountedInMemory-after counted s s₁ p (fallback, over, store) h =
      rw (sym fallback, sym over, sym store) h

  pub degraded-keeps :
      (operation : Operation) (now : ℕ) (s : LimiterState S)
      → let s₁ = degraded operation now s in
        (s₁.fallback ≡ s.fallback) × (s₁.over ≡ s.over) × (s₁.store ≡ s.store)
  unfolding degraded
  degraded-keeps operation now s = ground arith

  on_store_failure-service :
      (counted : Counted) (expires_at now : ℕ) (s : LimiterState S)
      → counted.scope ≡ LimitScope.service
      → charge_fallback counted expires_at now (degraded for_service now s)
        ≡ on_store_failure counted expires_at now s
  unfolding on_store_failure
  on_store_failure-service counted expires_at now s e =
      ap
        (λ scope. elim scope [
          | LimitScope.service ↦ charge_fallback counted expires_at now (degraded for_service now s)
          | LimitScope.network ↦ (done 0, degraded for_share now s)
          | LimitScope.pool ↦ (done 0, degraded for_share now s)
        ])
        (sym e)

  on_store_failure-FailsAs :
      (scope : LimitScope) (counted : Counted) (expires_at now : ℕ) (s : LimiterState S)
      → counted.scope ≡ scope
      → FailsAs scope counted s (on_store_failure counted expires_at now s)
  unfolding on_store_failure
  on_store_failure-FailsAs LimitScope.service counted expires_at now s e =
      let s₁ = degraded for_service now s in
      subst (λ p. IsCountedInMemory counted s p)
        (on_store_failure-service counted expires_at now s e)
        (IsCountedInMemory-after counted s s₁ (charge_fallback counted expires_at now s₁)
          (degraded-keeps for_service now s)
          (charge_fallback-IsCountedInMemory counted expires_at now s₁))
  on_store_failure-FailsAs LimitScope.network counted expires_at now s e =
      rw (e, on_store_failure) (refl, degraded-keeps for_share now s)
  on_store_failure-FailsAs LimitScope.pool counted expires_at now s e =
      rw (e, on_store_failure) (refl, degraded-keeps for_share now s)

module _ (c : CounterStore) where
  -- The attempt to count in the store: what it answers, and the store that it leaves.
  abbrev pub attempt : Counted → ℕ → ℕ → LimiterState c.State → Option IncrementResult × c.State
  attempt counted at now s = c.increment now counted.key 1 (expiry at) (some counted.limit) s.store

  -- How a charge ends whose store fails, by what is known of the key.
  abbrev pub FailsFrom :
      Option ℕ → Counted → ℕ → ℕ → LimiterState c.State → Outcome ℕ × LimiterState c.State → Type 0
  FailsFrom (some known) counted at now s p = p ≡ (refused (exceeded counted known), s)
  FailsFrom none counted at now s p =
      FailsAs counted.scope counted (record s { store = (attempt counted at now s).1 }) p

  count_one-FailsFrom :
      (counted : Counted) (at now : ℕ) (s : LimiterState c.State)
      → (attempt counted at now s).0 ≡ none
      → FailsFrom none counted at now s (count_one c counted at now s)
  unfolding count_one settle
  count_one-FailsFrom counted at now s fails =
      rw (fails, settle)
        (on_store_failure-FailsAs counted.scope counted (expiry at) now
          (record s { store = (attempt counted at now s).1 }) refl)

  -- A charge whose store would fail: a key known to be over is refused with the count that was
  -- marked, and nothing changes. For any other the store is what the failed attempt leaves; a
  -- share is then let through, with nothing marked or counted in memory; the service budget is counted
  -- in memory: with its count below the limit it is let through and the count grows by one, else it
  -- is refused with the count, which stays and is marked. No other count in memory grows.
  pub charge_store_fails :
      (counted : Counted) (at now : ℕ) (s : LimiterState c.State)
      → (attempt counted at now s).0 ≡ none
      → FailsFrom (lookup counted.key s.over) counted at now s (charge c counted at now s)
  unfolding charge refuse_if_known_over
  charge_store_fails counted at now s fails = elim (Option-cases (lookup counted.key s.over)) [
    | inl e ↦ rw (e, charge, refuse_if_known_over) (count_one-FailsFrom counted at now s fails)
    | inr (known, e) ↦ rw (e, charge, refuse_if_known_over) refl
  ]
