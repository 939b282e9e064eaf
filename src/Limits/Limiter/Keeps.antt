-- ===== src/Limits/Limiter/Keeps.antt =====
-- One rule for what every call of the limiter keeps: a property of its state that survives a write
-- to the store, a key marked as over, a count in memory and a degraded line.
use federal_mcps.Common.{
  ℕ, String, ◌≡◌, refl, Option, none, some, List, [], ◌∷◌, inl, inr, Option-cases, Bool-cases,
}
use federal_mcps.Common.Dict.{insert}
use federal_mcps.Limits.Config.{LimitsConfig, Caller, LimitScope}
use federal_mcps.Limits.CounterStore.{CounterStore, IncrementResult}
use federal_mcps.Limits.MemoryStore.{Counts}
use federal_mcps.Limits.Keys.{Counted, service_counted}
use federal_mcps.Limits.Limiter.{
  Operation, LimiterState, degraded, finish, charge_fallback, on_store_failure, settle, count_one,
  charge, charge_share, charge_service, charge_both, begin_tool_call, before_upstream, usage_reply,
  usage_of,
}
use federal_mcps.Limits.Limiter.Cases.{charge-cases, charge_both-cases, before_upstream-cases}
use federal_mcps.Limits.Limiter.Budget.Run.{Call, tool_call, upstream, usage, step, run}

-- What is asked of such a property.
pub record IsKept {ℓ} {S : Type 0} (P : LimiterState S → Type ℓ) : Type ℓ where
  pub store : (s : LimiterState S) (store' : S) → P s → P (record s { store = store' })
  pub over :
      (s : LimiterState S) (k : String) (v : ℕ) → P s → P (record s { over = insert k v s.over })
  pub fallback : (s : LimiterState S) (counts : Counts) → P s → P (record s { fallback = counts })
  pub degraded : (s : LimiterState S) (o : Operation) (now : ℕ) → P s → P (degraded o now s)

module _ {ℓ} (c : CounterStore) (P : LimiterState c.State → Type ℓ) (k : IsKept P) where
  finish-keeps :
      (counted : Counted) (r : IncrementResult) (s : LimiterState c.State)
      → P s
      → P (finish counted r s).1
  unfolding finish
  finish-keeps counted r s p = elim (Bool-cases r.applied) [
    | inl e ↦ rw (e, finish) p
    | inr e ↦ rw (e, finish) (k.over s counted.key r.value p)
  ]

  failure-keeps :
      (scope : LimitScope) (counted : Counted) (expires_at now : ℕ) (s : LimiterState c.State)
      → counted.scope ≡ scope
      → P s
      → P (on_store_failure counted expires_at now s).1
  unfolding on_store_failure charge_fallback
  failure-keeps LimitScope.service counted expires_at now s e p =
      rw (e, on_store_failure) (finish-keeps counted _ _ (k.fallback _ _ (k.degraded s _ now p)))
  failure-keeps LimitScope.network counted expires_at now s e p =
      rw (e, on_store_failure) (k.degraded s _ now p)
  failure-keeps LimitScope.pool counted expires_at now s e p =
      rw (e, on_store_failure) (k.degraded s _ now p)

  settle-keeps :
      (counted : Counted) (at now : ℕ) (r : Option IncrementResult) (s : LimiterState c.State)
      → P s
      → P (settle c counted at now r s).1
  unfolding settle
  settle-keeps counted at now none s p = failure-keeps counted.scope counted _ now s refl p
  settle-keeps counted at now (some r) s p = finish-keeps counted r s p

  charge-keeps :
      (counted : Counted) (at now : ℕ) (s : LimiterState c.State)
      → P s
      → P (charge c counted at now s).1
  charge-keeps counted at now s p = elim (charge-cases c counted at now s) [
    | inl (_, _, e) ↦ rw e p
    | inr (_, e) ↦ rw e (unfold count_one in settle-keeps counted at now _ _ (k.store s _ p))
  ]

  charge_share-keeps :
      (counted : Option Counted) (at now : ℕ) (s : LimiterState c.State)
      → P s
      → P (charge_share c counted at now s).1
  unfolding charge_share
  charge_share-keeps none at now s p = p
  charge_share-keeps (some counted) at now s p = charge-keeps counted at now s p

  charge_service-keeps :
      (counted : Option Counted) (source : String) (at now : ℕ) (s : LimiterState c.State)
      → P s
      → P (charge_service c counted source at now s).1
  unfolding charge_service
  charge_service-keeps none source at now s p = p
  charge_service-keeps (some counted) source at now s p = charge-keeps counted at now s p

  charge_both-keeps :
      (share service : Option Counted) (source : String) (at now : ℕ) (s : LimiterState c.State)
      → P s
      → P (charge_both c share service source at now s).1
  charge_both-keeps share service source at now s p =
      let p' = charge_share-keeps share at now s p in
      elim (charge_both-cases c share service source at now s) [
        | inl (_, _, e) ↦ rw e p'
        | inr (_, e) ↦ rw e (charge_service-keeps service source at now _ p')
      ]

  usage_reply-keeps :
      (counted : Counted) (source : String) (now : ℕ) (used : Option ℕ) (s : LimiterState c.State)
      → P s
      → P (usage_reply c counted source now used s).1
  unfolding usage_reply
  usage_reply-keeps counted source now none s p = k.degraded s _ now p
  usage_reply-keeps counted source now (some used) s p = p

  before_upstream-keeps :
      (config : LimitsConfig) (source : String) (caller : Option Caller) (at now : ℕ)
      (s : LimiterState c.State)
      → P s
      → P (before_upstream c config source caller at now s).1
  before_upstream-keeps config source caller at now s p =
      elim (before_upstream-cases c config source caller at now s) [
        | inl (_, _, e) ↦ rw e p
        | inr e ↦ rw e (charge_both-keeps _ _ source at now s p)
      ]

  usage_of-keeps :
      (config : LimitsConfig) (source : String) (at now : ℕ) (s : LimiterState c.State)
      → P s
      → P (usage_of c config source at now s).1
  unfolding usage_of
  usage_of-keeps config source at now s p = elim (Option-cases (service_counted config source at)) [
    | inl e ↦ rw (e, usage_of) p
    | inr (counted, e) ↦
        rw (e, usage_of)
          (usage_reply-keeps counted source now (c.get counted.key s.store).0 _
            (k.store s (c.get counted.key s.store).1 p))
  ]

  step-keeps :
      (config : LimitsConfig) (call : Call) (s : LimiterState c.State)
      → P s
      → P (step c config call s)
  unfolding step begin_tool_call
  step-keeps config (tool_call caller at now) s p = charge_share-keeps _ at now s p
  step-keeps config (upstream source caller at now) s p =
      before_upstream-keeps config source caller at now s p
  step-keeps config (usage source at now) s p = usage_of-keeps config source at now s p

  pub run-keeps :
      (config : LimitsConfig) (calls : List Call) (s : LimiterState c.State)
      → P s
      → P (run c config calls s)
  unfolding run
  run-keeps config [] s p = p
  run-keeps config (call ∷ calls) s p =
      run-keeps config calls (step c config call s) (step-keeps config call s p)
