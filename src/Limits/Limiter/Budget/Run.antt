-- ===== src/Limits/Limiter/Budget/Run.antt =====
-- Sequences of calls of the limiter (limits/persistent-limiter.ts).
use native.Mathlib.Nat.{le_trans}
use mathlib.Core.Path.{subst, sym}
use federal_mcps.Common.{
  ℕ, ◌≤◌, String, ◌≡◌, refl, Option, none, some, List, [], ◌∷◌, arith, inl, inr, ap, Bool-cases,
  str_eq, eq_iff, ◌∙◌, Option-cases, some_inj,
}
use federal_mcps.Common.Dict.{lookup?}
use federal_mcps.Limits.Config.{LimitsConfig, Caller, LimitKind}
use federal_mcps.Limits.CounterStore.{CounterStore, IsCounterStore}
use federal_mcps.Limits.MemoryStore
use federal_mcps.Limits.MemoryStore.{Counts, read}
use federal_mcps.Limits.MemoryStore.Laws.{increment_self, increment-other}
use federal_mcps.Limits.Keys.{Counted, service_key, service_counted, share_counted}
use federal_mcps.Limits.Keys.Distinct.{
  service_counted-eq, share_counted-ne-service_key, service_key-inj,
}
use federal_mcps.Limits.Limiter.{
  LimiterState, charge, charge_share, charge_service, charge_both, before_upstream, begin_tool_call,
  usage_of, usage_reply, degraded, expiry,
}
use federal_mcps.Limits.Limiter.Cases.{charge_both-cases, before_upstream-cases}
use federal_mcps.Limits.Limiter.Charge.{
  Incremented-le, count-charge_other, count-charge_self, fallback-charge,
}

-- One call of the limiter: what is asked, and the clock.
pub data Call : Type 0 where
  tool_call : Option Caller → ℕ → ℕ → Call
  upstream : String → Option Caller → ℕ → ℕ → Call
  usage : String → ℕ → ℕ → Call

module _ (c : CounterStore) (config : LimitsConfig) where
  unfoldable pub step : Call → LimiterState c.State → LimiterState c.State
  step (tool_call caller at now) s = (begin_tool_call c config caller at now s).1
  step (upstream source caller at now) s = (before_upstream c config source caller at now s).1
  step (usage source at now) s = (usage_of c config source at now s).1

  unfoldable pub run : List Call → LimiterState c.State → LimiterState c.State
  run [] s = s
  run (call ∷ calls) s = run calls (step call s)

module _ (c : CounterStore) (h : IsCounterStore c) (config : LimitsConfig) where
  -- Every counter of a service budget, in the store and in memory, is within its daily limit.
  pub record IsWithin (s : LimiterState c.State) : Type 0 where
    pub stored :
        (source : String) (at limit : ℕ)
        → lookup? config.service_daily source ≡ some limit
        → 1 ≤ limit
        → h.count s.store (service_key source at) ≤ limit
    pub in_memory :
        (source : String) (at limit : ℕ)
        → lookup? config.service_daily source ≡ some limit
        → 1 ≤ limit
        → read (service_key source at) s.fallback ≤ limit

  -- If a charge falls on a service budget's counter, it is under that budget's limit.
  abbrev IsProper : Counted → Type 0
  IsProper counted =
      (source : String) (at limit : ℕ)
      → lookup? config.service_daily source ≡ some limit
      → counted.key ≡ service_key source at
      → counted.limit ≡ limit

  share-IsProper :
      (caller : Option Caller) (kind : LimitKind) (source : Option String) (at : ℕ)
      (counted : Counted)
      → share_counted config caller kind source at ≡ some counted
      → IsProper counted
  share-IsProper caller kind source at counted is source' at' limit daily e =
      absurd ((share_counted-ne-service_key config caller kind source at source' at' is).0 e)

  service-IsProper :
      (source : String) (at : ℕ) (counted : Counted)
      → service_counted config source at ≡ some counted
      → IsProper counted
  service-IsProper source at counted is source' at' limit daily e =
      let (key, daily', _, _) = service_counted-eq config source at is in
      let same = service_key-inj source source' at at' (sym key ∙ e) in
      some_inj (sym daily' ∙ ap (lookup? config.service_daily) same ∙ daily)

  fallback-le :
      (counted : Counted) (at now limit : ℕ) (fallback : Counts) (j : String)
      → (counted.key ≡ j → counted.limit ≡ limit)
      → read j fallback ≤ limit
      → read j (MemoryStore.increment now counted.key 1 (expiry at) (some counted.limit) fallback).1
        ≤ limit
  fallback-le counted at now limit fallback j proper le = elim (Bool-cases (str_eq counted.key j)) [
    | inl same ↦
        let e = (eq_iff counted.key j).0 same in
        subst
          (λ k.
            read k fallback ≤ limit
            → read k
                (MemoryStore.increment now counted.key 1 (expiry at) (some counted.limit)
                  fallback).1
              ≤ limit)
          e
          (rw (← proper e) (
            Incremented-le _ counted.limit _
              (some
                (MemoryStore.increment now counted.key 1 (expiry at) (some counted.limit)
                  fallback).0)
              (increment_self now counted.key 1 (expiry at) (some counted.limit) fallback)))
          le
    | inr other ↦
        le_trans
          (increment-other now counted.key 1 (expiry at) (some counted.limit) fallback j
            (λ e. cc ((eq_iff counted.key j).1 e, other)))
          le
  ]

  stored-le :
      (counted : Counted) (at now limit : ℕ) (s : LimiterState c.State) (j : String)
      → (counted.key ≡ j → counted.limit ≡ limit)
      → 1 ≤ limit
      → h.count s.store j ≤ limit
      → h.count (charge c counted at now s).1.store j ≤ limit
  stored-le counted at now limit s j proper pos le = elim (Bool-cases (str_eq counted.key j)) [
    | inl same ↦
        let e = (eq_iff counted.key j).0 same in
        subst
          (λ k. h.count s.store k ≤ limit → h.count (charge c counted at now s).1.store k ≤ limit) e
          (rw (← proper e) (count-charge_self c h counted at now s (rw (proper e) pos))) le
    | inr other ↦
        le_trans
          (count-charge_other c h counted at now s j (λ e. cc ((eq_iff counted.key j).1 e, other)))
          le
  ]

  charge-IsWithin :
      (counted : Counted) (at now : ℕ) (s : LimiterState c.State)
      → IsProper counted
      → IsWithin s
      → IsWithin (charge c counted at now s).1
  charge-IsWithin counted at now s proper w = record {
    stored = λ source at' limit daily pos.
        stored-le counted at now limit s _ (proper source at' limit daily) pos
          (w.stored source at' limit daily pos);
    in_memory = λ source at' limit daily pos. elim (fallback-charge c counted at now s) [
      | inl e ↦ rw e (w.in_memory source at' limit daily pos)
      | inr (_, e) ↦ rw e (
          fallback-le counted at now limit s.fallback _ (proper source at' limit daily)
            (w.in_memory source at' limit daily pos))
    ];
  }

  option-IsWithin :
      (counted : Option Counted) (at now : ℕ) (s : LimiterState c.State)
      → ((k : Counted) → counted ≡ some k → IsProper k)
      → IsWithin s
      → IsWithin (charge_share c counted at now s).1
  unfolding charge_share
  option-IsWithin none at now s proper w = w
  option-IsWithin (some counted) at now s proper w =
      charge-IsWithin counted at now s (proper counted refl) w

  charge_service-IsWithin :
      (counted : Option Counted) (source : String) (at now : ℕ) (s : LimiterState c.State)
      → ((k : Counted) → counted ≡ some k → IsProper k)
      → IsWithin s
      → IsWithin (charge_service c counted source at now s).1
  unfolding charge_service
  charge_service-IsWithin none source at now s proper w = w
  charge_service-IsWithin (some counted) source at now s proper w =
      charge-IsWithin counted at now s (proper counted refl) w

  charge_both-IsWithin :
      (share service : Option Counted) (source : String) (at now : ℕ) (s : LimiterState c.State)
      → ((k : Counted) → share ≡ some k → IsProper k)
      → ((k : Counted) → service ≡ some k → IsProper k)
      → IsWithin s
      → IsWithin (charge_both c share service source at now s).1
  charge_both-IsWithin share service source at now s p q w =
      let w' = option-IsWithin share at now s p w in
      elim (charge_both-cases c share service source at now s) [
        | inl (_, _, e) ↦ rw e w'
        | inr (_, e) ↦ rw e (charge_service-IsWithin service source at now _ q w')
      ]

  before_upstream-IsWithin :
      (source : String) (caller : Option Caller) (at now : ℕ) (s : LimiterState c.State)
      → IsWithin s
      → IsWithin (before_upstream c config source caller at now s).1
  before_upstream-IsWithin source caller at now s w =
      elim (before_upstream-cases c config source caller at now s) [
        | inl (_, _, e) ↦ rw e w
        | inr e ↦ rw e (
            charge_both-IsWithin _ _ source at now s
              (share-IsProper caller LimitKind.upstream (some source) at)
              (service-IsProper source at) w)
      ]

  usage_reply-same :
      (counted : Counted) (source : String) (now : ℕ) (used : Option ℕ) (s : LimiterState c.State)
      → let s' = (usage_reply c counted source now used s).1 in
        (s'.store ≡ s.store) × (s'.fallback ≡ s.fallback)
  unfolding usage_reply degraded
  usage_reply-same counted source now none s = ground arith
  usage_reply-same counted source now (some used) s = ground arith

  usage_of-same :
      (source : String) (at now : ℕ) (s : LimiterState c.State)
      → let s' = (usage_of c config source at now s).1 in
        (s'.store ≡ s.store) × (s'.fallback ≡ s.fallback)
  unfolding usage_of
  usage_of-same source at now s = elim (Option-cases (service_counted config source at)) [
    | inl e ↦ rw (e, usage_of) (refl, refl)
    | inr (counted, e) ↦
        let (store, fallback) =
          usage_reply-same counted source now (c.get counted.key s.store).0
            (record s { store = (c.get counted.key s.store).1 }) in
        rw (e, usage_of) (store ∙ h.get_state counted.key s.store, fallback)
  ]

  step-IsWithin :
      (call : Call) (s : LimiterState c.State) → IsWithin s → IsWithin (step c config call s)
  unfolding step begin_tool_call
  step-IsWithin (tool_call caller at now) s w =
      option-IsWithin _ at now s (share-IsProper caller LimitKind.tool_calls none at) w
  step-IsWithin (upstream source caller at now) s w =
      before_upstream-IsWithin source caller at now s w
  step-IsWithin (usage source at now) s w =
      let (store, fallback) = usage_of-same source at now s in
      record {
        stored = λ source' at' limit daily pos. rw store (w.stored source' at' limit daily pos);
        in_memory =
            λ source' at' limit daily pos. rw fallback (w.in_memory source' at' limit daily pos);
      }

  -- Whatever is called, by whom, when, and however the store fails in between: no counter of a
  -- service budget whose daily limit is 1 or more passes that limit, in the store or in memory.
  pub run-IsWithin :
      (calls : List Call) (s : LimiterState c.State) → IsWithin s → IsWithin (run c config calls s)
  unfolding run
  run-IsWithin [] s w = w
  run-IsWithin (call ∷ calls) s w =
      run-IsWithin calls (step c config call s) (step-IsWithin call s w)
