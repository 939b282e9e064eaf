-- ===== src/Limits/Limiter.antt =====
-- `createLimiter` (limits/persistent-limiter.ts), over any counter store. Its maps and the time of
-- its last warning are a record, a refusal is a value, and `now` is the clock of the whole call.
pub mod Cases
pub mod Charge
pub mod Budget
pub mod Keeps
pub mod Degraded
pub mod Failing
use federal_mcps.Common.{
  ℕ, ◌+◌, ◌*◌, String, Bool, true, false, Option, none, some, List, [], ◌∷◌, ltb, if◌then◌else◌,
}
use federal_mcps.Common.Dict.{Dict, lookup, insert}
use federal_mcps.Time.{day_ms, day_start}
use federal_mcps.Limits.Config.{
  LimitsConfig, Caller, LimitScope, LimitKind, LimitInfo, UsageSnapshot,
}
use federal_mcps.Limits.CounterStore.{CounterStore, IncrementResult}
use federal_mcps.Limits.MemoryStore
use federal_mcps.Limits.MemoryStore.{Counts, read}
use federal_mcps.Limits.Keys.{Counted, exceeded, service_counted, share_counted}

-- The promise of a call: its value, or the `LimitExceededError` thrown.
pub data Outcome {ℓ} (A : Type ℓ) : Type ℓ where
  done : A → Outcome A
  refused : LimitInfo → Outcome A

pub data Operation : Type 0 where
  for_service for_share for_usage : Operation

-- The `limiter_degraded` line that is logged.
pub record DegradedLine : Type 0 where
  pub at : ℕ
  pub operation : Operation

-- `last_degraded` is `none` for minus infinity; the newest line stands first in `log`.
pub record LimiterState (S : Type 0) : Type 0 where
  pub store : S
  pub over : Dict ℕ
  pub fallback : Counts
  pub last_degraded : Option ℕ
  pub log : List DegradedLine

abbrev pub degraded_log_interval_ms : ℕ
degraded_log_interval_ms = 60_000

abbrev pub retain_days : ℕ
retain_days = 2

abbrev pub initial : {S : Type 0} → S → LimiterState S
initial store = record { store = store; over = []; fallback = []; last_degraded = none; log = [] }

-- `at - lastDegradedLogMs < DEGRADED_LOG_INTERVAL_MS`
abbrev pub is_recent : ℕ → Option ℕ → Bool
is_recent at none = false
is_recent at (some last) = ltb at (last + degraded_log_interval_ms)

module _ {S : Type 0} where
  unfoldable pub degraded : Operation → ℕ → LimiterState S → LimiterState S
  degraded operation at s = if is_recent at s.last_degraded then s else record s {
    last_degraded = some at;
    log = record { at = at; operation = operation } ∷ s.log;
  }

  -- The end of `charge`, once a result is there.
  unfoldable pub finish : Counted → IncrementResult → LimiterState S → Outcome ℕ × LimiterState S
  finish counted result s = if result.applied then (done result.value, s) else (
    refused (exceeded counted result.value),
    record s { over = insert counted.key result.value s.over },
  )

  unfoldable pub charge_fallback : Counted → ℕ → ℕ → LimiterState S → Outcome ℕ × LimiterState S
  unfolding finish
  charge_fallback counted expires_at now s =
      let (result, fallback') =
        MemoryStore.increment now counted.key 1 expires_at (some counted.limit) s.fallback in
      finish counted result (record s { fallback = fallback' })

  -- The `catch` of `charge`: a share is let through, the service budget is counted in memory.
  unfoldable pub on_store_failure : Counted → ℕ → ℕ → LimiterState S → Outcome ℕ × LimiterState S
  unfolding degraded charge_fallback
  on_store_failure counted expires_at now s = elim counted.scope [
    | LimitScope.service ↦ charge_fallback counted expires_at now (degraded for_service now s)
    | LimitScope.network ↦ (done 0, degraded for_share now s)
    | LimitScope.pool ↦ (done 0, degraded for_share now s)
  ]

  unfoldable pub refuse_if_known_over : Option Counted → LimiterState S → Option LimitInfo
  refuse_if_known_over none s = none
  refuse_if_known_over (some counted) s = elim (lookup counted.key s.over) [
    | none ↦ none
    | some known ↦ some (exceeded counted known)
  ]

abbrev pub expiry : ℕ → ℕ
expiry at = day_start at + (1 + retain_days) * day_ms

abbrev pub snapshot : Counted → String → ℕ → UsageSnapshot
snapshot counted source used = record {
  source = source;
  used = used;
  limit = counted.limit;
  resets_at = counted.resets_at;
}

abbrev pub forget : Outcome ℕ → Outcome (Unit {0})
forget (done _) = done tt
forget (refused info) = refused info

abbrev pub report : Counted → String → Outcome ℕ → Outcome (Option UsageSnapshot)
report counted source (done used) = done (some (snapshot counted source used))
report counted source (refused info) = refused info

module _ (c : CounterStore) where
  unfoldable pub settle :
      Counted
      → ℕ
      → ℕ
      → Option IncrementResult
      → LimiterState c.State
      → Outcome ℕ × LimiterState c.State
  settle counted at now none s = on_store_failure counted (expiry at) now s
  settle counted at now (some result) s = finish counted result s

  -- `charge` for a key that is not known to be over its limit.
  unfoldable pub count_one :
      Counted → ℕ → ℕ → LimiterState c.State → Outcome ℕ × LimiterState c.State
  count_one counted at now s =
      let (result, store') =
        c.increment now counted.key 1 (expiry at) (some counted.limit) s.store in
      settle counted at now result (record s { store = store' })

  unfoldable pub charge : Counted → ℕ → ℕ → LimiterState c.State → Outcome ℕ × LimiterState c.State
  charge counted at now s = elim (refuse_if_known_over (some counted) s) [
    | some info ↦ (refused info, s)
    | none ↦ count_one counted at now s
  ]

  unfoldable pub charge_share :
      Option Counted → ℕ → ℕ → LimiterState c.State → Outcome (Unit {0}) × LimiterState c.State
  charge_share none at now s = (done tt, s)
  charge_share (some counted) at now s = let (r, s') = charge counted at now s in (forget r, s')

  unfoldable pub charge_service :
      Option Counted
      → String
      → ℕ
      → ℕ
      → LimiterState c.State
      → Outcome (Option UsageSnapshot) × LimiterState c.State
  charge_service none source at now s = (done none, s)
  charge_service (some counted) source at now s =
      let (r, s') = charge counted at now s in (report counted source r, s')

  -- Steps 2 and 3: the caller's share first, then the service budget.
  unfoldable pub charge_both :
      Option Counted
      → Option Counted
      → String
      → ℕ
      → ℕ
      → LimiterState c.State
      → Outcome (Option UsageSnapshot) × LimiterState c.State
  charge_both share service source at now s =
      let (r, s') = charge_share share at now s in
      elim r [
        | refused info ↦ (refused info, s')
        | done _ ↦ charge_service service source at now s'
      ]

  unfoldable pub usage_reply :
      Counted → String → ℕ → Option ℕ → LimiterState c.State → UsageSnapshot × LimiterState c.State
  usage_reply counted source now (some used) s = (snapshot counted source used, s)
  usage_reply counted source now none s =
      (snapshot counted source (read counted.key s.fallback), degraded for_usage now s)

  module _ (config : LimitsConfig) where
    unfoldable pub begin_tool_call :
        Option Caller → ℕ → ℕ → LimiterState c.State → Outcome (Unit {0}) × LimiterState c.State
    begin_tool_call caller at now s =
        charge_share (share_counted config caller LimitKind.tool_calls none at) at now s

    unfoldable pub before_upstream :
        String
        → Option Caller
        → ℕ
        → ℕ
        → LimiterState c.State
        → Outcome (Option UsageSnapshot) × LimiterState c.State
    before_upstream source caller at now s =
        let service = service_counted config source at in
        let share = share_counted config caller LimitKind.upstream (some source) at in
        elim (refuse_if_known_over share s) [
          | some info ↦ (refused info, s)
          | none ↦ elim (refuse_if_known_over service s) [
            | some info ↦ (refused info, s)
            | none ↦ charge_both share service source at now s
          ]
        ]

    unfoldable pub usage_of :
        String → ℕ → ℕ → LimiterState c.State → Option UsageSnapshot × LimiterState c.State
    unfolding usage_reply
    usage_of source at now s = elim (service_counted config source at) [
      | none ↦ (none, s)
      | some counted ↦
          let (used, store') = c.get counted.key s.store in
          let (reply, s') = usage_reply counted source now used (record s { store = store' }) in
          (some reply, s')
    ]
