-- ===== src/Limits/Limiter/Degraded.antt =====
-- The `limiter_degraded` lines and the keys known to be over (limits/persistent-limiter.ts).
use federal_mcps.Common.{
  ℕ, ◌+◌, ◌≤◌, String, ◌≡◌, refl, false, Option, none, some, List, [], ◌∷◌, arith, Bool-cases,
  str_eq, Option-cases, inl, inr,
}
use federal_mcps.Common.Dict.{lookup, lookup?, lookup-insert, insert}
use federal_mcps.Limits.Config.{LimitsConfig, Caller, LimitInfo, LimitKind}
use federal_mcps.Limits.CounterStore.{CounterStore}
use federal_mcps.Limits.Keys.{exceeded, budget, service_key, service_counted, share_counted}
use federal_mcps.Limits.Keys.Distinct.{service_counted-some}
use federal_mcps.Limits.Limiter.{
  DegradedLine, is_recent, refused, Operation, LimiterState, initial, degraded,
  degraded_log_interval_ms, refuse_if_known_over, before_upstream,
}
use federal_mcps.Limits.Limiter.Budget.Run.{Call, run}
use federal_mcps.Limits.Limiter.Keeps.{IsKept, run-keeps}

-- Newest first, each line a full interval after the one before it.
abbrev pub IsSpaced : List DegradedLine → Type 0
IsSpaced [] = Unit
IsSpaced (d ∷ []) = Unit
IsSpaced (d ∷ e ∷ r) = (e.at + degraded_log_interval_ms ≤ d.at) × IsSpaced (e ∷ r)

abbrev newest : List DegradedLine → Option ℕ
newest [] = none
newest (d ∷ _) = some d.at

abbrev pub IsThrottled : {S : Type 0} → LimiterState S → Type 0
IsThrottled s = IsSpaced s.log × (newest s.log ≡ s.last_degraded)

spaced :
    (log : List DegradedLine) (last : Option ℕ) (now : ℕ) (o : Operation)
    → IsSpaced log
    → newest log ≡ last
    → is_recent now last ≡ false
    → IsSpaced (record { at = now; operation = o } ∷ log)
spaced [] last now o h e r = tt
spaced (d ∷ log) none now o h e r = cc
spaced (d ∷ log) (some at) now o h e r = (ground arith, h)

degraded-IsThrottled :
    {S : Type 0} (s : LimiterState S) (o : Operation) (now : ℕ)
    → IsThrottled s
    → IsThrottled (degraded o now s)
unfolding degraded
degraded-IsThrottled s o now (h, e) = elim (Bool-cases (is_recent now s.last_degraded)) [
  | inl recent ↦ rw (recent, degraded) (h, e)
  | inr due ↦ rw (due, degraded) (spaced s.log s.last_degraded now o h e due, refl)
]

-- Whatever is called and however the store fails, two `limiter_degraded` lines are at least a
-- minute apart.
pub run-IsThrottled :
    (c : CounterStore) (config : LimitsConfig) (calls : List Call) (store : c.State)
    → IsThrottled (run c config calls (initial store))
run-IsThrottled c config calls store =
    run-keeps c IsThrottled
      (record {
        store = λ s _ p. p;
        over = λ s _ _ p. p;
        fallback = λ s _ p. p;
        degraded = degraded-IsThrottled;
      })
      config calls (initial store) (tt, refl)

abbrev pub IsOver : {S : Type 0} → String → LimiterState S → Type 0
IsOver key s = (v : ℕ) × (lookup key s.over ≡ some v)

insert-IsOver :
    {S : Type 0} (key : String) (s : LimiterState S) (k : String) (v : ℕ)
    → IsOver key s
    → IsOver key (record s { over = insert k v s.over })
insert-IsOver key s k v (u, e) = elim (Bool-cases (str_eq k key)) [
  | inl same ↦ (v, rw (lookup-insert, same) refl)
  | inr other ↦ (u, rw (lookup-insert, other) e)
]

degraded-over :
    {S : Type 0} (s : LimiterState S) (o : Operation) (now : ℕ) → (degraded o now s).over ≡ s.over
unfolding degraded
degraded-over s o now = ground arith

IsOver-IsKept : {S : Type 0} (key : String) → IsKept {S = S} (IsOver key)
IsOver-IsKept key = record {
  store = λ s _ p. p;
  over = insert-IsOver key;
  fallback = λ s _ p. p;
  degraded = λ s o now p. rw degraded-over p;
}

known_refused :
    (c : CounterStore) (config : LimitsConfig) (s : LimiterState c.State) (source : String)
    (caller : Option Caller) (at now limit : ℕ)
    → lookup? config.service_daily source ≡ some limit
    → IsOver (service_key source at) s
    → (info : LimitInfo) × (before_upstream c config source caller at now s ≡ (refused info, s))
unfolding refuse_if_known_over before_upstream
known_refused c config s source caller at now limit daily (v, over) =
    let known : refuse_if_known_over (service_counted config source at) s
        ≡ some (exceeded (budget source limit at) v) =
      rw (service_counted-some config source at limit daily, refuse_if_known_over, over) refl in
    elim (Option-cases
      (refuse_if_known_over (share_counted config caller LimitKind.upstream (some source) at) s)) [
        | inr (info, e) ↦ (info, rw (e, before_upstream))
        | inl free ↦ (exceeded (budget source limit at) v, rw (free, known, before_upstream))
      ]

-- Once a service budget is known to be spent, then after any further calls every query of that
-- source on that day, by any caller, is refused and changes nothing.
pub before_upstream_over :
    (c : CounterStore) (config : LimitsConfig) (calls : List Call) (s : LimiterState c.State)
    (source : String) (caller : Option Caller) (at at' now limit v : ℕ)
    → lookup? config.service_daily source ≡ some limit
    → lookup (service_key source at) s.over ≡ some v
    → service_key source at' ≡ service_key source at
    → let s' = run c config calls s in
      (info : LimitInfo) × (before_upstream c config source caller at' now s' ≡ (refused info, s'))
before_upstream_over c config calls s source caller at at' now limit v daily over day =
    known_refused c config _ source caller at' now limit daily (
      rw day
        (run-keeps c (IsOver (service_key source at)) (IsOver-IsKept _) config calls s (v, over)))
