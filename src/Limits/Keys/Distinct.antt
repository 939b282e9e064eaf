-- ===== src/Limits/Keys/Distinct.antt =====
-- Which keys of limits/persistent-limiter.ts can meet.
use Prim.Native.String
use Prim.Native.String.{count}
use Prim.Native.Char.{code}
use text.Mathlib.TextLemmas.{append_cancel_left, append_inj, length-append, cons-append}
use federal_mcps.Common.{ℕ, ap, String, ◌≡◌, ◌≢◌, refl, Option, none, some, [], ◌∷◌, arith, false}
use federal_mcps.Common.Text.{template}
use federal_mcps.Time.{day_key, resets_at}
use federal_mcps.Time.Width.{count-day_key}
use federal_mcps.Common.Dict.{lookup?}
use federal_mcps.Limits.Config.{LimitsConfig, Caller, CallerKind, LimitKind, LimitScope}
use federal_mcps.Limits.Keys.{
  Counted, budget, service_counted, share_counted, counted_share, share_limit, scope_of,
  service_key, share_key,
}

first : String → ℕ
first String.[] = 0
first (String.◌∷◌ c s) = code c

first-svc : (s : String) → first (String.◌++◌ "svc#" s) ≡ b's'
unfolding first
first-svc s = rw cons-append

first-network : (s : String) → first (String.◌++◌ "network" s) ≡ b'n'
unfolding first
first-network s = rw cons-append

first-pool : (s : String) → first (String.◌++◌ "pool" s) ≡ b'p'
unfolding first
first-pool s = rw cons-append

differ : (s t : String) → first s ≢ first t → s ≢ t
differ s t h e = h (ap first e)

-- A share is never counted on a service budget's counter.
pub share_key-ne-service_key :
    (scope : CallerKind) (kind : LimitKind) (source : Option String) (caller_key : String) (at : ℕ)
    (source' : String) (at' : ℕ)
    → share_key scope kind source caller_key at ≢ service_key source' at'
unfolding share_key service_key
share_key-ne-service_key CallerKind.network kind source caller_key at source' at' =
    differ _ _ (rw (first-network, first-svc) (omega arith))
share_key-ne-service_key CallerKind.pool kind source caller_key at source' at' =
    differ _ _ (rw (first-pool, first-svc) (omega arith))

count-service_tail : (at : ℕ) → count (template ("#" ∷ day_key at ∷ [])) ≡ 11
count-service_tail at = simp (length-append, count-day_key)

same_source :
    (source source' t t' : String)
    → String.◌++◌ "svc#" (String.◌++◌ source t) ≡ String.◌++◌ "svc#" (String.◌++◌ source' t')
    → count t ≡ 11
    → count t' ≡ 11
    → (source ≡ source') × (t ≡ t')
same_source source source' t t' e p q =
    let tail = append_cancel_left "svc#" _ _ e in
    append_inj tail (omega (arith, ap count tail, length-append source t, length-append source' t'))

-- One counter serves one source, and one text of a day.
pub service_key-inj :
    (source source' : String) (at at' : ℕ)
    → service_key source at ≡ service_key source' at'
    → source ≡ source'
unfolding service_key
service_key-inj source source' at at' e =
    (same_source source source' _ _ e (count-service_tail at) (count-service_tail at')).0

scope_of-ne-service : (kind : CallerKind) → scope_of kind ≢ LimitScope.service
scope_of-ne-service CallerKind.network e = cc
scope_of-ne-service CallerKind.pool e = cc

-- What a service budget is counted on.
pub service_counted-eq :
    (config : LimitsConfig) (source : String) (at : ℕ) {counted : Counted}
    → service_counted config source at ≡ some counted
    → (counted.key ≡ service_key source at)
      × (lookup? config.service_daily source ≡ some counted.limit)
      × (counted.scope ≡ LimitScope.service)
      × (counted.resets_at ≡ resets_at at)
unfolding service_counted
service_counted-eq config source at e = ground arith

pub service_counted-some :
    (config : LimitsConfig) (source : String) (at limit : ℕ)
    → lookup? config.service_daily source ≡ some limit
    → service_counted config source at ≡ some (budget source limit at)
unfolding service_counted
service_counted-some config source at limit e = rw (e, service_counted)

-- What a share is counted on: a caller without bypass, under that caller's own key.
pub share_counted-eq :
    (config : LimitsConfig) (caller : Option Caller) (kind : LimitKind) (source : Option String)
    (at : ℕ) {counted : Counted}
    → share_counted config caller kind source at ≡ some counted
    → (who : Caller) × (caller ≡ some who)
      × (who.bypass ≡ false)
      × (share_limit config who kind ≡ some counted.limit)
      × (counted ≡ counted_share who kind source at counted.limit)
unfolding share_counted
share_counted-eq config none kind source at e = cc
share_counted-eq config (some who) kind source at e =
    (who, refl, ground arith, ground arith, ground arith)

pub share_counted-ne-service_key :
    (config : LimitsConfig) (caller : Option Caller) (kind : LimitKind) (source : Option String)
    (at : ℕ) {counted : Counted} (source' : String) (at' : ℕ)
    → share_counted config caller kind source at ≡ some counted
    → (counted.key ≢ service_key source' at') × (counted.scope ≢ LimitScope.service)
share_counted-ne-service_key config caller kind source at {counted} source' at' e =
    let (who, _, _, _, is) = share_counted-eq config caller kind source at e in
    rw is (share_key-ne-service_key _ _ _ _ _ _ _, scope_of-ne-service who.kind)
