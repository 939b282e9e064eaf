-- ===== src/Limits/Keys.antt =====
-- Which counter a call is charged to (limits/persistent-limiter.ts): `serviceCounted`,
-- `shareCounted` and their keys.
pub mod Distinct
use federal_mcps.Common.{
  ℕ, String, true, false, Option, none, some, [], ◌∷◌, if◌then◌else◌, or_else,
}
use federal_mcps.Common.Dict.{lookup?}
use federal_mcps.Common.Text.{template}
use federal_mcps.Time.{day_key, resets_at}
use federal_mcps.Limits.Config.{
  Share, LimitsConfig, CallerKind, Caller, LimitScope, LimitKind, LimitInfo,
}

-- `Counted`, with the fields of its `info`.
pub record Counted : Type 0 where
  pub key : String
  pub limit : ℕ
  pub scope : LimitScope
  pub kind : LimitKind
  pub source : Option String
  pub resets_at : String

-- `{ ...counted.info, used }`
abbrev pub exceeded : Counted → ℕ → LimitInfo
exceeded counted used = record {
  scope = counted.scope;
  kind = counted.kind;
  source = counted.source;
  limit = counted.limit;
  used = used;
  resets_at = counted.resets_at;
}

unfoldable pub service_key : String → ℕ → String
service_key source at = template ("svc#" ∷ source ∷ "#" ∷ day_key at ∷ [])

abbrev pub budget : String → ℕ → ℕ → Counted
budget source limit at = record {
  key = service_key source at;
  limit = limit;
  scope = LimitScope.service;
  kind = LimitKind.upstream;
  source = some source;
  resets_at = resets_at at;
}

unfoldable pub service_counted : LimitsConfig → String → ℕ → Option Counted
service_counted config source at = elim (lookup? config.service_daily source) [
  | none ↦ none
  | some limit ↦ some (budget source limit at)
]

abbrev pub scope_of : CallerKind → LimitScope
scope_of CallerKind.network = LimitScope.network
scope_of CallerKind.pool = LimitScope.pool

abbrev pub scope_name : CallerKind → String
scope_name CallerKind.network = "network"
scope_name CallerKind.pool = "pool"

abbrev pub kind_name : LimitKind → String
kind_name LimitKind.upstream = "upstream"
kind_name LimitKind.tool_calls = "toolCalls"

abbrev pub share_of : LimitsConfig → CallerKind → Option Share
share_of config CallerKind.pool = config.pool
share_of config CallerKind.network = config.network

-- `kind === "upstream" ? share?.upstreamDaily : share?.toolCallsDaily`
abbrev pub daily_of : LimitKind → Option Share → Option ℕ
daily_of kind none = none
daily_of LimitKind.upstream (some share) = share.upstream_daily
daily_of LimitKind.tool_calls (some share) = share.tool_calls_daily

-- A test limit replaces the configured share.
abbrev pub share_limit : LimitsConfig → Caller → LimitKind → Option ℕ
share_limit config caller kind = elim caller.test_limit [
  | some limit ↦ some limit
  | none ↦ daily_of kind (share_of config caller.kind)
]

unfoldable pub share_key : CallerKind → LimitKind → Option String → String → ℕ → String
share_key scope kind source caller_key at = template (
    scope_name scope
    ∷ "#"
    ∷ kind_name kind
    ∷ "#"
    ∷ or_else source "*"
    ∷ "#"
    ∷ caller_key
    ∷ "#"
    ∷ day_key at
    ∷ [])

abbrev pub counted_share : Caller → LimitKind → Option String → ℕ → ℕ → Counted
counted_share caller kind source at limit = record {
  key = share_key caller.kind kind source caller.key at;
  limit = limit;
  scope = scope_of caller.kind;
  kind = kind;
  source = source;
  resets_at = resets_at at;
}

unfoldable pub share_counted :
    LimitsConfig → Option Caller → LimitKind → Option String → ℕ → Option Counted
share_counted config none kind source at = none
share_counted config (some caller) kind source at =
    if caller.bypass then none else elim (share_limit config caller kind) [
      | none ↦ none
      | some limit ↦ some (counted_share caller kind source at limit)
    ]
