-- ===== src/Limits/Config.antt =====
-- The limits configuration (limits/config.ts), the caller (server/caller.ts) and the facts of a
-- refusal (limits/limiter.ts).
use federal_mcps.Common.{ℕ, String, Bool, Option}
use federal_mcps.Common.Dict.{Dict}

-- One identity's daily shares.
pub record Share : Type 0 where
  pub upstream_daily : Option ℕ
  pub tool_calls_daily : Option ℕ

pub record LimitsConfig : Type 0 where
  pub service_daily : Option (Dict ℕ)
  pub network : Option Share
  pub pool : Option Share
  pub upstream_per_minute : Option (Dict ℕ)
  pub upstream_errors_per_minute : Option (Dict ℕ)
  pub reserved_concurrency : Option ℕ

pub data CallerKind : Type 0 where
  network pool : CallerKind

pub record Caller : Type 0 where
  pub key : String
  pub kind : CallerKind
  pub user_agent : Option String
  pub bypass : Bool
  pub test_limit : Option ℕ

pub data LimitScope : Type 0 where
  network pool service : LimitScope

pub data LimitKind : Type 0 where
  upstream tool_calls : LimitKind

-- `LimitInfo`, which a `LimitExceededError` carries.
pub record LimitInfo : Type 0 where
  pub scope : LimitScope
  pub kind : LimitKind
  pub source : Option String
  pub limit : ℕ
  pub used : ℕ
  pub resets_at : String

pub record UsageSnapshot : Type 0 where
  pub source : String
  pub used : ℕ
  pub limit : ℕ
  pub resets_at : String
