-- ===== src/Limits/Context.antt =====
-- The per-call context (limits/context.ts). `AsyncLocalStorage` gives each tool call its own; here
-- it is a part of the state of the call, `none` outside one.
use federal_mcps.Common.{ℕ, ◌+◌, String, Option, none, some, List, []}
use federal_mcps.Limits.Config.{Caller}

pub record CallContext : Type 0 where
  pub caller : Option Caller
  pub notes : List String
  pub upstream_calls : ℕ

-- The context that `runInCall` starts with.
abbrev pub fresh : Option Caller → CallContext
fresh caller = record { caller = caller; notes = []; upstream_calls = 0 }

abbrev pub caller_of : Option CallContext → Option Caller
caller_of none = none
caller_of (some context) = context.caller

-- `incrementUpstreamCalls`
abbrev pub count_upstream : Option CallContext → Option CallContext
count_upstream none = none
count_upstream (some context) =
    some (record context { upstream_calls = context.upstream_calls + 1 })
