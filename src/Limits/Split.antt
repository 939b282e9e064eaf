-- ===== src/Limits/Split.antt =====
-- `splitUpstreamPerMinute` (limits/split.ts): one container's slice of an agency's rate.
use federal_mcps.Common.{ℕ, ◌+◌, ◌*◌, ◌/◌, ◌≤◌, ◌<◌, String, ◌≡◌, Option, none, some, arith, max}
use federal_mcps.Common.Dict.{Dict, lookup?}
use federal_mcps.Limits.Config.{LimitsConfig}

pub data Table : Type 0 where
  upstream_per_minute upstream_errors_per_minute : Table

abbrev pub table_of : LimitsConfig → Table → Option (Dict ℕ)
table_of limits upstream_per_minute = limits.upstream_per_minute
table_of limits upstream_errors_per_minute = limits.upstream_errors_per_minute

slice : Option ℕ → Option ℕ → ℕ → ℕ
slice none reserved fallback = fallback
slice (some total) none fallback = fallback
slice (some total) (some containers) fallback = max 1 (total / containers)

pub split_upstream_per_minute : Option LimitsConfig → Table → String → ℕ → ℕ
unfolding slice
split_upstream_per_minute none table source fallback = fallback
split_upstream_per_minute (some limits) table source fallback =
    slice (lookup? (table_of limits table) source) limits.reserved_concurrency fallback

-- With both numbers configured, and the agency's rate at least one for each container, the
-- containers together stay within the rate and leave less than one call per container unused.
pub split-fleet :
    (limits : LimitsConfig) (table : Table) (source : String) (fallback total containers : ℕ)
    → lookup? (table_of limits table) source ≡ some total
    → limits.reserved_concurrency ≡ some containers
    → 1 ≤ containers
    → containers ≤ total
    → let each = split_upstream_per_minute (some limits) table source fallback in
      (1 ≤ each) × (containers * each ≤ total) × (total < containers * each + containers)
unfolding split_upstream_per_minute
split-fleet limits table source fallback total containers rate reserved pos fits =
    rw (rate, reserved, slice) (grind arith, grind arith, grind arith)
