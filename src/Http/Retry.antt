-- ===== src/Http/Retry.antt =====
-- Retry and backoff (http/retry.ts).
use federal_mcps.Common.{ℕ, ◌-◌, ◌*◌, ◌^◌, Bool, ◌||◌, Option, none, some, ◌==◌}

abbrev pub base_ms : ℕ
base_ms = 500

abbrev pub factor : ℕ
factor = 2

abbrev pub max_attempts : ℕ
max_attempts = 3

unfoldable pub is_retryable_status : ℕ → Bool
is_retryable_status status = status == 429 || status == 502 || status == 503 || status == 504

-- `Math.floor(random() * cap)`, for a `random` that is given what it is scaled to.
unfoldable pub compute_delay_ms : (random : ℕ → ℕ) → ℕ → ℕ
compute_delay_ms random attempt = random (base_ms * factor ^ (attempt - 1))

-- What `Number` and `Date.parse` make of a `Retry-After` header: absent or empty, a number of
-- seconds (none is negative or fractional here), a date, or neither.
pub data RetryAfter : Type 0 where
  absent unparseable : RetryAfter
  seconds date : ℕ → RetryAfter

-- `Math.max(0, dateMs - now)` is subtraction that stops at 0.
unfoldable pub parse_retry_after : RetryAfter → ℕ → Option ℕ
parse_retry_after absent now = none
parse_retry_after (seconds n) now = some (n * 1000)
parse_retry_after (date ms) now = some (ms - now)
parse_retry_after unparseable now = none
