-- ===== src/Http/RateLimit.antt =====
-- The token bucket of the HTTP client (http/client.ts: `checkToken`, `acquireRateLimitToken`,
-- `noteRateLimitHeaders`). Tokens are counted in 1/60000 of one, so that `perMinute / 60_000` for
-- each millisecond is a whole number: the model is exact where the source, in floating point, rounds,
-- and may so find a bucket just short of a token, and wait once more, where the model grants it.
pub mod Rate
pub mod Acquire
use federal_mcps.Common.{
  ℕ, zero, suc, ◌+◌, ◌-◌, ◌*◌, ◌/◌, Bool, true, false, Option, none, some, ltb, leb, ◌==◌, min,
  if◌then◌else◌,
}

pub record Bucket : Type 0 where
  pub tokens : ℕ
  pub last_refill_ms : ℕ
  pub blocked_until_ms : ℕ

-- `{ waitMs }`; with `perMinute` 0 the wait is infinite.
pub data Pending : Type 0 where
  granted forever : Pending
  wait : ℕ → Pending

-- one token, and one minute
abbrev pub token : ℕ
token = 60_000

unfoldable pub initial : Option ℕ → ℕ → Bucket
initial none now = record { tokens = 0; last_refill_ms = now; blocked_until_ms = 0 }
initial (some per_minute) now = record {
  tokens = per_minute * token;
  last_refill_ms = now;
  blocked_until_ms = 0;
}

unfoldable pub refill : ℕ → ℕ → Bucket → Bucket
refill per_minute now b =
    if ltb b.last_refill_ms now
    then record b {
      tokens = min (per_minute * token) (b.tokens + (now - b.last_refill_ms) * per_minute);
      last_refill_ms = now;
    }
    else b

-- `Math.ceil(deficit / ratePerMs)`
abbrev pub wait_for : ℕ → ℕ → Pending
wait_for per_minute deficit =
    if per_minute == 0 then forever else wait ((deficit + per_minute - 1) / per_minute)

unfoldable pub take_token : ℕ → Bucket → Pending × Bucket
take_token per_minute b =
    if leb token b.tokens
    then (granted, record b { tokens = b.tokens - token })
    else (wait_for per_minute (token - b.tokens), b)

unfoldable pub check_token : Option ℕ → ℕ → Bucket → Pending × Bucket
unfolding refill take_token
check_token none now b = (granted, b)
check_token (some per_minute) now b =
    if ltb now b.blocked_until_ms
    then (wait (b.blocked_until_ms - now), b)
    else take_token per_minute (refill per_minute now b)

-- How the wait for a token ends: with one, with a wait that is too long, or (in the model alone)
-- when the rounds run out.
pub data Acquired : Type 0 where
  acquired out_of_rounds : Acquired
  too_long : Option ℕ → Acquired

-- `pending.waitMs > maxWaitMs`
abbrev pub exceeds_wait : ℕ → ℕ → Bool
exceeds_wait max_wait ms = ltb max_wait ms

-- One round of `acquireRateLimitToken` after the check. `late` is by how much a sleep that starts at
-- a time overshoots, `again` the rounds that follow; the last part of the result is the clock.
abbrev pub resume :
    (late : ℕ → ℕ) (max_wait : ℕ) (again : ℕ → Bucket → Acquired × Bucket × ℕ)
    → ℕ
    → Pending
    → Bucket
    → Acquired × Bucket × ℕ
resume late max_wait again now granted b = (acquired, b, now)
resume late max_wait again now forever b = (too_long none, b, now)
resume late max_wait again now (wait ms) b =
    if exceeds_wait max_wait ms then (too_long (some ms), b, now) else again (now + ms + late now) b

unfoldable pub acquire :
    (late : ℕ → ℕ) (per_minute : Option ℕ) (max_wait : ℕ) → ℕ → ℕ → Bucket → Acquired × Bucket × ℕ
acquire late per_minute max_wait zero now b = (out_of_rounds, b, now)
acquire late per_minute max_wait (suc rounds) now b =
    let (pending, b') = check_token per_minute now b in
    resume late max_wait (acquire late per_minute max_wait rounds) now pending b'

-- A response that reports no remaining quota closes the bucket for a minute.
unfoldable pub note_remaining : Option ℕ → Bool → ℕ → Bucket → Bucket
note_remaining none exhausted now b = b
note_remaining (some _) exhausted now b =
    if exhausted then record b { blocked_until_ms = now + token } else b
