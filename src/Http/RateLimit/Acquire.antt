-- ===== src/Http/RateLimit/Acquire.antt =====
-- The rounds of the wait for a token (http/client.ts: `acquireRateLimitToken`).
use federal_mcps.Common.{
  ℕ, zero, suc, ◌+◌, ◌-◌, ◌*◌, ◌/◌, ◌≤◌, ◌<◌, ◌≡◌, refl, ap, true, false, Option, none, some, arith,
  inl, inr, Bool-cases, ltb,
}
use federal_mcps.Http.RateLimit.{
  Bucket, Pending, granted, forever, wait, token, refill, take_token, check_token, acquire,
  Acquired, resume, acquired, too_long, out_of_rounds, exceeds_wait,
}

ltb-false : (a b : ℕ) → b ≤ a → ltb a b ≡ false
ltb-false a b h = ground arith

now_cancels : (now ms lateness : ℕ) → now + ms + lateness - now ≡ ms + lateness
now_cancels now ms lateness = omega arith

module _ (late : ℕ → ℕ) (per_minute : Option ℕ) (max_wait : ℕ) where
  abbrev IsLater : ℕ → Acquired × Bucket × ℕ → Type 0
  IsLater now (end, b, now') = now ≤ now'

  resume-IsLater :
      (again : ℕ → Bucket → Acquired × Bucket × ℕ)
      → ((now : ℕ) (b : Bucket) → IsLater now (again now b))
      → (now : ℕ) (pending : Pending) (b : Bucket)
      → IsLater now (resume late max_wait again now pending b)
  resume-IsLater again h now granted b = omega arith
  resume-IsLater again h now forever b = omega arith
  resume-IsLater again h now (wait ms) b = elim (Bool-cases (exceeds_wait max_wait ms)) [
    | inl long ↦ rw long (omega arith)
    | inr short ↦ rw short (omega (arith, h (now + ms + late now) b))
  ]

  -- The clock does not run back while a call waits for a token.
  pub acquire-IsLater :
      (rounds now : ℕ) (b : Bucket) → now ≤ (acquire late per_minute max_wait rounds now b).2
  unfolding acquire
  acquire-IsLater zero now b = omega arith
  acquire-IsLater (suc rounds) now b =
      let (pending, b') = check_token per_minute now b in
      resume-IsLater (acquire late per_minute max_wait rounds)
        (λ now' b₁. acquire-IsLater rounds now' b₁) now pending b'

module _ (late : ℕ → ℕ) (per_minute max_wait : ℕ) (pos : 1 ≤ per_minute) where
  -- A wait is as long as the deficit needs.
  wait-enough : (deficit : ℕ) → deficit ≤ (deficit + per_minute - 1) / per_minute * per_minute
  wait-enough deficit = grind arith

  -- A bucket that is not closed and holds a token, with what the time has brought, grants it.
  check-granted :
      (now : ℕ) (b : Bucket)
      → b.blocked_until_ms ≤ now
      → b.last_refill_ms ≤ now
      → token ≤ b.tokens + (now - b.last_refill_ms) * per_minute
      → (check_token (some per_minute) now b).0 ≡ granted
  unfolding check_token refill take_token
  check-granted now b unblocked past enough = grind arith

  -- Else it names a wait that is long enough, and is refilled up to now.
  abbrev NamesWait : ℕ → Bucket → Bucket → Pending → Type 0
  NamesWait now b b' granted = Unit
  NamesWait now b b' forever = ⊥
  NamesWait now b b' (wait ms) =
      (b'.last_refill_ms ≡ now)
      × (b'.blocked_until_ms ≡ b.blocked_until_ms)
      × (token ≤ b'.tokens + ms * per_minute)

  take_token-NamesWait :
      (now : ℕ) (b b₀ : Bucket)
      → b.last_refill_ms ≡ now
      → b.blocked_until_ms ≡ b₀.blocked_until_ms
      → let (pending, b') = take_token per_minute b in NamesWait now b₀ b' pending
  unfolding take_token
  take_token-NamesWait now b b₀ e f = ground (arith, wait-enough (token - b.tokens))

  refill-now :
      (now : ℕ) (b : Bucket)
      → b.last_refill_ms ≤ now
      → let b' = refill per_minute now b in
        (b'.last_refill_ms ≡ now) × (b'.blocked_until_ms ≡ b.blocked_until_ms)
  unfolding refill
  refill-now now b past = ground arith

  check-NamesWait :
      (now : ℕ) (b : Bucket)
      → b.blocked_until_ms ≤ now
      → b.last_refill_ms ≤ now
      → let (pending, b') = check_token (some per_minute) now b in NamesWait now b b' pending
  unfolding check_token
  check-NamesWait now b unblocked past =
      let (e, f) = refill-now now b past in
      rw (ltb-false now b.blocked_until_ms unblocked, check_token)
        (take_token-NamesWait now (refill per_minute now b) b e f)

  -- What the end of a wait may be: with a token, or because a wait was too long.
  abbrev pub Ends : Acquired → Type 0
  Ends acquired = Unit
  Ends out_of_rounds = ⊥
  Ends (too_long none) = ⊥
  Ends (too_long (some ms)) = max_wait < ms

  check-blocked :
      (now : ℕ) (b : Bucket)
      → ltb now b.blocked_until_ms ≡ true
      → check_token (some per_minute) now b ≡ (wait (b.blocked_until_ms - now), b)
  unfolding check_token
  check-blocked now b blocked = rw (blocked, check_token)

  acquire-step :
      (rounds now : ℕ) (b b' : Bucket) (pending : Pending)
      → check_token (some per_minute) now b ≡ (pending, b')
      → acquire late (some per_minute) max_wait (suc rounds) now b
        ≡ resume late max_wait (acquire late (some per_minute) max_wait rounds) now pending b'
  unfolding acquire
  acquire-step rounds now b b' pending e =
      ap (λ r. resume late max_wait (acquire late (some per_minute) max_wait rounds) now r.0 r.1) e

  -- A wait that is not too long goes on to the next round.
  Ends-wait :
      (rounds now ms : ℕ) (b b' : Bucket)
      → check_token (some per_minute) now b ≡ (wait ms, b')
      → Ends (acquire late (some per_minute) max_wait rounds (now + ms + late now) b').0
      → Ends (acquire late (some per_minute) max_wait (suc rounds) now b).0
  Ends-wait rounds now ms b b' e next = elim (Bool-cases (exceeds_wait max_wait ms)) [
    | inl long ↦ rw (acquire-step rounds now b b' (wait ms) e, long) (ground arith)
    | inr short ↦ rw (acquire-step rounds now b b' (wait ms) e, short) next
  ]

  third :
      (rounds now : ℕ) (b : Bucket)
      → b.blocked_until_ms ≤ now
      → b.last_refill_ms ≤ now
      → token ≤ b.tokens + (now - b.last_refill_ms) * per_minute
      → Ends (acquire late (some per_minute) max_wait (suc rounds) now b).0
  third rounds now b unblocked past enough =
      let e = check-granted now b unblocked past enough in
      rw
        (acquire-step rounds now b (check_token (some per_minute) now b).1 granted
          (λ i. (e i, (check_token (some per_minute) now b).1)))
        tt

  waited :
      (ms lateness last now tokens : ℕ)
      → last ≡ now
      → token ≤ tokens + ms * per_minute
      → token ≤ tokens + (now + ms + lateness - last) * per_minute
  waited ms lateness last now tokens e enough = rw (e, now_cancels now ms lateness) (grind arith)

  second_from :
      (rounds now : ℕ) (b b' : Bucket) (pending : Pending)
      → b.blocked_until_ms ≤ now
      → NamesWait now b b' pending
      → check_token (some per_minute) now b ≡ (pending, b')
      → Ends (acquire late (some per_minute) max_wait (suc (suc rounds)) now b).0
  second_from rounds now b b' granted unblocked names e =
      rw (acquire-step (suc rounds) now b b' granted e) tt
  second_from rounds now b b' forever unblocked names e = absurd names
  second_from rounds now b b' (wait ms) unblocked (last, same, enough) e =
      Ends-wait (suc rounds) now ms b b' e (
        third rounds (now + ms + late now) b' (omega arith) (omega arith)
          (waited ms (late now) b'.last_refill_ms now b'.tokens last enough))

  second :
      (rounds now : ℕ) (b : Bucket)
      → b.blocked_until_ms ≤ now
      → b.last_refill_ms ≤ now
      → Ends (acquire late (some per_minute) max_wait (suc (suc rounds)) now b).0
  second rounds now b unblocked past =
      second_from rounds now b (check_token (some per_minute) now b).1
        (check_token (some per_minute) now b).0 unblocked (check-NamesWait now b unblocked past)
        refl

  -- As tokens are counted here, exactly, with a rate of 1 or more and a clock that does not run back,
  -- three rounds are enough: the wait ends with a token, or because a single wait would have been
  -- longer than the longest allowed. In floating point the named wait may leave the bucket just short
  -- of a token, which takes one round more.
  pub acquire-Ends :
      (rounds now : ℕ) (b : Bucket)
      → b.last_refill_ms ≤ now
      → Ends (acquire late (some per_minute) max_wait (suc (suc (suc rounds))) now b).0
  acquire-Ends rounds now b past = elim (Bool-cases (ltb now b.blocked_until_ms)) [
    | inr unblocked ↦ second (suc rounds) now b (ground arith) past
    | inl blocked ↦
        Ends-wait (suc (suc rounds)) now (b.blocked_until_ms - now) b b
          (check-blocked now b blocked)
          (second rounds (now + (b.blocked_until_ms - now) + late now) b (omega arith)
            (omega arith))
  ]
