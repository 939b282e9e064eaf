-- ===== src/Http/RateLimit/Rate.antt =====
-- The tokens that a sequence of events is granted (http/client.ts: `checkToken`).
use federal_mcps.Common.{
  ℕ, ◌+◌, ◌-◌, ◌*◌, ◌≤◌, ◌≡◌, Bool, some, List, [], ◌∷◌, arith, inl, inr, Bool-cases, ltb,
}
use federal_mcps.Http.RateLimit.{
  Bucket, Pending, granted, token, refill, take_token, check_token, note_remaining,
}

-- What happens to a bucket: somebody asks for a token, or a response is read.
pub data Event : Type 0 where
  ask : ℕ → Event
  response : Bool → ℕ → Event

abbrev pub one_if_granted : Pending → ℕ
one_if_granted granted = 1
one_if_granted _ = 0

-- The tokens granted over a sequence of events, and the bucket after it.
unfoldable pub grants : ℕ → List Event → Bucket → ℕ × Bucket
grants per_minute [] b = (0, b)
grants per_minute (ask now ∷ events) b =
    let (pending, b') = check_token (some per_minute) now b in
    let (n, b'') = grants per_minute events b' in (one_if_granted pending + n, b'')
grants per_minute (response exhausted now ∷ events) b =
    grants per_minute events (note_remaining (some per_minute) exhausted now b)

-- Tokens spent and held are no more than those held before and those that the time elapsed brings.
abbrev pub IsPaid : ℕ → ℕ → Bucket → Bucket → Type 0
IsPaid per_minute n b b' =
    (b.last_refill_ms ≤ b'.last_refill_ms)
    × (n * token + b'.tokens ≤ b.tokens + per_minute * (b'.last_refill_ms - b.last_refill_ms))

refill-IsPaid : (per_minute now : ℕ) (b : Bucket) → IsPaid per_minute 0 b (refill per_minute now b)
unfolding refill
refill-IsPaid per_minute now b = grind arith

take_token-IsPaid :
    (per_minute : ℕ) (b : Bucket)
    → let (pending, b') = take_token per_minute b in IsPaid per_minute (one_if_granted pending) b b'
unfolding take_token
take_token-IsPaid per_minute b = grind arith

IsPaid-trans :
    (per_minute m n : ℕ) (a b c : Bucket)
    → IsPaid per_minute m a b
    → IsPaid per_minute n b c
    → IsPaid per_minute (m + n) a c
IsPaid-trans per_minute m n a b c (h, p) (k, q) = (omega arith, grind arith)

IsPaid-refill :
    (per_minute n : ℕ) (a b c : Bucket)
    → IsPaid per_minute 0 a b
    → IsPaid per_minute n b c
    → IsPaid per_minute n a c
IsPaid-refill per_minute n a b c (h, p) (k, q) = (omega arith, grind arith)

check_token-IsPaid :
    (per_minute now : ℕ) (b : Bucket)
    → let (pending, b') = check_token (some per_minute) now b in
      IsPaid per_minute (one_if_granted pending) b b'
unfolding check_token
check_token-IsPaid per_minute now b = elim (Bool-cases (ltb now b.blocked_until_ms)) [
  | inl blocked ↦ rw (blocked, check_token) (omega arith, omega arith)
  | inr free ↦
      rw (free, check_token)
        (IsPaid-refill per_minute _ b (refill per_minute now b)
          (take_token per_minute (refill per_minute now b)).1 (refill-IsPaid per_minute now b)
          (take_token-IsPaid per_minute (refill per_minute now b)))
]

note_remaining-IsPaid :
    (per_minute now : ℕ) (exhausted : Bool) (b : Bucket)
    → IsPaid per_minute 0 b (note_remaining (some per_minute) exhausted now b)
unfolding note_remaining
note_remaining-IsPaid per_minute now exhausted b = ground arith

grants-IsPaid :
    (per_minute : ℕ) (events : List Event) (b : Bucket)
    → let (n, b') = grants per_minute events b in IsPaid per_minute n b b'
unfolding grants
grants-IsPaid per_minute [] b = (omega arith, omega arith)
grants-IsPaid per_minute (ask now ∷ events) b =
    let (pending, b') = check_token (some per_minute) now b in
    IsPaid-trans per_minute _ _ b b' (grants per_minute events b').1
      (check_token-IsPaid per_minute now b) (grants-IsPaid per_minute events b')
grants-IsPaid per_minute (response exhausted now ∷ events) b =
    let b' = note_remaining (some per_minute) exhausted now b in
    IsPaid-refill per_minute _ b b' (grants per_minute events b').1
      (note_remaining-IsPaid per_minute now exhausted b) (grants-IsPaid per_minute events b')

abbrev pub AllBefore : ℕ → List Event → Type 0
AllBefore t [] = Unit
AllBefore t (ask now ∷ events) = (now ≤ t) × AllBefore t events
AllBefore t (response _ _ ∷ events) = AllBefore t events

check_token-before :
    (per_minute now t : ℕ) (b : Bucket)
    → now ≤ t
    → b.last_refill_ms ≤ t
    → (check_token (some per_minute) now b).1.last_refill_ms ≤ t
unfolding check_token refill take_token
check_token-before per_minute now t b h k = ground arith

note_remaining-last :
    (per_minute now : ℕ) (exhausted : Bool) (b : Bucket)
    → (note_remaining (some per_minute) exhausted now b).last_refill_ms ≡ b.last_refill_ms
unfolding note_remaining
note_remaining-last per_minute now exhausted b = ground arith

grants-before :
    (per_minute t : ℕ) (events : List Event) (b : Bucket)
    → AllBefore t events
    → b.last_refill_ms ≤ t
    → (grants per_minute events b).1.last_refill_ms ≤ t
unfolding grants
grants-before per_minute t [] b all h = h
grants-before per_minute t (ask now ∷ events) b (k, all) h =
    grants-before per_minute t events _ all (check_token-before per_minute now t b k h)
grants-before per_minute t (response exhausted now ∷ events) b all h =
    grants-before per_minute t events _ all (rw (note_remaining-last per_minute now exhausted b) h)

within_rate :
    (per_minute n t : ℕ) (b b' : Bucket)
    → b.tokens ≤ per_minute * token
    → b.last_refill_ms ≤ b'.last_refill_ms
    → b'.last_refill_ms ≤ t
    → n * token + b'.tokens ≤ b.tokens + per_minute * (b'.last_refill_ms - b.last_refill_ms)
    → n * token ≤ per_minute * (token + (t - b.last_refill_ms))
within_rate per_minute n t b b' cap h k paid = grind arith

-- From any bucket that is not over its capacity, the requests granted up to a time `t`, in whatever
-- order, by however many callers, with responses read in between, and even if the clock jumps
-- back, number at most the rate for the time since the last refill, and one minute more.
pub grants_within_rate :
    (per_minute t : ℕ) (events : List Event) (b : Bucket)
    → b.tokens ≤ per_minute * token
    → AllBefore t events
    → b.last_refill_ms ≤ t
    → (grants per_minute events b).0 * token ≤ per_minute * (token + (t - b.last_refill_ms))
grants_within_rate per_minute t events b cap all h =
    let (k, paid) = grants-IsPaid per_minute events b in
    let before = grants-before per_minute t events b all h in
    within_rate per_minute _ t b (grants per_minute events b).1 cap k before paid
