-- ===== src/Http/Request/Sent.antt =====
-- What a request does, once it has been paid for (http/client.ts: `performRequest`).
use federal_mcps.Common.{
  ℕ, ◌+◌, ◌-◌, ◌≤◌, ◌≡◌, ◌⊎◌, String, sym, ap, subst, ◌∙◌, true, false, Option, some, arith,
}
use federal_mcps.Limits.Config.{UsageSnapshot, LimitInfo}
use federal_mcps.Limits.Context.{caller_of, count_upstream}
use federal_mcps.Limits.Limiter.{Outcome, done, refused}
use federal_mcps.Http.Budget.{BudgetResult, consume}
use federal_mcps.Http.Retry.{max_attempts}
use federal_mcps.Http.Notes.{note_near_limit}
use federal_mcps.Http.Client.{
  RawResponse, Request, Failure, limit_exceeded, quota_exceeded, ClientOptions, World, Limiter,
  Client, Result, ok, err, Action, pure, ◌>>=◌, ◌>>◌, bind-cases,
}
use federal_mcps.Http.Fetch.{fetch_with_retry}
use federal_mcps.Http.Fetch.Attempts.{HasAttempts, IsRetried, fetch_with_retry-HasAttempts}
use federal_mcps.Http.Request.{count_call, note_headers, write_fixture}

module _ {L V : Type 0} where
  -- Nothing was fetched, charged to the budget, counted, cached or recorded.
  abbrev pub IsUnspent : Client L V → Client L V → Type 0
  IsUnspent s s' =
      (s'.fetched ≡ s.fetched)
      × (s'.budget ≡ s.budget)
      × (s'.cache ≡ s.cache)
      × (s'.recorded ≡ s.recorded)

  pub IsUnspent-after : (s s₁ s' : Client L V) → IsUnspent s s₁ → IsUnspent s₁ s' → IsUnspent s s'
  IsUnspent-after s s₁ s' (a, b, c, d) (f, g, h, i) = (f ∙ a, g ∙ b, h ∙ c, i ∙ d)

-- The failure that names a budget which allows no query.
abbrev pub denial : String → BudgetResult → Failure
denial source r = quota_exceeded source r.resets_at (some r.limit) (some (r.limit - r.remaining))

module _ {V : Type 0} (l : Limiter) (source : String) where
  -- What the limiter answers at `at`.
  abbrev asks : Client l.State V → ℕ → Outcome (Option UsageSnapshot) × l.State
  asks s at = l.before_upstream source (caller_of s.context) at s.limiter

  -- Neither the limiter nor the context has changed.
  abbrev pub IsUnasked : Client l.State V → Client l.State V → Type 0
  IsUnasked s s' = (s'.limiter ≡ s.limiter) × (s'.context ≡ s.context)

  -- The limiter refused; the context is as it was.
  abbrev pub IsRefused : Client l.State V → Failure → Client l.State V → Type 0
  IsRefused s e s' =
      (at : ℕ) × (info : LimitInfo) × (s.now ≤ at)
      × (asks s at ≡ (refused info, s'.limiter))
      × (s'.context ≡ s.context)
      × (e ≡ limit_exceeded info)

  -- The limiter let the call through, and keeps its charge, but the budget allowed no query; the
  -- context has at most a warning more.
  abbrev pub IsDenied : Client l.State V → Failure → Client l.State V → Type 0
  IsDenied s e s' =
      (at : ℕ) × (usage : Option UsageSnapshot) × (s.now ≤ at)
      × (asks s at ≡ (done usage, s'.limiter))
      × (s'.context ≡ note_near_limit usage s.context)
      × ((consume source 1 at s.budget).0.allowed ≡ false)
      × (e ≡ denial source (consume source 1 at s.budget).0)

  -- A call that stopped before the first fetch: it failed and spent nothing.
  abbrev pub IsStopped : Client l.State V → Result RawResponse × Client l.State V → Type 0
  IsStopped s (ok raw, s') = ⊥
  IsStopped s (err e, s') = IsUnspent s s' × (IsUnasked s s' ⊎ (IsRefused s e s' ⊎ IsDenied s e s'))

-- A call that was let through at `at`: the limiter charged it and answered with `usage`, the budget
-- allowed one query and counts it, the context counts one call, and `n` fetches were made, at most
-- three.
abbrev pub IsPaid :
    {V : Type 0} (l : Limiter)
    → String
    → Client l.State V
    → Result RawResponse × Client l.State V
    → Type 0
IsPaid l source s (r, s') =
    (at : ℕ) × (usage : Option UsageSnapshot) × (n : ℕ) × (s.now ≤ at)
    × (l.before_upstream source (caller_of s.context) at s.limiter ≡ (done usage, s'.limiter))
    × ((consume source 1 at s.budget).0.allowed ≡ true)
    × (s'.budget ≡ (consume source 1 at s.budget).1)
    × (s'.context ≡ count_upstream (note_near_limit usage s.context))
    × (s'.fetched ≡ s.fetched + n)
    × (n ≤ max_attempts)
    × HasAttempts n r
    × (s'.cache ≡ s.cache)

module _ {V : Type 0} (l : Limiter) (o : ClientOptions) (w : World) where
  -- The end of a request that has been let through.
  abbrev pub finish_send : Request → RawResponse → Action (Client l.State V) RawResponse
  finish_send req raw =
      note_headers l o w raw >> (write_fixture l o w req o.fixture_mode raw >> pure raw)

  abbrev pub send_paid : Request → Action (Client l.State V) RawResponse
  send_paid req = count_call l o w >> (fetch_with_retry o w req >>= λ raw. finish_send req raw)

  abbrev IsFinished :
      RawResponse → Client l.State V → Result RawResponse × Client l.State V → Type 0
  IsFinished raw s (r, s') =
      (r ≡ ok raw)
      × (s'.limiter ≡ s.limiter)
      × (s'.budget ≡ s.budget)
      × (s'.context ≡ s.context)
      × (s'.fetched ≡ s.fetched)
      × (s'.cache ≡ s.cache)

  finish_send-IsFinished :
      (req : Request) (raw : RawResponse) (s : Client l.State V)
      → IsFinished raw s (finish_send req raw s)
  unfolding write_fixture
  finish_send-IsFinished req raw s = ground arith

  -- What a request does once it has been let through.
  abbrev pub IsSent : Client l.State V → Result RawResponse × Client l.State V → Type 0
  IsSent s (r, s') =
      (n : ℕ) × (s'.limiter ≡ s.limiter)
      × (s'.budget ≡ s.budget)
      × (s'.context ≡ count_upstream s.context)
      × (s'.fetched ≡ s.fetched + n)
      × (n ≤ max_attempts)
      × HasAttempts n r
      × (s'.cache ≡ s.cache)

  retried-IsSent :
      (req : Request) (s s₁ : Client l.State V) (r : Result RawResponse)
      → IsRetried s (r, s₁)
      → (n : ℕ) × (s₁.limiter ≡ s.limiter)
        × (s₁.budget ≡ s.budget)
        × (s₁.context ≡ s.context)
        × (s₁.fetched ≡ s.fetched + n)
        × (n ≤ max_attempts)
        × HasAttempts n r
        × (s₁.cache ≡ s.cache)
  retried-IsSent req s s₁ r (n, e, le, h, keep) = (
    n,
    ap (λ t. t.limiter) keep,
    ap (λ t. t.budget) keep,
    ap (λ t. t.context) keep,
    e,
    le,
    h,
    ap (λ t. t.cache) keep,
  )

  pub send_paid-IsSent : (req : Request) (s : Client l.State V) → IsSent s (send_paid req s)
  send_paid-IsSent req s =
      let s₀ = record s { context = count_upstream s.context } in
      let h = fetch_with_retry-HasAttempts o w req s₀ in
      bind-cases (λ p. IsSent s p) (λ raw. finish_send req raw) (fetch_with_retry o w req) s₀
        (λ raw s₁ eq.
          let (same, lim, bud, ctx, fet, cac) = finish_send-IsFinished req raw s₁ in
          let (n, lim₁, bud₁, ctx₁, fet₁, le, has, cac₁) =
            retried-IsSent req s₀ s₁ (ok raw) (subst (λ p. IsRetried s₀ p) eq h) in
          (n, cc, cc, cc, cc, le, subst (λ r. HasAttempts n r) (sym same) has, cc))
        (λ e s₁ eq. retried-IsSent req s₀ s₁ (err e) (subst (λ p. IsRetried s₀ p) eq h))
