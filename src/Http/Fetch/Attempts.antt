-- ===== src/Http/Fetch/Attempts.antt =====
-- What the attempts of `fetchWithRetry` (http/client.ts) cost, and what they leave alone.
use federal_mcps.Common.{
  ℕ, zero, suc, ◌+◌, ◌-◌, ◌≤◌, ◌<◌, ◌≡◌, refl, true, false, arith, Bool-cases, inl, inr,
  Option-cases, subst,
}
use federal_mcps.Http.ErrorWindow
use federal_mcps.Http.ErrorWindow.{Window}
use federal_mcps.Http.Retry.{max_attempts}
use federal_mcps.Http.Client.{
  RawResponse, Request, Failure, http_error, network_error, agency_api_error, cut_short,
  ClientOptions, Fetched, responded, threw, World, Client, Result, ok, err, Action, pure, ◌>>=◌,
  ◌>>◌,
}
use federal_mcps.Http.Fetch.{
  Verdict, give, again, check_errors, note_error, call_fetch, sleep, judge_final, judge_retryable,
  judge, raise_if_aborted, one_attempt, attempts_from, fetch_with_retry,
}

-- What a failure after `n` fetches says of their number.
pub FailsAfter : ℕ → Failure → Type 0
FailsAfter n (http_error _ _ _ attempts) = attempts ≡ n
FailsAfter n (agency_api_error _ _ _ _ attempts) = attempts ≡ n
FailsAfter n (network_error _ _) = n ≡ max_attempts
FailsAfter n cut_short = ⊥
FailsAfter n _ = Unit

abbrev pub HasAttempts : ℕ → Result RawResponse → Type 0
HasAttempts n (ok raw) = (1 ≤ n) × (raw.status < 400)
HasAttempts n (err e) = FailsAfter n e

-- After `n` fetches an attempt ends with a response, a failure, or a wait if another may follow.
EndsAttempt : ℕ → ℕ → Result Verdict → Type 0
EndsAttempt attempt n (ok (give raw)) = (n ≡ 1) × (raw.status < 400)
EndsAttempt attempt n (ok (again ms)) = (n ≡ 1) × (attempt < max_attempts)
EndsAttempt attempt n (err f) = (n ≤ 1) × FailsAfter (attempt - 1 + n) f

module _ {L V : Type 0} where
  -- Only the clock, the count of the fetches and the error window may change.
  abbrev pub IsElsewhereKept : Client L V → Client L V → Type 0
  IsElsewhereKept s s' = s' ≡ record s { now = s'.now; fetched = s'.fetched; window = s'.window }

  abbrev pub IsRetried : Client L V → Result RawResponse × Client L V → Type 0
  IsRetried s (r, s') =
      (n : ℕ) × (s'.fetched ≡ s.fetched + n)
      × (n ≤ max_attempts)
      × HasAttempts n r
      × IsElsewhereKept s s'

  module _ (o : ClientOptions) (w : World) (req : Request) where
    -- An attempt's answer is judged without another fetch.
    judge-EndsAttempt :
        (attempt : ℕ) (f : Fetched) (s : Client L V)
        → 1 ≤ attempt
        → attempt ≤ max_attempts
        → let (r, s') = judge o w req attempt f s in
          EndsAttempt attempt 1 r × (s'.fetched ≡ s.fetched) × IsElsewhereKept s s'
    unfolding judge judge_final judge_retryable note_error EndsAttempt FailsAfter
    judge-EndsAttempt attempt (threw true b) s pos le = ground arith
    judge-EndsAttempt attempt (threw false true) s pos le = ground arith
    judge-EndsAttempt attempt (threw false false) s pos le = ground arith
    judge-EndsAttempt attempt (responded raw) s pos le = ground arith

    -- What an attempt that starts at `s` and ends at `s'` did.
    abbrev IsAttempt : ℕ → Client L V → Result Verdict × Client L V → Type 0
    IsAttempt attempt s (r, s') =
        (n : ℕ) × (s'.fetched ≡ s.fetched + n) × EndsAttempt attempt n r × IsElsewhereKept s s'

    one_attempt-IsAttempt :
        (attempt : ℕ) (s : Client L V)
        → 1 ≤ attempt
        → attempt ≤ max_attempts
        → IsAttempt attempt s (one_attempt o w req attempt s)
    unfolding one_attempt raise_if_aborted check_errors call_fetch EndsAttempt FailsAfter
    one_attempt-IsAttempt attempt s pos le =
        let (full, window') = ErrorWindow.check_error_limit o.errors_per_minute s.now s.window in
        let s' = (call_fetch o w req (record s { window = window' })).1 in
        let h = judge-EndsAttempt attempt (w.fetch s.fetched req) s' pos le in
        elim (Bool-cases (w.aborted s.now)) [
          | inl gone ↦ (0, ground arith, ground arith, ground arith)
          | inr live ↦ elim (Option-cases full) [
            | inl free ↦ (1, ground (arith, h), ground (arith, h), ground (arith, h))
            | inr (ends, e) ↦ (0, ground arith, ground arith, ground arith)
          ]
        ]

    -- What the attempts from the `attempt`-th on did.
    abbrev IsCall : ℕ → Client L V → Result RawResponse × Client L V → Type 0
    IsCall attempt s (r, s') =
        (n : ℕ) × (s'.fetched ≡ s.fetched + n)
        × (attempt + n ≤ suc max_attempts)
        × HasAttempts (attempt - 1 + n) r
        × IsElsewhereKept s s'

    -- How the loop goes on after an attempt that has ended in `p`.
    abbrev proceed : ℕ → ℕ → Result Verdict × Client L V → Action (Client L V) RawResponse
    proceed fuel attempt p = (λ _. p) >>= elim [
      | give raw ↦ pure raw
      | again ms ↦ sleep o w ms >> attempts_from o w req fuel (attempt + 1)
    ]

    proceed-IsCall :
        (fuel attempt : ℕ) (s : Client L V) (p : Result Verdict × Client L V)
        → 1 ≤ attempt
        → attempt ≤ max_attempts
        → IsAttempt attempt s p
        → ((s₁ : Client L V)
            → attempt < max_attempts
            → IsCall (attempt + 1) s₁ (attempts_from o w req fuel (attempt + 1) s₁))
        → IsCall attempt s (proceed fuel attempt p s)
    unfolding EndsAttempt sleep
    proceed-IsCall fuel attempt s (ok (give raw), s₁) pos max (n, e, (one, below), keep) ih =
        (n, e, omega arith, (omega arith, below), keep)
    proceed-IsCall fuel attempt s (ok (again ms), s₁) pos max (n, e, (one, lt), keep) ih =
        let (k, f, le, has, keep') = ih (sleep o w ms s₁).1 lt in
        (
          1 + k,
          omega arith,
          omega arith,
          subst
              (λ m. HasAttempts m (attempts_from o w req fuel (attempt + 1) (sleep o w ms s₁).1).0)
              (omega arith) has,
          cc,
        )
    proceed-IsCall fuel attempt s (err e, s₁) pos max (n, eq, (le, h), keep) ih =
        (n, eq, omega arith, h, keep)

    attempts-IsCall :
        (fuel attempt : ℕ) (s : Client L V)
        → 1 ≤ attempt
        → attempt ≤ max_attempts
        → fuel + attempt ≡ suc max_attempts
        → IsCall attempt s (attempts_from o w req fuel attempt s)
    unfolding attempts_from
    attempts-IsCall zero attempt s pos le e = absurd (omega arith)
    attempts-IsCall (suc fuel) attempt s pos le e =
        proceed-IsCall fuel attempt s (one_attempt o w req attempt s) pos le
          (one_attempt-IsAttempt attempt s pos le)
          (λ s₁ lt. attempts-IsCall fuel (attempt + 1) s₁ (omega arith) (omega arith) (omega arith))

    -- One call makes at least one and at most three fetches when it succeeds, and at most three when
    -- it fails; it never runs out of rounds; an `HttpError` or `AgencyApiError` names the number of
    -- fetches made, and a `NetworkError` comes after three. A response that is given has a status
    -- below 400. Nothing changes but the clock, the number of fetches and the error window.
    pub fetch_with_retry-HasAttempts : (s : Client L V) → IsRetried s (fetch_with_retry o w req s)
    unfolding fetch_with_retry
    fetch_with_retry-HasAttempts s =
        let (n, e, le, h, keep) = attempts-IsCall 3 1 s (omega arith) (omega arith) refl in
        (
          n,
          e,
          omega arith,
          subst (λ m. HasAttempts m (fetch_with_retry o w req s).0) (omega arith) h,
          keep,
        )
