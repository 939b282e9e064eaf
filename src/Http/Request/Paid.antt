-- ===== src/Http/Request/Paid.antt =====
-- The gates of `performRequest` (http/client.ts), one after the other.
use federal_mcps.Common.{
  ℕ, ◌+◌, ◌≡◌, refl, sym, ap, subst, ◌∙◌, Bool, true, false, Option, arith, inl, inr, ◌⊎◌,
  if◌then◌else◌,
}
use federal_mcps.Limits.Context.{CallContext, caller_of, count_upstream}
use federal_mcps.Http.Budget.{consume}
use federal_mcps.Http.Notes.{note_near_limit}
use federal_mcps.Http.Client.{
  RawResponse, Request, deadline_exceeded, FixtureMode, ClientOptions, World, Limiter, Client,
  Result, ok, err, Action, raise_if, ◌>>◌, bind-cases,
}
use federal_mcps.Http.Fetch.{check_errors, raise_if_aborted}
use federal_mcps.Http.Request.{acquire_token, replay, send, by_mode, perform_request}
use federal_mcps.Http.Request.Sent.{IsUnspent-after, denial, IsStopped, IsPaid}
use federal_mcps.Http.Request.Charged.{
  IsGate, check_errors-IsGate, acquire_token-IsGate, limiter_paid, limiter_paid-IsPaid,
}

module _ {V : Type 0} (l : Limiter) (o : ClientOptions) (w : World) where
  -- What a request that sends something does from `s` on: it stops, or it is paid for.
  abbrev pub IsSettled : Client l.State V → Result RawResponse × Client l.State V → Type 0
  IsSettled s p = IsStopped l o.source s p ⊎ IsPaid l o.source s p

  -- What the limiter answers, asked with the caller and the state of `s₁`.
  before_upstream-after :
      (s s₁ : Client l.State V) (at : ℕ)
      → s₁.limiter ≡ s.limiter
      → s₁.context ≡ s.context
      → l.before_upstream o.source (caller_of s.context) at s.limiter
        ≡ l.before_upstream o.source (caller_of s₁.context) at s₁.limiter
  before_upstream-after s s₁ at lim ctx =
      ap (λ (t : Option CallContext × l.State). l.before_upstream o.source (caller_of t.0) at t.1)
        (λ i. (sym ctx i, sym lim i))

  -- A stop after a gate is a stop.
  IsStopped-after :
      (s s₁ : Client l.State V) (p : Result RawResponse × Client l.State V)
      → IsGate l o w s s₁
      → IsStopped l o.source s₁ p
      → IsStopped l o.source s p
  IsStopped-after s s₁ (ok raw, s') gate h = h
  IsStopped-after s s₁ (err e, s') (unspent, lim₁, ctx₁, later) (less, inl (lim, ctx)) =
      (IsUnspent-after s s₁ s' unspent less, inl (lim ∙ lim₁, ctx ∙ ctx₁))
  IsStopped-after s s₁ (err e, s') (unspent, lim₁, ctx₁, later)
        (less, inr (inl (at, info, le, answer, ctx, named))) =
      (
        IsUnspent-after s s₁ s' unspent less,
        inr (
            inl (
              at,
              info,
              omega (arith, later, le),
              before_upstream-after s s₁ at lim₁ ctx₁ ∙ answer,
              ctx ∙ ctx₁,
              named,
            )),
      )
  IsStopped-after s s₁ (err e, s') (unspent, lim₁, ctx₁, later)
        (less, inr (inr (at, usage, le, answer, ctx, over, named))) =
      (
        IsUnspent-after s s₁ s' unspent less,
        inr (
            inr (
              at,
              usage,
              omega (arith, later, le),
              before_upstream-after s s₁ at lim₁ ctx₁ ∙ answer,
              ctx ∙ ap (λ c. note_near_limit usage c) ctx₁,
              ap (λ b. (consume o.source 1 at b).0.allowed) (sym unspent.1) ∙ over,
              named ∙ ap (λ b. denial o.source (consume o.source 1 at b).0) unspent.1,
            )),
      )

  IsSettled-after :
      (s s₁ : Client l.State V) (p : Result RawResponse × Client l.State V)
      → IsGate l o w s s₁
      → IsSettled s₁ p
      → IsSettled s p
  IsSettled-after s s₁ p gate (inl stopped) = inl (IsStopped-after s s₁ p gate stopped)
  IsSettled-after s s₁ (r, s') ((fet₁, bud₁, cac₁, rec₁), lim₁, ctx₁, later)
        (inr (at, usage, n, le, answer, allowed, bud, ctx, fet, max, has, cac)) =
      inr (
        at,
        usage,
        n,
        omega (arith, later, le),
        before_upstream-after s s₁ at lim₁ ctx₁ ∙ answer,
        ap (λ b. (consume o.source 1 at b).0.allowed) (sym bud₁) ∙ allowed,
        bud ∙ ap (λ b. (consume o.source 1 at b).1) bud₁,
        ctx ∙ ap (λ c. count_upstream (note_near_limit usage c)) ctx₁,
        fet ∙ ap (λ k. k + n) fet₁,
        max,
        has,
        cac ∙ cac₁,
      )

  -- A gate, and what follows it.
  gate-IsSettled :
      (m : Action (Client l.State V) Unit) (next : Action (Client l.State V) RawResponse)
      → ((s : Client l.State V) → IsGate l o w s (m s).1)
      → ((s : Client l.State V) → IsSettled s (next s))
      → (s : Client l.State V) → IsSettled s ((m >> next) s)
  gate-IsSettled m next gate rest s =
      bind-cases (λ p. IsSettled s p) (λ _. next) m s
        (λ a s₁ eq.
          IsSettled-after s s₁ (next s₁) (subst (λ p. IsGate l o w s p.1) eq (gate s)) (rest s₁))
        (λ e s₁ eq.
          let (unspent, lim, ctx, later) = subst (λ p. IsGate l o w s p.1) eq (gate s) in
          inl (unspent, inl (lim, ctx)))

  send-IsSettled : (req : Request) (s : Client l.State V) → IsSettled s (send l o w req s)
  unfolding send
  send-IsSettled req =
      gate-IsSettled (check_errors o w) (acquire_token l o w >> limiter_paid l o w req)
        (check_errors-IsGate l o w)
        (gate-IsSettled (acquire_token l o w) (limiter_paid l o w req) (acquire_token-IsGate l o w)
          (limiter_paid-IsPaid l o w req))

  abbrev pub IsOfMode :
      FixtureMode → Client l.State V → Result RawResponse × Client l.State V → Type 0
  IsOfMode FixtureMode.replay s p = p.1 ≡ s
  IsOfMode _ s p = IsSettled s p

  replay-keeps : (req : Request) (s : Client l.State V) → (replay l o w req s).1 ≡ s
  unfolding replay
  replay-keeps req s = ground arith

  by_mode-IsOfMode :
      (req : Request) (mode : FixtureMode) (s : Client l.State V)
      → IsOfMode mode s (by_mode l o w req mode s)
  by_mode-IsOfMode req FixtureMode.live s = send-IsSettled req s
  by_mode-IsOfMode req FixtureMode.replay s = replay-keeps req s
  by_mode-IsOfMode req FixtureMode.recording s = send-IsSettled req s

  -- A request whose caller has aborted, as a test tells.
  abbrev start : Request → Bool → Action (Client l.State V) RawResponse
  start req gone =
      raise_if gone (deadline_exceeded o.source req.url) >> by_mode l o w req o.fixture_mode

  start_lem :
      (req : Request) (gone : Bool) (s : Client l.State V)
      → if gone
        then start req gone s ≡ (err (deadline_exceeded o.source req.url), s)
        else IsOfMode o.fixture_mode s (start req gone s)
  start_lem req true s = refl
  start_lem req false s = by_mode-IsOfMode req o.fixture_mode s

  -- A request whose caller has aborted fails at once and leaves everything as it was. In replay mode
  -- it never fetches and leaves everything as it was. Otherwise it either fails having fetched,
  -- cached and recorded nothing and with the budget as it was, or, at some time not before the start,
  -- the limiter let it through, the budget allowed one query and counts exactly that one, the context
  -- counts one call, and at most three fetches were made, the number that an `HttpError` or
  -- `AgencyApiError` names; it succeeds only with a status below 400. Where it fails so, the context
  -- counts no call, and either the limiter and the context are as they were; or the limiter refused
  -- it, which the failure names, and the context is as it was; or the limiter let it through, and
  -- keeps that charge, but the budget allowed no query, which the failure names, and the context has
  -- the warning of that charge, if any.
  pub perform_request_lem :
      (req : Request) (s : Client l.State V)
      → let p = perform_request l o w req s in
        if w.aborted s.now
        then p ≡ (err (deadline_exceeded o.source req.url), s)
        else IsOfMode o.fixture_mode s p
  unfolding perform_request raise_if_aborted
  perform_request_lem req s = start_lem req (w.aborted s.now) s

  IsSettled-cache :
      (s : Client l.State V) (p : Result RawResponse × Client l.State V)
      → IsSettled s p
      → p.1.cache ≡ s.cache
  IsSettled-cache s (ok raw, s') (inl stopped) = absurd stopped
  IsSettled-cache s (err e, s') (inl ((fet, bud, cac, rec), h)) = cac
  IsSettled-cache s p (inr (at, usage, n, le, answer, allowed, bud, ctx, fet, max, has, cac)) = cac

  IsOfMode-cache :
      (mode : FixtureMode) (s : Client l.State V) (p : Result RawResponse × Client l.State V)
      → IsOfMode mode s p
      → p.1.cache ≡ s.cache
  IsOfMode-cache FixtureMode.live s p h = IsSettled-cache s p h
  IsOfMode-cache FixtureMode.replay s p h = ap (λ t. t.cache) h
  IsOfMode-cache FixtureMode.recording s p h = IsSettled-cache s p h

  start-cache :
      (req : Request) (gone : Bool) (s : Client l.State V) → (start req gone s).1.cache ≡ s.cache
  start-cache req true s = refl
  start-cache req false s =
      IsOfMode-cache o.fixture_mode s (start req false s) (by_mode-IsOfMode req o.fixture_mode s)

  -- A request leaves the cache to its caller.
  pub perform_request-cache :
      (req : Request) (s : Client l.State V) → (perform_request l o w req s).1.cache ≡ s.cache
  unfolding perform_request raise_if_aborted
  perform_request-cache req s = start-cache req (w.aborted s.now) s
