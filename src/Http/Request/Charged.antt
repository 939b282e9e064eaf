-- ===== src/Http/Request/Charged.antt =====
-- The charges of `performRequest` (http/client.ts) to the limiter and to the budget.
use federal_mcps.Common.{
  ℕ, ◌+◌, ◌≤◌, ◌≡◌, refl, sym, ap, subst, ◌∙◌, true, false, Option, arith, inl, inr, ◌⊎◌,
}
use federal_mcps.Limits.Config.{UsageSnapshot, LimitInfo}
use federal_mcps.Limits.Context.{caller_of, count_upstream}
use federal_mcps.Limits.Limiter.{Outcome, done, refused}
use federal_mcps.Http.RateLimit.Acquire.{acquire-IsLater}
use federal_mcps.Http.Budget.{BudgetStore, consume}
use federal_mcps.Http.Notes.{note_near_limit}
use federal_mcps.Http.Client.{
  RawResponse, Request, Failure, limit_exceeded, ClientOptions, World, Limiter, Client, Result, ok,
  err, Action, ◌>>◌, bind-cases,
}
use federal_mcps.Http.Fetch.{check_errors}
use federal_mcps.Http.Request.{token_checks, acquire_token, charge_limiter, charge_budget}
use federal_mcps.Http.Request.Sent.{
  IsUnspent, IsUnspent-after, IsUnasked, denial, IsStopped, IsPaid, send_paid, IsSent,
  send_paid-IsSent,
}

module _ {V : Type 0} (l : Limiter) (o : ClientOptions) (w : World) where
  -- What the steps before the first fetch leave as it was.
  abbrev pub IsGate : Client l.State V → Client l.State V → Type 0
  IsGate s s' =
      IsUnspent s s' × (s'.limiter ≡ s.limiter) × (s'.context ≡ s.context) × (s.now ≤ s'.now)

  pub check_errors-IsGate : (s : Client l.State V) → IsGate s (check_errors o w s).1
  unfolding check_errors
  check_errors-IsGate s = ground arith

  pub acquire_token-IsGate : (s : Client l.State V) → IsGate s (acquire_token l o w s).1
  unfolding acquire_token
  acquire_token-IsGate s = (
    (refl, refl, refl, refl),
    refl,
    refl,
    acquire-IsLater w.late o.per_minute o.max_wait_ms token_checks s.now s.bucket,
  )

  -- A budget that allows no query.
  abbrev IsOver : Client l.State V → Failure → Client l.State V → Type 0
  IsOver s e s' =
      IsUnspent s s'
      × IsUnasked l o.source s s'
      × ((consume o.source 1 s.now s.budget).0.allowed ≡ false)
      × (e ≡ denial o.source (consume o.source 1 s.now s.budget).0)

  -- The charge to the budget, and what follows it.
  abbrev budget_paid : Request → Action (Client l.State V) RawResponse
  budget_paid req = charge_budget l o w >> send_paid l o w req

  abbrev IsBudgetPaid : Client l.State V → Result RawResponse × Client l.State V → Type 0
  IsBudgetPaid s p =
      ((e : Failure) × (p.0 ≡ err e) × IsOver s e p.1)
      ⊎ (((consume o.source 1 s.now s.budget).0.allowed ≡ true)
          × IsSent l o w (record s { budget = (consume o.source 1 s.now s.budget).1 }) p)

  abbrev with_budget : BudgetStore → Client l.State V → Client l.State V
  with_budget b s = record s { budget = b }

  -- How the charge to the budget ends.
  IsCharged : Client l.State V → Result Unit × Client l.State V → Type 0
  IsCharged s (ok _, s') =
      ((consume o.source 1 s.now s.budget).0.allowed ≡ true)
      × (s' ≡ with_budget (consume o.source 1 s.now s.budget).1 s)
  IsCharged s (err e, s') = IsOver s e s'

  charge_budget-IsCharged : (s : Client l.State V) → IsCharged s (charge_budget l o w s)
  unfolding charge_budget IsCharged consume
  charge_budget-IsCharged s = ground arith

  budget_paid-IsBudgetPaid :
      (req : Request) (s : Client l.State V) → IsBudgetPaid s (budget_paid req s)
  unfolding IsCharged
  budget_paid-IsBudgetPaid req s =
      bind-cases (λ p. IsBudgetPaid s p) (λ _. send_paid l o w req) (charge_budget l o w) s
        (λ a s₁ eq.
          let (allowed, same) = subst (λ p. IsCharged s p) eq (charge_budget-IsCharged s) in
          inr (
            allowed,
            subst
                (λ t.
                  IsSent l o w (with_budget (consume o.source 1 s.now s.budget).1 s)
                    (send_paid l o w req t))
                (sym same) (send_paid-IsSent l o w req _),
          ))
        (λ e s₁ eq. inl (e, refl, subst (λ p. IsCharged s p) eq (charge_budget-IsCharged s)))

  -- The charge to the limiter, and what follows it.
  abbrev pub limiter_paid : Request → Action (Client l.State V) RawResponse
  limiter_paid req = charge_limiter l o w >> budget_paid req

  IsAdmitted : Client l.State V → Result Unit × Client l.State V → Type 0
  IsAdmitted s (ok _, s') =
      (usage : Option UsageSnapshot) × (l.before_upstream o.source (caller_of s.context) s.now
          s.limiter
        ≡ (done usage, s'.limiter))
      × (s'.context ≡ note_near_limit usage s.context)
      × IsUnspent s s'
      × (s'.now ≡ s.now)
  IsAdmitted s (err e, s') =
      (info : LimitInfo) × (l.before_upstream o.source (caller_of s.context) s.now s.limiter
        ≡ (refused info, s'.limiter))
      × (s'.context ≡ s.context)
      × IsUnspent s s'
      × (e ≡ limit_exceeded info)

  -- The charge, with what the limiter answers.
  abbrev on_answer :
      Client l.State V → Outcome (Option UsageSnapshot) × l.State → Result Unit × Client l.State V
  on_answer s (r, limiter') = elim r [
    | refused info ↦ (err (limit_exceeded info), record s { limiter = limiter' })
    | done usage ↦
        (ok tt, record s { limiter = limiter'; context = note_near_limit usage s.context })
  ]

  answered :
      (s : Client l.State V) (p : Outcome (Option UsageSnapshot) × l.State)
      → l.before_upstream o.source (caller_of s.context) s.now s.limiter ≡ p
      → IsAdmitted s (on_answer s p)
  unfolding IsAdmitted
  answered s (done usage, limiter') e = (usage, e, refl, (refl, refl, refl, refl), refl)
  answered s (refused info, limiter') e = (info, e, refl, (refl, refl, refl, refl), refl)

  charge_limiter-IsAdmitted : (s : Client l.State V) → IsAdmitted s (charge_limiter l o w s)
  unfolding charge_limiter IsAdmitted
  charge_limiter-IsAdmitted s =
      let p = l.before_upstream o.source (caller_of s.context) s.now s.limiter in answered s p refl

  -- What the budget answers at the time, and of the counts, of `s₁`.
  consume-after :
      (s s₁ : Client l.State V)
      → s₁.now ≡ s.now
      → s₁.budget ≡ s.budget
      → consume o.source 1 s.now s.budget ≡ consume o.source 1 s₁.now s₁.budget
  consume-after s s₁ at bud =
      ap (λ (t : ℕ × BudgetStore). consume o.source 1 t.0 t.1) (λ i. (sym at i, sym bud i))

  IsPaid-after :
      (s s₁ s' : Client l.State V) (r : Result RawResponse)
      → IsAdmitted s (ok tt, s₁)
      → IsBudgetPaid s₁ (r, s')
      → IsStopped l o.source s (r, s') ⊎ IsPaid l o.source s (r, s')
  unfolding IsAdmitted
  IsPaid-after s s₁ s' r (usage, answer, noted, unspent, at)
        (inl (e, failed, (less, (lim, ctx), over, named))) =
      let same = consume-after s s₁ at unspent.1 in
      inl (
        subst (λ r. IsStopped l o.source s (r, s')) (sym failed)
          (
            IsUnspent-after s s₁ s' unspent less,
            inr (
                inr (
                  s.now,
                  usage,
                  omega arith,
                  rw lim answer,
                  ctx ∙ noted,
                  ap (λ q. q.0.allowed) same ∙ over,
                  named ∙ sym (ap (λ q. denial o.source q.0) same),
                )),
          ))
  IsPaid-after s s₁ s' r (usage, answer, noted, (fet₁, bud₁, cac₁, rec₁), at)
        (inr (allowed, (n, lim, bud, ctx, fet, le, has, cac))) =
      inr (
        s.now,
        usage,
        n,
        omega arith,
        rw lim answer,
        ap (λ q. q.0.allowed) (consume-after s s₁ at bud₁) ∙ allowed,
        bud ∙ sym (ap (λ q. q.1) (consume-after s s₁ at bud₁)),
        ctx ∙ ap count_upstream noted,
        fet ∙ ap (λ k. k + n) fet₁,
        le,
        has,
        cac ∙ cac₁,
      )

  pub limiter_paid-IsPaid :
      (req : Request) (s : Client l.State V)
      → IsStopped l o.source s (limiter_paid req s) ⊎ IsPaid l o.source s (limiter_paid req s)
  unfolding IsAdmitted
  limiter_paid-IsPaid req s =
      bind-cases (λ p. IsStopped l o.source s p ⊎ IsPaid l o.source s p) (λ _. budget_paid req)
        (charge_limiter l o w) s
        (λ a s₁ eq.
          let (usage, answer, noted, unspent, at) =
            subst (λ p. IsAdmitted s p) eq (charge_limiter-IsAdmitted s) in
          IsPaid-after s s₁ (budget_paid req s₁).1 (budget_paid req s₁).0
            (usage, answer, noted, unspent, at) (budget_paid-IsBudgetPaid req s₁))
        (λ e s₁ eq.
          let (info, answer, ctx, unspent, named) =
            subst (λ p. IsAdmitted s p) eq (charge_limiter-IsAdmitted s) in
          inl (unspent, inr (inl (s.now, info, omega arith, answer, ctx, named))))
