-- ===== src/Server/DescribeSource/Usage.antt =====
-- What `describe_source` learns of one budget (server/create-server.ts: `sourceLimits`,
-- limits/persistent-limiter.ts: `usage`).
use federal_mcps.Common.{
  ℕ, ◌+◌, ◌-◌, max, ◌≡◌, refl, ap, ◌∙◌, String, Bool, true, false, Option, none, some, [], ◌∷◌,
  or_else, arith,
}
use federal_mcps.Common.Dict.{Dict, lookup, lookup?}
use federal_mcps.Limits.Config.{LimitsConfig, UsageSnapshot}
use federal_mcps.Limits.CounterStore.{CounterStore, IsCounterStore}
use federal_mcps.Limits.MemoryStore.{Counts, read}
use federal_mcps.Limits.Limiter.Failing.{degraded-keeps}
use federal_mcps.Limits.Keys.{Counted, budget, service_counted}
use federal_mcps.Limits.Limiter.{LimiterState, for_usage, usage_reply, usage_of}
use federal_mcps.Server.DescribeSource.{
  UsageLimiter, ServiceBudget, service_budget, usage_of_source, if_any,
}

-- What is listed of a budget with a daily limit and so much used: what is used and what remains, which
-- add up to the limit, or to what is used where that is more; neither where there is no limiter.
abbrev pub IsBudgetOf : Bool → ℕ → ℕ → ServiceBudget → Type 0
IsBudgetOf false used daily b = (b.daily ≡ daily) × (b.used ≡ none) × (b.remaining ≡ none)
IsBudgetOf true used daily b =
    (remaining : ℕ) × (b.daily ≡ daily)
    × (b.used ≡ some used)
    × (b.remaining ≡ some remaining)
    × (used + remaining ≡ max used daily)

abbrev pub IsEntry : Dict ℕ → String × ℕ → Type 0
IsEntry dailies (source, daily) = lookup source dailies ≡ some daily

pub or_else-if_any : (service : Dict ServiceBudget) → or_else (if_any service) [] ≡ service
or_else-if_any [] = refl
or_else-if_any (entry ∷ entries) = refl

module _ (c : CounterStore) where
  -- Nothing that is counted differs.
  abbrev pub IsSame : LimiterState c.State → LimiterState c.State → Type 0
  IsSame s s' = (s'.store ≡ s.store) × (s'.fallback ≡ s.fallback)

  -- What is used of a source's budget: the store's count, or the count in memory where the store
  -- fails.
  abbrev pub used_now : LimiterState c.State → ℕ → String → ℕ → ℕ
  used_now s at source daily =
      let key = (budget source daily at).key in or_else (c.get key s.store).0 (read key s.fallback)

  abbrev pub IsBudget : Bool → ℕ → LimiterState c.State → Dict ℕ → String × ServiceBudget → Type 0
  IsBudget limited at s dailies (source, b) =
      (lookup source dailies ≡ some b.daily)
      × IsBudgetOf limited (used_now s at source b.daily) b.daily b

  -- A configured budget is listed.
  abbrev pub IsListed : Bool → ℕ → LimiterState c.State → Dict ServiceBudget → String → ℕ → Type 0
  IsListed limited at s service source daily =
      (b : ServiceBudget) × (lookup source service ≡ some b)
      × IsBudgetOf limited (used_now s at source daily) daily b

-- The persistent limiter's `usage`.
abbrev pub persistent : CounterStore → LimitsConfig → ℕ → UsageLimiter
persistent c config now = record {
  State = LimiterState c.State;
  usage = λ source at s. usage_of c config source at now s;
}

module _ (c : CounterStore) (laws : IsCounterStore c) (config : LimitsConfig) (now : ℕ)
    (limited : Bool) (at : ℕ) where
  reply-IsRead :
      (counted : Counted) (source : String) (used : Option ℕ) (s : LimiterState c.State)
      → let (usage, s') = usage_reply c counted source now used s in
        (usage.used ≡ or_else used (read counted.key s.fallback))
        × (usage.limit ≡ counted.limit)
        × IsSame c s s'
  unfolding usage_reply
  reply-IsRead counted source (some used) s = (refl, refl, (refl, refl))
  reply-IsRead counted source none s =
      let (fallback, over, store) = degraded-keeps for_usage now s in
      (refl, refl, (store, fallback))

  -- What the limiter says of a budget with the counts of `s₀`.
  pub usage-IsRead :
      (source : String) (daily : ℕ) (s₀ s : LimiterState c.State)
      → IsSame c s₀ s
      → lookup? config.service_daily source ≡ some daily
      → let (usage, s') = usage_of c config source at now s in
        ((u : UsageSnapshot) × (usage ≡ some u)
          × (u.used ≡ used_now c s₀ at source daily)
          × (u.limit ≡ daily))
        × IsSame c s₀ s'
  unfolding usage_of service_counted
  usage-IsRead source daily s₀ s (store, fallback) e =
      let counted = budget source daily at in
      let got = c.get counted.key s.store in
      let (u, s') = usage_reply c counted source now got.0 (record s { store = got.1 }) in
      let (used, limit, (store', fallback')) =
        reply-IsRead counted source got.0 (record s { store = got.1 }) in
      rw (e, usage_of, service_counted)
        (
          (
            u,
            refl,
            used
                ∙ ap
                    (λ (t : c.State × Counts).
                      or_else (c.get counted.key t.0).0 (read counted.key t.1))
                    (λ i. (store i, fallback i)),
            limit,
          ),
          (store' ∙ laws.get_state counted.key s.store ∙ store, fallback' ∙ fallback),
        )

  abbrev pub says : String → LimiterState c.State → Option UsageSnapshot × LimiterState c.State
  says source s = usage_of_source (persistent c config now) limited source at s

  pub service_budget-IsBudgetOf :
      (used daily : ℕ) (u : UsageSnapshot) (usage : Option UsageSnapshot)
      → usage ≡ some u
      → u.used ≡ used
      → u.limit ≡ daily
      → IsBudgetOf true used daily (service_budget daily usage)
  unfolding service_budget
  service_budget-IsBudgetOf used daily u usage e same full =
      rw e (u.limit - u.used, refl, ap some same, refl, omega (arith, same, full))
