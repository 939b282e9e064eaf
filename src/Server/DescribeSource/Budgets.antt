-- ===== src/Server/DescribeSource/Budgets.antt =====
-- What `describe_source` says of the service budgets that the persistent limiter counts
-- (server/create-server.ts: `sourceLimits`, limits/persistent-limiter.ts: `usage`).
use mathlib.Core.Option.{some-injective}
use federal_mcps.Common.{
  eq_iff, ℕ, ◌≡◌, refl, sym, ap, subst, ◌∙◌, String, Bool, Option, none, some, [], ◌∷◌, or_else,
  str_eq, Bool-cases, inl, inr, All, ◌⊎◌,
}
use federal_mcps.Common.Dict.{Dict, lookup, lookup?, insert, lookup-insert}
use federal_mcps.Limits.Config.{LimitsConfig, UsageSnapshot}
use federal_mcps.Limits.CounterStore.{CounterStore, IsCounterStore}
use federal_mcps.Limits.Limiter.{LimiterState, usage_of}
use federal_mcps.Server.DescribeSource.{ServiceBudget, service_budget, add_budgets, source_limits}
use federal_mcps.Server.DescribeSource.Usage.{
  IsBudgetOf, IsEntry, or_else-if_any, IsSame, used_now, IsBudget, IsListed, persistent,
  usage-IsRead, says, service_budget-IsBudgetOf,
}

module _ (c : CounterStore) (laws : IsCounterStore c) (config : LimitsConfig) (now : ℕ)
    (limited : Bool) (at : ℕ) where
  -- What is said of a configured source, with the counts of `s₀`.
  says-IsBudgetOf :
      (source : String) (daily : ℕ) (s₀ s : LimiterState c.State)
      → IsSame c s₀ s
      → lookup? config.service_daily source ≡ some daily
      → let (usage, s') = says c laws config now limited at source s in
        IsBudgetOf limited (used_now c s₀ at source daily) daily (service_budget daily usage)
        × IsSame c s₀ s'
  unfolding service_budget
  says-IsBudgetOf source daily s₀ s same e = elim (Bool-cases limited) [
    | inl on ↦
        let ((u, said, used, full), same') =
          usage-IsRead c laws config now limited at source daily s₀ s same e in
        rw on (
          service_budget-IsBudgetOf c laws config now limited at (used_now c s₀ at source daily)
              daily u (usage_of c config source at now s).0 said used full,
          same',
        )
    | inr off ↦ rw off ((refl, refl, refl), same)
  ]

  insert-All :
      (s₀ : LimiterState c.State) (dailies : Dict ℕ) (source : String) (b : ServiceBudget)
      (service : Dict ServiceBudget)
      → IsBudget c limited at s₀ dailies (source, b)
      → All (IsBudget c limited at s₀ dailies) service
      → All (IsBudget c limited at s₀ dailies) (insert source b service)
  unfolding insert
  insert-All s₀ dailies source b [] h hs = (h, tt)
  insert-All s₀ dailies source b ((other, w) ∷ service) h (ho, hs) =
      elim (Bool-cases (str_eq other source)) [
        | inl same ↦ rw (same, insert) (h, hs)
        | inr differ ↦ rw (differ, insert) (ho, insert-All s₀ dailies source b service h hs)
      ]

  abbrev listed_after : Dict ServiceBudget → Dict ℕ → LimiterState c.State → Dict ServiceBudget
  listed_after service entries s =
      (add_budgets (persistent c config now) limited service entries at s).0

  daily-service_budget :
      (daily : ℕ) (usage : Option UsageSnapshot) → (service_budget daily usage).daily ≡ daily
  unfolding service_budget
  daily-service_budget daily none = refl
  daily-service_budget daily (some usage) = refl

  -- All that is listed is configured.
  add_budgets-IsBudget :
      (dailies entries : Dict ℕ) (service : Dict ServiceBudget) (s₀ s : LimiterState c.State)
      → config.service_daily ≡ some dailies
      → IsSame c s₀ s
      → All (IsEntry dailies) entries
      → All (IsBudget c limited at s₀ dailies) service
      → All (IsBudget c limited at s₀ dailies) (listed_after service entries s)
  unfolding add_budgets
  add_budgets-IsBudget dailies [] service s₀ s e same hs h = h
  add_budgets-IsBudget dailies ((source, daily) ∷ entries) service s₀ s e same (found, hs) h =
      let (usage, s') = says c laws config now limited at source s in
      let b = service_budget daily usage in
      let (counted, same') =
        says-IsBudgetOf source daily s₀ s same (ap (λ o. lookup? o source) e ∙ found) in
      let full = daily-service_budget daily usage in
      add_budgets-IsBudget dailies entries (insert source b service) s₀ s' e same' hs (
        insert-All s₀ dailies source b service
          (
            found ∙ ap some (sym full),
            subst (λ d. IsBudgetOf limited (used_now c s₀ at source d) d b) (sym full) counted,
          )
          h)

  -- All that is configured is listed, once it has been, or is still to come.
  add_budgets-IsListed :
      (dailies entries : Dict ℕ) (service : Dict ServiceBudget) (s₀ s : LimiterState c.State)
      (source : String) (daily : ℕ)
      → config.service_daily ≡ some dailies
      → IsSame c s₀ s
      → All (IsEntry dailies) entries
      → lookup source dailies ≡ some daily
      → IsListed c limited at s₀ service source daily ⊎ (lookup source entries ≡ some daily)
      → IsListed c limited at s₀ (listed_after service entries s) source daily
  unfolding add_budgets lookup
  add_budgets-IsListed dailies [] service s₀ s source daily e same hs known (inl h) = h
  add_budgets-IsListed dailies [] service s₀ s source daily e same hs known (inr impossible) =
      absurd (cc impossible)
  add_budgets-IsListed dailies ((next, limit) ∷ entries) service s₀ s source daily e same
        (found, hs) known h =
      let (usage, s') = says c laws config now limited at next s in
      let b = service_budget limit usage in
      let (counted, same') =
        says-IsBudgetOf next limit s₀ s same (ap (λ o. lookup? o next) e ∙ found) in
      let look = lookup-insert next source b service in
      add_budgets-IsListed dailies entries (insert next b service) s₀ s' source daily e same' hs
        known
        (elim (Bool-cases (str_eq next source)) [
          | inl this ↦
              let name = (eq_iff next source).0 this in
              let full : limit ≡ daily =
                some-injective limit daily (sym found ∙ ap (λ k. lookup k dailies) name ∙ known) in
              inl (
                b,
                rw this at look,
                subst (λ k. IsBudgetOf limited (used_now c s₀ at k daily) daily b) name
                    (subst (λ d. IsBudgetOf limited (used_now c s₀ at next d) d b) full counted),
              )
          | inr other ↦ elim h [
            | inl (b₀, listed, right) ↦ inl (b₀, (rw other at look) ∙ listed, right)
            | inr later ↦ inr (rw other at later)
          ]
        ])

  -- Where daily budgets are configured, each source once, `describe_source` lists these and no
  -- others, each with its configured daily limit; where there is a limiter, with what is used of it,
  -- as the store counts it, or the memory where the store fails, and with what remains: the two add
  -- up to the limit, or to what is used where that is more. Without a limiter neither is given.
  pub source_limits-IsBudget :
      (dailies : Dict ℕ) (s : LimiterState c.State)
      → config.service_daily ≡ some dailies
      → All (IsEntry dailies) dailies
      → let listed =
          or_else (source_limits (persistent c config now) limited config at s).0.service [] in
        All (IsBudget c limited at s dailies) listed
        × ((source : String) (daily : ℕ)
            → lookup source dailies ≡ some daily
            → IsListed c limited at s listed source daily)
  unfolding source_limits
  source_limits-IsBudget dailies s e hs =
      let listed = λ (entries : Dict ℕ). listed_after [] entries s in
      let these =
        or_else-if_any (listed (or_else config.service_daily []))
        ∙ ap (λ o. listed (or_else o [])) e in
      (
        subst (All (IsBudget c limited at s dailies)) (sym these)
            (add_budgets-IsBudget dailies dailies [] s s e (refl, refl) hs tt),
        λ source daily known.
            subst (λ l. IsListed c limited at s l source daily) (sym these)
              (add_budgets-IsListed dailies dailies [] s s source daily e (refl, refl) hs known
                (inr known)),
      )
