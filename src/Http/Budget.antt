-- ===== src/Http/Budget.antt =====
-- `MemoryBudgetStore` (http/budget.ts): a daily budget of calls for each source.
use federal_mcps.Common.{
  ℕ, ◌+◌, ◌-◌, ◌≤◌, ◌<◌, String, ◌≡◌, refl, Bool, true, false, [], ◌∷◌, arith, ltb, or_else,
  if◌then◌else◌, eq_refl, Bool-cases, str_eq, inl, inr,
}
use federal_mcps.Common.Dict.{Dict, lookup, insert, lookup-insert}
use federal_mcps.Common.Text.{template}
use federal_mcps.Time.{day_key, resets_at}

pub record BudgetStore : Type 0 where
  pub used : Dict ℕ
  pub limit_per_day : ℕ

pub record BudgetResult : Type 0 where
  pub allowed : Bool
  pub remaining : ℕ
  pub resets_at : String
  pub limit : ℕ

abbrev pub budget_key : String → ℕ → String
budget_key source now = template (source ∷ ":" ∷ day_key now ∷ [])

unfoldable pub used_so_far : String → BudgetStore → ℕ
used_so_far key store = or_else (lookup key store.used) 0

-- `nextUtcMidnight` is the midnight of `resets_at`.
unfoldable pub consume : String → ℕ → ℕ → BudgetStore → BudgetResult × BudgetStore
unfolding used_so_far
consume source n now store =
    let key = budget_key source now in
    let used = used_so_far key store in
    if ltb store.limit_per_day (used + n)
    then (
      record {
        allowed = false;
        remaining = store.limit_per_day - used;
        resets_at = resets_at now;
        limit = store.limit_per_day;
      },
      store,
    )
    else (
      record {
        allowed = true;
        remaining = store.limit_per_day - (used + n);
        resets_at = resets_at now;
        limit = store.limit_per_day;
      },
      record store { used = insert key (used + n) store.used },
    )

-- No source's count passes the daily limit.
pub record IsWithin (store : BudgetStore) : Type 0 where
  pub each : (key : String) → used_so_far key store ≤ store.limit_per_day

abbrev with_count : String → ℕ → BudgetStore → BudgetStore
with_count key v store = record store { used = insert key v store.used }

used-insert :
    (key : String) (v : ℕ) (store : BudgetStore) (j : String)
    → used_so_far j (with_count key v store) ≡ (if str_eq key j then v else used_so_far j store)
unfolding used_so_far
used-insert key v store j = ground (arith, lookup-insert key j v store.used)

used-insert_self :
    (key : String) (v : ℕ) (store : BudgetStore) → used_so_far key (with_count key v store) ≡ v
used-insert_self key v store = simp (used-insert, eq_refl)

insert-IsWithin :
    (key : String) (v : ℕ) (store : BudgetStore)
    → v ≤ store.limit_per_day
    → IsWithin store
    → IsWithin (with_count key v store)
insert-IsWithin key v store le h = record { each = λ j. rw used-insert (ground (arith, h.each j)) }

-- One call of `consume`: allowed exactly when there is room for all `n`, and then it counts `n`;
-- otherwise nothing is counted. `remaining` is what is left, other keys keep their counts, and the
-- limit is kept.
pub consume_lem :
    (source : String) (n now : ℕ) (store : BudgetStore)
    → IsWithin store
    → let (r, store') = consume source n now store in
      let key = budget_key source now in
      (if r.allowed
        then used_so_far key store' ≡ used_so_far key store + n
        else ((store.limit_per_day < used_so_far key store + n) × (store' ≡ store)))
      × (used_so_far key store' + r.remaining ≡ store.limit_per_day)
      × IsWithin store'
unfolding consume
consume_lem source n now store h =
    let key = budget_key source now in
    elim (Bool-cases (ltb store.limit_per_day (used_so_far key store + n))) [
      | inl over ↦ rw (over, consume) ((ground arith, refl), omega (arith, h.each key), h)
      | inr room ↦
          rw (room, consume)
            (
              used-insert_self key _ store,
              rw used-insert_self (ground arith),
              insert-IsWithin key (used_so_far key store + n) store (ground arith) h,
            )
    ]
