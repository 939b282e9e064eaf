-- ===== src/Limits/Tests.antt =====
-- Runs of the limits on small inputs.
use federal_mcps.Common.{
  ℕ, ◌+◌, ◌*◌, ◌≤◌, ◌<◌, String, ◌≡◌, ◌≢◌, refl, ap, sym, ◌⊎◌, Bool, true, false, true≢false, ◌∙◌,
  Option, none, some, List, [], ◌∷◌, arith, eq_refl, eq_iff, inl, inr, Bool-cases, if◌then◌else◌,
  str_eq,
}
use federal_mcps.Common.Int.{ℤ}
use federal_mcps.Common.Dict.{Dict, lookup, insert, lookup-insert}
use federal_mcps.Limits.Config.{
  LimitsConfig, Caller, CallerKind, LimitKind, LimitInfo, UsageSnapshot,
}
use federal_mcps.Limits.CounterStore.{CounterStore, IsCounterStore}
use federal_mcps.Limits.MemoryStore
use federal_mcps.Limits.MemoryStore.{memory_store, read}
use federal_mcps.Limits.MemoryStore.Laws.{memory_store-IsCounterStore}
use federal_mcps.Limits.DynamoStore.{
  DynamoLike, UpdateItem, UpdateReply, updated, condition_failed, GetReply, item, number_of,
  dynamo_store,
}
use federal_mcps.Limits.DynamoStore
use federal_mcps.Limits.DynamoStore.Laws.{
  condition, Updated, IsDynamo, dynamo_store-IsCounterStore, dynamo_passes_limit,
}
use federal_mcps.Limits.Keys.{
  exceeded, budget, service_key, service_counted, share_counted, counted_share,
}
use federal_mcps.Limits.Limiter.{
  done, refused, LimiterState, initial, refuse_if_known_over, count_one, settle, finish, charge,
  charge_share, charge_service, charge_both, before_upstream, snapshot,
}
use federal_mcps.Limits.Limiter.Budget.{before_upstream_refused_share}
use federal_mcps.Limits.Limiter.Budget.Run.{
  Call, tool_call, upstream, usage, run, IsWithin, run-IsWithin,
}
use federal_mcps.Limits.Limiter.Degraded.{before_upstream_over}
use federal_mcps.Limits.Limiter.Failing.{FailsFrom, charge_store_fails}
use federal_mcps.Limits.Split.{upstream_per_minute, split_upstream_per_minute, split-fleet}

abbrev two_a_day : LimitsConfig
two_a_day = record {
  service_daily = some (("bls", 2) ∷ []);
  network = some (record { upstream_daily = some 1; tool_calls_daily = none });
  pool = none;
  upstream_per_minute = some (("bls", 105) ∷ []);
  upstream_errors_per_minute = none;
  reserved_concurrency = some 10;
}

abbrev alice : Caller
alice = record {
  key = "a";
  kind = CallerKind.network;
  user_agent = none;
  bypass = false;
  test_limit = some 0;
}

-- A store whose every call is rejected.
abbrev broken_store : CounterStore
broken_store = record {
  State = Unit {0};
  increment = λ now pk by expires_at most s. (none, s);
  get = λ pk s. (none, s);
}

abbrev started : LimiterState memory_store.State
unfolding memory_store
started = initial []

abbrev calls : List Call
calls =
    upstream "bls" none 0 0
    ∷ upstream "bls" (some alice) 1 1
    ∷ usage "bls" 2 2
    ∷ tool_call (some alice) 3 3
    ∷ []

started-IsWithin : IsWithin memory_store memory_store-IsCounterStore two_a_day started
unfolding memory_store memory_store-IsCounterStore read lookup
started-IsWithin = record {
  stored = λ source at limit daily pos. omega arith;
  in_memory = λ source at limit daily pos. omega arith;
}

run-IsWithin_example :
    IsWithin memory_store memory_store-IsCounterStore two_a_day
      (run memory_store two_a_day calls started)
run-IsWithin_example =
    run-IsWithin memory_store memory_store-IsCounterStore two_a_day calls started started-IsWithin

abbrev first_snapshot : UsageSnapshot
first_snapshot = snapshot (budget "bls" 2 0) "bls" 1

first_query :
    (before_upstream memory_store two_a_day "bls" none 0 0 started).0 ≡ done (some first_snapshot)
unfolding before_upstream charge_both charge_share charge_service charge count_one settle finish
    refuse_if_known_over service_counted share_counted lookup memory_store read
    MemoryStore.increment
first_query = refl

-- Alice's share is 0, so her first query is refused.
abbrev alice_refusal : LimitInfo
alice_refusal = exceeded (counted_share alice LimitKind.upstream (some "bls") 0 0) 0

alice_refused :
    (before_upstream memory_store two_a_day "bls" (some alice) 0 0 started).0
    ≡ refused alice_refusal
unfolding before_upstream charge_both charge_share charge_service charge count_one settle finish
    refuse_if_known_over service_counted share_counted lookup memory_store read
    MemoryStore.increment
alice_refused = refl

before_upstream_refused_share_example :
    let s' = (before_upstream memory_store two_a_day "bls" (some alice) 0 0 started).1 in
    (memory_store-IsCounterStore.count s'.store (service_key "bls" 0)
      ≤ memory_store-IsCounterStore.count started.store (service_key "bls" 0))
    × (s'.fallback ≡ started.fallback)
before_upstream_refused_share_example =
    before_upstream_refused_share memory_store memory_store-IsCounterStore two_a_day "bls"
      (some alice) 0 0 started alice_refusal "bls" 0 alice_refused (λ e. cc)

abbrev spent : LimiterState memory_store.State
unfolding memory_store
spent = record {
  store = [];
  over = (service_key "bls" 0, 2) ∷ [];
  fallback = [];
  last_degraded = none;
  log = [];
}

spent_known : lookup (service_key "bls" 0) spent.over ≡ some 2
unfolding lookup spent
spent_known = ap (λ b. if b then some 2 else none) (eq_refl (service_key "bls" 0))

before_upstream_over_example :
    let s' = run memory_store two_a_day calls spent in
    (info : LimitInfo) × (before_upstream memory_store two_a_day "bls" none 0 5 s'
      ≡ (refused info, s'))
unfolding lookup
before_upstream_over_example =
    before_upstream_over memory_store two_a_day calls spent "bls" none 0 0 5 2 2 refl spent_known
      refl

charge_store_fails_example :
    FailsFrom broken_store none
      (budget "bls" 2 0)
      0
      0
      (initial tt)
      (charge broken_store (budget "bls" 2 0) 0 0 (initial tt))
unfolding lookup
charge_store_fails_example =
    charge_store_fails broken_store (budget "bls" 2 0) 0 0 (initial tt) refl

abbrev key : String
key = "k"

abbrev other_key : String
other_key = "j"

keys_differ : key ≢ other_key
keys_differ e = true≢false (sym (eq_refl key) ∙ ap (λ t. str_eq key t) e)

-- A DynamoDB of one table, whose calls never fail.
abbrev conditional : Dict ℕ → String → ℕ → Option ℕ → Bool → UpdateReply × Dict ℕ
conditional t pk by old true =
    (updated (some (number_of old + by)), insert pk (number_of old + by) t)
conditional t pk by old false = (condition_failed old, t)

abbrev one_table : DynamoLike
one_table = record {
  Table = Dict ℕ;
  update_item = λ u t. conditional t u.pk u.by (lookup u.pk t) (condition u.room (lookup u.pk t));
  get_item = λ pk t. (item (lookup pk t), t);
}

conditional-Updated :
    (t : Dict ℕ) (pk : String) (by : ℕ) (room : Option ℤ) (old : Option ℕ)
    → lookup pk t ≡ old
    → let (reply, t') = conditional t pk by old (condition room old) in
      Updated room by old reply (lookup pk t')
conditional-Updated t pk by room old e = elim (Bool-cases (condition room old)) [
  | inl passes ↦ rw passes (passes, refl, simp (lookup-insert, eq_refl))
  | inr fails ↦ rw fails (fails, refl, e)
]

conditional-other :
    (t : Dict ℕ) (pk : String) (by : ℕ) (old : Option ℕ) (b : Bool) (j : String)
    → pk ≢ j
    → lookup j (conditional t pk by old b).1 ≡ lookup j t
conditional-other t pk by old true j other = rw lookup-insert (ground (arith, eq_iff pk j))
conditional-other t pk by old false j other = refl

read_item : {n old : Option ℕ} → item old ≡ item n → n ≡ old
read_item e = cc

abbrev one_table-IsDynamo : IsDynamo one_table
one_table-IsDynamo = record {
  count = λ t pk. lookup pk t;
  update_self = λ u t. conditional-Updated t u.pk u.by u.room _ refl;
  update_other = λ u t j other. conditional-other t u.pk u.by _ _ j other;
  get_state = λ pk t. refl;
  get_value = λ pk t n e. read_item e;
}

dynamo_store-IsCounterStore_example : IsCounterStore (dynamo_store one_table)
dynamo_store-IsCounterStore_example = dynamo_store-IsCounterStore one_table one_table-IsDynamo

dynamo_passes_limit_example :
    let (r, t') = DynamoStore.increment one_table 0 "k" 1 5 (some 0) [] in
    ((r ≡ none)
      ⊎ ((r ≡ some (record { value = 1; applied = true }))
          × (one_table-IsDynamo.count t' "k" ≡ some 1)))
    × ((MemoryStore.increment 0 "k" 1 5 (some 0) []).0.applied ≡ false)
unfolding lookup
dynamo_passes_limit_example =
    dynamo_passes_limit one_table one_table-IsDynamo 0 "k" 1 5 0 [] [] refl (omega arith)

split-fleet_example :
    let each = split_upstream_per_minute (some two_a_day) upstream_per_minute "bls" 60 in
    (1 ≤ each) × (10 * each ≤ 105) × (105 < 10 * each + 10)
unfolding lookup
split-fleet_example =
    split-fleet two_a_day upstream_per_minute "bls" 60 105 10 refl refl (omega arith) (omega arith)

abbrev bls : String
bls = "bls"
