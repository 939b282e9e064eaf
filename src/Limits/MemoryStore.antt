-- ===== src/Limits/MemoryStore.antt =====
-- `MemoryCounterStore` (limits/counter-store.ts). `Map` order plays no part: the sweep keeps the
-- entries that have not expired.
pub mod Laws
use federal_mcps.Common.{
  ℕ, ◌+◌, String, Bool, true, false, Option, none, some, [], ◌∷◌, leb, ltb, if◌then◌else◌, length,
}
use federal_mcps.Common.Dict.{Dict, lookup, insert, erase}
use federal_mcps.Limits.CounterStore.{IncrementResult, CounterStore}

pub record Entry : Type 0 where
  pub value : ℕ
  pub expires_at : ℕ

abbrev pub Counts : Type 0
Counts = Dict Entry

abbrev pub sweep_at : ℕ
sweep_at = 10_000

-- `this.counts.get(pk)?.value ?? 0`
abbrev pub value_of : Option Entry → ℕ
value_of none = 0
value_of (some e) = e.value

unfoldable pub read : String → Counts → ℕ
read pk counts = value_of (lookup pk counts)

-- the loop of `sweep`, over the entries that the map holds
drop_expired : ℕ → Counts → Counts → Counts
drop_expired now_ms [] counts = counts
drop_expired now_ms ((pk, entry) ∷ rest) counts =
    drop_expired now_ms rest (if leb entry.expires_at now_ms then erase pk counts else counts)

sweep : ℕ → Counts → Counts
unfolding drop_expired
sweep now_ms counts =
    if ltb (length counts) sweep_at then counts else drop_expired now_ms counts counts

-- `max !== undefined && current + by > max`
abbrev pub exceeds : Option ℕ → ℕ → Bool
exceeds none total = false
exceeds (some m) total = ltb m total

unfoldable pub increment : ℕ → String → ℕ → ℕ → Option ℕ → Counts → IncrementResult × Counts
unfolding read sweep
increment now pk by expires_at most counts =
    let current = read pk counts in
    if exceeds most (current + by) then (record { value = current; applied = false }, counts) else (
      record { value = current + by; applied = true },
      insert pk (record { value = current + by; expires_at = expires_at }) (sweep now counts),
    )

-- As a store: it never fails.
unfoldable pub memory_store : CounterStore
unfolding increment read
memory_store = record {
  State = Counts;
  increment = λ now pk by expires_at most counts.
      let (r, counts') = increment now pk by expires_at most counts in (some r, counts');
  get = λ pk counts. (some (read pk counts), counts);
}
