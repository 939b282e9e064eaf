-- ===== src/Limits/MemoryStore/Laws.antt =====
-- `MemoryCounterStore` (limits/counter-store.ts) against the contract of a counter store.
use federal_mcps.Common.{
  ℕ, ◌+◌, ◌≤◌, String, ◌≡◌, ◌≢◌, refl, Option, none, some, [], ◌∷◌, arith, eq_iff, eq_refl,
  if◌then◌else◌, ltb, Bool-cases, inl, inr, str_eq,
}
use federal_mcps.Common.Dict.{lookup-insert, lookup-erase, insert, erase}
use federal_mcps.Limits.CounterStore.{IsCounterStore, Incremented}
use federal_mcps.Limits.MemoryStore.{
  Entry, Counts, read, drop_expired, sweep, increment, memory_store,
}

read-erase : (k pk : String) (c : Counts) → read pk (erase k c) ≤ read pk c
unfolding read
read-erase k pk c = ground (arith, lookup-erase k pk c)

read-insert :
    (k j : String) (e : Entry) (c : Counts)
    → read j (insert k e c) ≡ (if str_eq k j then e.value else read j c)
unfolding read
read-insert k j e c = ground (arith, lookup-insert k j e c)

-- A sweep keeps an entry, or drops it.
read-drop_expired :
    (now : ℕ) (pk : String) (es c : Counts) → read pk (drop_expired now es c) ≤ read pk c
unfolding drop_expired
read-drop_expired now pk [] c = omega arith
read-drop_expired now pk ((j, e) ∷ es) c = ground (
  arith,
  read-drop_expired now pk es (erase j c),
  read-drop_expired now pk es c,
  read-erase j pk c,
)

read-sweep : (now : ℕ) (pk : String) (c : Counts) → read pk (sweep now c) ≤ read pk c
unfolding sweep
read-sweep now pk c = ground (arith, read-drop_expired now pk c c)

-- The counter that is incremented.
pub increment_self :
    (now : ℕ) (pk : String) (by expires_at : ℕ) (most : Option ℕ) (c : Counts)
    → let (r, c') = increment now pk by expires_at most c in
      Incremented (read pk c) by most (some r) (read pk c')
unfolding increment read
increment_self now pk by expires_at none c = simp (lookup-insert, eq_refl) (refl, refl, refl)
increment_self now pk by expires_at (some m) c = elim (Bool-cases (ltb m (read pk c + by))) [
  | inl over ↦ rw over (ground arith)
  | inr room ↦ rw room (simp (lookup-insert, eq_refl) (ground arith))
]

-- Any other counter: it is left alone, or swept.
pub increment-other :
    (now : ℕ) (pk : String) (by expires_at : ℕ) (most : Option ℕ) (c : Counts) (j : String)
    → pk ≢ j
    → read j (increment now pk by expires_at most c).1 ≤ read j c
unfolding increment
increment-other now pk by expires_at most c j other = ground (
  arith,
  eq_iff pk j,
  read-sweep now j c,
  read-insert pk j (record { value = read pk c + by; expires_at = expires_at }) (sweep now c),
)

pub get-read : (pk : String) (c : Counts) (v : ℕ) → some (read pk c) ≡ some v → v ≡ read pk c
get-read pk c v e = cc

-- The in-memory store is a counter store.
unfoldable pub memory_store-IsCounterStore : IsCounterStore memory_store
unfolding memory_store
memory_store-IsCounterStore = record {
  count = λ c pk. read pk c;
  increment_self = λ now pk by expires_at most c _. increment_self now pk by expires_at most c;
  increment_other = increment-other;
  get_state = λ pk c. refl;
  get_value = get-read;
}
