-- ===== src/Limits/DynamoStore/Laws.antt =====
-- `DynamoCounterStore` (limits/dynamo-store.ts) against the contract of a counter store.
use federal_mcps.Common.{
  ℕ, ◌+◌, ◌<◌, String, ◌≡◌, ◌≢◌, refl, Bool, true, false, Option, none, some, arith, ◌⊎◌,
}
use federal_mcps.Common.Int.{ℤ, pos, leb_ℤ}
use federal_mcps.Limits.CounterStore.{IsCounterStore, Incremented, Fits}
use federal_mcps.Limits.MemoryStore
use federal_mcps.Limits.MemoryStore.{Counts}
use federal_mcps.Limits.DynamoStore.{
  UpdateItem, UpdateReply, updated, condition_failed, update_error, GetReply, item, get_error,
  DynamoLike, number_of, room_of, update_request, increment_reply, get_reply, increment,
  dynamo_store,
}

-- `attribute_not_exists(#count) OR #count <= :room`
abbrev pub condition : Option ℤ → Option ℕ → Bool
condition none old = true
condition (some room) none = true
condition (some room) (some n) = leb_ℤ (pos n) room

-- What an update may answer and leave, by the count of its item before and after.
abbrev pub Updated : Option ℤ → ℕ → Option ℕ → UpdateReply → Option ℕ → Type 0
Updated room by old (updated n) new =
    (condition room old ≡ true) × (n ≡ some (number_of old + by)) × (new ≡ n)
Updated room by old (condition_failed n) new =
    (condition room old ≡ false) × (n ≡ old) × (new ≡ old)
Updated room by old update_error new =
    (new ≡ old) ⊎ ((condition room old ≡ true) × (new ≡ some (number_of old + by)))

-- DynamoDB's documented behaviour: a conditional update is atomic, returns the new attributes or
-- the old item, and touches no other item; an item may be removed at any time once its time to live
-- has passed, which here shows only between the store's calls. A read is consistent.
pub record IsDynamo (d : DynamoLike) : Type 0 where
  pub count : d.Table → String → Option ℕ
  pub update_self :
      (u : UpdateItem) (t : d.Table)
      → let (reply, t') = d.update_item u t in
        Updated u.room u.by (count t u.pk) reply (count t' u.pk)
  pub update_other :
      (u : UpdateItem) (t : d.Table) (j : String)
      → u.pk ≢ j
      → count (d.update_item u t).1 j ≡ count t j
  pub get_state : (pk : String) (t : d.Table) → (d.get_item pk t).1 ≡ t
  pub get_value :
      (pk : String) (t : d.Table) (n : Option ℕ) → (d.get_item pk t).0 ≡ item n → n ≡ count t pk

increment_reply-Incremented :
    (by : ℕ) (most old new : Option ℕ) (reply : UpdateReply)
    → Fits by most
    → Updated (room_of by most) by old reply new
    → Incremented (number_of old) by most (increment_reply reply) (number_of new)
increment_reply-Incremented by none old new (updated n) fits u = ground arith
increment_reply-Incremented by none old new (condition_failed n) fits u = ground arith
increment_reply-Incremented by none old new update_error fits u = ground arith
increment_reply-Incremented by (some m) none new (updated n) fits u = ground arith
increment_reply-Incremented by (some m) (some k) new (updated n) fits u = ground arith
increment_reply-Incremented by (some m) none new (condition_failed n) fits u = ground arith
increment_reply-Incremented by (some m) (some k) new (condition_failed n) fits u = ground arith
increment_reply-Incremented by (some m) none new update_error fits u = ground arith
increment_reply-Incremented by (some m) (some k) new update_error fits u = ground arith

get_reply-eq :
    (reply : GetReply) (v : ℕ) (old : Option ℕ)
    → ((n : Option ℕ) → reply ≡ item n → n ≡ old)
    → get_reply reply ≡ some v
    → v ≡ number_of old
get_reply-eq (item n) v old h e = ground (arith, h n refl)
get_reply-eq get_error v old h e = cc

past_limit :
    (by m : ℕ) (old new : Option ℕ) (reply : UpdateReply)
    → old ≡ none
    → Updated (room_of by (some m)) by old reply new
    → (increment_reply reply ≡ none)
      ⊎ ((increment_reply reply ≡ some (record { value = by; applied = true })) × (new ≡ some by))
past_limit by m none new (updated n) e u = ground arith
past_limit by m none new (condition_failed n) e u = ground arith
past_limit by m none new update_error e u = ground arith
past_limit by m (some k) new reply e u = cc

-- Over a DynamoDB that keeps its word the store is a counter store.
pub dynamo_store-IsCounterStore : (d : DynamoLike) → IsDynamo d → IsCounterStore (dynamo_store d)
unfolding dynamo_store
dynamo_store-IsCounterStore d h = record {
  count = λ t pk. number_of (h.count t pk);
  increment_self = λ now pk by expires_at most t fits.
      increment_reply-Incremented by most _ _ _ fits
        (h.update_self (update_request pk by expires_at most) t);
  increment_other = λ now pk by expires_at most t j other.
      rw (h.update_other (update_request pk by expires_at most) t j other) (omega arith);
  get_state = h.get_state;
  get_value = λ pk t v e. get_reply-eq _ v (h.count t pk) (h.get_value pk t) e;
}

-- A limit below `by` is not kept for a counter that does not exist yet: `attribute_not_exists`
-- passes whatever `:room` is, so unless the call fails the update is applied and the count passes
-- the limit. The in-memory store refuses the same call.
pub dynamo_passes_limit :
    (d : DynamoLike) (h : IsDynamo d) (now : ℕ) (pk : String) (by expires_at m : ℕ) (t : d.Table)
    (counts : Counts)
    → h.count t pk ≡ none
    → m < by
    → let (r, t') = increment d now pk by expires_at (some m) t in
      ((r ≡ none)
        ⊎ ((r ≡ some (record { value = by; applied = true })) × (h.count t' pk ≡ some by)))
      × ((MemoryStore.increment now pk by expires_at (some m) counts).0.applied ≡ false)
unfolding increment
dynamo_passes_limit d h now pk by expires_at m t counts fresh short = (
  past_limit by m _ _ _ fresh (h.update_self (update_request pk by expires_at (some m)) t),
  unfold MemoryStore.increment in ground arith,
)
