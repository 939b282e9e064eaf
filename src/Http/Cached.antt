-- ===== src/Http/Cached.antt =====
-- `getWithCache` (http/client.ts) over `MemoryCacheStore` (http/cache-store.ts), and `CacheInfo`
-- (cache.ts). `parse` is what the caller of `getWithCache` makes of a body, `none` where
-- `JSON.parse` throws.
pub mod Answers
pub mod Again
pub mod Aborted
use federal_mcps.Common.{
  ℕ, ◌-◌, ◌/◌, String, Bool, true, false, Option, none, some, leb, or_else, if◌then◌else◌,
}
use federal_mcps.Common.Dict.{lookup, insert}
use federal_mcps.Http.Notes.{note_refusal_served_stale}
use federal_mcps.Http.Client.{
  RawResponse, Request, Failure, syntax_error, ClientOptions, World, Limiter, CacheEntry, Client,
  Result, ok, err, Action, pure, raise, modify, ◌>>=◌, ◌>>◌,
}
use federal_mcps.Http.Request.{perform_request}

pub record CacheInfo : Type 0 where
  pub hit : Bool
  pub age_seconds : Option ℕ
  pub stale : Bool

abbrev pub cache_miss : CacheInfo
cache_miss = record { hit = false; age_seconds = none; stale = false }

pub record HttpResult (V : Type 0) : Type 0 where
  pub value : V
  pub cache : CacheInfo
  pub status : ℕ

-- `Math.floor((now - storedAt) / 1000)`; 0 for an entry of the future, whose age the source has
-- negative, and which is fresh for both.
abbrev pub age_of : {V : Type 0} → ℕ → CacheEntry V → ℕ
age_of now entry = (now - entry.stored_at) / 1000

-- `try { } catch`: the state that the failure leaves goes on.
abbrev pub recover : {S A : Type 0} → Action S A → (Failure → Action S A) → Action S A
recover m handler s = let (r, s') = m s in elim r [ ok a ↦ (ok a, s') | err e ↦ handler e s' ]

abbrev pub from_cache : {V : Type 0} → CacheEntry V → ℕ → Bool → HttpResult V
from_cache entry age stale = record {
  value = entry.value;
  cache = record { hit = true; age_seconds = some age; stale = stale };
  status = entry.status;
}

abbrev pub parsed : {S V : Type 0} → Option V → Action S V
parsed none = raise syntax_error
parsed (some v) = pure v

module _ {V : Type 0} (l : Limiter) (o : ClientOptions) (w : World) (parse : String → Option V)
    (req : Request) where
  abbrev pub existing : Client l.State V → Option (CacheEntry V)
  existing s = elim req.fresh_ttl_seconds [ none ↦ none | some _ ↦ lookup req.key s.cache ]

  -- `cache.set`, where the request has a fresh time.
  abbrev pub store : Option ℕ → V → ℕ → Action (Client l.State V) Unit
  store none value status = pure tt
  store (some _) value status = modify (λ s. record s {
    cache = insert req.key (record { value = value; status = status; stored_at = s.now }) s.cache;
  })

  unfoldable pub fetch_and_store : Action (Client l.State V) (HttpResult V)
  fetch_and_store = do
    response ← perform_request l o w req
    value ← parsed (parse response.body)
    store req.fresh_ttl_seconds value response.status
    pure (record { value = value; cache = cache_miss; status = response.status })

  -- The `catch`: an entry within its stale time answers, and a refusal leaves a note.
  unfoldable pub serve_stale : CacheEntry V → ℕ → Failure → Action (Client l.State V) (HttpResult V)
  serve_stale entry age failure =
      if leb age (or_else req.stale_ttl_seconds (or_else req.fresh_ttl_seconds 0))
      then (modify (λ s. record s {
        context = note_refusal_served_stale o.source failure entry.stored_at s.context;
      })
          >> pure (from_cache entry age true))
      else raise failure

  unfoldable pub refresh : CacheEntry V → ℕ → Action (Client l.State V) (HttpResult V)
  refresh entry age =
      if leb age (or_else req.fresh_ttl_seconds 0)
      then pure (from_cache entry age false)
      else recover fetch_and_store (λ failure. serve_stale entry age failure)

  abbrev pub answer_with : Option (CacheEntry V) → Action (Client l.State V) (HttpResult V)
  answer_with none s = fetch_and_store s
  answer_with (some entry) s = refresh entry (age_of s.now entry) s

  unfoldable pub get_with_cache : Action (Client l.State V) (HttpResult V)
  get_with_cache s = answer_with (existing s) s
