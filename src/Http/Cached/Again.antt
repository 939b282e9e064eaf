-- ===== src/Http/Cached/Again.antt =====
-- A second call of `getWithCache` (http/client.ts) for what the cache holds.
use federal_mcps.Common.{
  le→leb, ℕ, ◌+◌, ◌*◌, ◌-◌, ◌/◌, ◌≤◌, ◌≡◌, sym, ap, subst, ◌∙◌, String, true, false, true≢false,
  Option, none, some, arith, inl, inr, or_else, if◌then◌else◌, eq_refl,
}
use federal_mcps.Common.Dict.{Dict, lookup, lookup-insert}
use federal_mcps.Http.Client.{Request, ClientOptions, World, Limiter, CacheEntry, Client, ok}
use federal_mcps.Http.Cached.{
  cache_miss, HttpResult, fetch_and_store, serve_stale, recover, age_of, from_cache, existing,
  refresh, answer_with, get_with_cache,
}
use federal_mcps.Http.Cached.Answers.{
  IsFetched, IsAnswerOf, with_answer, stored-cache, get_with_cache-IsAnswerOf,
}

module _ {V : Type 0} (l : Limiter) (o : ClientOptions) (w : World) (parse : String → Option V)
    (req : Request) where
  -- An answer that is a miss was fetched.
  miss-IsFetched :
      (found : Option (CacheEntry V)) (res : HttpResult V) (s s' : Client l.State V)
      → IsAnswerOf l o w parse req found s (ok res, s')
      → res.cache ≡ cache_miss
      → IsFetched l o w parse req s (ok res, s')
  miss-IsFetched none res s s' h miss = h
  miss-IsFetched (some entry) res s s' (inr (old, h)) miss = h
  miss-IsFetched (some entry) res s s' (inl (inl (e, r, same))) miss =
      absurd (true≢false (sym (ap (λ x. x.cache.hit) e) ∙ ap (λ c. c.hit) miss))
  miss-IsFetched (some entry) res s s' (inl (inr (f, e, old, r, lacks, left, same))) miss =
      absurd (true≢false (sym (ap (λ x. x.cache.hit) e) ∙ ap (λ c. c.hit) miss))

  -- A fresh entry is served as it is.
  fresh_hit :
      (entry : CacheEntry V) (s : Client l.State V)
      → existing l o w parse req s ≡ some entry
      → age_of s.now entry ≤ or_else req.fresh_ttl_seconds 0
      → get_with_cache l o w parse req s ≡ (ok (from_cache entry (age_of s.now entry) false), s)
  unfolding get_with_cache refresh
  fresh_hit entry s found fresh =
      ap (λ f. answer_with l o w parse req f s) found
      ∙ ap
          (λ b.
            (if b
                then (λ t. (ok (from_cache entry (age_of s.now entry) false), t))
                else recover (fetch_and_store l o w parse req)
                    (λ e. serve_stale l o w parse req entry (age_of s.now entry) e))
              s)
          (le→leb (age_of s.now entry) (or_else req.fresh_ttl_seconds 0) fresh)

  within_fresh : (now later t : ℕ) → later ≤ now + t * 1000 → (later - now) / 1000 ≤ t
  within_fresh now later t h = grind arith

  lookup-with_answer :
      (ttl : Option ℕ) (t : ℕ) (res : HttpResult V) (at : ℕ) (cache : Dict (CacheEntry V))
      → ttl ≡ some t
      → lookup req.key (with_answer l o w parse req ttl res at cache)
        ≡ some (record { value = res.value; status = res.status; stored_at = at })
  lookup-with_answer none t res at cache e = absurd (cc e)
  lookup-with_answer (some t₁) t res at cache e = simp (lookup-insert, eq_refl)

  -- The entry that a successful fetch leaves is found by the next call.
  existing-stored :
      (t : ℕ) (res : HttpResult V) (s s' : Client l.State V) (later : ℕ)
      → req.fresh_ttl_seconds ≡ some t
      → IsFetched l o w parse req s (ok res, s')
      → existing l o w parse req (record s' { now = later })
        ≡ some (record { value = res.value; status = res.status; stored_at = s'.now })
  existing-stored t res s s' later e fetched =
      ap (λ ttl. elim ttl [ none ↦ none | some _ ↦ lookup req.key s'.cache ]) e
      ∙ ap (λ c. lookup req.key c) (stored-cache l o w parse req res s s' fetched)
      ∙ lookup-with_answer req.fresh_ttl_seconds t res s'.now s.cache e

  -- What a call has fetched and stored is the answer of every later call for the same key, with its
  -- age, while the fresh time lasts; that call changes nothing.
  pub get_again :
      (t : ℕ) (res : HttpResult V) (s s' : Client l.State V) (later : ℕ)
      → req.fresh_ttl_seconds ≡ some t
      → get_with_cache l o w parse req s ≡ (ok res, s')
      → res.cache ≡ cache_miss
      → later ≤ s'.now + t * 1000
      → get_with_cache l o w parse req (record s' { now = later }) ≡ (
        ok (record {
          value = res.value;
          cache = record {
            hit = true;
            age_seconds = some ((later - s'.now) / 1000);
            stale = false;
          };
          status = res.status;
        }),
        record s' { now = later },
      )
  get_again t res s s' later e answered miss soon =
      let h =
        miss-IsFetched (existing l o w parse req s) res s s'
          (subst (λ p. IsAnswerOf l o w parse req (existing l o w parse req s) s p) answered
            (get_with_cache-IsAnswerOf l o w parse req s))
          miss in
      fresh_hit (record { value = res.value; status = res.status; stored_at = s'.now })
        (record s' { now = later }) (existing-stored t res s s' later e h)
        (rw e (within_fresh s'.now later t soon))
