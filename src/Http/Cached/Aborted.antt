-- ===== src/Http/Cached/Aborted.antt =====
-- A call of `getWithCache` (http/client.ts) whose caller's signal has aborted.
use federal_mcps.Common.{
  ℕ, ◌≤◌, ◌<◌, ◌≡◌, refl, ap, subst, ◌∙◌, String, true, false, Option, none, some, arith, leb,
  le→leb, or_else, if◌then◌else◌,
}
use federal_mcps.Limits.Context.{CallContext}
use federal_mcps.Http.Notes.{note_refusal_served_stale, refusal_of}
use federal_mcps.Http.Client.{
  Request, deadline_exceeded, ClientOptions, World, Limiter, CacheEntry, Client, ok, err, ◌>>=◌,
}
use federal_mcps.Http.Request.{perform_request}
use federal_mcps.Http.Request.Paid.{perform_request_lem, IsOfMode}
use federal_mcps.Http.Cached.Answers.{after_response}
use federal_mcps.Http.Cached.{
  age_of, from_cache, existing, fetch_and_store, serve_stale, refresh, recover, answer_with,
  get_with_cache,
}

leb-false : (a b : ℕ) → b < a → leb a b ≡ false
leb-false a b h = ground arith

-- A deadline is no refusal, so it leaves no note.
deadline-note :
    (source url : String) (at : ℕ) (context : Option CallContext)
    → note_refusal_served_stale source (deadline_exceeded source url) at context ≡ context
unfolding note_refusal_served_stale refusal_of
deadline-note source url at none = refl
deadline-note source url at (some context) = refl

module _ {V : Type 0} (l : Limiter) (o : ClientOptions) (w : World) (parse : String → Option V)
    (req : Request) where
  aborted-fetch :
      (s : Client l.State V)
      → w.aborted s.now ≡ true
      → fetch_and_store l o w parse req s ≡ (err (deadline_exceeded o.source req.url), s)
  unfolding fetch_and_store
  aborted-fetch s gone =
      ap (λ p. ((λ _. p) >>= λ response. after_response l o w parse req response) s)
        (subst
          (λ b.
            if b
            then perform_request l o w req s ≡ (err (deadline_exceeded o.source req.url), s)
            else IsOfMode l o w o.fixture_mode s (perform_request l o w req s))
          gone (perform_request_lem l o w req s))

  aborted-serve :
      (entry : CacheEntry V) (age : ℕ) (s : Client l.State V)
      → age ≤ or_else req.stale_ttl_seconds (or_else req.fresh_ttl_seconds 0)
      → serve_stale l o w parse req entry age (deadline_exceeded o.source req.url) s
        ≡ (ok (from_cache entry age true), s)
  unfolding serve_stale
  aborted-serve entry age s within = rw (le→leb age _ within, deadline-note) refl

  -- A call whose signal has aborted before it starts is answered from the cache all the same when
  -- the entry there is past its fresh time and within its stale time, and changes nothing.
  pub aborted_is_served :
      (entry : CacheEntry V) (s : Client l.State V)
      → w.aborted s.now ≡ true
      → existing l o w parse req s ≡ some entry
      → or_else req.fresh_ttl_seconds 0 < age_of s.now entry
      → age_of s.now entry ≤ or_else req.stale_ttl_seconds (or_else req.fresh_ttl_seconds 0)
      → get_with_cache l o w parse req s ≡ (ok (from_cache entry (age_of s.now entry) true), s)
  unfolding get_with_cache refresh
  aborted_is_served entry s gone found old within =
      ap (λ f. answer_with l o w parse req f s) found
      ∙ ap
          (λ b.
            (if b
                then (λ t. (ok (from_cache entry (age_of s.now entry) false), t))
                else recover (fetch_and_store l o w parse req)
                    (λ e. serve_stale l o w parse req entry (age_of s.now entry) e))
              s)
          (leb-false (age_of s.now entry) (or_else req.fresh_ttl_seconds 0) old)
      ∙ ap (λ p. recover (λ _. p) (λ e. serve_stale l o w parse req entry (age_of s.now entry) e) s)
          (aborted-fetch s gone)
      ∙ aborted-serve entry (age_of s.now entry) s within
