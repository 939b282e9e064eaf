-- ===== src/Http/Cached/Answers.antt =====
-- What `getWithCache` (http/client.ts) answers, and what it leaves in the cache.
use federal_mcps.Common.{
  ℕ, ◌≤◌, ◌<◌, ◌≡◌, refl, sym, ap, subst, ◌∙◌, String, true, false, Option, none, some, arith, inl,
  inr, ◌⊎◌, leb, or_else, Bool-cases,
}
use federal_mcps.Common.Dict.{Dict, insert}
use federal_mcps.Http.Notes.{note_refusal_served_stale}
use federal_mcps.Http.Client.{
  RawResponse, Request, Failure, syntax_error, ClientOptions, World, Limiter, CacheEntry, Client,
  Result, ok, err, Action, pure, ◌>>=◌, ◌>>◌, bind-cases,
}
use federal_mcps.Http.Request.{perform_request}
use federal_mcps.Http.Request.Paid.{perform_request-cache}
use federal_mcps.Http.Cached.{
  cache_miss, HttpResult, age_of, recover, from_cache, parsed, existing, store, fetch_and_store,
  serve_stale, refresh, answer_with, get_with_cache,
}

module _ {V : Type 0} (l : Limiter) (o : ClientOptions) (w : World) (parse : String → Option V)
    (req : Request) where
  abbrev pub fresh_limit : ℕ
  fresh_limit = or_else req.fresh_ttl_seconds 0

  abbrev pub stale_limit : ℕ
  stale_limit = or_else req.stale_ttl_seconds fresh_limit

  -- The cache after an answer of the agency that came at `at`.
  abbrev pub with_answer : Option ℕ → HttpResult V → ℕ → Dict (CacheEntry V) → Dict (CacheEntry V)
  with_answer none res at cache = cache
  with_answer (some _) res at cache =
      insert req.key (record { value = res.value; status = res.status; stored_at = at }) cache

  -- The request that a call makes from `s` on, when it makes one.
  abbrev pub asked : Client l.State V → Result RawResponse × Client l.State V
  asked s = perform_request l o w req s

  -- The request gave no answer: it failed with `e`, or its body cannot be parsed.
  abbrev pub LacksAnswer : Result RawResponse → Failure → Type 0
  LacksAnswer (err e₁) e = e₁ ≡ e
  LacksAnswer (ok response) e = (parse response.body ≡ none) × (e ≡ syntax_error)

  -- The request was made, and its answer is the result, or its failure is.
  abbrev pub IsFetched : Client l.State V → Result (HttpResult V) × Client l.State V → Type 0
  IsFetched s (ok res, s') =
      (response : RawResponse) × ((asked s).0 ≡ ok response)
      × (parse response.body ≡ some res.value)
      × (res.status ≡ response.status)
      × (res.cache ≡ cache_miss)
      × (s' ≡ record ((asked s).1) {
        cache = with_answer req.fresh_ttl_seconds res (asked s).1.now s.cache;
      })
  IsFetched s (err e, s') = LacksAnswer (asked s).0 e × (s' ≡ (asked s).1) × (s'.cache ≡ s.cache)

  -- A fetched answer is stored at the time of its arrival.
  pub stored-cache :
      (res : HttpResult V) (s s' : Client l.State V)
      → IsFetched s (ok res, s')
      → s'.cache ≡ with_answer req.fresh_ttl_seconds res s'.now s.cache
  stored-cache res s s' (response, answered, parsed, status, miss, left) =
      ap (λ t. t.cache) left
      ∙ ap (λ t. with_answer req.fresh_ttl_seconds res t.now s.cache) (sym left)

  abbrev pub after_response : RawResponse → Action (Client l.State V) (HttpResult V)
  after_response response = parsed (parse response.body) >>= λ value.
      store l o w parse req req.fresh_ttl_seconds value response.status
      >> pure (record { value = value; cache = cache_miss; status = response.status })

  abbrev miss : V → ℕ → HttpResult V
  miss v status = record { value = v; cache = cache_miss; status = status }

  store-adds :
      (ttl : Option ℕ) (v : V) (status : ℕ) (s : Client l.State V)
      → store l o w parse req ttl v status s
        ≡ (ok tt, record s { cache = with_answer ttl (miss v status) s.now s.cache })
  store-adds none v status s = refl
  store-adds (some t) v status s = refl

  stored-IsFetched :
      (response : RawResponse) (v : Option V) (s s₁ : Client l.State V)
      → asked s ≡ (ok response, s₁)
      → s₁.cache ≡ s.cache
      → parse response.body ≡ v
      → IsFetched s (
          (parsed v >>= λ value.
          store l o w parse req req.fresh_ttl_seconds value response.status
          >> pure (miss value response.status))
            s₁)
  stored-IsFetched response none s s₁ eq e f =
      (subst (λ p. LacksAnswer p.0 syntax_error) (sym eq) (f, refl), ap (λ p. p.1) (sym eq), e)
  stored-IsFetched response (some v) s s₁ eq e f =
      let ttl = req.fresh_ttl_seconds in
      let res = miss v response.status in
      subst (λ p. IsFetched s (((λ (_ : Client l.State V). p) >> pure res) s₁))
        (sym (store-adds ttl v response.status s₁))
        (
          response,
          ap (λ p. p.0) eq,
          f,
          refl,
          refl,
          ap (λ c. record s₁ { cache = with_answer ttl res s₁.now c }) e
              ∙ ap (λ p. record (p.1) { cache = with_answer ttl res p.1.now s.cache }) (sym eq),
        )

  fetch_and_store-IsFetched :
      (s : Client l.State V) → IsFetched s (fetch_and_store l o w parse req s)
  unfolding fetch_and_store
  fetch_and_store-IsFetched s =
      let kept = perform_request-cache l o w req s in
      bind-cases (λ p. IsFetched s p) (λ response. after_response response)
        (perform_request l o w req) s
        (λ response s₁ eq.
          stored-IsFetched response (parse response.body) s s₁ eq
            (subst (λ p. p.1.cache ≡ s.cache) eq kept) refl)
        (λ e s₁ eq. (
          subst (λ p. LacksAnswer p.0 e) (sym eq) refl,
          ap (λ p. p.1) (sym eq),
          subst (λ p. p.1.cache ≡ s.cache) eq kept,
        ))

  -- An answer from the cache: a fresh one changes nothing; a stale one is served after a request
  -- that gave no answer, and leaves what that request left, and a note where it was refused.
  abbrev pub IsServed : CacheEntry V → Client l.State V → HttpResult V × Client l.State V → Type 0
  IsServed entry s (res, s') =
      let age = age_of s.now entry in
      ((res ≡ from_cache entry age false) × (age ≤ fresh_limit) × (s' ≡ s))
      ⊎ ((e : Failure) × (res ≡ from_cache entry age true)
          × (fresh_limit < age)
          × (age ≤ stale_limit)
          × LacksAnswer (asked s).0 e
          × (s' ≡ record ((asked s).1) {
            context = note_refusal_served_stale o.source e entry.stored_at (asked s).1.context;
          })
          × (s'.cache ≡ s.cache))

  -- How a call ends for which the cache holds `entry`.
  abbrev pub IsAnswered :
      CacheEntry V → Client l.State V → Result (HttpResult V) × Client l.State V → Type 0
  IsAnswered entry s (ok res, s') =
      IsServed entry s (res, s') ⊎ ((fresh_limit < age_of s.now entry) × IsFetched s (ok res, s'))
  IsAnswered entry s (err e, s') =
      (fresh_limit < age_of s.now entry)
      × (stale_limit < age_of s.now entry)
      × IsFetched s (err e, s')

  serve_stale-IsAnswered :
      (entry : CacheEntry V) (e : Failure) (s s₁ : Client l.State V)
      → IsFetched s (err e, s₁)
      → fresh_limit < age_of s.now entry
      → IsAnswered entry s (serve_stale l o w parse req entry (age_of s.now entry) e s₁)
  unfolding serve_stale
  serve_stale-IsAnswered entry e s s₁ (lacks, left, same) old =
      elim (Bool-cases (leb (age_of s.now entry) stale_limit)) [
        | inl within ↦ rw within (
            inl (
              inr (
                e,
                refl,
                old,
                ground arith,
                lacks,
                ap
                    (λ (t : Client l.State V). record t {
                      context = note_refusal_served_stale o.source e entry.stored_at t.context;
                    })
                    left,
                same,
              )))
        | inr past ↦ rw past (old, ground arith, (lacks, left, same))
      ]

  recovered-IsAnswered :
      (entry : CacheEntry V) (s : Client l.State V) (p : Result (HttpResult V) × Client l.State V)
      → IsFetched s p
      → fresh_limit < age_of s.now entry
      → IsAnswered entry s
          (recover (λ _. p) (λ e. serve_stale l o w parse req entry (age_of s.now entry) e) s)
  recovered-IsAnswered entry s (ok res, s') h old = inr (old, h)
  recovered-IsAnswered entry s (err e, s') h old = serve_stale-IsAnswered entry e s s' h old

  refresh-IsAnswered :
      (entry : CacheEntry V) (s : Client l.State V)
      → IsAnswered entry s (refresh l o w parse req entry (age_of s.now entry) s)
  unfolding refresh
  refresh-IsAnswered entry s = elim (Bool-cases (leb (age_of s.now entry) fresh_limit)) [
    | inl fresh ↦ rw fresh (inl (inl (refl, ground arith, refl)))
    | inr old ↦ rw old (
        recovered-IsAnswered entry s (fetch_and_store l o w parse req s)
          (fetch_and_store-IsFetched s) (ground arith))
  ]

  abbrev pub IsAnswerOf :
      Option (CacheEntry V) → Client l.State V → Result (HttpResult V) × Client l.State V → Type 0
  IsAnswerOf none s p = IsFetched s p
  IsAnswerOf (some entry) s p = IsAnswered entry s p

  answer_with-IsAnswerOf :
      (found : Option (CacheEntry V)) (s : Client l.State V)
      → IsAnswerOf found s (answer_with l o w parse req found s)
  answer_with-IsAnswerOf none s = fetch_and_store-IsFetched s
  answer_with-IsAnswerOf (some entry) s = refresh-IsAnswered entry s

  -- A call for which the cache holds no entry makes the request. One that finds an entry is answered
  -- with it, changing nothing, when it is fresh; else it makes the request too, and the entry is
  -- served, marked stale, only when that failed or its body could not be parsed and the entry is
  -- within its stale time; the state is then the request's, with a note where it was refused. The
  -- answer of a request is its body parsed, with its status, and is stored at the time of its arrival,
  -- if the request has a fresh time; no other change is made to the cache. A failed call made the
  -- request, whose failure it is, and leaves the cache as it was.
  pub get_with_cache-IsAnswerOf :
      (s : Client l.State V)
      → IsAnswerOf (existing l o w parse req s) s (get_with_cache l o w parse req s)
  unfolding get_with_cache
  get_with_cache-IsAnswerOf s = answer_with-IsAnswerOf (existing l o w parse req s) s
