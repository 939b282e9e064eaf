-- ===== src/Bls/Refusals.antt =====
-- What becomes of a refusal of BLS's own daily limit (packages/server-bls/src/series-fetch.ts).
use federal_mcps.Common.{
  ℕ, ◌≡◌, refl, ap, ◌∙◌, subst, String, Bool, true, false, List, [], ◌∷◌, map, All, str_eq,
  if◌then◌else◌, length, suc,
}
use federal_mcps.Http.Client.{
  Failure, agency_api_error, Result, ok, err, Action, pure, raise, ◌>>=◌, bind-cases,
}
use federal_mcps.Http.Cached.{CacheInfo, recover}
use federal_mcps.Bls.Chunks.{chunk, merge_cache}
use federal_mcps.Bls.Series.{
  BlsResponse, SeriesOptions, BatchRequest, daily_threshold_code, max_series_per_request,
  batch_request, is_daily_threshold_refusal, throw_quota_exceeded, on_failure, post_batch, post_all,
  fetch_series_batches,
}

-- A failure that is not the agency's report of its daily limit.
abbrev pub IsConverted : Failure → Type 0
IsConverted (agency_api_error source code message url attempts) =
    str_eq code daily_threshold_code ≡ false
IsConverted _ = Unit

module _ {S : Type 0} (mentions : String → Bool)
    (post : BatchRequest → Action S (BlsResponse × CacheInfo)) (resets : S → String) where
  abbrev pub IsAnswer : BlsResponse × CacheInfo → Type 0
  IsAnswer r = is_daily_threshold_refusal mentions r.0 ≡ false

  abbrev IsHonest : Result (BlsResponse × CacheInfo) × S → Type 0
  IsHonest (ok r, s) = IsAnswer r
  IsHonest (err e, s) = IsConverted e

  agency-IsConverted :
      (b : Bool) (source code message url : String) (attempts : ℕ) (s : S)
      → str_eq code daily_threshold_code ≡ b
      → IsHonest (
          (if b
              then throw_quota_exceeded mentions post resets
              else raise (agency_api_error source code message url attempts))
            s)
  agency-IsConverted true source code message url attempts s e = tt
  agency-IsConverted false source code message url attempts s e = e

  on_failure-IsHonest : (e : Failure) (s : S) → IsHonest (on_failure mentions post resets e s)
  unfolding on_failure
  on_failure-IsHonest (agency_api_error source code message url attempts) s =
      agency-IsConverted (str_eq code daily_threshold_code) source code message url attempts s refl
  on_failure-IsHonest _ s = tt

  replayed-IsHonest :
      (b : Bool) (r : BlsResponse × CacheInfo) (s : S)
      → is_daily_threshold_refusal mentions r.0 ≡ b
      → IsHonest ((if b then throw_quota_exceeded mentions post resets else pure r) s)
  replayed-IsHonest true r s e = tt
  replayed-IsHonest false r s e = e

  -- The end of `post_batch`, after the post has ended in `p`.
  abbrev received : Result (BlsResponse × CacheInfo) × S → Action S (BlsResponse × CacheInfo)
  received p = recover (λ _. p) (on_failure mentions post resets) >>= λ r.
      if is_daily_threshold_refusal mentions r.0
      then throw_quota_exceeded mentions post resets
      else pure r

  converted-IsHonest :
      (q : Result (BlsResponse × CacheInfo) × S) (s : S)
      → IsHonest q
      → IsHonest (
          ((λ _. q) >>= λ r.
          if is_daily_threshold_refusal mentions r.0
          then throw_quota_exceeded mentions post resets
          else pure r)
            s)
  converted-IsHonest (ok r, s') s h =
      replayed-IsHonest (is_daily_threshold_refusal mentions r.0) r s' refl
  converted-IsHonest (err e, s') s h = h

  received-IsHonest : (p : Result (BlsResponse × CacheInfo) × S) (s : S) → IsHonest (received p s)
  received-IsHonest (ok r, s') s =
      replayed-IsHonest (is_daily_threshold_refusal mentions r.0) r s' refl
  received-IsHonest (err e, s') s =
      converted-IsHonest (on_failure mentions post resets e s') s (on_failure-IsHonest e s')

  post_batch-IsHonest :
      (options : SeriesOptions) (batch : List String) (s : S)
      → IsHonest (post_batch mentions post resets options batch s)
  unfolding post_batch
  post_batch-IsHonest options batch s = received-IsHonest (post (batch_request options batch) s) s

  -- One answer for each batch, none of them a refusal, or a failure that is no report of it.
  abbrev IsHonestFor : ℕ → Result (List (BlsResponse × CacheInfo)) × S → Type 0
  IsHonestFor n (ok rs, s) = (length rs ≡ n) × All IsAnswer rs
  IsHonestFor n (err e, s) = IsConverted e

  post_all-IsHonest :
      (options : SeriesOptions) (batches : List (List String)) (s : S)
      → IsHonestFor (length batches) (post_all mentions post resets options batches s)
  unfolding post_all
  post_all-IsHonest options [] s = (refl, tt)
  post_all-IsHonest options (batch ∷ batches) s =
      bind-cases (λ p. IsHonestFor (suc (length batches)) p)
        (λ r. post_all mentions post resets options batches >>= λ rs. pure (r ∷ rs))
        (post_batch mentions post resets options batch) s
        (λ r s₁ eq.
          bind-cases (λ p. IsHonestFor (suc (length batches)) p) (λ rs. pure (r ∷ rs))
            (post_all mentions post resets options batches) s₁
            (λ rs s₂ eq'.
              let (e, h) =
                subst (λ p. IsHonestFor (length batches) p) eq'
                  (post_all-IsHonest options batches s₁) in
              (
                ap (λ n. suc n) e,
                (subst (λ p. IsHonest p) eq (post_batch-IsHonest options batch s), h),
              ))
            (λ e s₂ eq'.
              subst (λ p. IsHonestFor (length batches) p) eq'
                (post_all-IsHonest options batches s₁)))
        (λ e s₁ eq. subst (λ p. IsHonest p) eq (post_batch-IsHonest options batch s))

  abbrev pub IsFetchedFor : ℕ → Result (List BlsResponse × CacheInfo) × S → Type 0
  IsFetchedFor n (ok (responses, cache), s) =
      (length responses ≡ n)
      × All (λ res. is_daily_threshold_refusal mentions res ≡ false) responses
  IsFetchedFor n (err e, s) = IsConverted e

  length-map : (rs : List (BlsResponse × CacheInfo)) → length (map (λ r. r.0) rs) ≡ length rs
  length-map [] = refl
  length-map (r ∷ rs) = ap (λ n. suc n) (length-map rs)

  All-map :
      (rs : List (BlsResponse × CacheInfo))
      → All IsAnswer rs
      → All (λ res. is_daily_threshold_refusal mentions res ≡ false) (map (λ r. r.0) rs)
  All-map [] h = tt
  All-map (r ∷ rs) (h, k) = (h, All-map rs k)

  -- Whatever the client answers, live or replayed: the fetch gives one response for each batch of at
  -- most 50 series, none of them a refusal of BLS's daily limit, or it fails, and then with an error
  -- that is not the bare report of that limit.
  pub fetch_series_batches-IsFetchedFor :
      (ids : List String) (options : SeriesOptions) (s : S)
      → IsFetchedFor
          (length (chunk ids max_series_per_request))
          (fetch_series_batches mentions post resets ids options s)
  unfolding fetch_series_batches
  fetch_series_batches-IsFetchedFor ids options s =
      let batches = chunk ids max_series_per_request in
      bind-cases (λ p. IsFetchedFor (length batches) p)
        (λ rs. pure (map (λ r. r.0) rs, merge_cache (map (λ r. r.1) rs)))
        (post_all mentions post resets options batches) s
        (λ rs s₁ eq.
          let (e, h) =
            subst (λ p. IsHonestFor (length batches) p) eq (post_all-IsHonest options batches s) in
          (length-map rs ∙ e, All-map rs h))
        (λ e s₁ eq.
          subst (λ p. IsHonestFor (length batches) p) eq (post_all-IsHonest options batches s))
