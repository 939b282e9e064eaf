-- ===== src/Bls/Series.antt =====
-- The fetch of BLS series in batches (packages/server-bls/src/series-fetch.ts). The HTTP client is
-- one function on a state, the reading of a body by `JSON.parse` is done by that client, and
-- `mentions` is the test of `DAILY_THRESHOLD_RE`.
use federal_mcps.Common.{
  ℕ, String, Bool, false, ◌&&◌, ◌||◌, Option, none, some, List, [], ◌∷◌, any, map, str_eq, or_else,
  if◌then◌else◌,
}
use federal_mcps.Common.Text.{template}
use federal_mcps.Http.Client.{
  Failure, quota_exceeded, agency_api_error, syntax_error, BodyError, err, Action, pure, raise,
  ◌>>=◌,
}
use federal_mcps.Http.Cached.{CacheInfo, recover}
use federal_mcps.Bls.Chunks.{chunk, merge_cache}

abbrev pub max_series_per_request : ℕ
max_series_per_request = 50

abbrev pub fresh_ttl_seconds : ℕ
fresh_ttl_seconds = 86_400

abbrev pub stale_ttl_seconds : ℕ
stale_ttl_seconds = 604_800

abbrev pub daily_threshold_code : String
daily_threshold_code = "bls-daily-threshold"

-- One value as BLS gives it: its text, and the code and text of each footnote.
pub record Datum : Type 0 where
  pub year : String
  pub period : String
  pub period_name : String
  pub value : String
  pub footnotes : List (Option String × Option String)

pub record Series : Type 0 where
  pub series_id : String
  pub points : List Datum

-- `BlsApiResponse`; a message that is no text is left out, and so is a missing list of series.
pub record BlsResponse : Type 0 where
  pub status : String
  pub message : List String
  pub series : List Series

pub record Observation (N : Type 0) : Type 0 where
  pub year : String
  pub period : String
  pub period_name : String
  pub value : Option N
  pub footnotes : List (String × String)

pub record SeriesResult (N : Type 0) : Type 0 where
  pub series_id : String
  pub observations : List (Observation N)

pub record SeriesOptions : Type 0 where
  pub start_year : Option ℕ
  pub end_year : Option ℕ
  pub api_key : Option String
  pub fresh_ttl : Option ℕ

-- The body without the key, which gives a request its identity.
pub record BodyFields : Type 0 where
  pub series_ids : List String
  pub start_year : Option ℕ
  pub end_year : Option ℕ

pub record BatchRequest : Type 0 where
  pub identity : BodyFields
  pub registration_key : Option String
  pub fresh : ℕ
  pub stale : ℕ

-- `options.apiKey ? ... : {}`: an empty key is none.
abbrev pub sent_key : Option String → Option String
sent_key none = none
sent_key (some key) = if str_eq key "" then none else some key

unfoldable pub batch_request : SeriesOptions → List String → BatchRequest
batch_request options batch = record {
  identity = record {
    series_ids = batch;
    start_year = options.start_year;
    end_year = options.end_year;
  };
  registration_key = sent_key options.api_key;
  fresh = or_else options.fresh_ttl fresh_ttl_seconds;
  stale = stale_ttl_seconds;
}

-- "" , "-" and "*" mean that there is no estimate.
abbrev pub is_missing : String → Bool
is_missing value = str_eq value "" || str_eq value "-" || str_eq value "*"

unfoldable pub kept_footnotes : List (Option String × Option String) → List (String × String)
kept_footnotes [] = []
kept_footnotes ((none, text) ∷ rest) = kept_footnotes rest
kept_footnotes ((some code, text) ∷ rest) =
    let kept = kept_footnotes rest in
    if str_eq code "" then kept else (code, or_else text "") ∷ kept

module _ {N : Type 0} (parse_float : String → N) where
  unfoldable pub observation_of : Datum → Observation N
  observation_of d = record {
    year = d.year;
    period = d.period;
    period_name = d.period_name;
    value = if is_missing d.value then none else some (parse_float d.value);
    footnotes = kept_footnotes d.footnotes;
  }

  unfoldable pub parse_series : {S : Type 0} → BlsResponse → Action S (List (SeriesResult N))
  parse_series res =
      if str_eq res.status "REQUEST_SUCCEEDED"
      then pure (
          map (λ s. record { series_id = s.series_id; observations = map observation_of s.points })
            res.series)
      else raise syntax_error

module _ (mentions : String → Bool) where
  unfoldable pub is_daily_threshold_refusal : BlsResponse → Bool
  is_daily_threshold_refusal res =
      str_eq res.status "REQUEST_NOT_PROCESSED" && any mentions res.message

  -- `messages.join("; ")`
  abbrev pub join : List String → String
  join [] = ""
  join (m ∷ []) = m
  join (m ∷ n ∷ rest) = template (m ∷ "; " ∷ join (n ∷ rest) ∷ [])

  -- The hook that reads a body before it is cached; `none` where the body does not parse.
  unfoldable pub body_error : Option BlsResponse → Option BodyError
  body_error none = none
  body_error (some res) =
      if is_daily_threshold_refusal res
      then some
          (record { code = daily_threshold_code; message = join res.message; retryable = false })
      else none

  module _ {S : Type 0} (post : BatchRequest → Action S (BlsResponse × CacheInfo))
      (resets : S → String) where
    abbrev pub throw_quota_exceeded : {A : Type 0} → Action S A
    throw_quota_exceeded s = (err (quota_exceeded "bls" (resets s) none none), s)

    -- The `catch` around a post.
    unfoldable pub on_failure : Failure → Action S (BlsResponse × CacheInfo)
    on_failure (agency_api_error source code message url attempts) =
        if str_eq code daily_threshold_code
        then throw_quota_exceeded
        else raise (agency_api_error source code message url attempts)
    on_failure e = raise e

    unfoldable pub post_batch : SeriesOptions → List String → Action S (BlsResponse × CacheInfo)
    post_batch options batch = recover (post (batch_request options batch)) on_failure >>= λ result.
        if is_daily_threshold_refusal result.0 then throw_quota_exceeded else pure result

    unfoldable pub post_all :
        SeriesOptions → List (List String) → Action S (List (BlsResponse × CacheInfo))
    post_all options [] = pure []
    post_all options (batch ∷ batches) = post_batch options batch >>= λ result.
        post_all options batches >>= λ results. pure (result ∷ results)

    unfoldable pub fetch_series_batches :
        List String → SeriesOptions → Action S (List BlsResponse × CacheInfo)
    fetch_series_batches ids options =
        post_all options (chunk ids max_series_per_request) >>= λ results.
        pure (map (λ r. r.0) results, merge_cache (map (λ r. r.1) results))
