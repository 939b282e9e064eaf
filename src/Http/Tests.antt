-- ===== src/Http/Tests.antt =====
-- Runs of the HTTP client on small inputs.
use federal_mcps.Common.{
  ℕ, zero, suc, ◌+◌, ◌-◌, ◌*◌, ◌/◌, ◌≤◌, String, ◌≡◌, refl, Bool, true, false, Option, none, some,
  [], ◌∷◌, arith,
}
use federal_mcps.Common.Dict.{Dict, lookup, insert}
use federal_mcps.Limits.Context.{fresh}
use federal_mcps.Http.RateLimit.{
  Bucket, token, acquire, check_token, refill, take_token, note_remaining,
}
use federal_mcps.Http.RateLimit.Rate.{ask, response, grants, grants_within_rate}
use federal_mcps.Http.ErrorWindow.{Window, roll, check_error_limit}
use federal_mcps.Http.Budget.{BudgetStore, consume, used_so_far, IsWithin}
use federal_mcps.Http.Retry.{RetryAfter, is_retryable_status, compute_delay_ms, parse_retry_after}
use federal_mcps.Http.Client.{
  RawResponse, Request, FixtureMode, ClientOptions, Fetched, responded, World, no_limiter,
  CacheEntry, Client, ok,
}
use federal_mcps.Http.Fetch.{
  check_errors, call_fetch, sleep, judge_final, judge_retryable, judge, raise_if_aborted,
  one_attempt, attempts_from, fetch_with_retry,
}
use federal_mcps.Http.Fetch.Attempts.{IsRetried, fetch_with_retry-HasAttempts}
use federal_mcps.Http.Request.{
  acquire_token, charge_limiter, charge_budget, write_fixture, send, perform_request,
}
use federal_mcps.Http.Request.Paid.{IsSettled, perform_request_lem}
use federal_mcps.Http.Cached.{HttpResult, cache_miss, from_cache, fetch_and_store, get_with_cache}
use federal_mcps.Http.Cached.Answers.{IsAnswerOf, get_with_cache-IsAnswerOf}
use federal_mcps.Http.Cached.Again.{get_again}
use federal_mcps.Http.Cached.Aborted.{aborted_is_served}

abbrev options : ClientOptions
options = record {
  source = "bls";
  default_timeout_ms = 15_000;
  per_minute = some 60;
  max_wait_ms = 60_000;
  errors_per_minute = some 30;
  sanitize = none;
  body_error = none;
  fixture_mode = FixtureMode.live;
}

abbrev request : Request
request = record {
  key = "k";
  url = "https://api.bls.gov/";
  headers = [];
  body = none;
  identity_body = none;
  query_auth = [];
  timeout_ms = none;
  fresh_ttl_seconds = some 60;
  stale_ttl_seconds = some 600;
}

abbrev answer : ℕ → RawResponse
answer status = record { status = status; headers = []; body = "data" }

-- The first fetch is answered with 503, the later ones with data; each takes 5 ms.
abbrev nth_fetch : ℕ → Fetched
nth_fetch zero = responded (answer 503)
nth_fetch (suc _) = responded (answer 200)

abbrev world : Bool → World
world aborted = record {
  fetch = λ n req. nth_fetch n;
  took = λ n. 5;
  aborted = λ at. aborted;
  random = λ n cap. cap;
  late = λ at. 0;
  read_retry_after = λ header. RetryAfter.absent;
  read_fixture = λ req. none;
}

abbrev parse : String → Option String
parse body = some body

abbrev with_cache : Dict (CacheEntry String) → Client Unit String
with_cache cache = record {
  now = 100_000;
  fetched = 0;
  bucket = record { tokens = 60 * token; last_refill_ms = 0; blocked_until_ms = 0 };
  window = record { error_count = 0; start_ms = 0 };
  budget = record { used = []; limit_per_day = 500 };
  limiter = tt;
  context = some (fresh none);
  cache = cache;
  recorded = [];
}

abbrev started : Client Unit String
started = with_cache []

fetch_with_retry-HasAttempts_example :
    IsRetried started (fetch_with_retry options (world false) request started)
fetch_with_retry-HasAttempts_example =
    fetch_with_retry-HasAttempts options (world false) request started

perform_request_lem_example :
    IsSettled no_limiter options
      (world false)
      started
      (perform_request no_limiter options (world false) request started)
perform_request_lem_example = perform_request_lem no_limiter options (world false) request started

get_with_cache-IsAnswerOf_example :
    IsAnswerOf no_limiter options
      (world false)
      parse
      request
      none
      started
      (get_with_cache no_limiter options (world false) parse request started)
unfolding lookup
get_with_cache-IsAnswerOf_example =
    get_with_cache-IsAnswerOf no_limiter options (world false) parse request started

abbrev fetched_answer : HttpResult String
fetched_answer = record { value = "data"; cache = cache_miss; status = 200 }

second_attempt_answers :
    (get_with_cache no_limiter options (world false) parse request started).0 ≡ ok fetched_answer
unfolding get_with_cache fetch_and_store lookup insert perform_request raise_if_aborted send
    check_errors check_error_limit acquire_token acquire check_token refill take_token
    charge_limiter charge_budget consume used_so_far fetch_with_retry attempts_from one_attempt
    call_fetch judge judge_final judge_retryable is_retryable_status compute_delay_ms
    parse_retry_after sleep roll write_fixture note_remaining
second_attempt_answers = refl

get_again_example :
    let s' = (get_with_cache no_limiter options (world false) parse request started).1 in
    get_with_cache no_limiter options
      (world false)
      parse
      request
      (record s' { now = s'.now + 2000 })
    ≡ (
      ok (record {
        value = "data";
        cache = record {
          hit = true;
          age_seconds = some ((s'.now + 2000 - s'.now) / 1000);
          stale = false;
        };
        status = 200;
      }),
      record s' { now = s'.now + 2000 },
    )
get_again_example =
    let s' = (get_with_cache no_limiter options (world false) parse request started).1 in
    get_again no_limiter options (world false) parse request 60 fetched_answer started s'
      (s'.now + 2000) refl (λ i. (second_attempt_answers i, s')) refl (omega arith)

abbrev old_entry : CacheEntry String
old_entry = record { value = "old"; status = 200; stored_at = 0 }

aborted_is_served_example :
    get_with_cache no_limiter options
      (world true)
      parse
      request
      (with_cache (("k", old_entry) ∷ []))
    ≡ (ok (from_cache old_entry 100 true), with_cache (("k", old_entry) ∷ []))
unfolding lookup
aborted_is_served_example =
    aborted_is_served no_limiter options (world true) parse request old_entry
      (with_cache (("k", old_entry) ∷ [])) refl refl (omega arith) (omega arith)

abbrev one_token : Bucket
one_token = record { tokens = token; last_refill_ms = 0; blocked_until_ms = 0 }

grants_within_rate_example :
    (grants 60 (ask 0 ∷ response true 500 ∷ ask 1000 ∷ []) one_token).0 * token
    ≤ 60 * (token + (1000 - one_token.last_refill_ms))
grants_within_rate_example =
    grants_within_rate 60 1000 (ask 0 ∷ response true 500 ∷ ask 1000 ∷ []) one_token (omega arith)
      (omega arith, (omega arith, tt)) (omega arith)

abbrev full_window : Window
full_window = record { error_count = 1; start_ms = 0 }

abbrev unused : BudgetStore
unused = record { used = []; limit_per_day = 500 }

unused-IsWithin : IsWithin unused
unfolding used_so_far lookup
unused-IsWithin = record { each = λ key. omega arith }
