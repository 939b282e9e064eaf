-- ===== src/Http/Client.antt =====
-- The state, the surroundings and the failures of one HTTP client (http/client.ts, http/errors.ts,
-- http/cache-store.ts). A promise is an action on the state, which is kept when the action fails.
use federal_mcps.Common.{ℕ, String, Bool, Option, none, List, if◌then◌else◌, ◌≡◌, refl}
use federal_mcps.Common.Dict.{Dict}
use federal_mcps.Limits.Config.{Caller, LimitInfo, UsageSnapshot}
use federal_mcps.Limits.Context.{CallContext}
use federal_mcps.Limits.Limiter.{Outcome, done}
use federal_mcps.Http.RateLimit.{Bucket}
use federal_mcps.Http.ErrorWindow.{Window}
use federal_mcps.Http.Budget.{BudgetStore}
use federal_mcps.Http.Retry.{RetryAfter}

pub record RawResponse : Type 0 where
  pub status : ℕ
  pub headers : Dict String
  pub body : String

-- What a request needs of `RequestOptions` and of the arguments of `getWithCache`.
pub record Request : Type 0 where
  pub key : String
  pub url : String
  pub headers : Dict String
  pub body : Option String
  pub identity_body : Option String
  pub query_auth : Dict String
  pub timeout_ms : Option ℕ
  pub fresh_ttl_seconds : Option ℕ
  pub stale_ttl_seconds : Option ℕ

-- An error that an agency reports inside a successful response.
pub record BodyError : Type 0 where
  pub code : String
  pub message : String
  pub retryable : Bool

-- What is thrown: the classes of http/errors.ts, the limiter's error, a body that does not parse,
-- and, in the model alone, a loop that was cut short.
pub data Failure : Type 0 where
  http_error : (source : String) (status : ℕ) (url : String) (attempts : ℕ) → Failure
  timeout_error : (source url : String) (timeout_ms : ℕ) → Failure
  deadline_exceeded : (source url : String) → Failure
  quota_exceeded : (source resets_at : String) (limit used : Option ℕ) → Failure
  missing_fixture : (source url : String) → Failure
  network_error : (source url : String) → Failure
  rate_limit_wait :
      (source : String) (per_minute : Option ℕ) (wait_ms : Option ℕ) (max_wait_ms : ℕ) → Failure
  upstream_error_limit :
      (source : String) (errors_per_minute : Option ℕ) (resets_at : String) → Failure
  agency_api_error : (source code message url : String) (attempts : ℕ) → Failure
  limit_exceeded : LimitInfo → Failure
  syntax_error cut_short : Failure

pub data FixtureMode : Type 0 where
  live replay recording : FixtureMode

-- `HttpClientOptions`, with the defaults filled in.
pub record ClientOptions : Type 0 where
  pub source : String
  pub default_timeout_ms : ℕ
  pub per_minute : Option ℕ
  pub max_wait_ms : ℕ
  pub errors_per_minute : Option ℕ
  pub sanitize : Option (String → String)
  pub body_error : Option (String → Option BodyError)
  pub fixture_mode : FixtureMode

-- How one call of `fetch` ends: an answer, or a throw, with the signals that have fired by then.
pub data Fetched : Type 0 where
  responded : RawResponse → Fetched
  threw : (caller_aborted timed_out : Bool) → Fetched

-- What the client meets: the n-th fetch and how long it takes, whether the caller's signal has
-- aborted at a time, the random numbers, how late timers are, the reading of a `Retry-After` header
-- and the fixture files.
pub record World : Type 0 where
  pub fetch : ℕ → Request → Fetched
  pub took : ℕ → ℕ
  pub aborted : ℕ → Bool
  pub random : ℕ → ℕ → ℕ
  pub late : ℕ → ℕ
  pub read_retry_after : Option String → RetryAfter
  pub read_fixture : Request → Option RawResponse

-- The `Limiter` seam (limits/limiter.ts), as far as the client calls it; `at` and the limiter's own
-- clock are one here.
pub record Limiter : Type 1 where
  pub State : Type 0
  pub before_upstream : String → Option Caller → ℕ → State → Outcome (Option UsageSnapshot) × State

-- `NO_LIMITER`, and a client without a limiter.
abbrev pub no_limiter : Limiter
no_limiter = record { State = Unit; before_upstream = λ source caller at s. (done none, s) }

pub record CacheEntry (V : Type 0) : Type 0 where
  pub value : V
  pub status : ℕ
  pub stored_at : ℕ

-- `fetched` counts the calls of `fetch` that the client has made.
pub record Client (L V : Type 0) : Type 0 where
  pub now : ℕ
  pub fetched : ℕ
  pub bucket : Bucket
  pub window : Window
  pub budget : BudgetStore
  pub limiter : L
  pub context : Option CallContext
  pub cache : Dict (CacheEntry V)
  pub recorded : List (Request × RawResponse)

pub data Result (A : Type 0) : Type 0 where
  ok : A → Result A
  err : Failure → Result A

abbrev pub Action : Type 0 → Type 0 → Type 0
Action S A = S → Result A × S

module _ {S A : Type 0} where
  abbrev pub pure : A → Action S A
  pure a s = (ok a, s)

  abbrev pub raise : Failure → Action S A
  raise e s = (err e, s)

abbrev pub raise_if : {S : Type 0} → Bool → Failure → Action S Unit
raise_if b e s = (if b then err e else ok tt, s)

abbrev pub gets : {S A : Type 0} → (S → A) → Action S A
gets f s = (ok (f s), s)

abbrev pub modify : {S : Type 0} → (S → S) → Action S Unit
modify f s = (ok tt, f s)

infixl 5 ◌>>=◌ ◌>>◌
abbrev pub ◌>>=◌ : {S A B : Type 0} → Action S A → (A → Action S B) → Action S B
◌>>=◌ m f s = let (r, s') = m s in elim r [ ok a ↦ f a s' | err e ↦ (err e, s') ]

abbrev pub ◌>>◌ : {S A B : Type 0} → Action S A → Action S B → Action S B
m >> k = m >>= λ _. k

module _ {ℓ} {S A B : Type 0} (P : Result B × S → Type ℓ) (k : A → Action S B) where
  after-cases :
      (p : Result A × S) (s : S)
      → ((a : A) (s' : S) → p ≡ (ok a, s') → P (k a s'))
      → ((e : Failure) (s' : S) → p ≡ (err e, s') → P (err e, s'))
      → P (((λ _. p) >>= k) s)
  after-cases (ok a, s') s good bad = good a s' refl
  after-cases (err e, s') s good bad = bad e s' refl

  -- A property of the end of a chain holds if it does on both ways that its first step can end.
  pub bind-cases :
      (m : Action S A) (s : S)
      → ((a : A) (s' : S) → m s ≡ (ok a, s') → P (k a s'))
      → ((e : Failure) (s' : S) → m s ≡ (err e, s') → P (err e, s'))
      → P ((m >>= k) s)
  bind-cases m s good bad = after-cases (m s) s good bad
