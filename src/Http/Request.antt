-- ===== src/Http/Request.antt =====
-- `performRequest` (http/client.ts): the gates that a request passes before it is sent.
pub mod Sent
pub mod Charged
pub mod Paid
use federal_mcps.Common.{
  ℕ, ◌-◌, Bool, true, false, Option, none, some, List, [], ◌∷◌, ◌++◌, leb, if◌then◌else◌, str_eq,
}
use federal_mcps.Common.Dict.{lookup}
use federal_mcps.Limits.Context.{caller_of, count_upstream}
use federal_mcps.Limits.Limiter.{done, refused}
use federal_mcps.Http.RateLimit.{acquire, acquired, too_long, out_of_rounds, note_remaining}
use federal_mcps.Http.Budget.{consume}
use federal_mcps.Http.Notes.{note_near_limit}
use federal_mcps.Http.Client.{
  RawResponse, Request, http_error, quota_exceeded, missing_fixture, rate_limit_wait,
  limit_exceeded, cut_short, FixtureMode, ClientOptions, World, Limiter, Client, ok, err, Action,
  pure, raise, raise_if, gets, modify, ◌>>=◌, ◌>>◌,
}
use federal_mcps.Http.Fetch.{check_errors, raise_if_aborted, fetch_with_retry}

-- Four checks: one that finds the bucket closed, one that finds it short of a token, one that finds
-- it still just short, where the source's floating point rounds down, and one that is granted.
abbrev pub token_checks : ℕ
token_checks = 4

abbrev pub is_exhausted : RawResponse → Bool
is_exhausted raw = elim (lookup "x-ratelimit-remaining" raw.headers) [
  | none ↦ false
  | some left ↦ str_eq left "0"
]

module _ {V : Type 0} (l : Limiter) (o : ClientOptions) (w : World) where
  unfoldable pub acquire_token : Action (Client l.State V) Unit
  acquire_token s =
      let (end, bucket', now') =
        acquire w.late o.per_minute o.max_wait_ms token_checks s.now s.bucket in
      (
        elim end [
          | acquired ↦ ok tt
          | too_long wait_ms ↦ err (rate_limit_wait o.source o.per_minute wait_ms o.max_wait_ms)
          | out_of_rounds ↦ err cut_short
        ],
        record s { bucket = bucket'; now = now' },
      )

  unfoldable pub charge_limiter : Action (Client l.State V) Unit
  charge_limiter s =
      let (r, limiter') = l.before_upstream o.source (caller_of s.context) s.now s.limiter in
      elim r [
        | refused info ↦ (err (limit_exceeded info), record s { limiter = limiter' })
        | done usage ↦
            (ok tt, record s { limiter = limiter'; context = note_near_limit usage s.context })
      ]

  unfoldable pub charge_budget : Action (Client l.State V) Unit
  charge_budget s =
      let (r, budget') = consume o.source 1 s.now s.budget in
      (
        if r.allowed
            then ok tt
            else err
                (quota_exceeded o.source r.resets_at (some r.limit) (some (r.limit - r.remaining))),
        record s { budget = budget' },
      )

  abbrev pub count_call : Action (Client l.State V) Unit
  count_call = modify (λ s. record s { context = count_upstream s.context })

  abbrev pub note_headers : RawResponse → Action (Client l.State V) Unit
  note_headers raw =
      modify
        (λ s. record s { bucket = note_remaining o.per_minute (is_exhausted raw) s.now s.bucket })

  module _ (req : Request) where
    unfoldable pub write_fixture : FixtureMode → RawResponse → Action (Client l.State V) Unit
    write_fixture FixtureMode.recording raw =
        modify (λ s. record s { recorded = s.recorded ++ (req, raw) ∷ [] })
    write_fixture _ raw = pure tt

    unfoldable pub replay : Action (Client l.State V) RawResponse
    replay = elim (w.read_fixture req) [
      | none ↦ raise (missing_fixture o.source req.url)
      | some raw ↦
          raise_if (leb 400 raw.status) (http_error o.source raw.status req.url 1) >> pure raw
    ]

    unfoldable pub send : Action (Client l.State V) RawResponse
    send = do
      check_errors o w
      acquire_token
      charge_limiter
      charge_budget
      count_call
      raw ← fetch_with_retry o w req
      note_headers raw
      write_fixture o.fixture_mode raw
      pure raw

    abbrev pub by_mode : FixtureMode → Action (Client l.State V) RawResponse
    by_mode FixtureMode.replay = replay
    by_mode _ = send

    unfoldable pub perform_request : Action (Client l.State V) RawResponse
    perform_request = raise_if_aborted o w req >> by_mode o.fixture_mode
