-- ===== src/Http/Fetch.antt =====
-- `fetchWithRetry` (http/client.ts): the attempts of one request.
pub mod Attempts
use federal_mcps.Common.{
  ℕ, zero, suc, ◌+◌, String, Bool, true, false, not, ◌&&◌, ◌||◌, Option, none, some, leb, ltb,
  or_else, if◌then◌else◌,
}
use federal_mcps.Common.Dict.{lookup}
use federal_mcps.Time.{iso_string}
use federal_mcps.Http.ErrorWindow
use federal_mcps.Http.Retry.{max_attempts, is_retryable_status, compute_delay_ms, parse_retry_after}
use federal_mcps.Http.Client.{
  RawResponse, Request, BodyError, Failure, http_error, timeout_error, deadline_exceeded,
  network_error, upstream_error_limit, agency_api_error, cut_short, ClientOptions, Fetched,
  responded, threw, World, Client, Result, ok, err, Action, pure, raise, raise_if, gets, modify,
  ◌>>=◌, ◌>>◌,
}

-- How an attempt ends that does not throw: with a response, or with a wait before the next.
pub data Verdict : Type 0 where
  give : RawResponse → Verdict
  again : ℕ → Verdict

abbrev pub clean_body : Option (String → String) → RawResponse → RawResponse
clean_body none raw = raw
clean_body (some sanitize) raw = record raw { body = sanitize raw.body }

abbrev pub agency_error : Option (String → Option BodyError) → String → Option BodyError
agency_error none body = none
agency_error (some read) body = read body

module _ {L V : Type 0} (o : ClientOptions) (w : World) where
  unfoldable pub check_errors : Action (Client L V) Unit
  check_errors s =
      let (full, window') = ErrorWindow.check_error_limit o.errors_per_minute s.now s.window in
      (
        elim full [
          | none ↦ ok tt
          | some ends ↦ err (upstream_error_limit o.source o.errors_per_minute (iso_string ends))
        ],
        record s { window = window' },
      )

  unfoldable pub note_error : Action (Client L V) Unit
  note_error s =
      (ok tt, record s { window = ErrorWindow.note_error o.errors_per_minute s.now s.window })

  -- `fetchFn` and the reading of its body: the clock goes on.
  unfoldable pub call_fetch : Request → Action (Client L V) Fetched
  call_fetch req s = (
    ok (w.fetch s.fetched req),
    record s { now = s.now + w.took s.fetched; fetched = s.fetched + 1 },
  )

  unfoldable pub sleep : ℕ → Action (Client L V) Unit
  sleep ms s = (ok tt, record s { now = s.now + ms + w.late s.now })

  abbrev pub backoff : ℕ → Action (Client L V) Verdict
  backoff attempt s = (ok (again (compute_delay_ms (w.random s.fetched) attempt)), s)

  module _ (req : Request) where
    -- A response that is not retried by its status.
    unfoldable pub judge_final : ℕ → RawResponse → Action (Client L V) Verdict
    judge_final attempt raw =
        if leb 400 raw.status
        then ((if ltb raw.status 500 then note_error else pure tt)
            >> raise (http_error o.source raw.status req.url attempt))
        else (let clean = clean_body o.sanitize raw in
            elim (agency_error o.body_error clean.body) [
              | none ↦ pure (give clean)
              | some e ↦
                  note_error
                  >> (if not e.retryable || leb max_attempts attempt
                      then raise (agency_api_error o.source e.code e.message req.url attempt)
                      else backoff attempt)
            ])

    unfoldable pub judge_retryable : ℕ → RawResponse → Action (Client L V) Verdict
    judge_retryable attempt raw =
        (if leb 400 raw.status && ltb raw.status 500 then note_error else pure tt)
        >> (if leb max_attempts attempt
            then raise (http_error o.source raw.status req.url attempt)
            else λ s. (
              ok (
                  again (
                    or_else
                      (parse_retry_after (w.read_retry_after (lookup "retry-after" raw.headers))
                        s.now)
                      (compute_delay_ms (w.random s.fetched) attempt))),
              s,
            ))

    -- `doFetchOnce` tells the signals apart; what it rethrows is a network failure.
    unfoldable pub judge : ℕ → Fetched → Action (Client L V) Verdict
    judge attempt (responded raw) =
        if is_retryable_status raw.status
        then judge_retryable attempt raw
        else judge_final attempt raw
    judge attempt (threw true _) = raise (deadline_exceeded o.source req.url)
    judge attempt (threw false true) =
        raise (timeout_error o.source req.url (or_else req.timeout_ms o.default_timeout_ms))
    judge attempt (threw false false) =
        if leb max_attempts attempt then raise (network_error o.source req.url) else backoff attempt

    unfoldable pub raise_if_aborted : Action (Client L V) Unit
    raise_if_aborted s =
        (if w.aborted s.now then err (deadline_exceeded o.source req.url) else ok tt, s)

    unfoldable pub one_attempt : ℕ → Action (Client L V) Verdict
    one_attempt attempt = do
      raise_if_aborted
      check_errors
      fetched ← call_fetch req
      judge attempt fetched

    -- The loop, on fuel.
    unfoldable pub attempts_from : ℕ → ℕ → Action (Client L V) RawResponse
    attempts_from zero attempt = raise cut_short
    attempts_from (suc fuel) attempt =
        one_attempt attempt
        >>= elim [ give raw ↦ pure raw | again ms ↦ sleep ms >> attempts_from fuel (attempt + 1) ]

    -- An attempt past the last is never made, so as many rounds as attempts are enough.
    unfoldable pub fetch_with_retry : Action (Client L V) RawResponse
    fetch_with_retry = attempts_from max_attempts 1
