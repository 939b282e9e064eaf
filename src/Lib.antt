-- ===== src/Lib.antt =====
-- A model of the core of the federal MCP servers: what stands between a tool call and an agency's
-- API. A call is counted against its caller's daily share and the agency's daily service budget, waits
-- for its turn at the agency's rate, is retried, and is answered from a cache where it can be.
--
-- A place that a call names is resolved against a catalog of areas, or asked back about where the
-- name stands for several, and its figures are fetched by the codes of the place that was found.
--
-- The parts, and the code that each follows (paths from the repository's root):
-- - Common, Time: lists, dictionaries, text and integers that the parts share; a `Date` is its
--   milliseconds since 1970, and `toISOString` is written out for the years 1970 to 9999.
-- - Limits.Config, Limits.Context: packages/core/src/limits/config.ts, limiter.ts and context.ts, and
--   server/caller.ts. A refusal is a `LimitInfo` as a value, the per-call context a part of the state.
-- - Limits.CounterStore, MemoryStore, DynamoStore: limits/counter-store.ts and dynamo-store.ts. The
--   interface is a record of functions on a state, `IsCounterStore` its contract. DynamoDB is a
--   parameter, and `IsDynamo` what its documentation says of conditional updates.
-- - Limits.Keys, Limits.Limiter: limits/persistent-limiter.ts. `LimiterState` holds the store, the keys
--   known to be over, the fallback counts and the time of the last warning; `charge`,
--   `begin_tool_call`, `before_upstream` and `usage_of` are the functions of `createLimiter`.
--   `Limiter.Budget.Run` runs any sequence of calls.
-- - Limits.Split: limits/split.ts.
-- - Http.RateLimit, ErrorWindow, Budget, Retry: the token bucket and the error window of
--   packages/core/src/http/client.ts, http/budget.ts and http/retry.ts.
-- - Http.Client: the state of one client, what it meets (`World`), and its failures. An action is a
--   function on the state that returns a result and the state, which a failure keeps.
-- - Http.Fetch, Request, Notes, Cached: `fetchWithRetry`, `performRequest`, the notes and
--   `getWithCache` of http/client.ts. The limiter is the record of a state and one function that
--   the client calls, as the source's `Limiter` interface is.
-- - Server: packages/core/src/server/wrap.ts (Render), errors.ts (Refusal) and the call of a tool in
--   create-server.ts (Calls), whose handler is a parameter; identify.ts (Identify: Address and Hex read the
--   text of an address); lambda-headers.ts, attestation.ts and `callerResolver` (Headers);
--   what a call is answered with (Answers) and the tool that describes the source (DescribeSource).
-- - Bls: packages/server-bls/src/series-fetch.ts; Chunks has the batches and the merge of cache blocks,
--   Series the fetch over a client that is one function on a state.
-- - Bls.Qcew: packages/server-bls/src/qcew.ts (Csv, Calendar, Files and Qcew itself) and qcew-indicators.ts:
--   Periods (`candidatePeriods`), Keys, Missing (`formatMissingPeriods`), Pool (the workers of
--   `fetchSlicesBounded`, as a relation of the states before and after any interleaving of settled
--   fetches and an abort), History (`fetchRows`, `qcewFetch`) and Indicators. What the pool leaves is a
--   parameter of History.
-- - Bls.SeriesIds: the builders and the tests of series ids in laus.ts, cpi.ts, ces.ts, jt.ts, cps.ts and
--   ppi.ts of packages/server-bls/src.
-- - Bls.Programs: laus-indicators.ts, ces-indicators.ts and cpi-indicators.ts of packages/server-bls/src.
-- - Geography: packages/core/src/geography. Identifiers is identifiers.ts and the state codes; Types is
--   types.ts; Flags is flags.ts; Names, Dominance, Candidates and Resolver are resolver.ts: the reading
--   of a query, dominance, the scoring of an area and `resolvePlace`, whose last part, from the matches
--   on, is `decide`. The queries of catalog.ts are the record `Catalog` of functions. Tools is tools.ts.
-- - Envelope: packages/core/src/envelope/types.ts and envelope.ts.
-- - Indicators: packages/core/src/indicators. Observations is observations.ts, Registry is registry.ts,
--   and Series, GetIndicator, Compare and ListIndicators are tools.ts: `resolveSeries` and the handlers
--   of get_indicator, compare_places and list_indicators. An indicator's definition is a record of
--   functions, its fetch an action on a state, the place is found by the resolver above.
-- - Common's child modules: Chars are JavaScript's string methods, Sort is a stable sort, Sets and Members
--   what a list has, Checked a result that may be a message.
--
-- Bounds: the retry loop runs on fuel for three rounds, the source's `maxAttempts`; the wait for a
-- token on fuel for four checks: one that finds the bucket closed, one that finds it short of a token,
-- one more that finds it short still, and one that is granted. Tokens are counted in 1/60000, so that a
-- refill is exact and the named wait is always enough; the source counts in floating point, where that
-- wait can leave the bucket short of a token by a rounding, which costs one more wait, of a millisecond,
-- that the model does not have. The percentage of a near-limit note is likewise the exact quotient's
-- whole part. The age of a cache entry of the future is 0, where the source has it negative; a text's
-- size is in bytes, where the source counts UTF-16 units.
--
-- The loop over quarters runs on fuel for every quarter from the first year's first to the last one.
-- A score of the resolver is kept in millionths, as what is gained and what is lost, with the logarithm
-- a parameter; an indicator's figures are of any type, and what JavaScript does with the numbers of a
-- QCEW file is a record of functions.
--
-- Not modelled: the messages of thrown errors, the latencies of the metric lines, hashing of cache keys, URL encoding and
-- files of fixtures (a cache key and a fixture are what the request and the world give); two requests
-- in flight at once on one client; the transports of the server shell and the schemas of the tools; the
-- SQL of the catalog; letters outside Latin-1 where the code folds case, and the order of texts by
-- UTF-16 units, which is that of code points here; a kind of place named like a member of a plain
-- JavaScript object; the build of the catalog; the other agencies' servers.
pub mod Common
pub mod Time
pub mod Limits
pub mod Http
pub mod Server
pub mod Bls
pub mod Geography
pub mod Envelope
pub mod Indicators
