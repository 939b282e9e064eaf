-- ===== src/Server/Headers.antt =====
-- The headers that say who is calling, from the Lambda event to the caller (server/lambda-headers.ts,
-- server/attestation.ts, server/create-server.ts: `callerResolver`, `normalizeHeaders`). The process's
-- nonce and the comparison of digests are parameters, as is `identify`, of Identify when the options
-- name no other. Between the two the transport hands the headers on as they are.
pub mod Named
pub mod Adapter
pub mod Attested
mod Tests
use federal_mcps.Common.{
  ℕ, ◌≡◌, String, Bool, true, false, ◌||◌, not, Option, none, some, List, [], ◌∷◌, ◌++◌, str_eq,
  if◌then◌else◌,
}
use federal_mcps.Common.Dict.{Dict, lookup, insert, erase}
use federal_mcps.Common.Text.{join}
use federal_mcps.Common.Chars.{to_lower_case, is_empty, map_chars, counterpart}
use federal_mcps.Limits.Config.{Caller}
use federal_mcps.Server.Identify.{source_ip_header, operator_bypass_header}

abbrev pub attestation_header : String
attestation_header = "x-federal-mcps-attestation"

-- What an event brings: its headers, each perhaps undefined, and the address of the TCP peer.
pub record LambdaHeaderEvent : Type 0 where
  pub headers : List (String × Option String)
  pub source_ip : String

-- `headers` and `operatorValues`.
pub record Sorted : Type 0 where
  pub kept : Dict String
  pub operator_values : List String

unfoldable pub sort_header : String → String → Sorted → Sorted
sort_header name value s =
    let lower = to_lower_case name in
    if str_eq lower source_ip_header || str_eq lower attestation_header
    then s
    else if str_eq lower operator_bypass_header
    then record s { operator_values = s.operator_values ++ value ∷ [] }
    else record s { kept = insert name value s.kept }

-- The loop over `Object.entries(event.headers ?? {})`.
unfoldable pub sort_headers : Sorted → List (String × Option String) → Sorted
sort_headers s [] = s
sort_headers s ((name, none) ∷ entries) = sort_headers s entries
sort_headers s ((name, some value) ∷ entries) = sort_headers (sort_header name value s) entries

-- The operator's header, when it came once.
abbrev pub with_operator : List String → Dict String → Dict String
with_operator [] headers = headers
with_operator (value ∷ []) headers = insert operator_bypass_header value headers
with_operator (_ ∷ _ ∷ _) headers = headers

-- `HeaderValue` of the transport: a header that is repeated may be an array.
pub data HeaderValue : Type 0 where
  one : String → HeaderValue
  many : List String → HeaderValue

unfoldable pub header_text : HeaderValue → String
header_text (one value) = value
header_text (many values) = join ", " values

unfoldable pub normalize_from : Dict String → List (String × Option HeaderValue) → Dict String
normalize_from headers [] = headers
normalize_from headers ((name, none) ∷ raw) = normalize_from headers raw
normalize_from headers ((name, some value) ∷ raw) =
    normalize_from (insert (to_lower_case name) (header_text value) headers) raw

unfoldable pub normalize_headers : List (String × Option HeaderValue) → Dict String
normalize_headers = normalize_from []

module _ (nonce : String) (same_digest : String → String → Bool) where
  -- `Object.assign(headers, attest())` sets the nonce's header.
  abbrev pub assert_source : String → Dict String → Dict String
  assert_source source_ip headers =
      if is_empty source_ip
      then headers
      else insert attestation_header nonce (insert source_ip_header source_ip headers)

  unfoldable pub lambda_request_headers : LambdaHeaderEvent → Dict String
  lambda_request_headers event =
      let s = sort_headers (record { kept = []; operator_values = [] }) event.headers in
      assert_source event.source_ip (with_operator s.operator_values s.kept)

  abbrev pub is_nonce : Option String → Bool
  is_nonce none = false
  is_nonce (some presented) = same_digest presented nonce

  unfoldable pub is_attested : Dict String → Bool
  is_attested headers = is_nonce (lookup attestation_header headers)

  -- Who sent a request with these headers, none on a transport without.
  unfoldable pub caller_for :
      (Dict String → ℕ → Option Caller)
      → Option (List (String × Option HeaderValue))
      → ℕ
      → Option Caller
  caller_for identify none now = none
  caller_for identify (some raw) now =
      let headers = normalize_headers raw in
      if not (is_attested headers) then none else identify (erase attestation_header headers) now
