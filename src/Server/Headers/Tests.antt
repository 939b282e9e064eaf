-- ===== src/Server/Headers/Tests.antt =====
-- Tests and instances for the headers.
use federal_mcps.Common.{
  ℕ, List, ◌≡◌, refl, String, true, false, ◌⊎◌, Option, none, some, [], ◌∷◌, str_eq,
}
use federal_mcps.Common.Dict.{Dict, lookup, insert}
use federal_mcps.Common.Chars.{is_empty, map_chars, counterpart}
use federal_mcps.Common.Text.{join}
use federal_mcps.Limits.Config.{Caller, CallerKind}
use federal_mcps.Server.Identify.{source_ip_header, operator_bypass_header}
use federal_mcps.Server.Headers.{
  attestation_header, LambdaHeaderEvent, HeaderValue, one, many, header_text,
  lambda_request_headers, sort_headers, sort_header, caller_for,
}
use federal_mcps.Server.Headers.Named.{as_sent}
use federal_mcps.Server.Headers.Adapter.{operator_sent}
use federal_mcps.Server.Headers.Attested.{
  sent_once, caller_for-lambda_request_headers, caller_for_without_nonce,
}

-- A client that spells a source address of its own, and the operator's header.
abbrev event : LambdaHeaderEvent
event = record {
  headers =
      ("X-Federal-Mcps-Source-Ip", some "160.79.104.1")
      ∷ ("Accept", some "text/html")
      ∷ ("X-Federal-Mcps-Operator", some "guess")
      ∷ [];
  source_ip = "203.0.113.9";
}

adapted :
    lambda_request_headers "nonce" str_eq event
    ≡ ("Accept", "text/html")
      ∷ (operator_bypass_header, "guess")
      ∷ (source_ip_header, "203.0.113.9")
      ∷ (attestation_header, "nonce")
      ∷ []
unfolding lambda_request_headers sort_headers sort_header insert map_chars counterpart
adapted = refl

-- An `identify` that names the caller by its address.
abbrev by_address : Dict String → ℕ → Option Caller
by_address headers now = elim (lookup source_ip_header headers) [
  | none ↦ none
  | some address ↦ some (record {
    key = address;
    kind = CallerKind.network;
    user_agent = none;
    bypass = false;
    test_limit = none;
  })
]

caller_for-lambda_request_headers_example :
    let sent = some (as_sent (lambda_request_headers "nonce" str_eq event)) in
    ((is_empty "203.0.113.9" ≡ true) × (caller_for "nonce" str_eq by_address sent 0 ≡ none))
    ⊎ ((is_empty "203.0.113.9" ≡ false)
        × ((read : Dict String) × (caller_for "nonce" str_eq by_address sent 0 ≡ by_address read 0)
            × (lookup attestation_header read ≡ none)
            × (lookup source_ip_header read ≡ some "203.0.113.9")
            × (lookup operator_bypass_header read ≡ sent_once (operator_sent event.headers))))
caller_for-lambda_request_headers_example =
    caller_for-lambda_request_headers "nonce" str_eq by_address event 0 refl

abbrev direct : List (String × Option HeaderValue)
direct =
    (source_ip_header, some (one "160.79.104.1"))
    ∷ (attestation_header, some (many ("guess" ∷ "another" ∷ [])))
    ∷ []

caller_for_without_nonce_example : caller_for "nonce" str_eq by_address (some direct) 0 ≡ none
unfolding header_text join
caller_for_without_nonce_example =
    caller_for_without_nonce "nonce" str_eq by_address direct 0 (refl, (refl, tt))
