-- ===== src/Server/Headers/Attested.antt =====
-- What a client's own headers can do (server/lambda-headers.ts, server/create-server.ts:
-- `callerResolver`).
use federal_mcps.Common.{
  ℕ, ◌≡◌, refl, ap, ◌∙◌, String, Bool, true, false, Option, none, some, List, [], ◌∷◌, str_eq,
  Bool-cases, ◌⊎◌, inl, inr, All,
}
use federal_mcps.Common.Dict.{Dict, lookup, insert, erase, lookup-insert, lookup-erase}
use federal_mcps.Common.Chars.{to_lower_case, is_empty, map_chars, counterpart}
use federal_mcps.Limits.Config.{Caller}
use federal_mcps.Server.Identify.{source_ip_header, operator_bypass_header}
use federal_mcps.Server.Headers.{
  attestation_header, LambdaHeaderEvent, sort_headers, with_operator, HeaderValue, header_text,
  normalize_from, normalize_headers, lambda_request_headers, is_nonce, is_attested, caller_for,
}
use federal_mcps.Server.Headers.Named.{
  as_sent, last_value, Lacks, lookup-normalize, last_value-insert_other, last_value-Lacks,
  last_value-insert, insert-Lacks,
}
use federal_mcps.Server.Headers.Adapter.{
  operator_sent, sort_headers-LacksAll, sort_headers-operator,
}

-- The value of a header that was sent once.
abbrev pub sent_once : List String → Option String
sent_once [] = none
sent_once (value ∷ []) = some value
sent_once (_ ∷ _ ∷ _) = none

with_operator-Lacks :
    (k : String) (values : List String) (headers : Dict String)
    → str_eq (to_lower_case operator_bypass_header) k ≡ false
    → Lacks k headers
    → Lacks k (with_operator values headers)
with_operator-Lacks k [] headers e h = h
with_operator-Lacks k (value ∷ []) headers e h =
    insert-Lacks k operator_bypass_header value headers e h
with_operator-Lacks k (_ ∷ _ ∷ _) headers e h = h

with_operator-value :
    (values : List String) (headers : Dict String)
    → Lacks operator_bypass_header headers
    → last_value operator_bypass_header none (with_operator values headers) ≡ sent_once values
unfolding map_chars counterpart
with_operator-value [] headers h = last_value-Lacks operator_bypass_header headers none h
with_operator-value (value ∷ []) headers h =
    last_value-insert operator_bypass_header operator_bypass_header value headers none refl h
with_operator-value (_ ∷ _ ∷ _) headers h = last_value-Lacks operator_bypass_header headers none h

module _ (nonce : String) (same_digest : String → String → Bool) where
  -- What the shell reads of an asserted address, after the adapter's other headers.
  abbrev Asserted : String → Dict String → Dict String → Type 0
  Asserted source_ip headers read =
      (lookup attestation_header read ≡ some nonce)
      × (lookup source_ip_header read ≡ some source_ip)
      × (lookup operator_bypass_header read ≡ last_value operator_bypass_header none headers)

  normalize-Asserted :
      (source_ip : String) (headers : Dict String)
      → Lacks source_ip_header headers
      → Lacks attestation_header headers
      → Asserted source_ip headers (
          normalize_headers
            (as_sent (insert attestation_header nonce (insert source_ip_header source_ip headers))))
  unfolding normalize_headers map_chars counterpart lookup
  normalize-Asserted source_ip headers hs ha =
      let named = insert source_ip_header source_ip headers in
      let sent = insert attestation_header nonce named in
      (
        lookup-normalize attestation_header [] sent
            ∙ last_value-insert attestation_header attestation_header nonce named none refl
                (insert-Lacks attestation_header source_ip_header source_ip headers refl ha),
        lookup-normalize source_ip_header [] sent
            ∙ last_value-insert_other source_ip_header attestation_header nonce named none refl
            ∙ last_value-insert source_ip_header source_ip_header source_ip headers none refl hs,
        lookup-normalize operator_bypass_header [] sent
            ∙ last_value-insert_other operator_bypass_header attestation_header nonce named none
                refl
            ∙ last_value-insert_other operator_bypass_header source_ip_header source_ip headers none
                refl,
      )

  caller_for_unattested :
      (identify : Dict String → ℕ → Option Caller) (raw : List (String × Option HeaderValue))
      (now : ℕ)
      → is_attested nonce same_digest (normalize_headers raw) ≡ false
      → caller_for nonce same_digest identify (some raw) now ≡ none
  unfolding caller_for
  caller_for_unattested identify raw now e = rw e refl

  caller_for_attested :
      (identify : Dict String → ℕ → Option Caller) (raw : List (String × Option HeaderValue))
      (now : ℕ)
      → is_attested nonce same_digest (normalize_headers raw) ≡ true
      → caller_for nonce same_digest identify (some raw) now
        ≡ identify (erase attestation_header (normalize_headers raw)) now
  unfolding caller_for
  caller_for_attested identify raw now e = rw e refl

  -- Where the digest of the nonce is its own, a request from the adapter has no caller if the event
  -- names no address; else its caller is the one that `identify` finds by the event's own address,
  -- whatever source or attestation headers the client sent, and by the operator's header if the
  -- client sent it once, under any spelling. The nonce itself is not passed on.
  pub caller_for-lambda_request_headers :
      (identify : Dict String → ℕ → Option Caller) (event : LambdaHeaderEvent) (now : ℕ)
      → same_digest nonce nonce ≡ true
      → let sent = some (as_sent (lambda_request_headers nonce same_digest event)) in
        ((is_empty event.source_ip ≡ true)
          × (caller_for nonce same_digest identify sent now ≡ none))
        ⊎ ((is_empty event.source_ip ≡ false)
            × ((read : Dict String) × (caller_for nonce same_digest identify sent now
                  ≡ identify read now)
                × (lookup attestation_header read ≡ none)
                × (lookup source_ip_header read ≡ some event.source_ip)
                × (lookup operator_bypass_header read ≡ sent_once (operator_sent event.headers))))
  unfolding lambda_request_headers caller_for is_attested normalize_headers map_chars counterpart
      lookup
  caller_for-lambda_request_headers identify event now same =
      let s = sort_headers (record { kept = []; operator_values = [] }) event.headers in
      let values_sent =
        sort_headers-operator event.headers (record { kept = []; operator_values = [] }) in
      let (hs, ha, ho) =
        sort_headers-LacksAll event.headers (record { kept = []; operator_values = [] })
          (tt, tt, tt) in
      let headers = with_operator s.operator_values s.kept in
      let ls = with_operator-Lacks source_ip_header s.operator_values s.kept refl hs in
      let la = with_operator-Lacks attestation_header s.operator_values s.kept refl ha in
      elim (Bool-cases (is_empty event.source_ip)) [
        | inl blank ↦ inl (
          blank,
          ap (λ d. caller_for nonce same_digest identify (some (as_sent d)) now)
                (rw (blank, lambda_request_headers) refl)
              ∙ caller_for_unattested identify (as_sent headers) now (
                  ap (is_nonce nonce same_digest) (
                    lookup-normalize attestation_header [] headers
                    ∙ last_value-Lacks attestation_header headers none la)),
        )
        | inr named ↦
            let (attested, source, operator) = normalize-Asserted event.source_ip headers ls la in
            let sent =
              insert attestation_header nonce (insert source_ip_header event.source_ip headers) in
            let read = normalize_headers (as_sent sent) in
            inr (
              named,
              (
                erase attestation_header read,
                ap (λ d. caller_for nonce same_digest identify (some (as_sent d)) now)
                      (rw (named, lambda_request_headers) refl)
                    ∙ caller_for_attested identify (as_sent sent) now
                        (ap (is_nonce nonce same_digest) attested ∙ same),
                lookup-erase attestation_header attestation_header read,
                lookup-erase attestation_header source_ip_header read ∙ source,
                lookup-erase attestation_header operator_bypass_header read
                    ∙ operator
                    ∙ with_operator-value s.operator_values s.kept ho
                    ∙ ap sent_once values_sent,
              ),
            )
      ]

  -- A header that does not hold the nonce.
  abbrev pub LacksNonce : String × Option HeaderValue → Type 0
  LacksNonce (name, none) = Unit
  LacksNonce (name, some value) = same_digest (header_text value) nonce ≡ false

  insert-unattested :
      (name value : String) (headers : Dict String)
      → same_digest value nonce ≡ false
      → is_attested nonce same_digest headers ≡ false
      → is_attested nonce same_digest (insert name value headers) ≡ false
  unfolding is_attested
  insert-unattested name value headers fails h =
      ap (is_nonce nonce same_digest) (lookup-insert name attestation_header value headers)
      ∙ elim (Bool-cases (str_eq name attestation_header)) [
        | inl same ↦ rw same fails
        | inr other ↦ rw other h
      ]

  normalize-unattested :
      (acc : Dict String) (raw : List (String × Option HeaderValue))
      → All LacksNonce raw
      → is_attested nonce same_digest acc ≡ false
      → is_attested nonce same_digest (normalize_from acc raw) ≡ false
  unfolding normalize_from
  normalize-unattested acc [] lacks h = h
  normalize-unattested acc ((name, none) ∷ raw) (_, lacks) h = normalize-unattested acc raw lacks h
  normalize-unattested acc ((name, some value) ∷ raw) (fails, lacks) h =
      let lower = to_lower_case name in
      normalize-unattested (insert lower (header_text value) acc) raw lacks
        (insert-unattested lower (header_text value) acc fails h)

  -- A request none of whose headers holds the process's nonce has no caller, whatever address it
  -- names and however its headers are spelled or repeated.
  pub caller_for_without_nonce :
      (identify : Dict String → ℕ → Option Caller) (raw : List (String × Option HeaderValue))
      (now : ℕ)
      → All LacksNonce raw
      → caller_for nonce same_digest identify (some raw) now ≡ none
  unfolding normalize_headers is_attested lookup
  caller_for_without_nonce identify raw now lacks =
      caller_for_unattested identify raw now (normalize-unattested [] raw lacks refl)
