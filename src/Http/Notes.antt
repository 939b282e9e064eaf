-- ===== src/Http/Notes.antt =====
-- The notes that the client leaves in the per-call context (http/client.ts: `noteNearLimit`,
-- `noteRefusalServedStale`). A percentage is the whole part of the exact quotient, where the source
-- divides in floating point; the `ServiceBudgetUsedPct` log line is not modelled.
use federal_mcps.Common.{
  ℕ, zero, suc, ◌*◌, ◌/◌, ◌%◌, String, ◌||◌, Option, none, some, [], ◌∷◌, ltb, ◌==◌, any, or_else,
  if◌then◌else◌, starts_with, ◌++◌,
}
use federal_mcps.Common.Text.{template}
use federal_mcps.Time.{digit, iso_string}
use federal_mcps.Limits.Config.{LimitScope, UsageSnapshot}
use federal_mcps.Limits.Context.{CallContext}
use federal_mcps.Http.Client.{Failure, limit_exceeded, quota_exceeded}

decimal_from : ℕ → ℕ → String
decimal_from zero n = digit n
decimal_from (suc more) n =
    let front = decimal_from more (n / 10) in
    if ltb n 10 then digit n else template (front ∷ digit (n % 10) ∷ [])

-- A number as text; it has no more digits than its value has units.
unfoldable pub decimal : ℕ → String
unfolding decimal_from digit
decimal n = decimal_from n n

abbrev pub near_limit_pct : ℕ
near_limit_pct = 80

abbrev pub percent : UsageSnapshot → ℕ
percent usage = usage.used * 100 / usage.limit

abbrev pub warning_prefix : String → String
warning_prefix source = template (source ∷ " daily quota " ∷ [])

abbrev pub warning : UsageSnapshot → String
warning usage = template (
    warning_prefix usage.source
    ∷ decimal (percent usage)
    ∷ "% used; later answers may come from cache or be refused until "
    ∷ usage.resets_at
    ∷ "."
    ∷ [])

abbrev pub add_note : String → CallContext → CallContext
add_note note context = record context { notes = context.notes ++ note ∷ [] }

-- Past 80% of a service budget, one warning for each call.
unfoldable pub note_near_limit : Option UsageSnapshot → Option CallContext → Option CallContext
note_near_limit usage none = none
note_near_limit none (some context) = some context
note_near_limit (some usage) (some context) = some (
    if usage.limit == 0
      || ltb (percent usage) near_limit_pct
      || any (λ note. starts_with note (warning_prefix usage.source)) context.notes
    then context
    else add_note (warning usage) context)

abbrev pub scope_word : LimitScope → String
scope_word LimitScope.network = "network"
scope_word LimitScope.pool = "pool"
scope_word LimitScope.service = "service"

-- The scope, the source and the reset of a refusal; none of another failure.
unfoldable pub refusal_of : String → Failure → Option (String × String × String)
refusal_of source (limit_exceeded info) =
    some (scope_word info.scope, or_else info.source source, info.resets_at)
refusal_of source (quota_exceeded from resets_at limit used) = some ("service", from, resets_at)
refusal_of source _ = none

abbrev pub stale_served_note_prefix : String
stale_served_note_prefix = "Served from cache (retrieved "

unfoldable pub note_refusal_served_stale :
    String → Failure → ℕ → Option CallContext → Option CallContext
note_refusal_served_stale source failure stored_at none = none
note_refusal_served_stale source failure stored_at (some context) =
    elim (refusal_of source failure) [
      | none ↦ some context
      | some (scope, from, resets_at) ↦ some (
          add_note
            (template (
              stale_served_note_prefix
              ∷ iso_string stored_at
              ∷ "): today's "
              ∷ scope
              ∷ " share for "
              ∷ from
              ∷ " is spent; resets "
              ∷ resets_at
              ∷ "."
              ∷ []))
            context)
    ]
