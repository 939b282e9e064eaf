-- ===== src/Server/Refusal.antt =====
-- How a thrown error becomes the text of a tool's error (server/errors.ts). The model's failures
-- that are neither an HTTP failure nor a refusal carry no message: `message_of` gives it, and none for
-- what is no `Error`.
use Prim.Native.Char.{Char, code}
use federal_mcps.Common.Chars.{is_empty, trim, split_at}
use federal_mcps.Common.{
  ◌==◌, ℕ, ◌≡◌, refl, String, Bool, true, ◌||◌, Option, none, some, List, [], ◌∷◌, map, any, str_eq,
  or_else, if◌then◌else◌,
}
use mathlib.Core.Option
use federal_mcps.Common.Dict.{Dict, lookup}
use federal_mcps.Common.Text.{template}
use federal_mcps.Limits.Config.{LimitScope, LimitKind}
use federal_mcps.Http.Notes.{decimal, scope_word, refusal_of}
use federal_mcps.Http.Client.{
  Failure, http_error, timeout_error, network_error, missing_fixture, limit_exceeded,
  quota_exceeded,
}
use federal_mcps.Server.Render.{comma_separated}

-- The `limit` block of an envelope.
pub record EnvelopeLimit : Type 0 where
  pub scope : LimitScope
  pub kind : LimitKind
  pub source : Option String
  pub limit : Option ℕ
  pub used : Option ℕ
  pub resets_at : String

unfoldable pub refusal_limit : Failure → Option EnvelopeLimit
refusal_limit (limit_exceeded info) = some (record {
  scope = info.scope;
  kind = info.kind;
  source = info.source;
  limit = some info.limit;
  used = some info.used;
  resets_at = info.resets_at;
})
refusal_limit (quota_exceeded source resets_at limit used) = some (record {
  scope = LimitScope.service;
  kind = LimitKind.upstream;
  source = some source;
  limit = limit;
  used = used;
  resets_at = resets_at;
})
refusal_limit _ = none

abbrev pub upstream_names : Dict String
upstream_names =
    ("bls", "BLS")
    ∷ ("bls-qcew", "QCEW")
    ∷ ("census", "Census")
    ∷ ("hud", "HUD User")
    ∷ ("bea", "BEA")
    ∷ []

abbrev pub no_query_verbs : List String
no_query_verbs = "resolve_place" ∷ "list_indicators" ∷ "describe_source" ∷ []

abbrev pub what_of : LimitKind → Option String → String
what_of LimitKind.tool_calls source = "tool calls"
what_of LimitKind.upstream source = template (
    or_else (lookup (or_else source "") upstream_names) (or_else source "upstream")
    ∷ " queries"
    ∷ [])

abbrev pub number_text : Option ℕ → String
number_text none = ""
number_text (some n) = template (decimal n ∷ " " ∷ [])

abbrev pub whose : LimitScope → Option ℕ → String → String
whose LimitScope.network limit what =
    template ("this network has used its " ∷ number_text limit ∷ what ∷ " for today" ∷ [])
whose LimitScope.pool limit what = template (
    "all claude.ai users together have used their shared "
    ∷ number_text limit
    ∷ what
    ∷ " for today"
    ∷ [])
whose LimitScope.service none what =
    template ("the whole service's daily budget of " ∷ what ∷ " is spent" ∷ [])
whose LimitScope.service (some n) what =
    template ("the whole service has used its daily budget of " ∷ number_text (some n) ∷ what ∷ [])

abbrev pub tool_name : String → String → String
tool_name agency verb = template (agency ∷ "_" ∷ verb ∷ [])

-- `tools === undefined || name === describeSource || tools.includes(name)`
abbrev pub is_working : String → Option (List String) → String → Bool
is_working agency none name = true
is_working agency (some tools) name =
    str_eq name (tool_name agency "describe_source") || any (λ t. str_eq t name) tools

unfoldable pub filter_working : String → Option (List String) → List String → List String
filter_working agency tools [] = []
filter_working agency tools (name ∷ names) =
    let rest = filter_working agency tools names in
    if is_working agency tools name then name ∷ rest else rest

unfoldable pub working_tools : String → Option (List String) → List String
working_tools agency tools = filter_working agency tools (map (tool_name agency) no_query_verbs)

abbrev pub working_sentence : LimitKind → String → Option (List String) → String
working_sentence LimitKind.tool_calls agency tools = ""
working_sentence LimitKind.upstream agency tools = template (
    " Tools that need no new query ("
    ∷ comma_separated (working_tools agency tools)
    ∷ ") still work."
    ∷ [])

unfoldable pub refusal_sentence : EnvelopeLimit → String → Option (List String) → String
refusal_sentence limit agency tools = template (
    agency
    ∷ ": "
    ∷ whose limit.scope limit.limit (what_of limit.kind limit.source)
    ∷ "; resets at "
    ∷ limit.resets_at
    ∷ "."
    ∷ working_sentence limit.kind agency tools
    ∷ [])

abbrev is_line_feed : Char → Bool
is_line_feed c = code c == 10

abbrev first_of : List String → String
first_of [] = ""
first_of (line ∷ _) = line

unfoldable pub first_line : String → String
first_line message = trim (first_of (split_at is_line_feed message))

-- A message that is not blank is cut to its first line.
unfoldable pub described_message : Option String → String
described_message none = "the tool call failed"
described_message (some message) =
    if is_empty (trim message) then "the tool call failed" else first_line message

-- What failed, and where if the error knows.
unfoldable pub describe : (Failure → Option String) → Failure → String × Option String
describe message_of (http_error source status url attempts) = (
  template (
      "request failed with HTTP "
      ∷ decimal status
      ∷ " after "
      ∷ decimal attempts
      ∷ " attempt(s)"
      ∷ []),
  some url,
)
describe message_of (timeout_error source url timeout_ms) =
    (template ("request timed out after " ∷ decimal timeout_ms ∷ "ms" ∷ []), some url)
describe message_of (network_error source url) = ("network error reaching the agency", some url)
describe message_of (missing_fixture source url) =
    ("no recorded fixture for this request", some url)
describe message_of e = (described_message (message_of e), none)

-- The scope, source and reset of a `limit` block, as the client's note words them.
abbrev pub facts_of : String → EnvelopeLimit → String × String × String
facts_of source limit = (scope_word limit.scope, or_else limit.source source, limit.resets_at)

-- The shell and the HTTP client agree on which failures are refusals, and on the scope, the source
-- and the reset time of each: what a tool's error says is what the note on a stale answer says.
pub refusal_limit-refusal_of :
    (source : String) (e : Failure)
    → Option.map (facts_of source) (refusal_limit e) ≡ refusal_of source e
unfolding refusal_limit refusal_of
refusal_limit-refusal_of source (limit_exceeded info) = refl
refusal_limit-refusal_of source (quota_exceeded from resets_at limit used) = refl
refusal_limit-refusal_of source _ = refl
