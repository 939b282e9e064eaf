-- ===== src/Server/Tests.antt =====
-- Runs of the shell on small inputs.
use federal_mcps.Common.{◌+◌, ◌≤◌, ◌≡◌, refl, String, none, some, List, [], ◌∷◌, ◌++◌, length, max}
use federal_mcps.Http.Client.{Failure, quota_exceeded}
use federal_mcps.Http.Notes.{decimal}
use federal_mcps.Server.Render.{CompactRendering, cost, notices, fitting, render_compact, Rendered}
use federal_mcps.Server.Render.Fits.{IsCut, render_compact-IsCut}
use federal_mcps.Common.{ℕ, zero, suc, Option}
use federal_mcps.Limits.Config.{Caller, LimitScope, LimitKind, LimitInfo}
use federal_mcps.Limits.Context.{fresh}
use federal_mcps.Limits.Limiter.{Outcome, done, refused}
use federal_mcps.Http.Client.{network_error, Result, err}
use federal_mcps.Server.Calls.{ToolLimiter, Handled, Shell}

abbrev rows : CompactRendering
rows = record {
  head = "year,value" ∷ [];
  items = "2023,1" ∷ "2024,2" ∷ [];
  unit = "rows";
  narrow_hint = "Ask for fewer years.";
}

one_row_fits :
    render_compact rows 20
    ≡ "year,value" ∷ "2023,1"
      ∷ "… showing 1 of 2 rows; the whole value is in structuredContent. Ask for fewer years." ∷ []
unfolding render_compact fitting notices decimal
one_row_fits = refl

render_compact-IsCut_example :
    (shown : List String) × (render_compact rows 20
      ≡ rows.head ++ shown ++ notices rows 20 (length shown))
    × (cost rows.head + cost shown ≤ max (cost rows.head) 20)
    × IsCut 20 (cost rows.head) rows.items shown
render_compact-IsCut_example = render_compact-IsCut rows 20

abbrev answer : Rendered
answer = record {
  place = some "Denver";
  agency = "BLS";
  program = "LAUS";
  ids = "LAUCN08031" ∷ [];
  retrieved_at = "now";
  footnotes = ("P", "Preliminary.") ∷ [];
  limitations = "Not adjusted." ∷ [];
}

abbrev refusal : Failure
refusal = quota_exceeded "bls" "midnight" (some 500) none

abbrev info : LimitInfo
info = record {
  scope = LimitScope.pool;
  kind = LimitKind.tool_calls;
  source = none;
  limit = 5;
  used = 5;
  resets_at = "midnight";
}

-- A limiter with so many calls left.
abbrev take_one : ℕ → Outcome (Unit {0}) × ℕ
take_one zero = (refused info, zero)
take_one (suc n) = (done tt, n)

abbrev counter : ToolLimiter
counter = record { State = ℕ; begin_tool_call = λ caller now n. take_one n }

abbrev with_calls : ℕ → Shell ℕ Unit
with_calls n = record { limiter = n; context = none; rest = tt; log = [] }

-- What a handler leaves that has made two queries and has one note.
abbrev used_up : Shell ℕ Unit → Shell ℕ Unit
used_up s = record s {
  context = some (record { caller = none; notes = "Nearly spent." ∷ []; upstream_calls = 2 });
}

abbrev bad : Option Caller → Shell ℕ Unit → Result (Handled ℕ) × Shell ℕ Unit
bad caller s = (err (network_error "bls" "url"), used_up s)

abbrev begun : Shell ℕ Unit
begun = record (with_calls 0) { context = some (fresh none) }
