-- ===== src/Server/Render.antt =====
-- The text form of an answer (server/wrap.ts: `renderText`, `renderCompact`). Text is measured and
-- cut in bytes, which for ASCII are the source's UTF-16 units; `JSON.stringify` is a parameter.
pub mod Fits
use Prim.Native.String.{len, slice}
use federal_mcps.Common.{
  ℕ, ◌+◌, ◌-◌, String, ◌&&◌, Option, none, some, List, [], ◌∷◌, ◌++◌, ltb, ◌==◌, or_else, map,
  length, if◌then◌else◌,
}
use federal_mcps.Common.Text.{template}
use federal_mcps.Http.Notes.{decimal}

pub record CompactRendering : Type 0 where
  pub head : List String
  pub items : List String
  pub unit : String
  pub narrow_hint : String

abbrev pub max_rendered_data_chars : ℕ
max_rendered_data_chars = 4000

-- `reduce((n, line) => n + line.length + 1, 0)`
abbrev pub cost : List String → ℕ
cost [] = 0
cost (line ∷ lines) = len line + 1 + cost lines

-- The loop over the items: those that are shown, from `used` on.
unfoldable pub fitting : ℕ → ℕ → List String → List String
fitting budget used [] = []
fitting budget used (item ∷ items) =
    let more = fitting budget (used + (len item + 1)) items in
    if ltb budget (used + (len item + 1)) then [] else item ∷ more

abbrev pub first_item : List String → String
first_item [] = ""
first_item (item ∷ _) = item

abbrev pub partial_notice : CompactRendering → String
partial_notice r = template (
    "… showing part of 1 of "
    ∷ decimal (length r.items)
    ∷ " "
    ∷ r.unit
    ∷ "; the whole value is in structuredContent. "
    ∷ r.narrow_hint
    ∷ [])

abbrev pub shown_notice : CompactRendering → ℕ → String
shown_notice r shown = template (
    "… showing "
    ∷ decimal shown
    ∷ " of "
    ∷ decimal (length r.items)
    ∷ " "
    ∷ r.unit
    ∷ "; the whole value is in structuredContent. "
    ∷ r.narrow_hint
    ∷ [])

-- What follows the shown items.
unfoldable pub notices : CompactRendering → ℕ → ℕ → List String
notices r budget shown =
    if shown == 0 && ltb 0 (length r.items)
    then slice (first_item r.items) 0 (budget - cost r.head) ∷ partial_notice r ∷ []
    else (if ltb shown (length r.items) then shown_notice r shown ∷ [] else [])

unfoldable pub render_compact : CompactRendering → ℕ → List String
render_compact r budget =
    let shown = fitting budget (cost r.head) r.items in
    r.head ++ shown ++ notices r budget (length shown)

-- What `renderText` reads of an envelope.
pub record Rendered : Type 0 where
  pub place : Option String
  pub agency : String
  pub program : String
  pub ids : List String
  pub retrieved_at : String
  pub footnotes : List (String × String)
  pub limitations : List String

abbrev pub comma_separated : List String → String
comma_separated [] = ""
comma_separated (id ∷ []) = id
comma_separated (id ∷ next ∷ ids) = template (id ∷ ", " ∷ comma_separated (next ∷ ids) ∷ [])

abbrev pub id_segment : Option CompactRendering → List String → String
id_segment (some _) ids = ""
id_segment none [] = ""
id_segment none (id ∷ ids) = template (" [" ∷ comma_separated (id ∷ ids) ∷ "]" ∷ [])

abbrev pub place_segment : Option String → String
place_segment none = ""
place_segment (some name) = template (name ∷ " — " ∷ [])

abbrev pub header : Rendered → Option CompactRendering → String
header env compact = template (
    place_segment env.place
    ∷ env.agency
    ∷ " "
    ∷ env.program
    ∷ id_segment compact env.ids
    ∷ " — retrieved "
    ∷ env.retrieved_at
    ∷ [])

-- The data as JSON, cut at the budget.
unfoldable pub render_json : String → ℕ → List String
render_json json budget =
    if ltb budget (len json)
    then (slice json 0 budget
        ∷ template (
            "… truncated at "
            ∷ decimal budget
            ∷ " of "
            ∷ decimal (len json)
            ∷ " characters; the whole value is in structuredContent."
            ∷ [])
        ∷ [])
    else json ∷ []

abbrev pub body_lines : Option CompactRendering → String → ℕ → List String
body_lines none json budget = render_json json budget
body_lines (some r) json budget = render_compact r budget

abbrev pub footnote_line : String × String → String
footnote_line (code, text) = template ("- footnote " ∷ code ∷ ": " ∷ text ∷ [])

abbrev pub limitation_line : String → String
limitation_line limitation = template ("- limitation: " ∷ limitation ∷ [])

-- The lines of `renderText`, which it joins.
unfoldable pub render_lines : Rendered → Option CompactRendering → String → Option ℕ → List String
render_lines env compact json text_budget =
    header env compact
    ∷ (body_lines compact json (or_else text_budget max_rendered_data_chars)
        ++ map footnote_line env.footnotes
        ++ map limitation_line env.limitations)
