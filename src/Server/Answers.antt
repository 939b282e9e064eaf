-- ===== src/Server/Answers.antt =====
-- What a tool's call answers with (server/wrap.ts: `wrapResult`; server/errors.ts: `toRefusal`,
-- `toToolError`; server/create-server.ts: `errorContext` and the handler of `registerDefinitionTool`).
-- `JSON.stringify`, a tool's `renderData` and the time are parameters; `renderData` does not throw.
pub mod Noted
mod Tests
use federal_mcps.Common.{
  ℕ, ◌≡◌, refl, sym, ap, subst, ◌∙◌, String, Bool, true, false, Option, none, some, List, [], ◌∷◌,
  ◌++◌, map, or_else,
}
use mathlib.Core.Option
use federal_mcps.Common.Text.{template, join}
use federal_mcps.Limits.Config.{Caller}
use federal_mcps.Limits.Context.{fresh}
use federal_mcps.Http.Client.{Failure, Result, ok, err}
use federal_mcps.Envelope.{PlaceRef, Source, Footnote, Envelope, envelope, build_citation}
use federal_mcps.Server.Render.{
  CompactRendering, max_rendered_data_chars, Rendered, header, body_lines, footnote_line,
  limitation_line, render_lines,
}
use federal_mcps.Server.Refusal.{EnvelopeLimit, refusal_limit, refusal_sentence, describe}
use federal_mcps.Server.Calls.{
  ToolLimiter, Handled, Shell, notes_of, begin_call, call_tool, call_tool_succeeded,
}

-- A `ToolHandlerResult` but for its limitations.
pub record Fields (D C : Type 0) : Type 0 where
  pub value : D
  pub source : Source
  pub place : Option PlaceRef
  pub vintage : Option String
  pub footnotes : Option (List Footnote)
  pub cache : Option C

-- `data` is none where it is null.
pub record Answer (D C : Type 0) : Type 0 where
  pub is_error : Bool
  pub text : String
  pub structured_content : Option (Envelope (Option D) C EnvelopeLimit)

pub record SourceDescription : Type 0 where
  pub agency : String
  pub homepage : String

-- A definition as the shell reads it; `describe_source` is none where it throws.
pub record ServerDefinition : Type 0 where
  pub agency : String
  pub tool_names : List String
  pub describe_source : Option SourceDescription

pub record ToolErrorContext : Type 0 where
  pub agency : String
  pub tool_name : String
  pub tools : Option (List String)
  pub now : String
  pub homepage : Option String

unfoldable pub error_context : ServerDefinition → String → String → ToolErrorContext
error_context definition tool now = record {
  agency = definition.agency;
  tool_name = tool;
  tools = some definition.tool_names;
  now = now;
  homepage = Option.map (λ (d : SourceDescription). d.homepage) definition.describe_source;
}

abbrev pub place_name_of : Option PlaceRef → Option String
place_name_of none = none
place_name_of (some place) = some place.name

abbrev pub footnote_texts : List Footnote → List (String × String)
footnote_texts = map (λ (f : Footnote). (f.code, f.text))

-- A tool's `renderData` and `textBudget`.
pub record RenderOptions (D : Type 0) : Type 0 where
  pub render_data : Option (D → Option CompactRendering)
  pub text_budget : Option ℕ

abbrev pub compact_of :
    {D : Type 0} → Option (D → Option CompactRendering) → D → Option CompactRendering
compact_of none value = none
compact_of (some render) value = render value

module _ {D C : Type 0} (miss : C) (json : D → String) where
  abbrev pub rendered : {V : Type 0} → Envelope V C EnvelopeLimit → Rendered
  rendered env = record {
    place = place_name_of env.place;
    agency = env.source.agency;
    program = env.source.program;
    ids = env.source.ids;
    retrieved_at = env.retrieved_at;
    footnotes = footnote_texts env.footnotes;
    limitations = env.limitations;
  }

  unfoldable pub envelope_of : Handled (Fields D C) → String → Envelope (Option D) C EnvelopeLimit
  envelope_of handled now = envelope miss now (record {
    value = some handled.value.value;
    place = handled.value.place;
    source = handled.value.source;
    vintage = handled.value.vintage;
    footnotes = handled.value.footnotes;
    limitations = some handled.limitations;
    cache = handled.value.cache;
    limit = none;
    now = some now;
  })

  unfoldable pub wrap_result : RenderOptions D → Handled (Fields D C) → String → Answer D C
  wrap_result options handled now =
      let env = envelope_of handled now in
      record {
        is_error = false;
        text = join "\n" (
            render_lines (rendered env) (compact_of options.render_data handled.value.value)
              (json handled.value.value) options.text_budget);
        structured_content = some env;
      }

  -- A refusal fetched nothing: its program is the tool, and its page the agency's.
  unfoldable pub to_refusal : EnvelopeLimit → ToolErrorContext → Answer D C
  to_refusal limit context =
      let text = refusal_sentence limit context.agency context.tools in
      let url = or_else context.homepage "" in
      record {
        is_error = true;
        text = text;
        structured_content = some (
            envelope miss context.now (record {
              value = none;
              place = none;
              source = record {
                agency = context.agency;
                program = context.tool_name;
                ids = [];
                url = url;
                citation = build_citation context.agency context.tool_name [] url context.now;
              };
              vintage = none;
              footnotes = none;
              limitations = some (text ∷ []);
              cache = none;
              limit = some limit;
              now = some context.now;
            }));
      }

  abbrev pub plain_error : String × Option String → ToolErrorContext → Answer D C
  plain_error (what, where_to) context = record {
    is_error = true;
    text =
        template
          (context.agency ∷ ": " ∷ what ∷ " (" ∷ or_else where_to context.tool_name ∷ ")" ∷ []);
    structured_content = none;
  }

  abbrev pub error_answer :
      (Failure → Option String) → Failure → Option EnvelopeLimit → ToolErrorContext → Answer D C
  error_answer message_of e (some limit) context = to_refusal limit context
  error_answer message_of e none context = plain_error (describe message_of e) context

  unfoldable pub to_tool_error : (Failure → Option String) → Failure → ToolErrorContext → Answer D C
  to_tool_error message_of e context = error_answer message_of e (refusal_limit e) context

-- The handler that `registerDefinitionTool` registers, but for the arguments and the transport.
module _ {D C H : Type 0} (miss : C) (json : D → String) (options : RenderOptions D)
    (message_of : Failure → Option String) (definition : ServerDefinition) (tool : String)
    (iso : ℕ → String) (l : ToolLimiter)
    (handler : Option Caller → Shell l.State H → Result (Handled (Fields D C)) × Shell l.State H)
    (limited : Bool) (caller : Option Caller) (now : ℕ) where
  abbrev pub answer_call : Result (Handled (Fields D C)) → Answer D C
  answer_call (ok handled) = wrap_result miss json options handled (iso now)
  answer_call (err e) =
      to_tool_error miss json message_of e (error_context definition tool (iso now))

  unfoldable pub handle_tool : Shell l.State H → Answer D C × Shell l.State H
  handle_tool s = let (r, s') = call_tool l handler limited caller now s in (answer_call r, s')
