-- ===== src/Server/Answers/Noted.antt =====
-- What the answer to a successful call says (server/create-server.ts: the handler of
-- `registerDefinitionTool`; server/wrap.ts).
use federal_mcps.Common.{
  ℕ, ◌≡◌, refl, sym, subst, String, Bool, false, Option, some, List, ◌∷◌, ◌++◌, map, or_else,
}
use federal_mcps.Common.Text.{join}
use federal_mcps.Limits.Config.{Caller}
use federal_mcps.Limits.Context.{fresh}
use federal_mcps.Http.Client.{Failure, Result, ok}
use federal_mcps.Envelope.{Envelope, envelope}
use federal_mcps.Server.Render.{
  max_rendered_data_chars, header, body_lines, footnote_line, limitation_line, render_lines,
}
use federal_mcps.Server.Refusal.{EnvelopeLimit}
use federal_mcps.Server.Calls.{
  ToolLimiter, Handled, Shell, notes_of, begin_call, call_tool, call_tool_succeeded,
}
use federal_mcps.Server.Answers.{
  Fields, Answer, ServerDefinition, RenderOptions, compact_of, rendered, envelope_of, wrap_result,
  answer_call, handle_tool,
}

module _ {D C H : Type 0} (miss : C) (json : D → String) (options : RenderOptions D)
    (message_of : Failure → Option String) (definition : ServerDefinition) (tool : String)
    (iso : ℕ → String) (l : ToolLimiter)
    (handler : Option Caller → Shell l.State H → Result (Handled (Fields D C)) × Shell l.State H)
    (limited : Bool) (caller : Option Caller) (now : ℕ) where
  -- What the answer to a call says of its limitations.
  pub record IsNoted (handled : Handled (Fields D C)) (limitations : List String)
      (answer : Answer D C) : Type 0 where
    pub is_success : answer.is_error ≡ false
    pub envelope_has :
        (env : Envelope (Option D) C EnvelopeLimit) × (answer.structured_content ≡ some env)
        × (env.value ≡ some handled.value.value)
        × (env.source ≡ handled.value.source)
        × (env.limitations ≡ limitations)
    pub text_has :
        (lines : List String) × (answer.text ≡ join "\n" (lines ++ map limitation_line limitations))

  wrap_result-IsNoted :
      (handled : Handled (Fields D C)) (r : Result (Handled (Fields D C)))
      (limitations : List String)
      → r ≡ ok (record handled { limitations = limitations })
      → IsNoted handled limitations (
          answer_call miss json options message_of definition tool iso l handler limited caller now
            r)
  unfolding wrap_result envelope_of envelope render_lines
  wrap_result-IsNoted handled r limitations e =
      let noted = record handled { limitations = limitations } in
      let env = envelope_of miss json noted (iso now) in
      let shown = rendered miss json env in
      let compact = compact_of options.render_data handled.value.value in
      let budget = or_else options.text_budget max_rendered_data_chars in
      subst
        (λ q. IsNoted handled limitations (
          answer_call miss json options message_of definition tool iso l handler limited caller now
            q))
        (sym e)
        (record {
          is_success = refl;
          envelope_has = (env, refl, refl, refl, refl);
          text_has = (
            header shown compact
                ∷ (body_lines compact (json handled.value.value) budget
                    ++ map footnote_line shown.footnotes),
            refl,
          );
        })

  -- A call whose handler succeeds is answered with its data and source, and with every note left in
  -- the call's context, after the handler's own limitations: they are the envelope's limitations, and
  -- the text ends with a line for each.
  pub handle_tool-IsNoted :
      (s s₁ s₂ : Shell l.State H) (handled : Handled (Fields D C))
      → begin_call l handler limited caller now (record s { context = some (fresh caller) })
        ≡ (ok tt, s₁)
      → handler caller s₁ ≡ (ok handled, s₂)
      → IsNoted handled
          (handled.limitations ++ notes_of s₂.context)
          (handle_tool miss json options message_of definition tool iso l handler limited caller now
            s).0
  unfolding handle_tool
  handle_tool-IsNoted s s₁ s₂ handled begun succeeded =
      let (e, _, _, _) =
        call_tool_succeeded l handler limited caller now s s₁ s₂ handled begun succeeded in
      wrap_result-IsNoted handled (call_tool l handler limited caller now s).0
        (handled.limitations ++ notes_of s₂.context) e
