-- ===== src/Server/Calls.antt =====
-- One call of a tool (server/create-server.ts: the handler that `registerDefinitionTool` registers,
-- and `runInCall` of limits/context.ts). The tool's own handler is a parameter; it may use the
-- limiter and leave notes. The latency of the metrics line is not modelled.
use federal_mcps.Common.{
  append_empty, ℕ, ◌≡◌, refl, sym, ap, ◌∙◌, String, Bool, true, Option, none, some, List, [], ◌∷◌,
  ◌++◌, any, map, starts_with, if◌then◌else◌,
}
use federal_mcps.Limits.Config.{Caller, CallerKind, LimitScope, LimitInfo}
use federal_mcps.Limits.Context.{CallContext, fresh}
use federal_mcps.Limits.Limiter.{Outcome, done, refused}
use federal_mcps.Http.Client.{limit_exceeded, Result, ok, err}
use federal_mcps.Http.Notes.{stale_served_note_prefix}
use federal_mcps.Server.Refusal.{EnvelopeLimit, refusal_limit}

-- The `beginToolCall` of a `Limiter`.
pub record ToolLimiter : Type 1 where
  pub State : Type 0
  pub begin_tool_call : Option Caller → ℕ → State → Outcome (Unit {0}) × State

-- `ToolHandlerResult`, as far as the shell reads it.
pub record Handled (D : Type 0) : Type 0 where
  pub value : D
  pub limitations : List String

pub data CallOutcome : Type 0 where
  ok_outcome stale_outcome error_outcome refused_outcome : CallOutcome

-- The metrics line of one call.
pub record ToolCallLine : Type 0 where
  pub outcome : CallOutcome
  pub upstream_calls : ℕ
  pub caller_kind : Option CallerKind
  pub limit_scope : Option LimitScope

-- What a call may change: the limiter, its own context and what else the handler uses; the newest
-- line stands first.
pub record Shell (L H : Type 0) : Type 0 where
  pub limiter : L
  pub context : Option CallContext
  pub rest : H
  pub log : List ToolCallLine

abbrev pub notes_of : Option CallContext → List String
notes_of none = []
notes_of (some context) = context.notes

abbrev pub calls_of : Option CallContext → ℕ
calls_of none = 0
calls_of (some context) = context.upstream_calls

abbrev pub kind_of : Option Caller → Option CallerKind
kind_of none = none
kind_of (some caller) = some caller.kind

-- The handler's own limitations come first.
unfoldable pub with_notes : {D : Type 0} → List String → Handled D → Handled D
with_notes [] handled = handled
with_notes (note ∷ notes) handled = record handled {
  limitations = handled.limitations ++ note ∷ notes;
}

with_notes-append :
    {D : Type 0} (notes : List String) (handled : Handled D)
    → with_notes notes handled ≡ record handled { limitations = handled.limitations ++ notes }
unfolding with_notes
with_notes-append [] handled =
    ap (λ xs. record handled { limitations = xs }) (sym (append_empty handled.limitations))
with_notes-append (note ∷ notes) handled = refl

abbrev pub is_stale : {D : Type 0} → Handled D → Bool
is_stale handled = any (λ note. starts_with note stale_served_note_prefix) handled.limitations

module _ {H D : Type 0} (l : ToolLimiter)
    (handler : Option Caller → Shell l.State H → Result (Handled D) × Shell l.State H)
    (limited : Bool) (caller : Option Caller) (now : ℕ) where
  abbrev pub admit : Shell l.State H → Outcome (Unit {0}) × l.State → Result Unit × Shell l.State H
  admit s (done _, limiter') = (ok tt, record s { limiter = limiter' })
  admit s (refused info, limiter') = (err (limit_exceeded info), record s { limiter = limiter' })

  -- `limiter?.beginToolCall`
  unfoldable pub begin_call : Shell l.State H → Result Unit × Shell l.State H
  begin_call s = if limited then admit s (l.begin_tool_call caller now s.limiter) else (ok tt, s)

  -- The notes and the number of upstream calls, as `upstreamCalls` holds it, which a throw leaves at
  -- 0.
  abbrev pub after_handler :
      Result (Handled D) × Shell l.State H → Result (Handled D × ℕ) × Shell l.State H
  after_handler (err e, s) = (err e, s)
  after_handler (ok handled, s) =
      (ok (with_notes (notes_of s.context) handled, calls_of s.context), s)

  abbrev pub run_handler : Result Unit × Shell l.State H → Result (Handled D × ℕ) × Shell l.State H
  run_handler (err e, s) = (err e, s)
  run_handler (ok _, s) = after_handler (handler caller s)

  -- The body of `runInCall`.
  unfoldable pub in_call : Shell l.State H → Result (Handled D × ℕ) × Shell l.State H
  in_call s = run_handler (begin_call s)

  abbrev pub success_line : Handled D → ℕ → ToolCallLine
  success_line handled calls = record {
    outcome = if is_stale handled then stale_outcome else ok_outcome;
    upstream_calls = calls;
    caller_kind = kind_of caller;
    limit_scope = none;
  }

  abbrev pub failure_line : ℕ → Option EnvelopeLimit → ToolCallLine
  failure_line calls none = record {
    outcome = error_outcome;
    upstream_calls = calls;
    caller_kind = kind_of caller;
    limit_scope = none;
  }
  failure_line calls (some limit) = record {
    outcome = refused_outcome;
    upstream_calls = calls;
    caller_kind = kind_of caller;
    limit_scope = some limit.scope;
  }

  -- `upstreamCalls` is still 0 where the handler has failed. A throw after it, of the rendering of its
  -- answer, would find the count there; no rendering here throws.
  abbrev pub log_call :
      Option CallContext
      → Result (Handled D × ℕ) × Shell l.State H
      → Result (Handled D) × Shell l.State H
  log_call outer (ok (handled, calls), s) =
      (ok handled, record s { context = outer; log = success_line handled calls ∷ s.log })
  log_call outer (err e, s) =
      (err e, record s { context = outer; log = failure_line 0 (refusal_limit e) ∷ s.log })

  -- The whole call: its own context, and one line whatever happens.
  unfoldable pub call_tool : Shell l.State H → Result (Handled D) × Shell l.State H
  call_tool s = log_call s.context (in_call (record s { context = some (fresh caller) }))

  -- A call that the limiter refuses fails with that refusal, without the handler having run: nothing
  -- but the limiter and the log has changed, and the log gains one line that says `refused`, with
  -- the scope.
  pub call_tool_refused :
      (s : Shell l.State H) (info : LimitInfo) (limiter' : l.State)
      → limited ≡ true
      → l.begin_tool_call caller now s.limiter ≡ (refused info, limiter')
      → call_tool s ≡ (
        err (limit_exceeded info),
        record s {
          limiter = limiter';
          log =
              record {
                outcome = refused_outcome;
                upstream_calls = 0;
                caller_kind = kind_of caller;
                limit_scope = some info.scope;
              }
              ∷ s.log;
        },
      )
  unfolding call_tool in_call begin_call refusal_limit
  call_tool_refused s info limiter' on e =
      let inner = record s { context = some (fresh caller) } in
      ap
        (λ b. log_call s.context (
          run_handler
            (if b then admit inner (l.begin_tool_call caller now s.limiter) else (ok tt, inner))))
        on
      ∙ ap (λ p. log_call s.context (run_handler (admit inner p))) e

  -- A call whose handler succeeds answers with what the handler gave, its limitations followed by
  -- every note left in the call's own context; its line counts the upstream calls of that context,
  -- and the outer context is there again.
  pub call_tool_succeeded :
      (s s₁ s₂ : Shell l.State H) (handled : Handled D)
      → begin_call (record s { context = some (fresh caller) }) ≡ (ok tt, s₁)
      → handler caller s₁ ≡ (ok handled, s₂)
      → let (r, s') = call_tool s in
        (r ≡ ok (record handled { limitations = handled.limitations ++ notes_of s₂.context }))
        × (s'.context ≡ s.context)
        × (s'.limiter ≡ s₂.limiter)
        × (map (λ line. line.upstream_calls) s'.log
            ≡ calls_of s₂.context ∷ map (λ line. line.upstream_calls) s₂.log)
  unfolding call_tool in_call
  call_tool_succeeded s s₁ s₂ handled begun done' =
      let e =
        ap (λ p. log_call s.context (run_handler p)) begun
        ∙ ap (λ p. log_call s.context (after_handler p)) done' in
      (
        ap (λ p. p.0) e ∙ ap ok (with_notes-append (notes_of s₂.context) handled),
        ap (λ p. p.1.context) e,
        ap (λ p. p.1.limiter) e,
        ap (λ p. map (λ line. line.upstream_calls) p.1.log) e,
      )
