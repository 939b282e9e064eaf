-- ===== src/Server/DescribeSource.antt =====
-- The tool that every server has (server/create-server.ts: `registerDescribeSource`, `sourceLimits`,
-- `describeSourceProvenance`; server/definition.ts: `describeSourceToolName`). The fields of a
-- description that the shell only passes on are a parameter.
pub mod Usage
pub mod Budgets
use federal_mcps.Common.{
  ℕ, ◌+◌, ◌-◌, max, ◌≡◌, refl, String, Bool, Option, none, some, List, [], ◌∷◌, or_else, arith,
  if◌then◌else◌, Option-cases, inl, inr,
}
use federal_mcps.Common.Dict.{Dict, lookup, insert}
use federal_mcps.Common.Text.{template}
use federal_mcps.Limits.Config.{Share, LimitsConfig, UsageSnapshot}
use federal_mcps.Http.Client.{Failure}
use federal_mcps.Envelope.{Source, build_citation}
use federal_mcps.Server.Calls.{Handled}
use federal_mcps.Server.Answers.{
  Fields, Answer, SourceDescription, ServerDefinition, error_context, RenderOptions, wrap_result,
  to_tool_error,
}

-- The `usage` of a `Limiter`.
pub record UsageLimiter : Type 1 where
  pub State : Type 0
  pub usage : String → ℕ → State → Option UsageSnapshot × State

pub record ServiceBudget : Type 0 where
  pub daily : ℕ
  pub used : Option ℕ
  pub remaining : Option ℕ
  pub resets_at : Option String

-- `Math.max(0, usage.limit - usage.used)`
unfoldable pub service_budget : ℕ → Option UsageSnapshot → ServiceBudget
service_budget daily none = record {
  daily = daily;
  used = none;
  remaining = none;
  resets_at = none;
}
service_budget daily (some usage) = record {
  daily = daily;
  used = some usage.used;
  remaining = some (usage.limit - usage.used);
  resets_at = some usage.resets_at;
}

pub record SourceLimits : Type 0 where
  pub network : Option Share
  pub pool : Option Share
  pub service : Option (Dict ServiceBudget)

abbrev pub if_any : Dict ServiceBudget → Option (Dict ServiceBudget)
if_any [] = none
if_any (entry ∷ entries) = some (entry ∷ entries)

unfoldable pub describe_source_tool_name : String → String
describe_source_tool_name agency = template (agency ∷ "_describe_source" ∷ [])

unfoldable pub describe_source_provenance : SourceDescription → String → Source
describe_source_provenance description retrieved_at = record {
  agency = description.agency;
  program = "describe_source";
  ids = [];
  url = description.homepage;
  citation =
      build_citation description.agency "describe_source" [] description.homepage retrieved_at;
}

module _ (l : UsageLimiter) (limited : Bool) where
  -- `limiter?.usage(source, at)`
  abbrev pub usage_of_source : String → ℕ → l.State → Option UsageSnapshot × l.State
  usage_of_source source at s = if limited then l.usage source at s else (none, s)

  -- The loop over `Object.entries(config.serviceDaily ?? {})`.
  unfoldable pub add_budgets :
      Dict ServiceBudget → Dict ℕ → ℕ → l.State → Dict ServiceBudget × l.State
  add_budgets service [] at s = (service, s)
  add_budgets service ((source, daily) ∷ entries) at s =
      let (usage, s') = usage_of_source source at s in
      add_budgets (insert source (service_budget daily usage) service) entries at s'

  unfoldable pub source_limits : LimitsConfig → ℕ → l.State → SourceLimits × l.State
  source_limits config at s =
      let (service, s') = add_budgets [] (or_else config.service_daily []) at s in
      (record { network = config.network; pool = config.pool; service = if_any service }, s')

  -- What is described, with the limits where they are configured.
  abbrev pub with_limits : Option LimitsConfig → ℕ → l.State → Option SourceLimits × l.State
  with_limits none at s = (none, s)
  with_limits (some config) at s = let (limits, s') = source_limits config at s in (some limits, s')

  -- The tool's answer; a description that cannot be had, or limits that cannot be counted, is an
  -- error, which `usage` never is.
  module _ {C : Type 0} (miss : C) (json : SourceDescription × Option SourceLimits → String)
      (message_of : Failure → Option String) (threw : Failure) (iso : ℕ → String)
      (definition : ServerDefinition) (limits : Option LimitsConfig) where
    abbrev pub describe_options : RenderOptions (SourceDescription × Option SourceLimits)
    describe_options = record { render_data = none; text_budget = none }

    abbrev pub described :
        SourceDescription
        → Option SourceLimits
        → ℕ
        → Handled (Fields (SourceDescription × Option SourceLimits) C)
    described description block now = record {
      value = record {
        value = (description, block);
        source = describe_source_provenance description (iso now);
        place = none;
        vintage = none;
        footnotes = none;
        cache = none;
      };
      limitations = [];
    }

    abbrev pub describe_with :
        Option SourceDescription
        → ℕ
        → l.State
        → Answer (SourceDescription × Option SourceLimits) C × l.State
    describe_with none now s = (
      to_tool_error miss json message_of threw
          (error_context definition (describe_source_tool_name definition.agency) (iso now)),
      s,
    )
    describe_with (some description) now s =
        let (block, s') = with_limits limits now s in
        (wrap_result miss json describe_options (described description block now) (iso now), s')

    unfoldable pub describe_source :
        ℕ → l.State → Answer (SourceDescription × Option SourceLimits) C × l.State
    describe_source now s = describe_with definition.describe_source now s
