-- ===== src/Server/Answers/Tests.antt =====
-- Tests and instances for the answers of tools.
use federal_mcps.Common.{ℕ, String, ◌≡◌, refl, true, Option, none, some, [], ◌∷◌, or_else, All}
use federal_mcps.Common.Dict.{Dict, lookup}
use federal_mcps.Common.Chars.{split_at, trim_start, trim_end, is_space}
use federal_mcps.Limits.Config.{LimitsConfig, Caller}
use federal_mcps.Limits.Context.{fresh}
use federal_mcps.Limits.MemoryStore.{memory_store}
use federal_mcps.Limits.MemoryStore.Laws.{memory_store-IsCounterStore}
use federal_mcps.Limits.Limiter.{done, LimiterState, initial}
use federal_mcps.Http.Client.{Result, ok}
use federal_mcps.Envelope.{Source}
use federal_mcps.Server.Refusal.{described_message, first_line}
use federal_mcps.Server.Calls.{ToolLimiter, Handled, Shell, begin_call}
use federal_mcps.Server.Answers.{Fields, ServerDefinition, RenderOptions, handle_tool}
use federal_mcps.Server.Answers.Noted.{IsNoted, handle_tool-IsNoted}
use federal_mcps.Server.DescribeSource.{ServiceBudget, source_limits}
use federal_mcps.Server.DescribeSource.Usage.{persistent, IsBudget, IsListed}
use federal_mcps.Server.DescribeSource.Budgets.{source_limits-IsBudget}

-- A message that begins with a blank line is described by nothing.
blank_first_line : described_message (some "\nBLS is closed.") ≡ ""
unfolding described_message first_line split_at trim_start trim_end is_space
blank_first_line = refl

abbrev source : Source
source = record {
  agency = "bls";
  program = "LAUS";
  ids = "LAUCN08031" ∷ [];
  url = "url";
  citation = "cite";
}

abbrev handled : Handled (Fields ℕ ℕ)
handled = record {
  value = record {
    value = 7;
    source = source;
    place = none;
    vintage = none;
    footnotes = none;
    cache = none;
  };
  limitations = "Not adjusted." ∷ [];
}

-- A limiter that lets every call through.
abbrev open_limiter : ToolLimiter
open_limiter = record { State = Unit {0}; begin_tool_call = λ caller now s. (done tt, s) }

abbrev at_rest : Shell (Unit {0}) (Unit {0})
at_rest = record { limiter = tt; context = none; rest = tt; log = [] }

-- A handler that leaves one note.
abbrev noting :
    Option Caller
    → Shell (Unit {0}) (Unit {0})
    → Result (Handled (Fields ℕ ℕ)) × Shell (Unit {0}) (Unit {0})
noting caller s = (
  ok handled,
  record s {
    context = some (record { caller = none; notes = "Nearly spent." ∷ []; upstream_calls = 1 });
  },
)

abbrev definition : ServerDefinition
definition = record {
  agency = "bls";
  tool_names = "bls_get_indicator" ∷ [];
  describe_source = none;
}

abbrev options : RenderOptions ℕ
options = record { render_data = none; text_budget = none }

handle_tool-IsNoted_example :
    IsNoted 0
      (λ n. "7")
      options
      (λ e. none)
      definition
      "bls_get_indicator"
      (λ at. "now")
      open_limiter
      noting
      true
      none
      0
      handled
      ("Not adjusted." ∷ "Nearly spent." ∷ [])
      (handle_tool 0
        (λ n. "7")
        options
        (λ e. none)
        definition
        "bls_get_indicator"
        (λ at. "now")
        open_limiter
        noting
        true
        none
        0
        at_rest).0
unfolding begin_call
handle_tool-IsNoted_example =
    handle_tool-IsNoted 0 (λ n. "7") options (λ e. none) definition "bls_get_indicator"
      (λ at. "now") open_limiter noting true none 0 at_rest
      (record at_rest { context = some (fresh none) })
      (noting none (record at_rest { context = some (fresh none) })).1 handled refl refl

abbrev config : LimitsConfig
config = record {
  service_daily = some (("bls", 450) ∷ ("bls-qcew", 2000) ∷ []);
  network = none;
  pool = none;
  upstream_per_minute = none;
  upstream_errors_per_minute = none;
  reserved_concurrency = none;
}

abbrev counters : LimiterState memory_store.State
unfolding memory_store
counters = initial []

abbrev dailies : Dict ℕ
dailies = ("bls", 450) ∷ ("bls-qcew", 2000) ∷ []

abbrev budgets : Dict ServiceBudget
budgets =
    or_else (source_limits (persistent memory_store config 0) true config 0 counters).0.service []

source_limits-IsBudget_example :
    All (IsBudget memory_store true 0 counters dailies) budgets
    × ((source : String) (daily : ℕ)
        → lookup source dailies ≡ some daily
        → IsListed memory_store true 0 counters budgets source daily)
unfolding lookup
source_limits-IsBudget_example =
    source_limits-IsBudget memory_store memory_store-IsCounterStore config 0 true 0 dailies counters
      refl (refl, (refl, tt))
