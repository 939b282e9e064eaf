-- ===== src/Server/Identify.antt =====
-- Who is calling (server/identify.ts, server/caller.ts). The HMAC, cut to its 32 hexadecimal digits, and the comparison of
-- digests are parameters.
pub mod Hex
pub mod Address
pub mod Granted
pub mod Pool
mod Tests
use Prim.Native.Char.{Char, code}
use federal_mcps.Common.{
  ℕ, ◌≤◌, ◌≡◌, refl, sym, ◌∙◌, String, Bool, true, false, true≢false, ◌&&◌, ◌||◌, not, Option, none,
  some, List, [], ◌∷◌, arith, leb, ◌==◌, or_else, str_eq, eq_iff, if◌then◌else◌, Bool-cases, ◌⊎◌,
  inl, inr, Option-cases,
}
use federal_mcps.Common.Dict.{Dict, lookup}
use federal_mcps.Common.Text.{template}
use federal_mcps.Common.Chars.{
  in_range, is_digit, is_letter, is_empty, every_char, units_of, split_at, slice_to, trim,
}
use federal_mcps.Time.{day_key}
use federal_mcps.Limits.Config.{Caller, CallerKind}
use federal_mcps.Server.Identify.Hex.{digits_value, parse_decimal}
use federal_mcps.Server.Identify.Address.{is_colon, network_of, is_claude_ai_pool}

abbrev pub source_ip_header : String
source_ip_header = "x-federal-mcps-source-ip"

abbrev pub operator_bypass_header : String
operator_bypass_header = "x-federal-mcps-operator"

abbrev pub test_limit_header : String
test_limit_header = "x-federal-mcps-test-limit"

pub record TestLimit : Type 0 where
  pub limit : ℕ
  pub run_id : String

abbrev pub is_limit : String → Bool
is_limit s = str_eq s "10" || (units_of s == 1 && every_char (in_range 49 57) s)

abbrev pub is_run_char : Char → Bool
is_run_char c = is_letter c || is_digit c || code c == 45

abbrev pub is_run_id : String → Bool
is_run_id s = every_char is_run_char s && leb 8 (units_of s) && leb (units_of s) 64

-- `/^([1-9]|10):([A-Za-z0-9-]{8,64})$/`, on the pieces between the colons.
unfoldable pub match_test_limit : List String → Option TestLimit
match_test_limit (limit ∷ run_id ∷ []) =
    if is_limit limit && is_run_id run_id
    then some (record { limit = parse_decimal limit; run_id = run_id })
    else none
match_test_limit _ = none

unfoldable pub parse_test_limit : Option String → Option TestLimit
parse_test_limit header = match_test_limit (split_at is_colon (trim (or_else header "")))

abbrev pub label_max_length : ℕ
label_max_length = 128

unfoldable pub labels_from : Option String → Option String
labels_from none = none
labels_from (some header) =
    let user_agent = trim header in
    if is_empty user_agent then none else some (slice_to label_max_length user_agent)

-- What `identify` is built from.
pub record Identity : Type 0 where
  pub secret : String
  pub operator_token : String
  pub hmac : String → String → String
  pub same_digest : String → String → Bool

module _ (i : Identity) where
  unfoldable pub token_matches : Option String → Bool
  token_matches none = false
  token_matches (some presented) =
      not (str_eq i.operator_token "") && i.same_digest presented i.operator_token

  abbrev pub test_caller : TestLimit → Option String → Caller
  test_caller test label = record {
    key = template ("test:" ∷ test.run_id ∷ []);
    kind = CallerKind.network;
    user_agent = label;
    bypass = false;
    test_limit = some test.limit;
  }

  -- A caller of the pool, or of its network under the day's key.
  unfoldable pub real_caller : String → Option String → Bool → ℕ → Caller
  real_caller network label bypass now =
      if is_claude_ai_pool network
      then record {
        key = "claude-ai";
        kind = CallerKind.pool;
        user_agent = label;
        bypass = bypass;
        test_limit = none;
      }
      else record {
        key = i.hmac i.secret (template (day_key now ∷ "|" ∷ network ∷ []));
        kind = CallerKind.network;
        user_agent = label;
        bypass = bypass;
        test_limit = none;
      }

  -- A valid token with a test limit is a test caller, and is no bypass.
  abbrev pub choose_caller : Option TestLimit → String → Option String → Bool → ℕ → Caller
  choose_caller (some test) network label bypass now = test_caller test label
  choose_caller none network label bypass now = real_caller network label bypass now

  unfoldable pub caller_at : String → Dict String → ℕ → Caller
  caller_at address headers now =
      let bypass = token_matches (lookup operator_bypass_header headers) in
      choose_caller (if bypass then parse_test_limit (lookup test_limit_header headers) else none)
        (network_of address) (labels_from (lookup "user-agent" headers)) bypass now

  unfoldable pub identify : Dict String → ℕ → Option Caller
  identify headers now =
      if str_eq i.secret "" then none else elim (lookup source_ip_header headers) [
        | none ↦ none
        | some text ↦
            (if is_empty (trim text) then none else some (caller_at (trim text) headers now))
      ]
