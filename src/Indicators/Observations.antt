-- ===== src/Indicators/Observations.antt =====
-- The observations of a series (indicators/observations.ts) and what the tools read off them
-- (indicators/tools.ts: `collectFootnotes`, `periodLabel`). A value is a number of the agency's.
pub mod Footnotes
use Prim.Native.Char.{Char}
use Prim.Native.String
use federal_mcps.Common.{
  ℕ, ◌≡◌, refl, String, Bool, true, false, ◌&&◌, ◌||◌, not, Option, none, some, List, [], ◌∷◌, ◌++◌,
  arith, str_eq, starts_with, if◌then◌else◌, map, any,
}
use federal_mcps.Common.Chars.{is_digit, is_empty, slice_from, has_digits}
use federal_mcps.Common.Text.{template}
use federal_mcps.Common.Sets.{has}
use federal_mcps.Envelope.{Footnote, footnote_flags_from_code}

pub record Observation (N : Type 0) : Type 0 where
  pub year : String
  pub period : String
  pub period_name : String
  pub value : Option N
  pub footnotes : List (String × String)
  pub margin_of_error : Option (Option N)
  pub reliability : Option String

pub record SeriesResult (N : Type 0) : Type 0 where
  pub series_id : String
  pub observations : List (Observation N)
  pub notes : List String

pub record FetchOptions : Type 0 where
  pub start_year : ℕ
  pub end_year : ℕ
  pub api_key : Option String
  pub explicit_years : Bool

abbrev pub first : {A : Type 0} → List A → Option A
first [] = none
first (x ∷ xs) = some x

abbrev pub has_code : String → List Footnote → Bool
has_code code footnotes = has code (map (λ f. f.code) footnotes)

-- One footnote for each code that is not there yet.
unfoldable pub add_footnotes : List (String × String) → List Footnote → List Footnote
add_footnotes [] found = found
add_footnotes ((code, text) ∷ footnotes) found = add_footnotes footnotes (
    if has_code code found
    then found
    else found ++ record { code = code; text = text; flags = footnote_flags_from_code code } ∷ [])

-- `/^Q0?(\d)$/`
unfoldable pub quarter_of : String → Option String
quarter_of period =
    let rest = slice_from 1 period in
    if not (starts_with period "Q")
    then none
    else if has_digits 1 rest
    then some rest
    else if starts_with rest "0" && has_digits 1 (slice_from 1 rest)
    then some (slice_from 1 rest)
    else none

module _ {N : Type 0} where
  abbrev pub all_footnotes : List (Observation N) → List (String × String)
  all_footnotes [] = []
  all_footnotes (o ∷ observations) = o.footnotes ++ all_footnotes observations

  unfoldable pub collect_footnotes : List (Observation N) → List Footnote
  collect_footnotes observations = add_footnotes (all_footnotes observations) []

  -- `${o.year}-${o.period}`
  abbrev pub period_key : Observation N → String
  period_key o = template (o.year ∷ "-" ∷ o.period ∷ [])

  unfoldable pub period_label : Observation N → String
  period_label o = elim (quarter_of o.period) [
    | some q ↦ template (o.year ∷ " Q" ∷ q ∷ [])
    | none ↦
        (if not (is_empty o.period_name) && not (str_eq o.period_name o.year)
          then template (o.year ∷ " " ∷ o.period_name ∷ [])
          else o.year)
  ]
