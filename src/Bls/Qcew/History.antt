-- ===== src/Bls/Qcew/History.antt =====
-- The rows of a QCEW call (packages/server-bls/src/qcew-indicators.ts: `fetchRows`, `toObservation`
-- and `qcewFetch`). What the slices of an area turn out to be is a parameter, which
-- the pool of `fetchSlicesBounded` fills.
pub mod Complete
use Prim.Native.Char.{code}
use mathlib.Core.Option
use federal_mcps.Common.{
  ℕ, zero, suc, ◌+◌, ◌-◌, ◌*◌, ◌==◌, ltb, leb, str_eq, String, Bool, true, false, ◌&&◌, not, Option,
  none, some, List, [], ◌∷◌, ◌++◌, map, length, take, if◌then◌else◌, or_else,
}
use federal_mcps.Common.Chars.{is_empty, split_at}
use federal_mcps.Common.Checked.{Checked, valid, invalid, ◌>>=◌}
use federal_mcps.Common.Text.{template, join}
use federal_mcps.Indicators.Observations.{Observation, SeriesResult}
use federal_mcps.Bls.Qcew.Calendar.{Quarter}
use federal_mcps.Bls.Qcew.Periods.{Period, max_lookback, max_periods, YearRange, candidate_periods}
use federal_mcps.Bls.Qcew.Keys.{Key, parse_qcew_key}
use federal_mcps.Bls.Qcew.Missing.{format_missing_periods}
use federal_mcps.Bls.Qcew.{
  Numbers, Headline, RowSelection, own_total_covered, industry_all, parse_qcew_row, disclosure_text,
  is_none,
}

-- A slice's text, undefined where it is not published, or `TIMED_OUT`.
pub data Slice : Type 0 where
  csv_text : String → Slice
  unpublished timed_out : Slice

pub data Measure : Type 0 where
  of_employment of_wage : Measure

module _ {N : Type 0} (numbers : Numbers N) where
  -- What was read of the slices so far.
  pub record Reading : Type 0 where
    pub rows : List (Headline N)
    pub missing : List Period
    pub any_published : Bool
    pub consumed : ℕ

  abbrev pub nothing_read : Reading
  nothing_read = record { rows = []; missing = []; any_published = false; consumed = 0 }

  abbrev pub with_row : List (Headline N) → Option (Headline N) → List (Headline N)
  with_row rows none = rows
  with_row rows (some row) = rows ++ row ∷ []

  abbrev pub read_text : RowSelection → String → Reading → Reading
  read_text selection csv r = record {
    rows = with_row r.rows (parse_qcew_row numbers csv selection);
    missing = r.missing;
    any_published = true;
    consumed = suc r.consumed;
  }

  unfoldable pub read_slices : ℕ → RowSelection → List (Period × Slice) → Reading → Reading
  read_slices want selection [] r = r
  read_slices want selection ((p, timed_out) ∷ slices) r =
      read_slices want selection slices
        (record r { missing = r.missing ++ p ∷ []; consumed = suc r.consumed })
  read_slices want selection ((p, unpublished) ∷ slices) r =
      read_slices want selection slices (record r { consumed = suc r.consumed })
  read_slices want selection ((p, csv_text csv) ∷ slices) r =
      let next = read_text selection csv r in
      let skipped = read_slices want selection slices (record r { consumed = suc r.consumed }) in
      let rest = read_slices want selection slices next in
      if is_empty csv then skipped else if leb want (length next.rows) then next else rest

  -- `window[i]` with `slices[i]`
  abbrev pub zip : List Period → List Slice → List (Period × Slice)
  zip [] slices = []
  zip (p ∷ window) [] = []
  zip (p ∷ window) (slice ∷ slices) = (p, slice) ∷ zip window slices

  abbrev pub want_of : Bool → ℕ
  want_of true = 1
  want_of false = max_periods

  abbrev pub window_of : Bool → List Period → List Period
  window_of latest_only periods = take (want_of latest_only + max_lookback) periods

  unfoldable pub period_label : Headline N → String
  period_label r =
      if r.annual
      then template (numbers.show r.year ∷ " annual" ∷ [])
      else template (numbers.show r.year ∷ " Q" ∷ numbers.show r.quarter ∷ [])

  abbrev pub newest_label : List (Headline N) → String
  newest_label [] = ""
  newest_label (row ∷ rows) = period_label row

  abbrev pub oldest_label : List (Headline N) → String
  oldest_label [] = ""
  oldest_label (row ∷ []) = period_label row
  oldest_label (row ∷ next ∷ rows) = oldest_label (next ∷ rows)

  abbrev pub cap_note : List (Headline N) → String
  cap_note rows = template (
      "QCEW history is served at most 5 years (20 quarters) per call; returned "
      ∷ newest_label rows
      ∷ " back to "
      ∷ oldest_label rows
      ∷ ". Ask for an earlier range separately."
      ∷ [])

  abbrev pub cap_notes : Bool → List Period → Reading → List String
  cap_notes latest_only periods r =
      if not latest_only
        && leb (want_of latest_only) (length r.rows)
        && ltb r.consumed (length periods)
      then cap_note r.rows ∷ []
      else []

  abbrev pub missing_notes : List Period → List String
  missing_notes missing = if is_none missing then [] else format_missing_periods missing ∷ []

  abbrev pub row_notes : Bool → List Period → Reading → List String
  row_notes latest_only periods r = cap_notes latest_only periods r ++ missing_notes r.missing

  abbrev pub nothing_retrieved_message : String → String
  nothing_retrieved_message area = template (
      "QCEW: no slice for area " ∷ area
      ∷ " was retrieved within the 20s time limit; try again, and any slices already fetched will come from cache."
      ∷ [])

  abbrev pub retrieved_none : Reading → Bool
  retrieved_none r = is_none r.rows && not r.any_published && not (is_none r.missing)

  pub record Fetched : Type 0 where
    pub rows : List (Headline N)
    pub any_published : Bool
    pub notes : List String

  abbrev pub finish_rows : String → Bool → List Period → Reading → Checked Fetched
  finish_rows area latest_only periods r =
      if retrieved_none r
      then invalid (nothing_retrieved_message area)
      else valid (record {
        rows = r.rows;
        any_published = r.any_published;
        notes = row_notes latest_only periods r;
      })

  -- `fetched` has the slice of each period of the window.
  unfoldable pub fetch_rows :
      (fetched : String → List Period → List Slice)
      → String
      → RowSelection
      → List Period
      → Bool
      → Checked Fetched
  fetch_rows fetched area selection periods latest_only =
      let window = window_of latest_only periods in
      finish_rows area latest_only periods (
        read_slices (want_of latest_only) selection (zip window (fetched area window)) nothing_read)

  abbrev pub disclosure_footnote : Headline N → Option String → List (String × String)
  disclosure_footnote row none = []
  disclosure_footnote row (some text) = (row.disclosure_code, text) ∷ []

  abbrev pub value_of : Measure → Headline N → Option N
  value_of of_employment row = row.employment
  value_of of_wage row = row.average_weekly_wage

  unfoldable pub to_observation : Measure → Headline N → Observation N
  to_observation measure row = record {
    year = numbers.show row.year;
    period = if row.annual then "A01" else template ("Q0" ∷ numbers.show row.quarter ∷ []);
    period_name =
        if row.annual then "Annual" else template ("Quarter " ∷ numbers.show row.quarter ∷ []);
    value = value_of measure row;
    footnotes = disclosure_footnote row (disclosure_text row.disclosure_code);
    margin_of_error = none;
    reliability = none;
  }

  abbrev pub unpublished_industry : Key → String
  unpublished_industry key = template (
      "NAICS " ∷ key.selection.industry_code ∷ " is not published for area " ∷ key.area
      ∷ " in the period asked (the industry may not exist there, or QCEW does not publish that ownership/industry pair)."
      ∷ [])

  abbrev pub key_notes : Key → List String → Fetched → List String
  key_notes key floor f =
      floor
      ++ f.notes
      ++ (if is_none f.rows
            && f.any_published
            && not (str_eq key.selection.industry_code industry_all)
          then unpublished_industry key ∷ []
          else [])

  abbrev pub series_of : Measure → String → Key → List String → Fetched → SeriesResult N
  series_of measure id key floor f = record {
    series_id = id;
    observations = map (to_observation measure) f.rows;
    notes = key_notes key floor f;
  }

  module _ (fetched : String → List Period → List Slice) (latest : Quarter)
      (measure : Measure) where
    abbrev pub fetch_parsed : YearRange → String → Option Key → Checked (SeriesResult N)
    fetch_parsed options id none = valid (record { series_id = id; observations = []; notes = [] })
    fetch_parsed options id (some key) =
        let (periods, floor) = candidate_periods key.annual options latest in
        fetch_rows fetched key.area key.selection periods (not options.explicit_years)
        >>= (λ f. valid (series_of measure id key floor f))

    -- One series for each key; the error of a key is that of the call.
    unfoldable pub qcew_fetch : List String → YearRange → Checked (List (SeriesResult N))
    qcew_fetch [] options = valid []
    qcew_fetch (id ∷ ids) options =
        let rest = qcew_fetch ids options in
        fetch_parsed options id (parse_qcew_key id)
        >>= (λ one. rest >>= (λ series. valid (one ∷ series)))
