-- ===== src/Bls/Qcew/Tests.antt =====
-- Runs of the QCEW server's parts on small inputs.
use federal_mcps.Common.{
  ℕ, ◌+◌, ◌-◌, ◌*◌, ◌/◌, ◌<◌, ◌≤◌, ◌≡◌, ◌⊎◌, ◌↔◌, refl, String, true, false, none, some, List, [],
  ◌∷◌, arith, length, min, All, map, filter,
}
use federal_mcps.Common.Members.{Member}
use federal_mcps.Common.Checked.{valid, invalid}
use federal_mcps.Common.Chars.{
  split_at, trim_start, trim_end, is_space, every_char, units_of, ends_with, is_line_end,
}
use federal_mcps.Common.Sort.{sort, sort_in}
use federal_mcps.Bls.Chunks.{concat}
use federal_mcps.Bls.Qcew.Csv.{
  lines_of, split_csv_line, without_return, before_quote, unquote, index_of,
}
use federal_mcps.Bls.Qcew.Calendar.{
  Quarter, six_months_before, overflow, days_in, IsQuarter, IsInYear, ordinal, lag,
  six_months_before_lem,
}
use federal_mcps.Bls.Qcew.Periods.{Period, in_quarter, YearRange, candidate_periods}
use federal_mcps.Bls.Qcew.Periods.Range.{IsAsked, candidate_periods-IsAsked}
use federal_mcps.Bls.Qcew.Missing.{groups_of, add_period, add_periods, format_missing_periods}
use federal_mcps.Bls.Qcew.Missing.Order.{IsInTime}
use federal_mcps.Bls.Qcew.Missing.Groups.{IsRun, IsParted, groups_of-IsRun}
use federal_mcps.Bls.Qcew.Keys.{build_qcew_key, parse_qcew_key, lacks_ownership}
use federal_mcps.Bls.Qcew.Keys.RoundTrip.{parse_qcew_key-build_qcew_key}
use federal_mcps.Bls.Qcew.Rows.{IsPicked, parse_qcew_row-IsPicked}
use federal_mcps.Bls.Qcew.History.{
  Slice, csv_text, unpublished, timed_out, Fetched, fetch_rows, read_slices,
}
use federal_mcps.Bls.Qcew.History.Complete.{IsComplete, fetch_rows-IsComplete}
use federal_mcps.Bls.Qcew.Pool.{
  Pool, fetching, finished, delivered, Run, ends, settle_then, start, start_workers, advance,
  settle, concurrency,
}
use federal_mcps.Bls.Qcew.Pool.Advanced.{is_filled}
use federal_mcps.Bls.Qcew.Pool.Complete.{Run-complete}
use federal_mcps.Bls.Qcew.Pool.Bounded.{busy, Run-IsBounded}
use federal_mcps.Bls.Qcew.{
  Numbers, Headline, RowSelection, parse_qcew_row, columns_of, area_level, expected_agglvl,
  candidates, headline_of, to_num,
}

abbrev lengths : Numbers ℕ
lengths = record {
  parse_float = λ s. some 7;
  parse_int = λ s. 2024;
  rounded_mean = λ a b c. (a + b + c) / 3;
  numeral = λ n. n;
  show = λ n. "2024";
}

abbrev header : String
header = "own_code,industry_code,agglvl_code,area_fips,year,qtr,disclosure_code"

abbrev row_line : String
row_line = "\"0\",\"10\",\"70\",\"08031\",2024,1,N"

abbrev file : String
file =
    "own_code,industry_code,agglvl_code,area_fips,year,qtr,disclosure_code\n\"0\",\"10\",\"70\",\"08031\",2024,1,N\n"

abbrev all_jobs : RowSelection
all_jobs = record { own_code = "0"; industry_code = "10" }

abbrev withheld : Headline ℕ
withheld = record {
  area_fips = "08031";
  year = 2024;
  quarter = 2024;
  employment = none;
  average_weekly_wage = none;
  establishments = none;
  disclosure_code = "N";
  annual = false;
}

file_lines : lines_of file ≡ header ∷ row_line ∷ []
unfolding lines_of split_at without_return filter trim_start trim_end is_space
file_lines = refl

file_row : parse_qcew_row lengths file all_jobs ≡ some withheld
unfolding parse_qcew_row lines_of split_at without_return filter trim_start trim_end is_space
    split_csv_line unquote before_quote every_char is_line_end index_of columns_of candidates
    area_level expected_agglvl units_of ends_with headline_of to_num
file_row = refl

-- On the last day of December the quarter before the day's own is taken to be published.
december : six_months_before 2024 12 31 ≡ record { year = 2024; quarter = 3 }
unfolding six_months_before overflow days_in
december = refl

the_day_before : six_months_before 2024 12 30 ≡ record { year = 2024; quarter = 2 }
unfolding six_months_before overflow days_in
the_day_before = refl

six_months_before_lem_example :
    IsQuarter (six_months_before 2024 12 30)
    × (ordinal (six_months_before 2024 12 30) + lag 12 30 ≡ 4 * 2024 + ((12 - 1) / 3 + 1))
six_months_before_lem_example =
    six_months_before_lem 2024 12 30 (omega arith) (omega arith) (omega arith) (omega arith)

parse_qcew_row-IsPicked_example :
    IsPicked lengths all_jobs
      (columns_of (split_csv_line header))
      (map split_csv_line (row_line ∷ []))
      withheld
parse_qcew_row-IsPicked_example =
    parse_qcew_row-IsPicked lengths file all_jobs header (row_line ∷ []) withheld file_lines
      file_row

abbrev spring : Quarter
spring = record { year = 2024; quarter = 2 }

abbrev winter : Quarter
winter = record { year = 2023; quarter = 4 }

abbrev since_2023 : YearRange
since_2023 = record { start_year = some 2023; end_year = none; explicit_years = true }

candidate_periods-IsAsked_example :
    (Member (in_quarter winter) (candidate_periods false since_2023 spring).0
      → IsInYear winter × IsAsked since_2023 spring winter)
    × (IsInYear winter
        → IsAsked since_2023 spring winter
        → Member (in_quarter winter) (candidate_periods false since_2023 spring).0)
candidate_periods-IsAsked_example =
    candidate_periods-IsAsked since_2023 spring winter refl (omega arith, omega arith)

abbrev two_missed : List Period
two_missed = in_quarter spring ∷ in_quarter (record { year = 2024; quarter = 1 }) ∷ []

groups_of-IsRun_example :
    All IsRun (groups_of two_missed)
    × IsParted (groups_of two_missed)
    × IsInTime (concat (groups_of two_missed))
    × ((p : Period) → Member p two_missed ↔ Member p (concat (groups_of two_missed)))
groups_of-IsRun_example =
    groups_of-IsRun two_missed ((omega arith, omega arith), ((omega arith, omega arith), tt))

one_run :
    groups_of two_missed
    ≡ (in_quarter (record { year = 2024; quarter = 1 }) ∷ in_quarter spring ∷ []) ∷ []
unfolding add_periods add_period sort sort_in
one_run = refl

parse_qcew_key-build_qcew_key_example :
    ((lacks_ownership "5" "23" ≡ true)
      × ((message : String) × (build_qcew_key "08031" "5" "23" true ≡ invalid message)))
    ⊎ ((lacks_ownership "5" "23" ≡ false)
        × ((id : String) × (build_qcew_key "08031" "5" "23" true ≡ valid id)
            × (parse_qcew_key id
                ≡ some (record {
                  area = "08031";
                  selection = record { own_code = "5"; industry_code = "23" };
                  annual = true;
                }))))
unfolding every_char
parse_qcew_key-build_qcew_key_example =
    parse_qcew_key-build_qcew_key "08031" "5" "23" true (refl, refl) (refl, refl) (refl, refl)

-- The first slice is a file, and no other comes in time.
abbrev slow : String → List Period → List Slice
slow area window = csv_text file ∷ timed_out ∷ []

abbrev answer : Fetched lengths
answer = record {
  rows = withheld ∷ [];
  any_published = true;
  notes = format_missing_periods (in_quarter winter ∷ []) ∷ [];
}

abbrev two_periods : List Period
two_periods = in_quarter spring ∷ in_quarter winter ∷ []

partial_answer : fetch_rows lengths slow "08031" all_jobs two_periods false ≡ valid answer
unfolding fetch_rows read_slices parse_qcew_row lines_of split_at without_return filter trim_start
    trim_end is_space split_csv_line unquote before_quote every_char is_line_end index_of columns_of
    candidates area_level expected_agglvl units_of ends_with headline_of to_num
partial_answer = refl

fetch_rows-IsComplete_example : IsComplete lengths slow "08031" all_jobs two_periods false answer
fetch_rows-IsComplete_example =
    fetch_rows-IsComplete lengths slow "08031" all_jobs two_periods false answer partial_answer

-- Two slices, each fetched by its own worker; the second is delivered first.
abbrev one_delivered : Pool
one_delivered = settle 2 [] (fetching 0 ∷ []) 1 (delivered unpublished) (start 2 false)

abbrev both_delivered : Pool
both_delivered = settle 2 (finished ∷ []) [] 0 (delivered unpublished) one_delivered

second_first : Run 2 (start 2 false) 2 both_delivered
unfolding start_workers advance settle
second_first =
    settle_then [] (fetching 0 ∷ []) 1 (delivered unpublished) refl
      (settle_then (finished ∷ []) [] 0 (delivered unpublished) refl (ends both_delivered))

Run-complete_example :
    (length both_delivered.workers ≡ min concurrency 2)
    × (All (λ w. w ≡ finished) both_delivered.workers
        → (j : ℕ) → j < 2
        → is_filled (both_delivered.results j) ≡ true)
Run-complete_example = Run-complete 2 2 false both_delivered second_first

both_finished : All (λ w. w ≡ finished) both_delivered.workers
unfolding start_workers advance settle
both_finished = (refl, (refl, tt))

abbrev busy_after : ℕ
busy_after = busy both_delivered.workers

Run-IsBounded_example : 2 + busy_after ≤ 2
Run-IsBounded_example = Run-IsBounded 2 2 false both_delivered second_first
