-- ===== src/Bls/Qcew.antt =====
-- QCEW's area files (packages/server-bls/src/qcew.ts): the row of a CSV that a selection picks, the
-- addresses of the files and the quarters of the calendar. What JavaScript's numbers do is `Numbers`.
pub mod Rows
pub mod Calendar
pub mod Csv
pub mod Periods
pub mod Missing
pub mod Keys
pub mod History
pub mod Pool
pub mod Files
pub mod Indicators
mod Tests
use Prim.Native.String
use mathlib.Core.Option
use Prim.Native.Char.{code}
use federal_mcps.Common.{
  ℕ, zero, suc, ◌+◌, ◌-◌, String, Bool, true, false, ◌&&◌, not, Option, none, some, List, [], ◌∷◌,
  map, filter, length, ◌==◌, leb, str_eq, or_else, if◌then◌else◌,
}
use federal_mcps.Common.Chars.{
  is_digit, is_empty, every_char, units_of, has_digits, ends_with, trim,
}
use federal_mcps.Common.Text.{template}
use federal_mcps.Time.{two_digits}
use federal_mcps.Bls.Qcew.Csv.{lines_of, split_csv_line, index_of, cell, is_cell, is_found}

-- `Number.parseFloat`, where a result that is not finite is none, `Number.parseInt`, the mean of three
-- rounded by `Math.round`, a number from a numeral, and `String`.
pub record Numbers (N : Type 0) : Type 0 where
  pub parse_float : String → Option N
  pub parse_int : String → N
  pub rounded_mean : N → N → N → N
  pub numeral : ℕ → N
  pub show : N → String

abbrev pub own_total_covered : String
own_total_covered = "0"

abbrev pub industry_all : String
industry_all = "10"

abbrev pub us_total_area : String
us_total_area = "US000"

-- The sector's code is kept as the number that the code reads it as.
pub record AgglvlSet : Type 0 where
  pub total : String
  pub ownership : String
  pub sector : ℕ

pub data AreaLevel : Type 0 where
  county state msa nation : AreaLevel

abbrev pub is_msa_code : String → Bool
is_msa_code String.[] = false
is_msa_code (String.◌∷◌ c s) = code c == 67 && has_digits 4 s

unfoldable pub area_level : String → Option AreaLevel
area_level area =
    if str_eq area us_total_area
    then some nation
    else if is_msa_code area
    then some msa
    else if has_digits 5 area && ends_with area "000"
    then some state
    else if has_digits 5 area
    then some county
    else none

abbrev pub agglvl_set : AreaLevel → AgglvlSet
agglvl_set county = record { total = "70"; ownership = "71"; sector = 74 }
agglvl_set state = record { total = "50"; ownership = "51"; sector = 54 }
agglvl_set msa = record { total = "40"; ownership = "41"; sector = 44 }
agglvl_set nation = record { total = "10"; ownership = "11"; sector = 14 }

-- `/^\d{3,6}$/`
abbrev pub is_detailed : String → Bool
is_detailed industry =
    every_char is_digit industry && leb 3 (units_of industry) && leb (units_of industry) 6

unfoldable pub expected_agglvl : AreaLevel → String → String → String
expected_agglvl level own_code industry_code =
    let set = agglvl_set level in
    if is_detailed industry_code
    then two_digits (set.sector + (units_of industry_code - 2))
    else if not (str_eq industry_code industry_all)
    then two_digits set.sector
    else if str_eq own_code own_total_covered
    then set.total
    else set.ownership

pub record RowSelection : Type 0 where
  pub own_code : String
  pub industry_code : String

pub record Headline (N : Type 0) : Type 0 where
  pub area_fips : String
  pub year : N
  pub quarter : N
  pub employment : Option N
  pub average_weekly_wage : Option N
  pub establishments : Option N
  pub disclosure_code : String
  pub annual : Bool

abbrev pub earliest_year : ℕ
earliest_year = 2014

unfoldable pub disclosure_text : String → Option String
disclosure_text code =
    if is_empty code
    then none
    else if str_eq code "N"
    then some "not disclosable — withheld for employer confidentiality"
    else some (template ("withheld (QCEW disclosure code " ∷ code ∷ ")" ∷ []))

-- Where the columns stand that are read.
pub record Columns : Type 0 where
  pub own : Option ℕ
  pub industry : Option ℕ
  pub agglvl : Option ℕ
  pub annual : Bool
  pub area : Option ℕ
  pub year : Option ℕ
  pub qtr : Option ℕ
  pub disclosure : Option ℕ
  pub estabs : Option ℕ
  pub month1 : Option ℕ
  pub month2 : Option ℕ
  pub month3 : Option ℕ
  pub annual_employment : Option ℕ
  pub wage : Option ℕ

unfoldable pub columns_of : List String → Columns
columns_of cols =
    let annual = is_found (index_of "annual_avg_emplvl" cols) in
    record {
      own = index_of "own_code" cols;
      industry = index_of "industry_code" cols;
      agglvl = index_of "agglvl_code" cols;
      annual = annual;
      area = index_of "area_fips" cols;
      year = index_of "year" cols;
      qtr = index_of "qtr" cols;
      disclosure = index_of "disclosure_code" cols;
      estabs = if annual then index_of "annual_avg_estabs" cols else index_of "qtrly_estabs" cols;
      month1 = index_of "month1_emplvl" cols;
      month2 = index_of "month2_emplvl" cols;
      month3 = index_of "month3_emplvl" cols;
      annual_employment = index_of "annual_avg_emplvl" cols;
      wage = if annual then index_of "annual_avg_wkly_wage" cols else index_of "avg_wkly_wage" cols;
    }

abbrev pub is_selected : Columns → RowSelection → List String → Bool
is_selected at selection f =
    is_cell at.own selection.own_code f && is_cell at.industry selection.industry_code f

abbrev pub is_none : {A : Type 0} → List A → Bool
is_none [] = true
is_none (x ∷ xs) = false

-- The rows of the expected level, and all of them where the level is not known or has none.
abbrev pub at_level :
    Columns → RowSelection → List (List String) → Option AreaLevel → List (List String)
at_level at selection rows none = rows
at_level at selection rows (some level) =
    let expected = expected_agglvl level selection.own_code selection.industry_code in
    let filtered = filter (is_cell at.agglvl expected) rows in
    if is_none filtered then rows else filtered

unfoldable pub candidates : Columns → RowSelection → List (List String) → List (List String)
candidates at selection [] = []
candidates at selection (row ∷ rows) =
    if is_found at.agglvl
    then at_level at selection (row ∷ rows) (area_level (or_else (cell at.area row) ""))
    else row ∷ rows

abbrev pub the_only : {A : Type 0} → List A → Option A
the_only (x ∷ []) = some x
the_only _ = none

module _ {N : Type 0} (numbers : Numbers N) where
  unfoldable pub to_num : Option String → Option N
  to_num none = none
  to_num (some field) = if is_empty field then none else numbers.parse_float field

  -- The mean of three months that are all there.
  abbrev pub mean_of : Option N → Option N → Option N → Option N
  mean_of (some a) (some b) (some c) = some (numbers.rounded_mean a b c)
  mean_of _ _ _ = none

  abbrev pub employment_of : Columns → List String → Option N
  employment_of at f =
      if at.annual
      then to_num (cell at.annual_employment f)
      else mean_of (to_num (cell at.month1 f)) (to_num (cell at.month2 f))
          (to_num (cell at.month3 f))

  unfoldable pub headline_of : Columns → List String → Headline N
  headline_of at f =
      let disclosure = or_else (cell at.disclosure f) "" in
      let suppressed = not (is_empty disclosure) in
      record {
        area_fips = or_else (cell at.area f) "";
        year = numbers.parse_int (or_else (cell at.year f) "0");
        quarter =
            if at.annual
            then numbers.numeral 0
            else numbers.parse_int (or_else (cell at.qtr f) "0");
        employment = if suppressed then none else employment_of at f;
        average_weekly_wage = if suppressed then none else to_num (cell at.wage f);
        establishments = if suppressed then none else to_num (cell at.estabs f);
        disclosure_code = disclosure;
        annual = at.annual;
      }

  abbrev pub parse_table : RowSelection → Columns → List (List String) → Option (Headline N)
  parse_table selection at rows =
      if is_found at.own && is_found at.industry
      then Option.map (headline_of at)
          (the_only (candidates at selection (filter (is_selected at selection) rows)))
      else none

  abbrev pub parse_lines : RowSelection → List String → Option (Headline N)
  parse_lines selection [] = none
  parse_lines selection (header ∷ lines) =
      parse_table selection (columns_of (split_csv_line header)) (map split_csv_line lines)

  unfoldable pub parse_qcew_row : String → RowSelection → Option (Headline N)
  parse_qcew_row csv selection = parse_lines selection (lines_of csv)
