-- ===== src/Bls/SeriesIds.antt =====
-- The ids of BLS series (packages/server-bls/src: laus.ts, cpi.ts, ces.ts, jt.ts, cps.ts and ppi.ts).
pub mod Patterns
pub mod Recognized
use Prim.Native.Char.{Char, code}
use Prim.Native.String
use federal_mcps.Common.{
  ℕ, zero, suc, ◌==◌, leb, String, Bool, true, false, ◌&&◌, ◌||◌, not, Option, none, some, List, [],
  ◌∷◌, ◌++◌, or_else, if◌then◌else◌,
}
use federal_mcps.Common.Chars.{is_digit, is_upper, is_line_end, every_char, units_of, has_digits}
use federal_mcps.Common.Checked.{Checked, valid, invalid}
use federal_mcps.Common.Text.{template, join}

abbrev pub CharClass : Type 0
CharClass = Char → Bool

-- A pattern: the classes of the first characters, and a test of what is left.
unfoldable pub matches : List CharClass → (String → Bool) → String → Bool
matches [] rest s = rest s
matches (p ∷ classes) rest String.[] = false
matches (p ∷ classes) rest (String.◌∷◌ c s) = p c && matches classes rest s

abbrev pub replicate : ℕ → CharClass → List CharClass
replicate zero p = []
replicate (suc n) p = p ∷ replicate n p

abbrev pub is_char : ℕ → CharClass
is_char n c = code c == n

-- `[0-9A-Z]`
abbrev pub is_code_char : CharClass
is_code_char c = is_digit c || is_upper c

abbrev pub is_end : String → Bool
is_end String.[] = true
is_end (String.◌∷◌ c s) = false

-- `[SU]`
abbrev pub is_seasonal : CharClass
is_seasonal c = code c == 83 || code c == 85

abbrev pub seasonal_letter : Bool → String
seasonal_letter true = "S"
seasonal_letter false = "U"

-- `[0-9A-Z]{low,high}`, or no upper bound
abbrev pub is_code : ℕ → Option ℕ → String → Bool
is_code low none s = every_char is_code_char s && leb low (units_of s)
is_code low (some high) s =
    every_char is_code_char s && leb low (units_of s) && leb (units_of s) high

pub data LausMeasure : Type 0 where
  unemployment_rate unemployment employment labor_force : LausMeasure

abbrev pub laus_measure_code : LausMeasure → String
laus_measure_code unemployment_rate = "03"
laus_measure_code unemployment = "04"
laus_measure_code employment = "05"
laus_measure_code labor_force = "06"

abbrev pub cps_measure_digit : LausMeasure → String
cps_measure_digit unemployment_rate = "4"
cps_measure_digit unemployment = "3"
cps_measure_digit employment = "2"
cps_measure_digit labor_force = "1"

pub data JtDataElement : Type 0 where
  job_openings hires quits layoffs : JtDataElement

abbrev pub jt_data_element : JtDataElement → String
jt_data_element job_openings = "JO"
jt_data_element hires = "HI"
jt_data_element quits = "QU"
jt_data_element layoffs = "LD"

-- The messages of the errors are not modelled but for their kind.
unfoldable pub build_laus_series_id : String → LausMeasure → Bool → Checked String
build_laus_series_id area measure adjusted =
    if not (units_of area == 15)
    then invalid "LAUS area code must be 15 characters"
    else valid (template ("LA" ∷ seasonal_letter adjusted ∷ area ∷ laus_measure_code measure ∷ []))

-- `0[3-9]`, which `(03|04|05|06|07|08|09)` is
abbrev pub is_measure_end : CharClass
is_measure_end c = leb 51 (code c) && leb (code c) 57

-- `.{15}` of characters that are one UTF-16 unit each
unfoldable pub is_laus_series_id : String → Bool
is_laus_series_id s =
    matches
      (is_char 76
        ∷ is_char 65
        ∷ is_seasonal
        ∷ (replicate 15 (λ c. not (is_line_end c)) ++ is_char 48 ∷ is_measure_end ∷ []))
      is_end s

unfoldable pub build_cu_series_id : String → Option String → Bool → Checked String
build_cu_series_id area item adjusted =
    if not (is_code 4 (some 4) area)
    then invalid "CPI area code must be 4 characters"
    else valid (template ("CU" ∷ seasonal_letter adjusted ∷ "R" ∷ area ∷ or_else item "SA0" ∷ []))

unfoldable pub is_cu_series_id : String → Bool
is_cu_series_id s =
    matches
      (is_char 67
        ∷ is_char 85
        ∷ is_seasonal
        ∷ (λ c. code c == 82 || code c == 83)
        ∷ replicate 4 is_code_char)
      (is_code 3 none) s

unfoldable pub build_sm_series_id : String → Bool → Checked String
build_sm_series_id state_and_area adjusted =
    if not (has_digits 7 state_and_area)
    then invalid "CES state+area key must be 7 digits"
    else valid
        (template ("SM" ∷ seasonal_letter adjusted ∷ state_and_area ∷ "00000000" ∷ "01" ∷ []))

unfoldable pub is_sm_series_id : String → Bool
is_sm_series_id s = matches (is_char 83 ∷ is_char 77 ∷ is_seasonal ∷ replicate 17 is_digit) is_end s

unfoldable pub build_ces_national_series_id : Bool → String
build_ces_national_series_id adjusted =
    template ("CE" ∷ seasonal_letter adjusted ∷ "00000000" ∷ "01" ∷ [])

unfoldable pub is_ces_national_series_id : String → Bool
is_ces_national_series_id s =
    matches (is_char 67 ∷ is_char 69 ∷ is_seasonal ∷ replicate 10 is_digit) is_end s

unfoldable pub build_jt_series_id : String → JtDataElement → Bool → Checked String
build_jt_series_id state_fips element adjusted =
    if not (has_digits 2 state_fips)
    then invalid "JOLTS state FIPS must be 2 digits"
    else valid (
        template (
          "JT"
          ∷ seasonal_letter adjusted
          ∷ "000000"
          ∷ state_fips
          ∷ "00000"
          ∷ "00"
          ∷ jt_data_element element
          ∷ "L"
          ∷ []))

unfoldable pub is_jt_series_id : String → Bool
is_jt_series_id s =
    matches
      (is_char 74
        ∷ is_char 84
        ∷ is_seasonal
        ∷ (replicate 15 is_digit ++ is_upper ∷ is_upper ∷ is_upper ∷ []))
      is_end s

unfoldable pub build_cps_series_id : LausMeasure → Bool → String
build_cps_series_id measure true = template ("LNS1" ∷ cps_measure_digit measure ∷ "000000" ∷ [])
build_cps_series_id measure false = template ("LNU0" ∷ cps_measure_digit measure ∷ "000000" ∷ [])

unfoldable pub is_cps_series_id : String → Bool
is_cps_series_id s = matches (is_char 76 ∷ is_char 78 ∷ is_seasonal ∷ replicate 8 is_digit) is_end s

unfoldable pub build_wpu_series_id : String → Bool → Checked String
build_wpu_series_id item adjusted =
    if not (is_code 2 (some 12) item)
    then invalid "PPI item code must be 2–12 characters of A–Z/0–9"
    else valid (template ("WP" ∷ seasonal_letter adjusted ∷ item ∷ []))

unfoldable pub is_wpu_series_id : String → Bool
is_wpu_series_id s = matches (is_char 87 ∷ is_char 80 ∷ is_seasonal ∷ []) (is_code 2 (some 12)) s
