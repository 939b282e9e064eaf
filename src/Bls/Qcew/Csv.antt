-- ===== src/Bls/Qcew/Csv.antt =====
-- The lines and the cells of a CSV file (packages/server-bls/src/qcew.ts: `splitCsvLine`, and the
-- lines that `parseQcewRow` and `fetchQcewCsv` read).
use Prim.Native.Char.{Char, code}
use mathlib.Core.Option
use federal_mcps.Common.{
  ℕ, zero, suc, String, Bool, true, false, ◌&&◌, not, Option, none, some, List, [], ◌∷◌, map,
  filter, ◌==◌, str_eq, if◌then◌else◌,
}
use federal_mcps.Common.Chars.{is_line_end, is_empty, every_char, trim, split_at, is_comma}

abbrev pub is_newline : Char → Bool
is_newline c = code c == 10

-- A line without the carriage return that it ends with.
unfoldable pub without_return : String → String
without_return String.[] = String.[]
without_return (String.◌∷◌ c s) =
    let rest = without_return s in
    if code c == 13 && is_empty s then String.[] else String.◌∷◌ c rest

-- The last piece is followed by no newline, so it keeps a carriage return.
abbrev pub without_returns : List String → List String
without_returns [] = []
without_returns (line ∷ []) = line ∷ []
without_returns (line ∷ next ∷ lines) = without_return line ∷ without_returns (next ∷ lines)

-- `csv.split(/\r?\n/).filter((l) => l.trim().length > 0)`
unfoldable pub lines_of : String → List String
lines_of csv = filter (λ l. not (is_empty (trim l))) (without_returns (split_at is_newline csv))

-- What stands before a last double quote.
unfoldable pub before_quote : String → Option String
before_quote String.[] = none
before_quote (String.◌∷◌ c s) =
    let rest = Option.map (λ r. String.◌∷◌ c r) (before_quote s) in
    if code c == 34 && is_empty s then some String.[] else rest

abbrev pub quoted : String → Option String
quoted String.[] = none
quoted (String.◌∷◌ c s) = if code c == 34 then before_quote s else none

abbrev pub is_one_line : String → Bool
is_one_line s = every_char (λ c. not (is_line_end c)) s

abbrev pub if_one_line : String → Option String → String
if_one_line s none = s
if_one_line s (some inner) = if is_one_line inner then inner else s

-- `s.replace(/^"(.*)"$/, "$1")`
unfoldable pub unquote : String → String
unquote s = if_one_line s (quoted s)

unfoldable pub split_csv_line : String → List String
split_csv_line line = map (λ f. unquote (trim f)) (split_at is_comma line)

-- `cols.indexOf(name)`, none for -1
unfoldable pub index_of : String → List String → Option ℕ
index_of name [] = none
index_of name (col ∷ cols) =
    let rest = Option.map suc (index_of name cols) in if str_eq col name then some 0 else rest

abbrev pub is_found : Option ℕ → Bool
is_found none = false
is_found (some _) = true

abbrev pub get_elem? : {A : Type 0} → List A → ℕ → Option A
get_elem? [] n = none
get_elem? (x ∷ xs) zero = some x
get_elem? (x ∷ xs) (suc n) = get_elem? xs n

-- `f[i]`
abbrev pub cell : Option ℕ → List String → Option String
cell none f = none
cell (some i) f = get_elem? f i

abbrev pub is_text : String → Option String → Bool
is_text text none = false
is_text text (some s) = str_eq s text

-- `f[i] === text`
abbrev pub is_cell : Option ℕ → String → List String → Bool
is_cell i text f = is_text text (cell i f)
