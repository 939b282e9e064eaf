-- ===== src/Bls/Qcew/Files.antt =====
-- One file of QCEW through the HTTP client (packages/server-bls/src/qcew.ts: `fetchQcewRow`,
-- `fetchQcewCsv`, `fetchQcewHeadline`, `parseQcewHeadline`). The client's `getText` is one function on a
-- state, the options of the request its parameter; a text is always a string.
use federal_mcps.Common.{
  ◌≡◌, refl, sym, ◌∙◌, String, Bool, true, false, ◌&&◌, ◌||◌, Option, none, some, List, [], ◌∷◌,
  filter, length, ltb, lt→ltb, ◌==◌, arith, if◌then◌else◌, Bool-cases, inl, inr,
}
use mathlib.Core.Option.{none-ne-some}
use federal_mcps.Common.Chars.{is_empty, trim}
use federal_mcps.Http.Client.{Failure, http_error, Result, ok, err}
use federal_mcps.Bls.Qcew.Csv.{lines_of, split_csv_line, is_found}
use federal_mcps.Bls.Qcew.Calendar.{Quarter}
use federal_mcps.Bls.Qcew.Periods.{area_url}
use federal_mcps.Bls.Qcew.{
  Numbers, RowSelection, Headline, own_total_covered, industry_all, parse_qcew_row, parse_lines,
  candidates, columns_of,
}

abbrev pub headline_selection : RowSelection
headline_selection = record { own_code = own_total_covered; industry_code = industry_all }

-- A text that has more than its header.
abbrev pub published_text : String → Option String
published_text value =
    if is_empty value then none else if ltb 1 (length (lines_of value)) then some value else none

abbrev pub is_not_found : Failure → Bool
is_not_found (http_error source status url attempts) = status == 404
is_not_found _ = false

-- An annual file that is not published is a 404.
unfoldable pub read_csv : Result String → Result (Option String)
read_csv (ok value) = ok (published_text value)
read_csv (err e) = if is_not_found e then ok none else err e

module _ {S : Type 0} (get_text : String → S → Result String × S) where
  unfoldable pub fetch_qcew_csv : String → S → Result (Option String) × S
  fetch_qcew_csv url s = let (r, s') = get_text url s in (read_csv r, s')

  module _ {N : Type 0} (numbers : Numbers N) where
    abbrev pub read_row : RowSelection → Result String → Result (Option (Headline N))
    read_row selection (err e) = err e
    read_row selection (ok value) = ok (
        if is_empty value || is_empty (trim value)
        then none
        else parse_qcew_row numbers value selection)

    unfoldable pub fetch_qcew_row :
        String → Quarter → RowSelection → S → Result (Option (Headline N)) × S
    fetch_qcew_row area quarter selection s =
        let (r, s') = get_text (area_url area quarter) s in (read_row selection r, s')

    unfoldable pub fetch_qcew_headline : String → Quarter → S → Result (Option (Headline N)) × S
    fetch_qcew_headline area quarter s = fetch_qcew_row area quarter headline_selection s

    unfoldable pub parse_qcew_headline : String → Option (Headline N)
    parse_qcew_headline csv = parse_qcew_row numbers csv headline_selection

    parsed-lines :
        (selection : RowSelection) (lines : List String) (row : Headline N)
        → parse_lines numbers selection lines ≡ some row
        → ltb 1 (length lines) ≡ true
    unfolding candidates filter
    parsed-lines selection [] row e = cc
    parsed-lines selection (header ∷ []) row e =
        let at = columns_of (split_csv_line header) in
        elim (Bool-cases (is_found at.own && is_found at.industry)) [
          | inl both ↦ absurd (none-ne-some row (sym (rw both refl) ∙ e))
          | inr other ↦ absurd (none-ne-some row (sym (rw other refl) ∙ e))
        ]
    parsed-lines selection (header ∷ line ∷ lines) row e =
        lt→ltb 1 (length (header ∷ line ∷ lines)) (omega arith)

    -- A file that has the row of a selection is one that is published.
    pub parse_qcew_row-published :
        (selection : RowSelection) (value : String) (row : Headline N)
        → is_empty value ≡ false
        → parse_qcew_row numbers value selection ≡ some row
        → read_csv (ok value) ≡ ok (some value)
    unfolding parse_qcew_row read_csv
    parse_qcew_row-published selection value row some_text e =
        rw (some_text, parsed-lines selection (lines_of value) row e) refl
