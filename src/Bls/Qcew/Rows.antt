-- ===== src/Bls/Qcew/Rows.antt =====
-- Which row of a QCEW file a selection picks (packages/server-bls/src/qcew.ts: `parseQcewRow`).
use mathlib.Core.Option
use federal_mcps.Common.{
  ◌≡◌, refl, sym, ap, ◌∙◌, subst, String, true, false, ◌&&◌, Option, none, some, List, [], ◌∷◌, map,
  filter, if-both, inl, inr, some_inj,
}
use federal_mcps.Common.Chars.{is_empty}
use federal_mcps.Common.Members.{Member, filter-Member, Member-filter}
use federal_mcps.Bls.Qcew.Csv.{lines_of, split_csv_line, cell, is_cell, is_text, is_found}
use federal_mcps.Bls.Qcew.{
  Numbers, Headline, RowSelection, Columns, columns_of, is_selected, is_none, at_level, candidates,
  the_only, headline_of, parse_table, parse_lines, parse_qcew_row, expected_agglvl, AreaLevel,
}

-- The cells of a row that has just one candidate beside it at its level: the row itself.
abbrev IsAlone : Columns → RowSelection → List (List String) → List String → Type 0
IsAlone at selection rows f =
    (g : List String)
    → Member g rows
    → is_selected at selection g ≡ true
    → cell at.agglvl g ≡ cell at.agglvl f
    → g ≡ f

module _ {N : Type 0} where
  -- A withheld row has no figures.
  abbrev pub IsWithheld : Headline N → Type 0
  IsWithheld h =
      is_empty h.disclosure_code ≡ false
      → (h.employment ≡ none) × (h.average_weekly_wage ≡ none) × (h.establishments ≡ none)

  abbrev pub IsPicked :
      Numbers N → RowSelection → Columns → List (List String) → Headline N → Type 0
  IsPicked numbers selection at rows h =
      (f : List String) × Member f rows
      × (is_selected at selection f ≡ true)
      × IsAlone at selection rows f
      × (h ≡ headline_of numbers at f)
      × IsWithheld h

only-some : {A : Type 0} (l : List A) (x : A) → the_only l ≡ some x → l ≡ x ∷ []
only-some [] x e = cc
only-some (y ∷ []) x e = ap (λ z. z ∷ []) (some_inj e)
only-some (y ∷ z ∷ l) x e = cc

-- The candidates have the selected rows of the level of each of them.
abbrev HasLevel : Columns → List (List String) → List (List String) → Type 0
HasLevel at rows l =
    ((g : List String) → Member g l → Member g rows)
    × ((f g : List String)
        → Member f l
        → Member g rows
        → cell at.agglvl g ≡ cell at.agglvl f
        → Member g l)

at_level-HasLevel :
    (at : Columns) (selection : RowSelection) (rows : List (List String)) (level : Option AreaLevel)
    → HasLevel at rows (at_level at selection rows level)
at_level-HasLevel at selection rows none = (λ g m. m, λ f g mf mg same. mg)
at_level-HasLevel at selection rows (some level) =
    let p = is_cell at.agglvl (expected_agglvl level selection.own_code selection.industry_code) in
    if-both (HasLevel at rows) (is_none (filter p rows)) (λ g m. m, λ f g mf mg same. mg)
      (
        λ g m. (filter-Member p g rows m).0,
        λ f g mf mg same. Member-filter p g rows mg (
            ap (is_text (expected_agglvl level selection.own_code selection.industry_code)) same
            ∙ (filter-Member p f rows mf).1),
      )

candidates-HasLevel :
    (at : Columns) (selection : RowSelection) (rows : List (List String))
    → HasLevel at rows (candidates at selection rows)
unfolding candidates
candidates-HasLevel at selection [] = (λ g m. m, λ f g mf mg same. mg)
candidates-HasLevel at selection (row ∷ rows) =
    if-both (HasLevel at (row ∷ rows)) (is_found at.agglvl)
      (at_level-HasLevel at selection (row ∷ rows) _) (λ g m. m, λ f g mf mg same. mg)

module _ {N : Type 0} (numbers : Numbers N) where
  headline_of-IsWithheld : (at : Columns) (f : List String) → IsWithheld (headline_of numbers at f)
  unfolding headline_of
  headline_of-IsWithheld at f withheld = rw withheld (refl, refl, refl)

  abbrev IsPickedBy : Columns → RowSelection → List (List String) → Option (Headline N) → Type 0
  IsPickedBy at selection rows none = Unit
  IsPickedBy at selection rows (some h) = IsPicked numbers selection at rows h

  picked-IsPicked :
      (at : Columns) (selection : RowSelection) (rows : List (List String))
      (f : Option (List String))
      → the_only (candidates at selection (filter (is_selected at selection) rows)) ≡ f
      → IsPickedBy at selection rows (Option.map (headline_of numbers at) f)
  picked-IsPicked at selection rows none e = tt
  picked-IsPicked at selection rows (some f) e =
      let selected = filter (is_selected at selection) rows in
      let single = only-some _ f e in
      let (within, closed) = candidates-HasLevel at selection selected in
      let here : Member f (candidates at selection selected) =
        subst (λ l. Member f l) (sym single) (inl refl) in
      let (mf, chosen) = filter-Member (is_selected at selection) f rows (within f here) in
      (
        f,
        mf,
        chosen,
        λ g mg sg same.
            elim (subst (λ l. Member g l) single
              (closed f g here (Member-filter (is_selected at selection) g rows mg sg) same)) [
                | inl found ↦ sym found
                | inr later ↦ absurd later
              ],
        refl,
        headline_of-IsWithheld at f,
      )

  parse_table-IsPicked :
      (selection : RowSelection) (at : Columns) (rows : List (List String))
      → IsPickedBy at selection rows (parse_table numbers selection at rows)
  parse_table-IsPicked selection at rows =
      if-both (IsPickedBy at selection rows) (is_found at.own && is_found at.industry)
        (picked-IsPicked at selection rows _ refl) tt

  -- A file gives a selection only the figures of a row with its ownership and industry, which is the
  -- only such row at its level, and no figures where the row is withheld.
  pub parse_qcew_row-IsPicked :
      (csv : String) (selection : RowSelection) (header : String) (lines : List String)
      (h : Headline N)
      → lines_of csv ≡ header ∷ lines
      → parse_qcew_row numbers csv selection ≡ some h
      → IsPicked numbers selection (columns_of (split_csv_line header)) (map split_csv_line lines) h
  unfolding parse_qcew_row
  parse_qcew_row-IsPicked csv selection header lines h split e =
      let rows = map split_csv_line lines in
      let at = columns_of (split_csv_line header) in
      subst (IsPickedBy at selection rows) (sym (ap (parse_lines numbers selection) split) ∙ e)
        (parse_table-IsPicked selection at rows)
