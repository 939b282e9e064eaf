-- ===== src/Indicators/Observations/Footnotes.antt =====
-- The footnotes of an answer (indicators/tools.ts: `collectFootnotes`).
use federal_mcps.Common.{
  ◌≡◌, refl, ◌∙◌, String, true, false, ◌||◌, List, [], ◌∷◌, ◌++◌, map, arith, str_eq, eq_iff,
  if-cases,
}
use federal_mcps.Common.Sets.{has, are_distinct}
use federal_mcps.Envelope.{Footnote, footnote_flags_from_code}
use federal_mcps.Indicators.Observations.{
  Observation, has_code, add_footnotes, all_footnotes, collect_footnotes,
}

abbrev pub codes : List Footnote → List String
codes footnotes = map (λ f. f.code) footnotes

abbrev pub given_codes : List (String × String) → List String
given_codes [] = []
given_codes ((code, text) ∷ footnotes) = code ∷ given_codes footnotes

has-last :
    (c : String) (l : List Footnote) (f : Footnote)
    → has c (codes (l ++ f ∷ [])) ≡ (has c (codes l) || str_eq f.code c)
unfolding has
has-last c [] f = ground arith
has-last c (g ∷ l) f = ground (arith, has-last c l f)

are_distinct-last :
    (l : List Footnote) (f : Footnote)
    → are_distinct (codes l) ≡ true
    → has f.code (codes l) ≡ false
    → are_distinct (codes (l ++ f ∷ [])) ≡ true
unfolding has are_distinct
are_distinct-last [] f d h = refl
are_distinct-last (g ∷ l) f d h =
    ground (
      arith,
      has-last g.code l f,
      are_distinct-last l f,
      eq_iff f.code g.code,
      eq_iff g.code f.code,
    )

add_footnotes-codes :
    (footnotes : List (String × String)) (l : List Footnote) (c : String)
    → are_distinct (codes l) ≡ true
    → (are_distinct (codes (add_footnotes footnotes l)) ≡ true)
      × (has c (codes (add_footnotes footnotes l))
          ≡ (has c (codes l) || has c (given_codes footnotes)))
unfolding add_footnotes has
add_footnotes-codes [] l c d = (d, ground arith)
add_footnotes-codes ((code, text) ∷ footnotes) l c d =
    let f : Footnote = record { code = code; text = text; flags = footnote_flags_from_code code } in
    if-cases
      (λ found.
        (are_distinct (codes (add_footnotes footnotes found)) ≡ true)
        × (has c (codes (add_footnotes footnotes found))
            ≡ (has c (codes l) || (str_eq code c || has c (given_codes footnotes)))))
      (has_code code l)
      (λ there.
        let (e, h) = add_footnotes-codes footnotes l c d in (e, h ∙ ground (arith, eq_iff code c)))
      (λ missing.
        let (e, h) =
          add_footnotes-codes footnotes (l ++ f ∷ []) c (are_distinct-last l f d missing) in
        (e, h ∙ ground (arith, has-last c l f)))

-- The footnotes of an answer have no code twice, and have just the codes that its observations have.
pub collect_footnotes-codes :
    {N : Type 0} (observations : List (Observation N)) (c : String)
    → (are_distinct (codes (collect_footnotes observations)) ≡ true)
      × (has c (codes (collect_footnotes observations))
          ≡ has c (given_codes (all_footnotes observations)))
unfolding collect_footnotes are_distinct has
collect_footnotes-codes observations c = add_footnotes-codes (all_footnotes observations) [] c refl
