-- ===== src/Bls/Qcew/Keys/RoundTrip.antt =====
-- A QCEW key is read back as it was built (packages/server-bls/src/qcew-indicators.ts: `buildQcewKey`,
-- `parseQcewKey`).
use Prim.Native.String
use Prim.Native.String.append
use federal_mcps.Common.{
  ◌≡◌, refl, sym, ap, ◌∙◌, String, Bool, true, false, true≢false, not, some, List, [], ◌∷◌,
  if◌then◌else◌, All, ◌⊎◌, Bool-cases, inl, inr,
}
use federal_mcps.Common.Chars.{is_empty, every_char, split_at, put_first}
use federal_mcps.Common.Checked.{valid, invalid}
use federal_mcps.Common.Text.{join, append_nothing}
use federal_mcps.Bls.Qcew.Keys.{
  is_separator, is_annual, annual_suffix, lacks_ownership, ownership_message, build_qcew_key,
  key_of_parts, parse_qcew_key,
}

-- A part of a key: a text that is not empty and has no separator in it.
abbrev pub IsPart : String → Type 0
IsPart s = (is_empty s ≡ false) × (every_char (λ c. not (is_separator c)) s ≡ true)

split_at-bar :
    (t : String) → split_at is_separator (String.◌++◌ "|" t) ≡ "" ∷ split_at is_separator t
unfolding split_at
split_at-bar t =
    ap (split_at is_separator) (append.cons "|" String.[] t)
    ∙ ap (λ r. split_at is_separator (String.◌∷◌ "|" r)) (append.nil t)

split_at-append :
    (s t : String)
    → every_char (λ c. not (is_separator c)) s ≡ true
    → split_at is_separator (String.◌++◌ s (String.◌++◌ "|" t)) ≡ s ∷ split_at is_separator t
unfolding split_at every_char
split_at-append String.[] t h =
    ap (split_at is_separator) (append.nil (String.◌++◌ "|" t)) ∙ split_at-bar t
split_at-append (String.◌∷◌ c s) t h = elim (Bool-cases (is_separator c)) [
  | inl bar ↦ absurd (true≢false (sym h ∙ rw bar refl))
  | inr other ↦
      ap (split_at is_separator) (append.cons c s (String.◌++◌ "|" t))
      ∙ rw other (ap (put_first c) (split_at-append s t (sym (rw other refl) ∙ h)))
]

split_at-part :
    (s : String)
    → every_char (λ c. not (is_separator c)) s ≡ true
    → split_at is_separator s ≡ s ∷ []
unfolding split_at every_char
split_at-part String.[] h = refl
split_at-part (String.◌∷◌ c s) h = elim (Bool-cases (is_separator c)) [
  | inl bar ↦ absurd (true≢false (sym h ∙ rw bar refl))
  | inr other ↦ rw other (ap (put_first c) (split_at-part s (sym (rw other refl) ∙ h)))
]

-- Parts that are joined are split again.
split_at-join :
    (s : String) (parts : List String)
    → All IsPart (s ∷ parts)
    → split_at is_separator (join "|" (s ∷ parts)) ≡ s ∷ parts
unfolding join
split_at-join s [] ((some_text, h), rest) = split_at-part s h
split_at-join s (t ∷ parts) ((some_text, h), rest) =
    ap (λ r. split_at is_separator (String.◌++◌ s (String.◌++◌ "|" r)))
      (append_nothing (join "|" (t ∷ parts)))
    ∙ split_at-append s (join "|" (t ∷ parts)) h
    ∙ ap (λ l. s ∷ l) (split_at-join t parts rest)

suffix-annual :
    (annual : Bool)
    → All IsPart (if annual then annual_suffix else [])
      × (is_annual (if annual then annual_suffix else []) ≡ annual)
unfolding every_char
suffix-annual true = (((refl, refl), tt), refl)
suffix-annual false = (tt, refl)

-- A key that is built of an area, an ownership and an industry is read back as these; it is not built
-- for an industry with the ownership of all covered jobs.
pub parse_qcew_key-build_qcew_key :
    (area own industry : String) (annual : Bool)
    → IsPart area
    → IsPart own
    → IsPart industry
    → ((lacks_ownership own industry ≡ true)
        × ((message : String) × (build_qcew_key area own industry annual ≡ invalid message)))
      ⊎ ((lacks_ownership own industry ≡ false)
          × ((id : String) × (build_qcew_key area own industry annual ≡ valid id)
              × (parse_qcew_key id
                  ≡ some (record {
                    area = area;
                    selection = record { own_code = own; industry_code = industry };
                    annual = annual;
                  }))))
unfolding build_qcew_key parse_qcew_key
parse_qcew_key-build_qcew_key area own industry annual pa po pi =
    elim (Bool-cases (lacks_ownership own industry)) [
      | inl lacks ↦ inl (lacks, (ownership_message industry, rw lacks refl))
      | inr has ↦
          let (parts, suffix) = suffix-annual annual in
          let e =
            split_at-join area (own ∷ industry ∷ (if annual then annual_suffix else []))
              (pa, (po, (pi, parts))) in
          inr (
            has,
            (
              join "|" (area ∷ own ∷ industry ∷ (if annual then annual_suffix else [])),
              rw has refl,
              ap key_of_parts e ∙ rw (pa.0, po.0, pi.0, suffix) refl,
            ),
          )
    ]
