-- ===== src/Server/Headers/Adapter.antt =====
-- What the loop of the Lambda adapter keeps (server/lambda-headers.ts).
use mathlib.Core.List.{append_assoc}
use federal_mcps.Common.{
  ◌≡◌, refl, sym, ◌∙◌, String, true, false, Option, none, some, List, [], ◌∷◌, ◌++◌, append_empty,
  str_eq, eq_iff, if◌then◌else◌, Bool-cases, ◌⊎◌, inl, inr,
}
use federal_mcps.Common.Dict.{Dict, insert}
use federal_mcps.Common.Chars.{to_lower_case}
use federal_mcps.Server.Identify.{source_ip_header, operator_bypass_header}
use federal_mcps.Server.Headers.{attestation_header, Sorted, sort_header, sort_headers}
use federal_mcps.Server.Headers.Named.{Lacks, insert-Lacks}

-- What the loop keeps has none of the three headers.
abbrev pub LacksAll : Dict String → Type 0
LacksAll kept =
    Lacks source_ip_header kept × Lacks attestation_header kept × Lacks operator_bypass_header kept

-- The operator's headers that a client sent, under any spelling, in order.
abbrev pub operator_sent : List (String × Option String) → List String
operator_sent [] = []
operator_sent ((name, none) ∷ entries) = operator_sent entries
operator_sent ((name, some value) ∷ entries) =
    if str_eq (to_lower_case name) operator_bypass_header
    then value ∷ operator_sent entries
    else operator_sent entries

sort_header_cases :
    (name value : String) (s : Sorted)
    → ((sort_header name value s ≡ s)
        × (str_eq (to_lower_case name) operator_bypass_header ≡ false))
      ⊎ (((sort_header name value s
              ≡ record s { operator_values = s.operator_values ++ value ∷ [] })
            × (str_eq (to_lower_case name) operator_bypass_header ≡ true))
          ⊎ ((sort_header name value s ≡ record s { kept = insert name value s.kept })
              × (str_eq (to_lower_case name) source_ip_header ≡ false)
              × (str_eq (to_lower_case name) attestation_header ≡ false)
              × (str_eq (to_lower_case name) operator_bypass_header ≡ false)))
unfolding sort_header
sort_header_cases name value s =
    let lower = to_lower_case name in
    elim (Bool-cases (str_eq lower source_ip_header)) [
      | inl source ↦
          inl (rw (source, sort_header) refl, rw ((eq_iff lower source_ip_header).0 source) refl)
      | inr not_source ↦ elim (Bool-cases (str_eq lower attestation_header)) [
        | inl attested ↦ inl (
          rw (not_source, attested, sort_header) refl,
          rw ((eq_iff lower attestation_header).0 attested) refl,
        )
        | inr not_attested ↦ elim (Bool-cases (str_eq lower operator_bypass_header)) [
          | inl operator ↦
              inr (inl (rw (not_source, not_attested, operator, sort_header) refl, operator))
          | inr other ↦ inr (
              inr (
                rw (not_source, not_attested, other, sort_header) refl,
                not_source,
                not_attested,
                other,
              ))
        ]
      ]
    ]

sort_header-LacksAll :
    (name value : String) (s : Sorted) → LacksAll s.kept → LacksAll (sort_header name value s).kept
sort_header-LacksAll name value s (hs, ha, ho) = elim (sort_header_cases name value s) [
  | inl (e, _) ↦ rw e (hs, ha, ho)
  | inr (inl (e, _)) ↦ rw e (hs, ha, ho)
  | inr (inr (e, ns, na, no')) ↦ rw e (
    insert-Lacks source_ip_header name value s.kept ns hs,
    insert-Lacks attestation_header name value s.kept na ha,
    insert-Lacks operator_bypass_header name value s.kept no' ho,
  )
]

pub sort_headers-LacksAll :
    (entries : List (String × Option String)) (s : Sorted)
    → LacksAll s.kept
    → LacksAll (sort_headers s entries).kept
unfolding sort_headers
sort_headers-LacksAll [] s h = h
sort_headers-LacksAll ((name, none) ∷ entries) s h = sort_headers-LacksAll entries s h
sort_headers-LacksAll ((name, some value) ∷ entries) s h =
    sort_headers-LacksAll entries (sort_header name value s) (sort_header-LacksAll name value s h)

pub sort_headers-operator :
    (entries : List (String × Option String)) (s : Sorted)
    → (sort_headers s entries).operator_values ≡ s.operator_values ++ operator_sent entries
unfolding sort_headers
sort_headers-operator [] s = sym (append_empty s.operator_values)
sort_headers-operator ((name, none) ∷ entries) s = sort_headers-operator entries s
sort_headers-operator ((name, some value) ∷ entries) s =
    sort_headers-operator entries (sort_header name value s)
    ∙ elim (sort_header_cases name value s) [
      | inl (e, other) ↦ rw (e, other) refl
      | inr (inl (e, operator)) ↦ rw (e, operator) (append_assoc s.operator_values _ _)
      | inr (inr (e, _, _, other)) ↦ rw (e, other) refl
    ]
