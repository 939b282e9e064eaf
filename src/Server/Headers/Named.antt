-- ===== src/Server/Headers/Named.antt =====
-- The values that headers have by their lower-case names (server/create-server.ts:
-- `normalizeHeaders`).
use federal_mcps.Common.{
  ◌≡◌, refl, sym, ap, ◌∙◌, String, true, false, true≢false, Option, some, List, [], ◌∷◌, str_eq,
  eq_iff, if◌then◌else◌, Bool-cases, inl, inr,
}
use federal_mcps.Common.Dict.{Dict, lookup, insert, lookup-insert}
use federal_mcps.Common.Chars.{to_lower_case}
use federal_mcps.Server.Headers.{HeaderValue, one, header_text, normalize_from}

-- The headers of the adapter's request, as the shell is given them.
abbrev pub as_sent : Dict String → List (String × Option HeaderValue)
as_sent [] = []
as_sent ((name, value) ∷ headers) = (name, some (one value)) ∷ as_sent headers

-- The value under the last name that is `k` in lower case.
abbrev pub last_value : String → Option String → Dict String → Option String
last_value k before [] = before
last_value k before ((name, value) ∷ headers) =
    last_value k (if str_eq (to_lower_case name) k then some value else before) headers

abbrev pub Lacks : String → Dict String → Type 0
Lacks k [] = Unit
Lacks k ((name, value) ∷ headers) = (str_eq (to_lower_case name) k ≡ false) × Lacks k headers

pub lookup-normalize :
    (k : String) (acc headers : Dict String)
    → lookup k (normalize_from acc (as_sent headers)) ≡ last_value k (lookup k acc) headers
unfolding normalize_from header_text
lookup-normalize k acc [] = refl
lookup-normalize k acc ((name, value) ∷ headers) =
    lookup-normalize k (insert (to_lower_case name) value acc) headers
    ∙ ap (λ o. last_value k o headers) (lookup-insert (to_lower_case name) k value acc)

insert_same :
    (name value other w : String) (headers : Dict String)
    → str_eq other name ≡ true
    → insert name value ((other, w) ∷ headers) ≡ (name, value) ∷ headers
unfolding insert
insert_same name value other w headers same = rw same refl

insert_later :
    (name value other w : String) (headers : Dict String)
    → str_eq other name ≡ false
    → insert name value ((other, w) ∷ headers) ≡ (other, w) ∷ insert name value headers
unfolding insert
insert_later name value other w headers differ = rw differ refl

-- A name that is not `k` in lower case does not bear on `k`.
pub last_value-insert_other :
    (k name value : String) (headers : Dict String) (before : Option String)
    → str_eq (to_lower_case name) k ≡ false
    → last_value k before (insert name value headers) ≡ last_value k before headers
unfolding insert
last_value-insert_other k name value [] before h = rw h refl
last_value-insert_other k name value ((other, w) ∷ headers) before h =
    elim (Bool-cases (str_eq other name)) [
      | inl same ↦
          let e : other ≡ name = (eq_iff other name).0 same in
          ap (last_value k before) (insert_same name value other w headers same) ∙ rw (e, h) refl
      | inr differ ↦
          ap (last_value k before) (insert_later name value other w headers differ)
          ∙ last_value-insert_other k name value headers
              (if str_eq (to_lower_case other) k then some w else before) h
    ]

pub last_value-Lacks :
    (k : String) (headers : Dict String) (before : Option String)
    → Lacks k headers
    → last_value k before headers ≡ before
last_value-Lacks k [] before h = refl
last_value-Lacks k ((name, value) ∷ headers) before (h, hs) =
    rw h (last_value-Lacks k headers before hs)

-- The one name that is `k` gives its value.
pub last_value-insert :
    (k name value : String) (headers : Dict String) (before : Option String)
    → str_eq (to_lower_case name) k ≡ true
    → Lacks k headers
    → last_value k before (insert name value headers) ≡ some value
unfolding insert
last_value-insert k name value [] before e h = rw e refl
last_value-insert k name value ((other, w) ∷ headers) before e (h, hs) =
    elim (Bool-cases (str_eq other name)) [
      | inl same ↦ absurd (true≢false (sym e ∙ rw (sym ((eq_iff other name).0 same)) h))
      | inr differ ↦
          ap (last_value k before) (insert_later name value other w headers differ)
          ∙ rw (h, last_value) (last_value-insert k name value headers before e hs)
    ]

pub insert-Lacks :
    (k name value : String) (headers : Dict String)
    → str_eq (to_lower_case name) k ≡ false
    → Lacks k headers
    → Lacks k (insert name value headers)
unfolding insert
insert-Lacks k name value [] h hs = (h, tt)
insert-Lacks k name value ((other, w) ∷ headers) h (ho, hs) =
    elim (Bool-cases (str_eq other name)) [
      | inl same ↦ rw (same, insert) (h, hs)
      | inr differ ↦ rw (differ, insert) (ho, insert-Lacks k name value headers h hs)
    ]
