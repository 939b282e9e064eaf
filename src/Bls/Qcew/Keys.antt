-- ===== src/Bls/Qcew/Keys.antt =====
-- The keys of QCEW series (packages/server-bls/src/qcew-indicators.ts: `buildQcewKey`,
-- `assertSectorHasOwnership`, `parseQcewKey`).
pub mod RoundTrip
use Prim.Native.Char.{Char, code}
use Prim.Native.String
use federal_mcps.Common.{
  ◌==◌, str_eq, String, Bool, true, false, ◌&&◌, not, Option, none, some, List, [], ◌∷◌,
  if◌then◌else◌,
}
use federal_mcps.Common.Chars.{is_empty, split_at}
use federal_mcps.Common.Checked.{Checked, valid, invalid}
use federal_mcps.Common.Text.{template, join}
use federal_mcps.Bls.Qcew.{RowSelection, own_total_covered, industry_all}

abbrev pub is_separator : Char → Bool
is_separator c = code c == 124

pub record Key : Type 0 where
  pub area : String
  pub selection : RowSelection
  pub annual : Bool

abbrev pub ownership_message : String → String
ownership_message industry = template (
    "QCEW publishes sector detail (industry " ∷ industry
    ∷ ") only by ownership, not as a total: pass ownership 5 (private), 1 (federal), 2 (state) or 3 (local government)."
    ∷ [])

abbrev pub lacks_ownership : String → String → Bool
lacks_ownership own industry = not (str_eq industry industry_all) && str_eq own own_total_covered

abbrev pub annual_suffix : List String
annual_suffix = "a" ∷ []

unfoldable pub build_qcew_key : String → String → String → Bool → Checked String
build_qcew_key area own industry annual =
    if lacks_ownership own industry
    then invalid (ownership_message industry)
    else valid (join "|" (area ∷ own ∷ industry ∷ (if annual then annual_suffix else [])))

abbrev pub is_annual : List String → Bool
is_annual [] = false
is_annual (frequency ∷ rest) = str_eq frequency "a"

abbrev pub key_of_parts : List String → Option Key
key_of_parts (area ∷ own ∷ industry ∷ rest) =
    if is_empty area
    then none
    else if is_empty own
    then none
    else if is_empty industry
    then none
    else some (record {
      area = area;
      selection = record { own_code = own; industry_code = industry };
      annual = is_annual rest;
    })
key_of_parts _ = none

unfoldable pub parse_qcew_key : String → Option Key
parse_qcew_key key = key_of_parts (split_at is_separator key)
