-- ===== src/Geography/Flags/Laws.antt =====
-- Which flags a place has, and when its caveat is there (geography/flags.ts).
use federal_mcps.Common.{
  ◌≡◌, Bool, true, false, ◌||◌, String, Option, none, some, List, [], ◌∷◌, ◌++◌, arith,
  if◌then◌else◌,
}
use federal_mcps.Common.Sets.{has}
use federal_mcps.Geography.Types.{AgencyCode}
use federal_mcps.Geography.Flags.{
  EntityFacts, non_nesting, is_cdp, is_consolidated, is_unpublished, note_threshold, note_all,
  derive_flags,
}

-- The flags of a place that these tests hold of, in the order in which they are set.
abbrev pub flags_for : Bool → Bool → Bool → Bool → Bool → List String
flags_for nesting cdp consolidated below changed =
    (if nesting then "non_nesting" ∷ [] else [])
    ++ (if cdp then "cdp" ∷ [] else [])
    ++ (if consolidated then "consolidated_city" ∷ [] else [])
    ++ (if below then "below_threshold" ∷ [] else [])
    ++ (if changed then "vintage_mismatch" ∷ [] else [])

abbrev pub is_below : EntityFacts → List AgencyCode → Bool
is_below entity codes = is_unpublished "160" entity codes || is_unpublished "060" entity codes

abbrev pub is_present : Option String → Bool
is_present none = false
is_present (some _) = true

-- A place has each flag just when its test holds, in a fixed order, and it has a caveat just when it
-- has a flag other than that of a level which does not nest.
pub derive_flags_lem :
    (entity : EntityFacts) (codes : List AgencyCode) (changed : Bool)
    → ((derive_flags entity codes changed).0
        ≡ flags_for
            (has entity.sumlevel non_nesting)
            (is_cdp entity)
            (is_consolidated entity)
            (is_below entity codes)
            changed)
      × (is_present (derive_flags entity codes changed).1
          ≡ (is_cdp entity || is_consolidated entity || is_below entity codes || changed))
unfolding derive_flags note_all note_threshold
derive_flags_lem entity codes changed = (ground arith, ground arith)
