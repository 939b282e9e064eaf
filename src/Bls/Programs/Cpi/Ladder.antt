-- ===== src/Bls/Programs/Cpi/Ladder.antt =====
-- That a figure which stands in for a place's is that of an area with a code of its own
-- (packages/server-bls/src/cpi-indicators.ts: `cpiFallback`).
use federal_mcps.Common.{◌≡◌, ◌⊎◌, inl, inr, refl, String, Option, none, some, if-both}
use federal_mcps.Common.Chars.{is_empty}
use federal_mcps.Geography.Types.{PlaceCandidate, EntityRecord}
use federal_mcps.Geography.Catalog.{Catalog}
use federal_mcps.Indicators.Registry.{IndicatorFallback}
use federal_mcps.Bls.Programs.Cpi.{
  cpi_code_of_ucgid, us_average, division_answer, region_answer, step, from_region, from_division,
  from_state, cpi_fallback,
}

module _ (catalog : Catalog) (place : PlaceCandidate) where
  -- The U.S. city average, or an area of the catalog under its own GEOID and CPI code.
  abbrev pub IsOnLadder : IndicatorFallback → Type 0
  IsOnLadder fb =
      (fb ≡ us_average place)
      ⊎ ((area : EntityRecord) × (fb.geoid ≡ area.geoid)
          × (cpi_code_of_ucgid catalog area.ucgid ≡ some fb.code))

  region-IsOnLadder :
      (region : EntityRecord) (code : Option String)
      → cpi_code_of_ucgid catalog region.ucgid ≡ code
      → IsOnLadder (step code (region_answer place region) (us_average place))
  region-IsOnLadder region none e = inl refl
  region-IsOnLadder region (some code) e =
      if-both IsOnLadder (is_empty code) (inl refl) (inr (region, refl, e))

  from_region-IsOnLadder :
      (region : Option EntityRecord) → IsOnLadder (from_region catalog place region)
  from_region-IsOnLadder none = inl refl
  from_region-IsOnLadder (some region) = region-IsOnLadder region _ refl

  division-IsOnLadder :
      (division : EntityRecord) (code : Option String) (next : IndicatorFallback)
      → cpi_code_of_ucgid catalog division.ucgid ≡ code
      → IsOnLadder next
      → IsOnLadder (step code (division_answer place division) next)
  division-IsOnLadder division none next e h = h
  division-IsOnLadder division (some code) next e h =
      if-both IsOnLadder (is_empty code) h (inr (division, refl, e))

  from_division-IsOnLadder :
      (division : Option EntityRecord) → IsOnLadder (from_division catalog place division)
  from_division-IsOnLadder none = inl refl
  from_division-IsOnLadder (some division) =
      division-IsOnLadder division _ _ refl (from_region-IsOnLadder _)

  from_state-IsOnLadder : (state : Option String) → IsOnLadder (from_state catalog place state)
  from_state-IsOnLadder none = inl refl
  from_state-IsOnLadder (some state) =
      if-both IsOnLadder (is_empty state) (inl refl) (from_division-IsOnLadder _)

  -- What stands in for a place without a CPI is the U.S. city average, or an area of the catalog under
  -- its own GEOID and the CPI code that the catalog has for it.
  pub cpi_fallback-IsOnLadder : IsOnLadder (cpi_fallback catalog place)
  unfolding cpi_fallback
  cpi_fallback-IsOnLadder = from_state-IsOnLadder place.state_fips
