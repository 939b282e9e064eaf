-- ===== src/Geography/Tests.antt =====
-- Runs of the resolver's parts on small inputs.
use federal_mcps.Common.{◌≡◌, refl, some}
use federal_mcps.Common.Dict.{lookup}
use federal_mcps.Geography.Identifiers.{ucgid_of, usps_of_state_fips, usps_of_state_fips-lookup}
use federal_mcps.Geography.Flags.{EntityFacts}

indiana : usps_of_state_fips "18" ≡ some "IN"
indiana = usps_of_state_fips-lookup "IN" "18" (unfold lookup in refl)

county_ucgid : ucgid_of "050" "06075" ≡ "0500000US06075"
unfolding ucgid_of
county_ucgid = refl

abbrev village : EntityFacts
village = record { geoid = "0812345"; sumlevel = "160"; name = "Elm CDP"; lsad = some "57" }
