-- ===== src/Geography/Candidates.antt =====
-- What becomes of a row of the catalog (geography/resolver.ts: `scoreCandidate`, `availabilityFor`
-- and the edges). `log10` is `Math.log10` in millionths, which the source has in floating point.
use federal_mcps.Common.{
  ℕ, ◌+◌, ◌*◌, String, Bool, true, false, ◌||◌, none, some, List, [], ◌∷◌, map, any, str_eq,
  starts_with, or_else, if◌then◌else◌,
}
use federal_mcps.Common.Sets.{has}
use federal_mcps.Geography.Types.{
  PlaceParent, AgencyCode, KeyedBy, Availability, Score, EntityRecord, Relation, nests, overlaps,
  GeographyEdge, label_for_sumlevel,
}
use federal_mcps.Geography.Identifiers.{dcid_of}
use federal_mcps.Geography.Flags.{is_balance, is_some_text, cdp_lsad, has_program, derive_flags}
use federal_mcps.Geography.Names.{normalize_name}
use federal_mcps.Geography.Catalog.{Catalog, LineageEdge}
use federal_mcps.Geography.Dominance.{Scored}

abbrev pub is_census : KeyedBy → Bool
is_census KeyedBy.census = true
is_census KeyedBy.agency_code = false

abbrev pub parent : EntityRecord → PlaceParent
parent e = record {
  geoid = e.geoid;
  name = e.name;
  sumlevel = e.sumlevel;
  label = label_for_sumlevel e.sumlevel;
}

abbrev pub edge : Relation → EntityRecord × ℕ → GeographyEdge
edge relation (e, share) = record {
  geoid = e.geoid;
  name = e.name;
  sumlevel = e.sumlevel;
  label = label_for_sumlevel e.sumlevel;
  share = share;
  relation = relation;
}

abbrev pub million : ℕ
million = 1_000_000

module _ (catalog : Catalog) where
  unfoldable pub availability_for : String → List AgencyCode → List Availability
  availability_for sumlevel codes =
      map
        (λ p. record {
          published = p;
          has_code = is_census p.keyed_by || has_program p.agency p.program codes;
        })
        (catalog.publishes_at sumlevel)

  unfoldable pub get_containment : String → List GeographyEdge
  get_containment ucgid = map (edge nests) (catalog.parents_of ucgid)

  unfoldable pub get_overlap : String → List GeographyEdge
  get_overlap ucgid = map (edge overlaps) (catalog.overlaps_of ucgid)

  unfoldable pub get_lineage : String → List LineageEdge
  get_lineage ucgid = catalog.lineage_from ucgid

  unfoldable pub get_availability : String → List Availability
  get_availability ucgid = elim (catalog.get_entity ucgid) [
    | none ↦ []
    | some e ↦ availability_for e.sumlevel (catalog.agency_codes_of e.ucgid)
  ]

  -- The names by which a place is found, as they are compared.
  abbrev pub names_of : EntityRecord → List String
  names_of e = map normalize_name (e.name ∷ catalog.aliases_of e.ucgid)

  abbrev pub is_exact_match : EntityRecord → String → Bool
  is_exact_match e query = has query (names_of e)

  module _ (log10 : ℕ → ℕ) where
    unfoldable pub match_score : EntityRecord → String → ℕ
    match_score e query =
        if is_exact_match e query
        then 1000 * million
        else if any (λ n. starts_with n query) (names_of e)
        then 500 * million
        else 0

    unfoldable pub size_score : EntityRecord → ℕ
    size_score e =
        if str_eq e.sumlevel "060"
        then log10 (or_else e.population 0 + 10)
        else log10 (or_else e.aland 1 + 10)

    unfoldable pub score_of : EntityRecord → String → Score
    score_of e query = record {
      gained = match_score e query + size_score e;
      lost = if is_some_text e.lsad cdp_lsad || is_balance e.name then 5 * million else 0;
    }

    unfoldable pub score_candidate : String → EntityRecord → Scored
    score_candidate query e =
        let codes = catalog.agency_codes_of e.ucgid in
        let derived =
          derive_flags
            (record { geoid = e.geoid; sumlevel = e.sumlevel; name = e.name; lsad = e.lsad }) codes
            (catalog.has_county_change e.ucgid) in
        record {
          candidate = record {
            geoid = e.geoid;
            ucgid = e.ucgid;
            dcid = dcid_of e.sumlevel e.geoid;
            name = e.name;
            sumlevel = e.sumlevel;
            label = label_for_sumlevel e.sumlevel;
            state_fips = e.state_fips;
            parents = map (λ p. parent p.0) (catalog.parents_of e.ucgid);
            agency_codes = codes;
            available_at = availability_for e.sumlevel codes;
            flags = derived.0;
            population = e.population;
            caveat = derived.1;
            score = score_of e query;
          };
          is_exact = is_exact_match e query;
        }
