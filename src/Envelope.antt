-- ===== src/Envelope.antt =====
-- The provenance envelope of every answer (packages/core/src/envelope). A place's containing places
-- are shallow, as the source says: they have no containing places of their own.
use federal_mcps.Common.{String, Option, none, List, [], ◌∷◌, or_else}
use federal_mcps.Common.Chars.{slice_to}
use federal_mcps.Common.Dict.{Dict, lookup}
use federal_mcps.Common.Text.{template, join}
use federal_mcps.Geography.Identifiers.{ucgid_of, dcid_of}

pub record Place : Type 0 where
  pub geoid : String
  pub ucgid : String
  pub dcid : String
  pub name : String
  pub sumlevel : String
  pub label : String

pub record PlaceRef : Type 0 where
  pub place : Place
  pub open place use *
  pub parents : List Place
  pub caveat : Option String

pub record Source : Type 0 where
  pub agency : String
  pub program : String
  pub ids : List String
  pub url : String
  pub citation : String

pub data FootnoteFlag : Type 0 where
  preliminary revised suppressed unavailable : FootnoteFlag

pub record Footnote : Type 0 where
  pub code : String
  pub text : String
  pub flags : List FootnoteFlag

abbrev pub agency_display_names : Dict String
agency_display_names =
    ("bls", "U.S. Bureau of Labor Statistics")
    ∷ ("census", "U.S. Census Bureau")
    ∷ ("cdc", "Centers for Disease Control and Prevention")
    ∷ ("hud", "U.S. Department of Housing and Urban Development")
    ∷ ("bea", "U.S. Bureau of Economic Analysis")
    ∷ []

unfoldable pub agency_display_name : String → String
agency_display_name agency = or_else (lookup agency agency_display_names) agency

-- `retrieved` is an ISO date and time.
unfoldable pub build_citation :
    (agency program : String) (ids : List String) (url retrieved : String) → String
build_citation agency program ids url retrieved = template (
    agency_display_name agency
    ∷ ", "
    ∷ program
    ∷ ", series "
    ∷ join ", " ids
    ∷ ". Retrieved "
    ∷ slice_to 10 retrieved
    ∷ " from "
    ∷ url
    ∷ [])

abbrev pub footnote_code_flags : Dict (List FootnoteFlag)
footnote_code_flags =
    ("P", preliminary ∷ [])
    ∷ ("R", revised ∷ [])
    ∷ ("-", unavailable ∷ [])
    ∷ ("(D)", suppressed ∷ [])
    ∷ []

unfoldable pub footnote_flags_from_code : String → List FootnoteFlag
footnote_flags_from_code code = or_else (lookup code footnote_code_flags) []

pub record PlaceRefInput : Type 0 where
  pub geoid : String
  pub sumlevel : String
  pub label : String
  pub name : String

unfoldable pub place_of : PlaceRefInput → Place
place_of input = record {
  geoid = input.geoid;
  ucgid = ucgid_of input.sumlevel input.geoid;
  dcid = dcid_of input.sumlevel input.geoid;
  name = input.name;
  sumlevel = input.sumlevel;
  label = input.label;
}

-- `placeRef` without a caveat or identifiers of its own, as every caller here uses it.
abbrev pub place_ref : PlaceRefInput → List Place → PlaceRef
place_ref input parents = record { place = place_of input; parents = parents; caveat = none }

pub record Envelope (D C L : Type 0) : Type 0 where
  pub value : D
  pub place : Option PlaceRef
  pub source : Source
  pub retrieved_at : String
  pub vintage : Option String
  pub footnotes : List Footnote
  pub limitations : List String
  pub cache : C
  pub limit : Option L

pub record EnvelopeInput (D C L : Type 0) : Type 0 where
  pub value : D
  pub place : Option PlaceRef
  pub source : Source
  pub vintage : Option String
  pub footnotes : Option (List Footnote)
  pub limitations : Option (List String)
  pub cache : Option C
  pub limit : Option L
  pub now : Option String

-- `miss` is `CACHE_MISS`, `clock` the time when no other is given.
unfoldable pub envelope :
    {D C L : Type 0} → (miss : C) (clock : String) → EnvelopeInput D C L → Envelope D C L
envelope miss clock input = record {
  value = input.value;
  place = input.place;
  source = input.source;
  retrieved_at = or_else input.now clock;
  vintage = input.vintage;
  footnotes = or_else input.footnotes [];
  limitations = or_else input.limitations [];
  cache = or_else input.cache miss;
  limit = input.limit;
}
