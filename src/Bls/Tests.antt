-- ===== src/Bls/Tests.antt =====
-- Runs of the BLS server on small inputs.
use federal_mcps.Common.{ℕ, ◌≡◌, refl, String, true, false, none, some, List, [], ◌∷◌, length}
use federal_mcps.Http.Client.{agency_api_error, quota_exceeded, err, Action, raise}
use federal_mcps.Http.Cached.{CacheInfo}
use federal_mcps.Bls.Chunks.{chunk_from, chunk}
use federal_mcps.Bls.Series.{
  BlsResponse, BatchRequest, SeriesOptions, daily_threshold_code, max_series_per_request,
  post_batch, post_all, on_failure, fetch_series_batches,
}
use federal_mcps.Bls.SeriesIds.{matches, build_cu_series_id, is_cu_series_id}
use federal_mcps.Bls.SeriesIds.Recognized.{
  SeriesRequest, cpi, is_series_id, is_series_id-build_series_id,
}
use federal_mcps.Common.Chars.{every_char, units_of}
use federal_mcps.Bls.Refusals.{IsFetchedFor, fetch_series_batches-IsFetchedFor}

abbrev five : List ℕ
five = 1 ∷ 2 ∷ 3 ∷ 4 ∷ 5 ∷ []

two_by_two : chunk five 2 ≡ (1 ∷ 2 ∷ []) ∷ (3 ∷ 4 ∷ []) ∷ (5 ∷ []) ∷ []
unfolding chunk chunk_from
two_by_two = refl

abbrev fresh_hit : CacheInfo
fresh_hit = record { hit = true; age_seconds = some 7; stale = false }

-- A client to which BLS reports its daily limit.
abbrev refusing : BatchRequest → Action Unit (BlsResponse × CacheInfo)
refusing request = raise (agency_api_error "bls" daily_threshold_code "limit" "url" 1)

abbrev no_options : SeriesOptions
no_options = record { start_year = none; end_year = none; api_key = none; fresh_ttl = none }

abbrev one_series : List String
one_series = "CUUR0000SA0" ∷ []

abbrev midnight : Unit {0} → String
midnight s = "midnight"

fetch_series_batches-IsFetchedFor_example :
    IsFetchedFor
      (λ m. true)
      refusing
      midnight
      (length (chunk one_series max_series_per_request))
      (fetch_series_batches (λ m. true) refusing midnight one_series no_options tt)
fetch_series_batches-IsFetchedFor_example =
    fetch_series_batches-IsFetchedFor (λ m. true) refusing midnight one_series no_options tt

refusal_is_quota :
    (fetch_series_batches (λ m. true) refusing midnight one_series no_options tt).0
    ≡ err (quota_exceeded "bls" "midnight" none none)
unfolding fetch_series_batches post_all post_batch on_failure chunk chunk_from
refusal_is_quota = refl

abbrev denver_food : SeriesRequest
denver_food = cpi "S48B" "SAF1"

is_series_id-build_series_id_example : is_series_id denver_food "CUURS48BSAF1" ≡ true
unfolding build_cu_series_id every_char units_of
is_series_id-build_series_id_example =
    is_series_id-build_series_id denver_food false "CUURS48BSAF1" refl refl

short_area : is_cu_series_id "CUURS48SA0" ≡ false
unfolding is_cu_series_id matches every_char units_of
short_area = refl
