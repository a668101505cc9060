-- ===== src/Tracking/Points.antt =====
-- src/modules/tracking/services/location-validation.service.ts, tracking-cache.service.ts and
-- src/modules/tracking/utils/gps-validator.util.ts. Angles count ten-millionths of a degree, accuracies
-- ten-thousandths of a meter; the argument `is_too_fast` is the test of the implied speed, which is
-- floating-point geometry.
use be_distribution_system_a.Prelude.{
  ℕ, Angle, north_or_east, south_or_west, ◌+◌, ◌*◌, Bool, true, not, ◌&&◌, Option, none, some, List,
  [], ◌∷◌, ◌==◌, ltb, leb, if◌then◌else◌,
}
use be_distribution_system_a.Prelude.Table.{find_by}

abbrev pub degrees : ℕ → ℕ
degrees n = n * 10000000

abbrev pub amount : Angle → ℕ
amount (north_or_east n) = n
amount (south_or_west n) = n

-- class LocationIngestionDto
pub record LocationDto : Type 0 where
  pub latitude : Angle
  pub longitude : Angle
  pub accuracy : ℕ
  pub speed : Option ℕ
  pub heading : Option ℕ
  pub recorded_at : ℕ
  pub delivery_id : Option ℕ
  pub idempotency_key : Option ℕ

-- interface CachedLocationData
pub record CachedLocation : Type 0 where
  pub driver_id : ℕ
  pub delivery_id : Option ℕ
  pub latitude : Angle
  pub longitude : Angle
  pub accuracy : ℕ
  pub speed : Option ℕ
  pub heading : Option ℕ
  pub recorded_at : ℕ
  pub received_at : ℕ

pub data Validity : Type 0 where
  valid anomaly_velocity : Validity

pub data PointError : Type 0 where
  forbidden driver_profile_required delivery_not_found delivery_not_assigned_to_driver : PointError
  rate_limit_exceeded invalid_coordinates gps_accuracy_below_threshold : PointError
  timestamp_future timestamp_stale : PointError

pub data Validation : Type 0 where
  accepted_as : Validity → Validation
  rejected : PointError → Validation

unfoldable pub validate_coordinate_bounds : Angle → Angle → Bool
validate_coordinate_bounds lat lng = leb (amount lat) (degrees 90) && leb (amount lng) (degrees 180)

unfoldable pub validate_accuracy_threshold : ℕ → Bool
validate_accuracy_threshold accuracy = ltb 0 accuracy && leb accuracy 500000

-- Five minutes ahead at most, and one hour behind.
unfoldable pub validate_clock_skew : ℕ → ℕ → Option PointError
validate_clock_skew recorded received =
    if ltb (received + 300000) recorded
    then some timestamp_future
    else (if ltb (recorded + 3600000) received then some timestamp_stale else none)

abbrev pub Speeding : Type 0
Speeding = CachedLocation → LocationDto → Bool

abbrev velocity : Speeding → Option CachedLocation → LocationDto → Validity
velocity is_too_fast none p = valid
velocity is_too_fast (some c) p =
    if ltb c.recorded_at p.recorded_at && is_too_fast c p then anomaly_velocity else valid

unfoldable pub validate_single_point :
    Speeding → Option CachedLocation → LocationDto → ℕ → Validation
validate_single_point is_too_fast cached p received =
    if not (validate_coordinate_bounds p.latitude p.longitude)
    then rejected invalid_coordinates
    else (if not (validate_accuracy_threshold p.accuracy)
        then rejected gps_accuracy_below_threshold
        else (elim (validate_clock_skew p.recorded_at received) [
          | some e ↦ rejected e
          | none ↦ accepted_as (velocity is_too_fast cached p)
        ]))

-- A location in Redis, and when its key expires.
pub record CacheEntry : Type 0 where
  pub location : CachedLocation
  pub expires_at : ℕ

abbrev pub cached_driver : CacheEntry → ℕ
cached_driver e = e.location.driver_id

-- cacheTtlSeconds, in milliseconds
abbrev pub cache_ttl : ℕ
cache_ttl = 86400 * 1000

-- `redisService.set` at the key of the driver
unfoldable pub set_cached : CacheEntry → List CacheEntry → List CacheEntry
set_cached e [] = e ∷ []
set_cached e (x ∷ xs) =
    let rest = set_cached e xs in if cached_driver x == cached_driver e then e ∷ xs else x ∷ rest

-- `redisService.get` at the key of the driver: an expired key is gone.
abbrev pub unexpired : ℕ → Option CacheEntry → Option CachedLocation
unexpired now none = none
unexpired now (some e) = if leb e.expires_at now then none else some e.location

abbrev is_newer : CachedLocation → Option CachedLocation → Bool
is_newer c none = true
is_newer c (some x) = ltb x.recorded_at c.recorded_at

-- getLatestLocation
unfoldable pub get_latest_location : ℕ → ℕ → List CacheEntry → Option CachedLocation
get_latest_location now driver es = unexpired now (find_by cached_driver driver es)

-- setLatestLocation
unfoldable pub set_latest_location : ℕ → CachedLocation → List CacheEntry → List CacheEntry
set_latest_location now c es =
    if is_newer c (get_latest_location now c.driver_id es)
    then set_cached (record { location = c; expires_at = now + cache_ttl }) es
    else es
