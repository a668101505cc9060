-- ===== src/Tracking/Telemetry.antt =====
-- processTelemetry of src/modules/tracking/services/tracking.service.ts, with Redis in reach. The count of
-- the rate limit (`none` when it is skipped), the id of the point and the time are arguments.
use be_distribution_system_a.Prelude.{
  ℕ, zero, Bool, false, not, ◌&&◌, Option, none, some, List, [], ◌∷◌, ◌++◌, ◌==◌, ltb,
  if◌then◌else◌, is_some_of,
}
use be_distribution_system_a.Prelude.Table.{find_by}
use be_distribution_system_a.Deliveries.Model.{Role, is_driver, Delivery}
use be_distribution_system_a.Deliveries.World.{delivery_key}
use be_distribution_system_a.Tracking.Points.{
  LocationDto, CachedLocation, CacheEntry, Validity, valid, PointError, forbidden,
  driver_profile_required, delivery_not_found, delivery_not_assigned_to_driver, rate_limit_exceeded,
  accepted_as, rejected, Speeding, validate_single_point, set_latest_location, get_latest_location,
}

-- A row of location_points.
pub record LocationRow : Type 0 where
  pub id : ℕ
  pub status : Validity
  pub location : CachedLocation

-- The columns of a driver that are read.
pub record DriverRow : Type 0 where
  pub id : ℕ
  pub user_id : ℕ

-- interface TelemetryIngestionResult
pub record TelemetryResult : Type 0 where
  pub location_id : ℕ
  pub status : Validity
  pub received_at : ℕ

pub record TelemetryRecord : Type 0 where
  pub key : ℕ
  pub user_id : ℕ
  pub endpoint : ℕ
  pub response : TelemetryResult

-- The rooms of a broadcast: `fleet:monitoring` and `delivery:<id>`.
pub data TrackingRoom : Type 0 where
  fleet_room : TrackingRoom
  delivery_room : ℕ → TrackingRoom

pub record TrackingWorld : Type 0 where
  pub deliveries : List Delivery
  pub drivers : List DriverRow
  pub records : List TelemetryRecord
  pub points : List LocationRow
  pub cache : List CacheEntry
  pub broadcasts : List (TrackingRoom × CachedLocation)

-- The arguments of `processTelemetry` besides the point.
pub record TelemetryRequest : Type 0 where
  pub driver_id : Option ℕ
  pub role : Role
  pub endpoint : ℕ
  pub rate : Option ℕ
  pub received_at : ℕ
  pub location_id : ℕ

pub data TelemetryAnswer : Type 0 where
  ingested repeated : TelemetryResult → TelemetryAnswer
  refused : PointError → TelemetryAnswer

abbrev pub driver_key : DriverRow → ℕ
driver_key d = d.id

abbrev is_record : ℕ → ℕ → ℕ → TelemetryRecord → Bool
is_record key user endpoint r = r.key == key && r.user_id == user && r.endpoint == endpoint

unfoldable pub find_telemetry : ℕ → ℕ → ℕ → List TelemetryRecord → Option TelemetryRecord
find_telemetry key user endpoint [] = none
find_telemetry key user endpoint (r ∷ rs) =
    if is_record key user endpoint r then some r else find_telemetry key user endpoint rs

-- The record of a request with a key whose driver has a user.
abbrev of_user : ℕ → ℕ → List TelemetryRecord → Option DriverRow → Option TelemetryRecord
of_user key endpoint rs none = none
of_user key endpoint rs (some d) = find_telemetry key d.user_id endpoint rs

abbrev pub existing_telemetry : Option ℕ → ℕ → ℕ → TrackingWorld → Option TelemetryRecord
existing_telemetry none driver endpoint w = none
existing_telemetry (some key) driver endpoint w =
    of_user key endpoint w.records (find_by driver_key driver w.drivers)

-- `idempotencyRecord.create`, whose failure is caught
abbrev add_telemetry :
    TelemetryRecord → Option TelemetryRecord → List TelemetryRecord → List TelemetryRecord
add_telemetry r (some x) rs = rs
add_telemetry r none rs = rs ++ r ∷ []

abbrev save_for :
    ℕ → ℕ → TelemetryResult → Option DriverRow → List TelemetryRecord → List TelemetryRecord
save_for key endpoint result none rs = rs
save_for key endpoint result (some d) rs =
    add_telemetry
      (record { key = key; user_id = d.user_id; endpoint = endpoint; response = result })
      (find_telemetry key d.user_id endpoint rs) rs

abbrev pub save_telemetry :
    Option ℕ → ℕ → ℕ → TelemetryResult → TrackingWorld → List TelemetryRecord
save_telemetry none driver endpoint result w = w.records
save_telemetry (some key) driver endpoint result w =
    save_for key endpoint result (find_by driver_key driver w.drivers) w.records

abbrev pub location_of : ℕ → LocationDto → ℕ → CachedLocation
location_of driver p received = record {
  driver_id = driver;
  delivery_id = p.delivery_id;
  latitude = p.latitude;
  longitude = p.longitude;
  accuracy = p.accuracy;
  speed = p.speed;
  heading = p.heading;
  recorded_at = p.recorded_at;
  received_at = received;
}

-- `speedMps || null` and `headingDeg || null`, in the cache and in a broadcast
abbrev or_null : Option ℕ → Option ℕ
or_null (some zero) = none
or_null o = o

abbrev pub for_cache : CachedLocation → CachedLocation
for_cache c = record c { speed = or_null c.speed; heading = or_null c.heading }

abbrev pub rooms_of : Option ℕ → List TrackingRoom
rooms_of none = fleet_room ∷ []
rooms_of (some k) = fleet_room ∷ delivery_room k ∷ []

abbrev to_rooms : List TrackingRoom → CachedLocation → List (TrackingRoom × CachedLocation)
to_rooms [] c = []
to_rooms (r ∷ rs) c = (r, c) ∷ to_rooms rs c

-- Only VALID points are broadcast.
abbrev pub announcements : Validity → CachedLocation → List (TrackingRoom × CachedLocation)
announcements valid c = to_rooms (rooms_of c.delivery_id) c
announcements _ c = []

-- Whether the delivery of the point is the driver's.
abbrev delivery_error : ℕ → Option Delivery → Option PointError
delivery_error driver none = some delivery_not_found
delivery_error driver (some d) =
    if is_some_of driver d.driver_id then none else some delivery_not_assigned_to_driver

abbrev pub check_delivery : ℕ → Option ℕ → TrackingWorld → Option PointError
check_delivery driver none w = none
check_delivery driver (some k) w = delivery_error driver (find_by delivery_key k w.deliveries)

abbrev pub exceeds_rate : Option ℕ → Bool
exceeds_rate none = false
exceeds_rate (some n) = ltb 1 n

-- `processTelemetry` once the point is validated.
unfoldable pub store_point :
    TelemetryRequest → LocationDto → ℕ → Validity → TrackingWorld → TelemetryAnswer × TrackingWorld
store_point q p driver status w =
    let result : TelemetryResult = record {
      location_id = q.location_id;
      status = status;
      received_at = q.received_at;
    } in
    let c = location_of driver p q.received_at in
    (
      ingested result,
      record w {
        points = w.points ++ record { id = q.location_id; status = status; location = c } ∷ [];
        records = save_telemetry p.idempotency_key driver q.endpoint result w;
        cache = set_latest_location q.received_at (for_cache c) w.cache;
        broadcasts = w.broadcasts ++ announcements status (for_cache c);
      },
    )

unfoldable pub ingest_point :
    Speeding → TelemetryRequest → LocationDto → ℕ → TrackingWorld → TelemetryAnswer × TrackingWorld
ingest_point is_too_fast q p driver w =
    elim (validate_single_point is_too_fast (get_latest_location q.received_at driver w.cache) p
      q.received_at) [
        | rejected e ↦ (refused e, w)
        | accepted_as status ↦ store_point q p driver status w
      ]

-- `processTelemetry` from the test for a stored response on.
unfoldable pub ingest_for_driver :
    Speeding → TelemetryRequest → LocationDto → ℕ → TrackingWorld → TelemetryAnswer × TrackingWorld
ingest_for_driver is_too_fast q p driver w =
    elim (existing_telemetry p.idempotency_key driver q.endpoint w) [
      | some r ↦ (repeated r.response, w)
      | none ↦
          if exceeds_rate q.rate
          then (refused rate_limit_exceeded, w)
          else ingest_point is_too_fast q p driver w
    ]

-- The test of the delivery, and of the driver's profile, before it.
abbrev pub ingest_if_assigned :
    Speeding
    → TelemetryRequest
    → LocationDto
    → ℕ
    → Option PointError
    → TrackingWorld
    → TelemetryAnswer × TrackingWorld
ingest_if_assigned is_too_fast q p driver (some e) w = (refused e, w)
ingest_if_assigned is_too_fast q p driver none w = ingest_for_driver is_too_fast q p driver w

abbrev pub ingest_as :
    Speeding
    → TelemetryRequest
    → LocationDto
    → Option ℕ
    → TrackingWorld
    → TelemetryAnswer × TrackingWorld
ingest_as is_too_fast q p none w = (refused driver_profile_required, w)
ingest_as is_too_fast q p (some driver) w =
    ingest_if_assigned is_too_fast q p driver (check_delivery driver p.delivery_id w) w

unfoldable pub process_telemetry :
    Speeding → TelemetryRequest → LocationDto → TrackingWorld → TelemetryAnswer × TrackingWorld
process_telemetry is_too_fast q p w =
    if not (is_driver q.role)
    then (refused forbidden, w)
    else ingest_as is_too_fast q p q.driver_id w
