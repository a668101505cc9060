-- ===== src/Tracking/Scenarios.antt =====
-- Batches whose points are refused when they are older than the last one, and single locations.
use be_distribution_system_a.Prelude.{
  ℕ, north_or_east, south_or_west, false, none, some, ◌≡◌, refl, List, [], ◌∷◌, ltb, arith,
  if◌then◌else◌, All,
}
use be_distribution_system_a.Deliveries.Model.{driver}
use be_distribution_system_a.Tracking.Points.{LocationDto, Speeding, get_latest_location}
use be_distribution_system_a.Tracking.Telemetry.{TelemetryRequest, TrackingWorld}
use be_distribution_system_a.Tracking.Latest.{run_telemetry}
use be_distribution_system_a.Tracking.Bounds.{IsPlausible, run-Plausible}
use be_distribution_system_a.Tracking.Newest.{newest, shown, run_shows_newest}
use be_distribution_system_a.Tracking.Batch.{
  LocationPoint, valid, Ingestion, ingested, failed_with, process_from, latest, process_batch,
}
use be_distribution_system_a.Tracking.Hint.{accepted_as_valid, hint_of_accepted, hint_of_refused}

abbrev point : ℕ → LocationPoint
point t = record { latitude = north_or_east 0; longitude = north_or_east 0; recorded_at = t }

abbrev in_order : LocationPoint → ℕ → Ingestion × ℕ
in_order p s = if ltb p.recorded_at s then (failed_with 1, s) else (ingested valid, p.recorded_at)

hint_of_accepted_example :
    (process_batch in_order (point 5 ∷ point 8 ∷ []) 4).0.1
    ≡ latest (accepted_as_valid in_order (point 5 ∷ point 8 ∷ []) 4)
unfolding process_batch process_from
hint_of_accepted_example = hint_of_accepted in_order (point 5 ∷ point 8 ∷ []) 4 refl

hint_of_refused_example : (process_batch in_order (point 3 ∷ point 8 ∷ []) 4).0.1 ≡ some (point 3)
hint_of_refused_example = hint_of_refused in_order (point 3) (point 8) 1 4 4 8 refl refl

-- Jakarta, measured to ten meters.
abbrev fix : ℕ → LocationDto
fix t = record {
  latitude = south_or_west 62000000;
  longitude = north_or_east 1068166660;
  accuracy = 100000;
  speed = some 0;
  heading = none;
  recorded_at = t;
  delivery_id = none;
  idempotency_key = none;
}

abbrev post : ℕ → TelemetryRequest
post k = record {
  driver_id = some 3;
  role = driver;
  endpoint = 1;
  rate = some k;
  received_at = 9000;
  location_id = k;
}

abbrev no_points : TrackingWorld
no_points = record {
  deliveries = [];
  drivers = record { id = 3; user_id = 30 } ∷ [];
  records = [];
  points = [];
  cache = [];
  broadcasts = [];
}

abbrev never_fast : Speeding
never_fast c p = false

abbrev posts : List (TelemetryRequest × LocationDto)
posts = (post 1, fix 8000) ∷ (post 0, fix 7000) ∷ []

run-Plausible_example : All IsPlausible (run_telemetry never_fast posts no_points).points
run-Plausible_example = run-Plausible never_fast posts no_points refl

run_shows_newest_example :
    get_latest_location 9500 3 (run_telemetry never_fast posts no_points).cache
    ≡ shown (newest 3 (run_telemetry never_fast posts no_points).points)
run_shows_newest_example =
    run_shows_newest never_fast 5000 9500 posts no_points 3
      ((omega arith, omega arith), ((omega arith, omega arith), tt)) (omega arith) refl refl
