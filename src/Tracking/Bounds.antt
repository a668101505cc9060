-- ===== src/Tracking/Bounds.antt =====
-- What the validation of src/modules/tracking/services/location-validation.service.ts lets into the table.
use be_distribution_system_a.Prelude.{
  ℕ, ◌+◌, ◌*◌, ◌≤◌, ◌<◌, ◌≡◌, sym, Option, List, [], ◌∷◌, ◌++◌, All, arith,
}
use mathlib.Core.Path.{subst}
use be_distribution_system_a.Tracking.Points.{
  LocationDto, CachedLocation, Validity, accepted_as, Speeding, amount, validate_coordinate_bounds,
  validate_accuracy_threshold, validate_clock_skew, validate_single_point, get_latest_location,
}
use be_distribution_system_a.Tracking.Telemetry.{
  LocationRow, TrackingWorld, TelemetryRequest, location_of, store_point,
}
use be_distribution_system_a.Tracking.Latest.{run_keeps, run_telemetry}

-- A point on the globe, measured to fifty meters, that is at most five minutes ahead of its arrival and
-- at most one hour behind.
abbrev pub IsPlausible : LocationRow → Type 0
IsPlausible r =
    (amount r.location.latitude ≤ 90 * 10000000)
    × (amount r.location.longitude ≤ 180 * 10000000)
    × (0 < r.location.accuracy)
    × (r.location.accuracy ≤ 50 * 10000)
    × (r.location.recorded_at ≤ r.location.received_at + 300000)
    × (r.location.received_at ≤ r.location.recorded_at + 3600000)

pub accepted-IsPlausible :
    (is_too_fast : Speeding) (c : Option CachedLocation) (p : LocationDto) (received driver id : ℕ)
    (status : Validity)
    → validate_single_point is_too_fast c p received ≡ accepted_as status
    → IsPlausible (record { id = id; status = status; location = location_of driver p received })
unfolding validate_single_point validate_coordinate_bounds validate_accuracy_threshold
    validate_clock_skew
accepted-IsPlausible is_too_fast c p received driver id status h = ground arith

pub All-snoc :
    {A : Type 0} (P : A → Type 0) (xs : List A) (x : A) → All P xs → P x → All P (xs ++ x ∷ [])
All-snoc P [] x h p = (p, tt)
All-snoc P (y ∷ xs) x (q, h) p = (q, All-snoc P xs x h p)

any_requests : (qs : List (TelemetryRequest × LocationDto)) → All (λ _. Unit {0}) qs
any_requests [] = tt
any_requests (q ∷ qs) = (tt, any_requests qs)

-- Every row that any run of requests stores in an empty table is plausible.
pub run-Plausible :
    (is_too_fast : Speeding) (qs : List (TelemetryRequest × LocationDto)) (w : TrackingWorld)
    → w.points ≡ []
    → All IsPlausible (run_telemetry is_too_fast qs w).points
unfolding store_point
run-Plausible is_too_fast qs w empty =
    run_keeps is_too_fast (λ q. Unit {0}) (λ w. All IsPlausible w.points)
      (λ q p driver status w _ v h. All-snoc IsPlausible w.points _ h (
        accepted-IsPlausible is_too_fast (get_latest_location q.received_at driver w.cache) p
          q.received_at driver q.location_id status v))
      qs (any_requests qs) w (subst (All IsPlausible) (sym empty) tt)
