-- ===== src/Tracking/Latest.antt =====
-- The cache of latest locations and the rows of location_points, over any run of requests.
use be_distribution_system_a.Prelude.{
  ℕ, ◌≡◌, refl, sym, ap, Bool, true, false, not, Option, none, some, List, [], ◌∷◌, if◌then◌else◌,
  All, arith, Option-cases, ◌⊎◌, inl, inr,
}
use mathlib.Core.Path.{subst}
use be_distribution_system_a.Deliveries.Model.{is_driver}
use be_distribution_system_a.Tracking.Points.{
  LocationDto, Validity, Validation, PointError, forbidden, driver_profile_required,
  rate_limit_exceeded, accepted_as, rejected, Speeding, validate_single_point, get_latest_location,
}
use be_distribution_system_a.Tracking.Telemetry.{
  TrackingWorld, TelemetryRequest, TelemetryAnswer, ingested, repeated, refused, existing_telemetry,
  check_delivery, store_point, ingest_point, ingest_for_driver, process_telemetry, exceeds_rate,
  ingest_if_assigned, ingest_as,
}

abbrev pub is_ingested : TelemetryAnswer → Bool
is_ingested (ingested r) = true
is_ingested _ = false

-- A request stores its point, or leaves everything as it is.
abbrev Outcome :
    Speeding
    → TelemetryRequest
    → LocationDto
    → TrackingWorld
    → TelemetryAnswer × TrackingWorld
    → Type 0
Outcome is_too_fast q p w out =
    ((is_ingested out.0 ≡ false) × (out.1 ≡ w))
    ⊎ ((driver : ℕ) × (status : Validity) × (validate_single_point is_too_fast
            (get_latest_location q.received_at driver w.cache) p q.received_at
          ≡ accepted_as status)
        × (out ≡ store_point q p driver status w))

module _ (is_too_fast : Speeding) (q : TelemetryRequest) (p : LocationDto) (w : TrackingWorld) where
  Outcome-of :
      (out out' : TelemetryAnswer × TrackingWorld)
      → out ≡ out'
      → Outcome is_too_fast q p w out'
      → Outcome is_too_fast q p w out
  Outcome-of out out' e h = subst (Outcome is_too_fast q p w) (sym e) h

  Outcome-if :
      (b : Bool) (out out' : TelemetryAnswer × TrackingWorld)
      → Outcome is_too_fast q p w out
      → Outcome is_too_fast q p w out'
      → Outcome is_too_fast q p w (if b then out else out')
  Outcome-if true out out' h h' = h
  Outcome-if false out out' h h' = h'

  unchanged : (e : PointError) → Outcome is_too_fast q p w (refused e, w)
  unchanged e = inl (refl, refl)

  validated :
      (driver : ℕ) (v : Validation)
      → validate_single_point is_too_fast
          (get_latest_location q.received_at driver w.cache)
          p
          q.received_at
        ≡ v
      → Outcome is_too_fast q p w (ingest_point is_too_fast q p driver w)
  unfolding ingest_point
  validated driver (accepted_as s) e = inr (driver, s, e, ground arith)
  validated driver (rejected x) e = Outcome-of _ (refused x, w) (ground arith) (unchanged x)

  for_driver : (driver : ℕ) → Outcome is_too_fast q p w (ingest_for_driver is_too_fast q p driver w)
  unfolding ingest_for_driver
  for_driver driver =
      elim (Option-cases (existing_telemetry p.idempotency_key driver q.endpoint w)) [
        | inr (r, e) ↦ Outcome-of _ (repeated r.response, w) (ground arith) (inl (refl, refl))
        | inl e ↦
            Outcome-of _
              (if exceeds_rate q.rate
                then (refused rate_limit_exceeded, w)
                else ingest_point is_too_fast q p driver w)
              (ground arith)
              (Outcome-if (exceeds_rate q.rate) (refused rate_limit_exceeded, w)
                (ingest_point is_too_fast q p driver w) (unchanged rate_limit_exceeded)
                (validated driver _ refl))
      ]

  checked :
      (driver : ℕ) (o : Option PointError)
      → check_delivery driver p.delivery_id w ≡ o
      → Outcome is_too_fast q p w (ingest_if_assigned is_too_fast q p driver o w)
  checked driver none e = for_driver driver
  checked driver (some x) e = unchanged x

  with_driver : (o : Option ℕ) → Outcome is_too_fast q p w (ingest_as is_too_fast q p o w)
  with_driver none = unchanged driver_profile_required
  with_driver (some driver) = checked driver (check_delivery driver p.delivery_id w) refl

  pub process-Outcome : Outcome is_too_fast q p w (process_telemetry is_too_fast q p w)
  unfolding process_telemetry
  process-Outcome =
      Outcome-if (not (is_driver q.role)) (refused forbidden, w)
        (ingest_as is_too_fast q p q.driver_id w) (unchanged forbidden) (with_driver q.driver_id)

-- A request that does not store its point, because it is refused or repeated, leaves the rows, the
-- cache, the stored responses and the broadcasts as they are.
pub telemetry_refused :
    (is_too_fast : Speeding) (q : TelemetryRequest) (p : LocationDto) (w : TrackingWorld)
    → is_ingested (process_telemetry is_too_fast q p w).0 ≡ false
    → (process_telemetry is_too_fast q p w).1 ≡ w
unfolding store_point
telemetry_refused is_too_fast q p w h = elim (process-Outcome is_too_fast q p w) [
  | inl (r, e) ↦ e
  | inr (driver, status, v, e) ↦ absurd (ground arith)
]

-- A run of requests, of whatever drivers.
unfoldable pub run_telemetry :
    Speeding → List (TelemetryRequest × LocationDto) → TrackingWorld → TrackingWorld
run_telemetry is_too_fast [] w = w
run_telemetry is_too_fast ((q, p) ∷ qs) w =
    run_telemetry is_too_fast qs (process_telemetry is_too_fast q p w).1

-- An invariant of a run is one of a point that is stored, at the requests that are allowed.
module _ (is_too_fast : Speeding) (Allowed : TelemetryRequest → Type 0)
    (Inv : TrackingWorld → Type 0)
    (keeps : (q : TelemetryRequest) (p : LocationDto) (driver : ℕ) (status : Validity)
        (w : TrackingWorld)
      → Allowed q
      → validate_single_point is_too_fast
          (get_latest_location q.received_at driver w.cache)
          p
          q.received_at
        ≡ accepted_as status
      → Inv w
      → Inv (store_point q p driver status w).1) where
  step_keeps :
      (q : TelemetryRequest) (p : LocationDto) (w : TrackingWorld)
      → Allowed q
      → Inv w
      → Inv (process_telemetry is_too_fast q p w).1
  step_keeps q p w fine h = elim (process-Outcome is_too_fast q p w) [
    | inl (r, e) ↦ subst Inv (sym e) h
    | inr (driver, status, v, e) ↦
        subst Inv (sym (ap (λ o. o.1) e)) (keeps q p driver status w fine v h)
  ]

  pub run_keeps :
      (qs : List (TelemetryRequest × LocationDto))
      → All (λ (q, p). Allowed q) qs
      → (w : TrackingWorld) → Inv w
      → Inv (run_telemetry is_too_fast qs w)
  unfolding run_telemetry
  run_keeps [] fine w h = h
  run_keeps ((q, p) ∷ qs) (fine, rest) w h =
      run_keeps qs rest (process_telemetry is_too_fast q p w).1 (step_keeps q p w fine h)
