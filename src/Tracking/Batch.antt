-- ===== src/Tracking/Batch.antt =====
-- The loop over a batch of locations and its broadcast hint, in `processBatch` of
-- src/modules/tracking/services/tracking.service.ts. What `processTelemetry` does to a point is the
-- parameter `ingest`, on a state of its own.
use be_distribution_system_a.Prelude.{
  ℕ, Angle, suc, Bool, true, false, Option, none, some, List, [], ◌∷◌, ◌++◌, get_elem?, ltb,
  if◌then◌else◌,
}

-- class LocationIngestionDto: what the hint reads of it.
pub record LocationPoint : Type 0 where
  pub latitude : Angle
  pub longitude : Angle
  pub recorded_at : ℕ

-- `validationStatus`
pub data ValidationStatus : Type 0 where
  valid suspicious : ValidationStatus

-- How the processing of a point ends: with its status, or with the code of an exception.
pub data Ingestion : Type 0 where
  ingested : ValidationStatus → Ingestion
  failed_with : ℕ → Ingestion

-- interface BatchIngestionResult, with the statuses of the accepted points
pub record BatchReport : Type 0 where
  pub accepted : List ValidationStatus
  pub errors : List (ℕ × ℕ)

abbrev pub is_valid : Option ValidationStatus → Bool
is_valid (some valid) = true
is_valid _ = false

module _ {S : Type 0} (ingest : LocationPoint → S → Ingestion × S) where
  abbrev pub note : ℕ → Ingestion → BatchReport → BatchReport
  note i (ingested status) r = record r { accepted = r.accepted ++ status ∷ [] }
  note i (failed_with code) r = record r { errors = r.errors ++ (i, code) ∷ [] }

  -- The loop, from index `i` on.
  unfoldable pub process_from : ℕ → List LocationPoint → BatchReport → S → BatchReport × S
  process_from i [] r s = (r, s)
  process_from i (p ∷ ps) r s =
      let (outcome, s') = ingest p s in process_from (suc i) ps (note i outcome r) s'

-- `batchDto.points.filter((_, idx) => accepted.some((acc, aIdx) => aIdx === idx && …))`, from `i` on
unfoldable pub valid_points : List ValidationStatus → ℕ → List LocationPoint → List LocationPoint
valid_points accepted i [] = []
valid_points accepted i (p ∷ ps) =
    let rest = valid_points accepted (suc i) ps in
    if is_valid (get_elem? accepted i) then p ∷ rest else rest

abbrev pub later : LocationPoint → Option LocationPoint → Option LocationPoint
later p none = some p
later p (some q) = if ltb p.recorded_at q.recorded_at then some q else some p

-- The first of the points after the stable sort, the latest first.
unfoldable pub latest : List LocationPoint → Option LocationPoint
latest [] = none
latest (p ∷ ps) = later p (latest ps)

-- `latestBroadcast`
unfoldable pub broadcast_hint : List ValidationStatus → List LocationPoint → Option LocationPoint
broadcast_hint accepted points = latest (valid_points accepted 0 points)

module _ {S : Type 0} (ingest : LocationPoint → S → Ingestion × S) where
  -- processBatch, after the tests of the role and the rate
  unfoldable pub process_batch : List LocationPoint → S → (BatchReport × Option LocationPoint) × S
  process_batch points s =
      let (r, s') = process_from ingest 0 points (record { accepted = []; errors = [] }) s in
      ((r, broadcast_hint r.accepted points), s')
