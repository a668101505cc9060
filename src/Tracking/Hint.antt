-- ===== src/Tracking/Hint.antt =====
-- The broadcast hint of a batch and the points that were accepted.
use be_distribution_system_a.Prelude.{
  ℕ, zero, suc, ◌≤◌, ◌<◌, ◌≡◌, ◌∙◌, ap, refl, some, List, [], ◌∷◌, ◌++◌, arith, length, get_elem?,
  length-append,
}
use be_distribution_system_a.Tracking.Batch.{
  LocationPoint, ValidationStatus, valid, suspicious, Ingestion, ingested, failed_with, BatchReport,
  note, process_from, valid_points, latest, broadcast_hint, process_batch,
}

get_elem?-append :
    {A : Type 0} (xs ys : List A) (j : ℕ) → j < length xs → get_elem? (xs ++ ys) j ≡ get_elem? xs j
get_elem?-append [] ys j h = absurd (omega arith)
get_elem?-append (x ∷ xs) ys zero h = refl
get_elem?-append (x ∷ xs) ys (suc j) h = get_elem?-append xs ys j (omega arith)

get_elem?_last : {A : Type 0} (xs : List A) (y : A) → get_elem? (xs ++ y ∷ []) (length xs) ≡ some y
get_elem?_last [] y = refl
get_elem?_last (x ∷ xs) y = get_elem?_last xs y

module _ {S : Type 0} (ingest : LocationPoint → S → Ingestion × S) where
  abbrev take_valid : LocationPoint → Ingestion → List LocationPoint → List LocationPoint
  take_valid p (ingested valid) ps = p ∷ ps
  take_valid p _ ps = ps

  -- The points that were accepted as VALID, as their processing says.
  unfoldable pub accepted_as_valid : List LocationPoint → S → List LocationPoint
  accepted_as_valid [] s = []
  accepted_as_valid (p ∷ ps) s =
      let (outcome, s') = ingest p s in take_valid p outcome (accepted_as_valid ps s')

  -- The errors and the statuses that were there stay.
  process_from_extends :
      (i j : ℕ) (ps : List LocationPoint) (r : BatchReport) (s : S)
      → j < length r.accepted
      → (get_elem? (process_from ingest i ps r s).0.accepted j ≡ get_elem? r.accepted j)
  unfolding process_from
  process_from_extends i j [] r s h = refl
  process_from_extends i j (p ∷ ps) r s h =
      by_outcome (ingest p s).0 (λ r' l. process_from_extends (suc i) j ps r' (ingest p s).1 l)
    where
      by_outcome :
          (o : Ingestion)
          → ((r' : BatchReport)
              → j < length r'.accepted
              → get_elem? (process_from ingest (suc i) ps r' (ingest p s).1).0.accepted j
                ≡ get_elem? r'.accepted j)
          → get_elem?
              (process_from ingest (suc i) ps (note ingest i o r) (ingest p s).1).0.accepted
              j
            ≡ get_elem? r.accepted j
      by_outcome (ingested status) rest =
          rest _ (omega (arith, length-append r.accepted (status ∷ []), h))
          ∙ get_elem?-append r.accepted (status ∷ []) j h
      by_outcome (failed_with code) rest = rest _ h

  errors_stay :
      (i : ℕ) (ps : List LocationPoint) (r : BatchReport) (s : S)
      → length r.errors ≤ length (process_from ingest i ps r s).0.errors
  unfolding process_from
  errors_stay i [] r s = omega arith
  errors_stay i (p ∷ ps) r s =
      by_outcome (ingest p s).0 (λ r'. errors_stay (suc i) ps r' (ingest p s).1)
    where
      by_outcome :
          (o : Ingestion)
          → ((r' : BatchReport)
              → length r'.errors
                ≤ length (process_from ingest (suc i) ps r' (ingest p s).1).0.errors)
          → length r.errors
            ≤ length (process_from ingest (suc i) ps (note ingest i o r) (ingest p s).1).0.errors
      by_outcome (ingested status) rest = rest _
      by_outcome (failed_with code) rest = omega (
        arith,
        rest (note ingest i (failed_with code) r),
        length-append r.errors ((i, code) ∷ []),
      )

  status_at :
      (i : ℕ) (status : ValidationStatus) (ps : List LocationPoint) (r : BatchReport) (s : S)
      → i ≡ length r.accepted
      → get_elem?
          (process_from ingest (suc i) ps (note ingest i (ingested status) r) s).0.accepted
          i
        ≡ some status
  status_at i status ps r s e =
      process_from_extends (suc i) i ps (note ingest i (ingested status) r) s
        (omega (arith, length-append r.accepted (status ∷ []), e))
      ∙ ap (get_elem? (r.accepted ++ status ∷ [])) e
      ∙ get_elem?_last r.accepted status

  aligned_step :
      (o : Ingestion) (i : ℕ) (p : LocationPoint) (ps : List LocationPoint) (r : BatchReport)
      (s : S)
      → i ≡ length r.accepted
      → length (process_from ingest (suc i) ps (note ingest i o r) s).0.errors ≡ 0
      → ((r' : BatchReport)
          → suc i ≡ length r'.accepted
          → length (process_from ingest (suc i) ps r' s).0.errors ≡ 0
          → valid_points (process_from ingest (suc i) ps r' s).0.accepted (suc i) ps
            ≡ accepted_as_valid ps s)
      → valid_points (process_from ingest (suc i) ps (note ingest i o r) s).0.accepted i (p ∷ ps)
        ≡ take_valid p o (accepted_as_valid ps s)
  unfolding valid_points
  aligned_step (ingested valid) i p ps r s e h rest =
      let more =
        rest (note ingest i (ingested valid) r)
          (omega (arith, e, length-append r.accepted (valid ∷ []))) h in
      ground (arith, more, status_at i valid ps r s e)
  aligned_step (ingested suspicious) i p ps r s e h rest =
      let more =
        rest (note ingest i (ingested suspicious) r)
          (omega (arith, e, length-append r.accepted (suspicious ∷ []))) h in
      ground (arith, more, status_at i suspicious ps r s e)
  aligned_step (failed_with code) i p ps r s e h rest = absurd (
      omega (
        arith,
        h,
        errors_stay (suc i) ps (note ingest i (failed_with code) r) s,
        length-append r.errors ((i, code) ∷ []),
      ))

  aligned :
      (i : ℕ) (ps : List LocationPoint) (r : BatchReport) (s : S)
      → i ≡ length r.accepted
      → length (process_from ingest i ps r s).0.errors ≡ 0
      → valid_points (process_from ingest i ps r s).0.accepted i ps ≡ accepted_as_valid ps s
  unfolding process_from valid_points accepted_as_valid
  aligned i [] r s e h = refl
  aligned i (p ∷ ps) r s e h =
      aligned_step (ingest p s).0 i p ps r (ingest p s).1 e h
        (λ r' e' h'. aligned (suc i) ps r' (ingest p s).1 e' h')

  -- If no point of a batch is refused, the broadcast hint is the latest of the points that their
  -- processing has accepted as VALID.
  pub hint_of_accepted :
      (points : List LocationPoint) (s : S)
      → length (process_batch ingest points s).0.0.errors ≡ 0
      → (process_batch ingest points s).0.1 ≡ latest (accepted_as_valid points s)
  unfolding process_batch broadcast_hint
  hint_of_accepted points s h =
      ap latest (aligned 0 points (record { accepted = []; errors = [] }) s refl h)

  -- If the first of two points is refused and the second is accepted as VALID, the broadcast hint
  -- is the refused point.
  pub hint_of_refused :
      (p q : LocationPoint) (code : ℕ) (s t u : S)
      → ingest p s ≡ (failed_with code, t)
      → ingest q t ≡ (ingested valid, u)
      → (process_batch ingest (p ∷ q ∷ []) s).0.1 ≡ some p
  unfolding process_batch broadcast_hint process_from valid_points latest
  hint_of_refused p q code s t u first second = ground arith
