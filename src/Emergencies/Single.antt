-- ===== src/Emergencies/Single.antt =====
-- The emergencies of a driver over a run of requests.
use be_distribution_system_a.Prelude.{
  ℕ, ◌+◌, ◌≡◌, refl, ◌∙◌, sym, ap, Bool, true, false, not, ◌&&◌, Option, none, some, List, [], ◌∷◌,
  ◌++◌, ◌==◌, if◌then◌else◌, any, arith, ==_iff, Bool-cases, inl, inr,
}
use mathlib.Core.Option
use be_distribution_system_a.Prelude.Table.{
  find_by, update_by, IsUnique, find_by-update_by, find_by-append_none,
}
use be_distribution_system_a.Emergencies.Service.{
  EmergencyStatus, OperationalStatus, emergency, Emergency, DriverState, TriggerEmergencyDto,
  EmergencyTables, emergency_key, driver_key, is_terminal, is_active, with_status, set_status,
  trigger_emergency, updated, update_emergency_status,
}

-- The number of active emergencies of a driver.
unfoldable pub active_count : ℕ → List Emergency → ℕ
active_count d [] = 0
active_count d (e ∷ es) = (if e.driver_id == d && is_active e then 1 else 0) + active_count d es

abbrev pub is_emergency : OperationalStatus → Bool
is_emergency emergency = true
is_emergency _ = false

abbrev pub in_emergency : Option DriverState → Bool
in_emergency none = false
in_emergency (some d) = is_emergency d.operational_status

-- Emergencies have ids of their own; a driver has one active emergency, and then the state EMERGENCY, or
-- none, and then another state.
pub record IsConsistent (t : EmergencyTables) : Type 0 where
  pub unique : IsUnique emergency_key t.emergencies
  pub counts :
      (d : ℕ)
      → active_count d t.emergencies
        ≡ (if in_emergency (find_by driver_key d t.drivers) then 1 else 0)

-- The requests of a run; a new emergency has a new id.
pub data Step : EmergencyTables → EmergencyTables → Type 0 where
  triggers :
      {t : EmergencyTables} (k driver : ℕ) (dto : TriggerEmergencyDto) (now : ℕ)
      → find_by emergency_key k t.emergencies ≡ none
      → Step t (trigger_emergency k driver dto now t).1
  updates :
      {t : EmergencyTables} (k : ℕ) (s : EmergencyStatus) (actor now : ℕ)
      → Step t (update_emergency_status k s actor now t).1

pub data Run : EmergencyTables → EmergencyTables → Type 0 where
  done : {t : EmergencyTables} → Run t t
  then_step : {t u v : EmergencyTables} → Step t u → Run u v → Run t v

pub active_count-append :
    (d : ℕ) (es : List Emergency) (e : Emergency)
    → active_count d (es ++ e ∷ [])
      ≡ active_count d es + (if e.driver_id == d && is_active e then 1 else 0)
unfolding active_count
active_count-append d [] e = omega arith
active_count-append d (x ∷ es) e = omega (arith, active_count-append d es e)

pub none_active :
    (d : ℕ) (es : List Emergency)
    → any (λ e. e.driver_id == d && is_active e) es ≡ false
    → active_count d es ≡ 0
unfolding active_count
none_active d [] h = refl
none_active d (e ∷ es) h = ground (arith, none_active d es)

pub status_after :
    (j d : ℕ) (s : OperationalStatus) (ds : List DriverState)
    → find_by driver_key j (set_status d s ds) ≡ (
        if j == d
        then Option.map (with_status s) (find_by driver_key j ds)
        else find_by driver_key j ds)
status_after j d s ds = find_by-update_by driver_key j d (λ x. true) (with_status s) ds (λ x. refl)

pub append-IsUnique :
    (es : List Emergency) (e : Emergency)
    → IsUnique emergency_key es
    → find_by emergency_key e.id es ≡ none
    → IsUnique emergency_key (es ++ e ∷ [])
unfolding find_by
append-IsUnique [] e u h = (refl, tt)
append-IsUnique (x ∷ es) e (a, u) h = (
  find_by-append_none emergency_key x.id es (e ∷ []) a ∙ ground arith,
  append-IsUnique es e u (ground arith),
)

kept_id :
    (s : EmergencyStatus) (actor now : ℕ) (e : Emergency)
    → ((updated s actor now e).id ≡ e.id)
      × ((updated s actor now e).driver_id ≡ e.driver_id)
      × (is_active (updated s actor now e) ≡ not (is_terminal s))
kept_id s actor now e = (ground arith, ground arith, ground arith)

module _ (s : EmergencyStatus) (actor now : ℕ) where
  abbrev write_at : ℕ → List Emergency → List Emergency
  write_at k es = update_by emergency_key k (λ x. true) (updated s actor now) es

  pub write-IsUnique :
      (k : ℕ) (es : List Emergency)
      → IsUnique emergency_key es
      → IsUnique emergency_key (write_at k es)
  unfolding update_by
  write-IsUnique k [] u = u
  write-IsUnique k (e ∷ es) (a, u) = (
    ap (λ j. find_by emergency_key j (write_at k es)) (ground (arith, kept_id s actor now e))
        ∙ find_by-update_by emergency_key e.id k (λ x. true) (updated s actor now) es
            (λ x. (kept_id s actor now x).0)
        ∙ ground (arith, a),
    write-IsUnique k es u,
  )

  absent_count :
      (k d : ℕ) (es : List Emergency)
      → find_by emergency_key k es ≡ none
      → active_count d (write_at k es) ≡ active_count d es
  unfolding active_count update_by find_by
  absent_count k d [] h = refl
  absent_count k d (e ∷ es) h = ground (arith, absent_count k d es)

  -- The count after a write: the row that was active counts as its new state.
  pub write_count :
      (k d : ℕ) (es : List Emergency) (e : Emergency)
      → IsUnique emergency_key es
      → find_by emergency_key k es ≡ some e
      → is_active e ≡ true
      → active_count d (write_at k es) + (if e.driver_id == d && is_terminal s then 1 else 0)
        ≡ active_count d es
  unfolding active_count update_by find_by
  write_count k d [] e u h a = cc
  write_count k d (x ∷ es) e (f, u) h a = elim (Bool-cases (x.id == k)) [
    | inl c ↦
        let absent : find_by emergency_key k es ≡ none =
          ap (λ j. find_by emergency_key j es) (sym ((==_iff x.id k).0 c)) ∙ f in
        ground (arith, kept_id s actor now x, absent_count k d es absent)
    | inr c ↦ ground (arith, write_count k d es e u)
  ]
