-- ===== src/Emergencies/Runs.antt =====
-- Runs of triggers and updates of emergencies: src/modules/emergencies/emergencies.service.ts.
use be_distribution_system_a.Prelude.{
  ℕ, ◌≡◌, refl, ◌∙◌, sym, ap, false, ◌&&◌, Option, none, some, List, [], ◌∷◌, ◌++◌, ◌==◌,
  if◌then◌else◌, any, arith, ==_iff, Bool-cases, Option-cases, inl, inr,
}
use mathlib.Core.Option
use mathlib.Core.Path.{subst}
use be_distribution_system_a.Prelude.Table.{find_by, IsUnique, find_by-key}
use be_distribution_system_a.Deliveries.Model.{Delivery}
use be_distribution_system_a.Emergencies.Service.{
  EmergencyStatus, emergency, Emergency, DriverState, TriggerEmergencyDto, EmergencyTables,
  emergency_key, driver_key, is_terminal, is_active, new_emergency, with_status, set_status,
  trigger_emergency, next_status, write_status, update_emergency_status,
}
use be_distribution_system_a.Emergencies.Single.{
  active_count, in_emergency, IsConsistent, Step, triggers, updates, Run, done, then_step,
  active_count-append, none_active, status_after, append-IsUnique, write-IsUnique, write_count,
}

pub next_settles :
    (d : ℕ) (ds : List Delivery) (o : Option DriverState)
    → in_emergency (Option.map (with_status (next_status d ds)) o) ≡ false
next_settles d ds none = refl
next_settles d ds (some x) = ground arith

pub triggered_count :
    (k driver : ℕ) (dto : TriggerEmergencyDto) (now d : ℕ) (t : EmergencyTables) (row : DriverState)
    → find_by driver_key driver t.drivers ≡ some row
    → any (λ e. e.driver_id == driver && is_active e) t.emergencies ≡ false
    → active_count d t.emergencies
      ≡ (if in_emergency (find_by driver_key d t.drivers) then 1 else 0)
    → active_count d (t.emergencies ++ new_emergency k driver dto now ∷ []) ≡ (
        if in_emergency (find_by driver_key d (set_status driver emergency t.drivers))
        then 1
        else 0)
triggered_count k driver dto now d t row found free h = elim (Bool-cases (d == driver)) [
  | inl c ↦
      let same = (==_iff d driver).0 c in
      let zero_before : active_count d t.emergencies ≡ 0 =
        ap (λ j. active_count j t.emergencies) same ∙ none_active driver t.emergencies free in
      let row_d : find_by driver_key d t.drivers ≡ some row =
        ap (λ j. find_by driver_key j t.drivers) same ∙ found in
      active_count-append d t.emergencies (new_emergency k driver dto now)
      ∙ ground (arith, status_after d driver emergency t.drivers)
  | inr c ↦
      active_count-append d t.emergencies (new_emergency k driver dto now)
      ∙ ground (arith, status_after d driver emergency t.drivers)
]

pub written_count :
    (s : EmergencyStatus) (actor now k d : ℕ) (t : EmergencyTables) (e : Emergency)
    → IsUnique emergency_key t.emergencies
    → find_by emergency_key k t.emergencies ≡ some e
    → is_terminal e.status ≡ false
    → ((j : ℕ)
        → active_count j t.emergencies
          ≡ (if in_emergency (find_by driver_key j t.drivers) then 1 else 0))
    → active_count d (write_status e s actor now t).emergencies ≡ (
        if in_emergency (find_by driver_key d (write_status e s actor now t).drivers) then 1 else 0)
unfolding write_status
written_count s actor now k d t e u found a h =
    let here : find_by emergency_key e.id t.emergencies ≡ some e =
      ap (λ j. find_by emergency_key j t.emergencies)
        (find_by-key emergency_key k t.emergencies e found)
      ∙ found in
    let after = write_count s actor now e.id d t.emergencies e u here (ground arith) in
    elim (Bool-cases (is_terminal s)) [
      | inr c ↦ ground (arith, after, h d)
      | inl c ↦ elim (Bool-cases (d == e.driver_id)) [
        | inl same ↦ ground (
          arith,
          after,
          h d,
          status_after d e.driver_id (next_status e.driver_id t.deliveries) t.drivers,
          next_settles e.driver_id t.deliveries (find_by driver_key d t.drivers),
        )
        | inr other ↦ ground (
          arith,
          after,
          h d,
          status_after d e.driver_id (next_status e.driver_id t.deliveries) t.drivers,
        )
      ]
    ]

pub IsConsistent-at : (u v : EmergencyTables) → u ≡ v → IsConsistent v → IsConsistent u
IsConsistent-at u v e c = subst IsConsistent (sym e) c

-- The tables after a trigger that is stored.
abbrev pub with_emergency : EmergencyTables → ℕ → ℕ → TriggerEmergencyDto → ℕ → EmergencyTables
with_emergency t k driver dto now = record t {
  drivers = set_status driver emergency t.drivers;
  emergencies = t.emergencies ++ new_emergency k driver dto now ∷ [];
}

pub triggered_tables :
    (t : EmergencyTables) (k driver : ℕ) (dto : TriggerEmergencyDto) (now : ℕ)
    → find_by emergency_key k t.emergencies ≡ none
    → IsConsistent t
    → IsConsistent (trigger_emergency k driver dto now t).1
triggered_tables t k driver dto now fresh c =
    elim (Option-cases (find_by driver_key driver t.drivers)) [
      | inl e ↦ IsConsistent-at _ t (unfold trigger_emergency in ground arith) c
      | inr (row, e) ↦
          elim (Bool-cases (any (λ x. x.driver_id == driver && is_active x) t.emergencies)) [
            | inl a ↦ IsConsistent-at _ t (unfold trigger_emergency in ground arith) c
            | inr a ↦
                IsConsistent-at _ (with_emergency t k driver dto now)
                  (unfold trigger_emergency in ground arith)
                  (record {
                    unique =
                        append-IsUnique t.emergencies (new_emergency k driver dto now) c.unique
                          fresh;
                    counts = λ d. triggered_count k driver dto now d t row e a (c.counts d);
                  })
          ]
    ]

pub updated_tables :
    (t : EmergencyTables) (k : ℕ) (s : EmergencyStatus) (actor now : ℕ)
    → IsConsistent t
    → IsConsistent (update_emergency_status k s actor now t).1
updated_tables t k s actor now c = elim (Option-cases (find_by emergency_key k t.emergencies)) [
  | inl e ↦ IsConsistent-at _ t (unfold update_emergency_status in ground arith) c
  | inr (x, e) ↦ elim (Bool-cases (is_terminal x.status)) [
    | inl a ↦ IsConsistent-at _ t (unfold update_emergency_status in ground arith) c
    | inr a ↦
        IsConsistent-at _ (write_status x s actor now t)
          (unfold update_emergency_status in ground arith)
          (record {
            unique = unfold write_status in write-IsUnique s actor now x.id t.emergencies c.unique;
            counts = λ d. written_count s actor now k d t x c.unique e a c.counts;
          })
  ]
]

pub Step-IsConsistent : {t u : EmergencyTables} → Step t u → IsConsistent t → IsConsistent u
Step-IsConsistent {t} (triggers k driver dto now fresh) c =
    triggered_tables t k driver dto now fresh c
Step-IsConsistent {t} (updates k s actor now) c = updated_tables t k s actor now c

-- A driver has one emergency at a time: after any run of triggers under new ids and of updates from
-- tables that are consistent, ids are unique, and every driver has exactly one active emergency while
-- in the state EMERGENCY and none in any other.
pub Run-IsConsistent : {t u : EmergencyTables} → Run t u → IsConsistent t → IsConsistent u
Run-IsConsistent done c = c
Run-IsConsistent (then_step e r) c = Run-IsConsistent r (Step-IsConsistent e c)
