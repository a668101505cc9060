-- ===== src/Emergencies/Service.antt =====
-- src/modules/emergencies/emergencies.service.ts. The audit rows, the broadcast and the reading methods are
-- left out; the id of a new emergency and the time are arguments.
use be_distribution_system_a.Prelude.{
  ℕ, Angle, Bool, true, false, not, ◌&&◌, Option, none, some, List, [], ◌∷◌, ◌++◌, ◌==◌,
  if◌then◌else◌, any, is_some_of,
}
use be_distribution_system_a.Prelude.Table.{find_by, update_by}
use be_distribution_system_a.Deliveries.Model.{DeliveryStatus, accepted, Delivery}

-- enum EmergencyStatus
pub data EmergencyStatus : Type 0 where
  triggered acknowledged resolved false_alarm : EmergencyStatus

-- enum DriverOperationalStatus
pub data OperationalStatus : Type 0 where
  offline available on_delivery emergency : OperationalStatus

-- model Emergency
pub record Emergency : Type 0 where
  pub id : ℕ
  pub driver_id : ℕ
  pub delivery_id : Option ℕ
  pub latitude : Angle
  pub longitude : Angle
  pub emergency_type : ℕ
  pub note : Option ℕ
  pub status : EmergencyStatus
  pub triggered_at : ℕ
  pub resolved_at : Option ℕ
  pub resolved_by : Option ℕ

-- The columns of a driver that are read and written.
pub record DriverState : Type 0 where
  pub id : ℕ
  pub operational_status : OperationalStatus

-- class TriggerEmergencyDto
pub record TriggerEmergencyDto : Type 0 where
  pub delivery_id : Option ℕ
  pub latitude : Angle
  pub longitude : Angle
  pub emergency_type : ℕ
  pub note : Option ℕ

pub record EmergencyTables : Type 0 where
  pub drivers : List DriverState
  pub deliveries : List Delivery
  pub emergencies : List Emergency

pub data EmergencyAnswer : Type 0 where
  emergency_stored : EmergencyAnswer
  driver_not_found active_emergency_exists : EmergencyAnswer
  emergency_not_found emergency_already_terminal : EmergencyAnswer

abbrev pub emergency_key : Emergency → ℕ
emergency_key e = e.id

abbrev pub driver_key : DriverState → ℕ
driver_key d = d.id

-- `dto.status === 'RESOLVED' || dto.status === 'FALSE_ALARM'`
abbrev pub is_terminal : EmergencyStatus → Bool
is_terminal resolved = true
is_terminal false_alarm = true
is_terminal _ = false

-- `status: { in: ['TRIGGERED', 'ACKNOWLEDGED'] }`
abbrev pub is_active : Emergency → Bool
is_active e = not (is_terminal e.status)

abbrev pub new_emergency : ℕ → ℕ → TriggerEmergencyDto → ℕ → Emergency
new_emergency k driver dto now = record {
  id = k;
  driver_id = driver;
  delivery_id = dto.delivery_id;
  latitude = dto.latitude;
  longitude = dto.longitude;
  emergency_type = dto.emergency_type;
  note = dto.note;
  status = triggered;
  triggered_at = now;
  resolved_at = none;
  resolved_by = none;
}

abbrev pub with_status : OperationalStatus → DriverState → DriverState
with_status s d = record d { operational_status = s }

abbrev pub set_status : ℕ → OperationalStatus → List DriverState → List DriverState
set_status driver s ds = update_by driver_key driver (λ d. true) (with_status s) ds

unfoldable pub trigger_emergency :
    ℕ → ℕ → TriggerEmergencyDto → ℕ → EmergencyTables → EmergencyAnswer × EmergencyTables
trigger_emergency k driver dto now t = elim (find_by driver_key driver t.drivers) [
  | none ↦ (driver_not_found, t)
  | some d ↦
      if any (λ e. e.driver_id == driver && is_active e) t.emergencies
      then (active_emergency_exists, t)
      else (
        emergency_stored,
        record t {
          drivers = set_status driver emergency t.drivers;
          emergencies = t.emergencies ++ new_emergency k driver dto now ∷ [];
        },
      )
]

-- `status: { in: ['ACCEPTED', 'EN_ROUTE'] }`
abbrev is_under_way : DeliveryStatus → Bool
is_under_way accepted = true
is_under_way DeliveryStatus.en_route = true
is_under_way _ = false

abbrev pub next_status : ℕ → List Delivery → OperationalStatus
next_status driver ds =
    if any (λ d. is_some_of driver d.driver_id && is_under_way d.status) ds
    then on_delivery
    else available

abbrev pub updated : EmergencyStatus → ℕ → ℕ → Emergency → Emergency
updated s actor now e =
    if is_terminal s
    then record e { status = s; resolved_at = some now; resolved_by = some actor }
    else record e { status = s }

-- The transaction of `updateEmergencyStatus` at the emergency that was found.
unfoldable pub write_status :
    Emergency → EmergencyStatus → ℕ → ℕ → EmergencyTables → EmergencyTables
write_status e s actor now t = record t {
  emergencies = update_by emergency_key e.id (λ x. true) (updated s actor now) t.emergencies;
  drivers =
      if is_terminal s
      then set_status e.driver_id (next_status e.driver_id t.deliveries) t.drivers
      else t.drivers;
}

unfoldable pub update_emergency_status :
    ℕ → EmergencyStatus → ℕ → ℕ → EmergencyTables → EmergencyAnswer × EmergencyTables
update_emergency_status k s actor now t = elim (find_by emergency_key k t.emergencies) [
  | none ↦ (emergency_not_found, t)
  | some e ↦
      if is_terminal e.status
      then (emergency_already_terminal, t)
      else (emergency_stored, write_status e s actor now t)
]
