-- ===== src/Emergencies/Scenarios.antt =====
-- A driver triggers an emergency, which is then resolved.
use be_distribution_system_a.Prelude.{north_or_east, south_or_west, none, ◌≡◌, refl, [], ◌∷◌, arith}
use be_distribution_system_a.Prelude.Table.{find_by}
use be_distribution_system_a.Emergencies.Service.{
  available, resolved, TriggerEmergencyDto, EmergencyTables, trigger_emergency,
  update_emergency_status,
}
use be_distribution_system_a.Emergencies.Single.{
  active_count, IsConsistent, Run, triggers, updates, done, then_step,
}
use be_distribution_system_a.Emergencies.Runs.{Run-IsConsistent}

abbrev on_duty : EmergencyTables
on_duty = record {
  drivers = record { id = 3; operational_status = available } ∷ [];
  deliveries = [];
  emergencies = [];
}

abbrev call_for_help : TriggerEmergencyDto
call_for_help = record {
  delivery_id = none;
  latitude = south_or_west 62000000;
  longitude = north_or_east 1068166660;
  emergency_type = 1;
  note = none;
}

on_duty-IsConsistent : IsConsistent on_duty
unfolding active_count find_by
on_duty-IsConsistent = record { unique = tt; counts = λ d. ground arith }

abbrev helped : EmergencyTables
helped =
    (update_emergency_status 1 resolved 7 900 (trigger_emergency 1 3 call_for_help 100 on_duty).1).1

one_call : Run on_duty helped
unfolding find_by
one_call =
    then_step (triggers 1 3 call_for_help 100 refl) (then_step (updates 1 resolved 7 900) done)

Run-IsConsistent_example : IsConsistent helped
Run-IsConsistent_example = Run-IsConsistent one_call on_duty-IsConsistent

stored_once : active_count 3 (trigger_emergency 1 3 call_for_help 100 on_duty).1.emergencies ≡ 1
unfolding active_count trigger_emergency find_by
stored_once = refl
