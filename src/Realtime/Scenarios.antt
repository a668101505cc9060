-- ===== src/Realtime/Scenarios.antt =====
-- Runs of the connection manager and the room authorizer.
use be_distribution_system_a.Prelude.{
  ℕ, true, not, none, some, ◌≡◌, refl, List, [], ◌∷◌, if◌then◌else◌,
}
use be_distribution_system_a.Prelude.Table.{find_by}
use be_distribution_system_a.Deliveries.Model.{
  recommended_mode, driver, DeliveryActor, Delivery, DeliveryStatus,
}
use be_distribution_system_a.Deliveries.World.{World, ok, err, resource_forbidden}
use be_distribution_system_a.Deliveries.Service.{get_delivery_by_id, is_forbidden}
use be_distribution_system_a.Realtime.Connections.{
  SocketData, no_connections, register_socket, supersede, add_socket, close_socket, remove_socket,
  claim_driver, disconnect_session, disconnect_device, disconnect_user,
}
use be_distribution_system_a.Realtime.Consistency.{IsConsistent, session_of, device_of, user_of}
use be_distribution_system_a.Realtime.Revocation.{
  Event, connect, handle, run, IsRun, Revoked, revocation_reaches, run_agrees, run_one_socket,
}
use be_distribution_system_a.Realtime.Rooms.{
  RoomTables, Participants, authorize_room_join, delivery_name, permit_if,
}
use be_distribution_system_a.Realtime.Scope.{room_scope}

-- User 30 is driver 7 and logs in from session 1, then from session 2.
abbrev login : ℕ → SocketData
login s = record {
  user_id = some 30;
  session_id = some s;
  device_id = none;
  driver_id = some 7;
  role = driver;
}

abbrev two_logins : List Event
two_logins = connect 101 (login 1) ∷ connect 102 (login 2) ∷ []

two_logins-IsRun : IsRun two_logins no_connections
unfolding handle register_socket supersede add_socket
two_logins-IsRun = ((refl, λ k e. refl), ((refl, λ k e. refl), tt))

run_agrees_example : IsConsistent (run two_logins no_connections)
run_agrees_example = run_agrees two_logins two_logins-IsRun

run_one_socket_example : ◌≡◌ {A = ℕ} 102 102
unfolding run handle register_socket supersede add_socket claim_driver close_socket remove_socket
run_one_socket_example = run_one_socket two_logins 102 102 7 two_logins-IsRun refl refl

revocation_reaches_example :
    let c = run two_logins no_connections in
    Revoked session_of 2 c (disconnect_session 2 c)
    × Revoked device_of 2 c (disconnect_device 2 c)
    × Revoked user_of 2 c (disconnect_user 2 c)
revocation_reaches_example =
    revocation_reaches 2 (run two_logins no_connections) (run_agrees two_logins two_logins-IsRun)

abbrev the_delivery : Delivery
the_delivery = record {
  id = 1;
  delivery_code = 100;
  driver_id = some 7;
  vehicle_id = none;
  organization_id = some 4;
  status = DeliveryStatus.en_route;
  route_mode = recommended_mode;
  planned_start_at = none;
  started_at = none;
  completed_at = none;
  created_by = 20;
}

abbrev database : World
database = record {
  deliveries = the_delivery ∷ [];
  items = [];
  stops = [];
  pods = [];
  events = [];
  audit_logs = [];
  idempotency_records = [];
  conflicts = [];
  drivers = [];
  vehicles = [];
  emitted = [];
  gateway_up = true;
}

abbrev chat : Participants
chat = record { id = 9; owner_id = 20; driver_id = some 7 }

abbrev tables : RoomTables
tables = record { deliveries = the_delivery ∷ []; conversations = chat ∷ []; call_sessions = [] }

abbrev the_actor : DeliveryActor
the_actor = record { user_id = 30; role = driver; driver_id = some 7; organization_id = none }

room_scope_example :
    (authorize_room_join the_actor (delivery_name (some 1)) tables
      ≡ permit_if (not (is_forbidden the_delivery the_actor)))
    × (get_delivery_by_id 1 the_actor database ≡ (
      (if is_forbidden the_delivery the_actor then err resource_forbidden else ok the_delivery),
      database,
    ))
unfolding find_by
room_scope_example = room_scope 1 the_actor tables database the_delivery refl refl tt
