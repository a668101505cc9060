-- ===== src/Realtime/Connections.antt =====
-- src/modules/realtime/services/ws-connection-manager.service.ts. A map is a function of its key;
-- a set is the list of its elements, and a key with the empty set is an absent one, since the code
-- deletes it. Of `emit` and `disconnect` the list `closed` keeps the socket and the reason.
use be_distribution_system_a.Prelude.{
  ℕ, Bool, true, false, Option, none, some, List, [], ◌∷◌, ◌++◌, ◌==◌, if◌then◌else◌, any,
  is_some_of,
}
use be_distribution_system_a.Deliveries.Model.{Role, is_driver}

-- interface AuthenticatedSocketData, without its timers
pub record SocketData : Type 0 where
  pub user_id : Option ℕ
  pub session_id : Option ℕ
  pub device_id : Option ℕ
  pub driver_id : Option ℕ
  pub role : Role

pub data Reason : Type 0 where
  superseded_by_new_login session_revoked device_revoked user_revoked : Reason

abbrev pub Index : Type 0
Index = ℕ → List ℕ

pub record Connections : Type 0 where
  pub sockets : ℕ → Option SocketData
  pub user_sockets : Index
  pub session_sockets : Index
  pub device_sockets : Index
  pub driver_sockets : ℕ → Option ℕ
  pub timers : ℕ → Bool
  pub closed : List (ℕ × Reason)

-- `map.set(key, v)`
abbrev pub set_at {ℓ} : {A : Type ℓ} → ℕ → A → (ℕ → A) → ℕ → A
set_at key v m j = if j == key then v else m j

abbrev pub mem : ℕ → List ℕ → Bool
mem k xs = any (λ x. x == k) xs

-- `Set.prototype.add` and `delete`
abbrev pub add : ℕ → List ℕ → List ℕ
add k xs = if mem k xs then xs else xs ++ k ∷ []

unfoldable pub delete : ℕ → List ℕ → List ℕ
delete k [] = []
delete k (x ∷ xs) = let rest = delete k xs in if x == k then rest else x ∷ rest

-- addSocketToIndex
unfoldable pub add_socket_to_index : Option ℕ → ℕ → Index → Index
add_socket_to_index none id index = index
add_socket_to_index (some key) id index = set_at key (add id (index key)) index

-- removeSocketFromIndex
unfoldable pub remove_socket_from_index : Option ℕ → ℕ → Index → Index
remove_socket_from_index none id index = index
remove_socket_from_index (some key) id index = set_at key (delete id (index key)) index

-- `if (driverId && this.driverSockets.get(driverId) === socketId) …`
unfoldable pub release_driver : Option ℕ → ℕ → (ℕ → Option ℕ) → ℕ → Option ℕ
release_driver none id m = m
release_driver (some d) id m = if is_some_of id (m d) then set_at d none m else m

-- `if (driverId) this.driverSockets.set(driverId, socketId)`
unfoldable pub claim_driver : Option ℕ → ℕ → (ℕ → Option ℕ) → ℕ → Option ℕ
claim_driver none id m = m
claim_driver (some d) id m = set_at d (some id) m

abbrev pub forget : ℕ → SocketData → Connections → Connections
forget id d c = record c {
  sockets = set_at id none c.sockets;
  user_sockets = remove_socket_from_index d.user_id id c.user_sockets;
  session_sockets = remove_socket_from_index d.session_id id c.session_sockets;
  device_sockets = remove_socket_from_index d.device_id id c.device_sockets;
  driver_sockets = release_driver d.driver_id id c.driver_sockets;
  timers = set_at id false c.timers;
}

unfoldable pub remove_socket : ℕ → Connections → Connections
remove_socket id c = elim (c.sockets id) [ none ↦ c | some d ↦ forget id d c ]

-- `socket.emit('disconnect_notice', …); socket.disconnect(true); this.removeSocket(socket.id)`
unfoldable pub close_socket : Reason → ℕ → Connections → Connections
close_socket reason id c = remove_socket id (record c { closed = c.closed ++ (id, reason) ∷ [] })

abbrev pub close_other : ℕ → Option ℕ → Connections → Connections
close_other id none c = c
close_other id (some existing) c = if existing == id then c else (elim (c.sockets existing) [
  | none ↦ c
  | some _ ↦ close_socket superseded_by_new_login existing c
])

-- The single active socket policy for drivers.
unfoldable pub supersede : ℕ → SocketData → Connections → Connections
supersede id d c = elim d.driver_id [
  | none ↦ c
  | some k ↦ if is_driver d.role then close_other id (c.driver_sockets k) c else c
]

unfoldable pub add_socket : ℕ → SocketData → Connections → Connections
add_socket id d c = record c {
  sockets = set_at id (some d) c.sockets;
  user_sockets = add_socket_to_index d.user_id id c.user_sockets;
  session_sockets = add_socket_to_index d.session_id id c.session_sockets;
  device_sockets = add_socket_to_index d.device_id id c.device_sockets;
  driver_sockets = claim_driver d.driver_id id c.driver_sockets;
}

unfoldable pub register_socket : ℕ → SocketData → Connections → Connections
register_socket id d c = elim d.user_id [ none ↦ c | some _ ↦ add_socket id d (supersede id d c) ]

abbrev is_live : Option SocketData → Bool
is_live none = false
is_live (some d) = true

-- getSocketsFromIndex: the ids of the sockets that are there.
unfoldable pub live_sockets : Connections → List ℕ → List ℕ
live_sockets c [] = []
live_sockets c (id ∷ ids) =
    let rest = live_sockets c ids in if is_live (c.sockets id) then id ∷ rest else rest

-- disconnectSockets
unfoldable pub disconnect_sockets : Reason → List ℕ → Connections → Connections
disconnect_sockets reason [] c = c
disconnect_sockets reason (id ∷ ids) c = disconnect_sockets reason ids (close_socket reason id c)

unfoldable pub disconnect_session : ℕ → Connections → Connections
disconnect_session s c = disconnect_sockets session_revoked (live_sockets c (c.session_sockets s)) c

unfoldable pub disconnect_device : ℕ → Connections → Connections
disconnect_device d c = disconnect_sockets device_revoked (live_sockets c (c.device_sockets d)) c

unfoldable pub disconnect_user : ℕ → Connections → Connections
disconnect_user u c = disconnect_sockets user_revoked (live_sockets c (c.user_sockets u)) c

-- A manager without connections.
abbrev pub no_connections : Connections
no_connections = record {
  sockets = λ id. none;
  user_sockets = λ u. [];
  session_sockets = λ s. [];
  device_sockets = λ d. [];
  driver_sockets = λ d. none;
  timers = λ id. false;
  closed = [];
}
