-- ===== src/Realtime/Rooms.antt =====
-- src/modules/realtime/services/ws-room-authorizer.service.ts. A room name is what `authorizeRoomJoin`
-- reads off its parts, `none` being an empty id; the conversations and call sessions are tables of
-- their own.
use be_distribution_system_a.Prelude.{
  ℕ, Bool, true, false, ◌||◌, Option, none, some, List, ◌==◌, if◌then◌else◌, both_same,
}
use be_distribution_system_a.Prelude.Table.{find_by}
use be_distribution_system_a.Deliveries.Model.{
  Role, super_admin, admin, owner, driver, other_role, DeliveryActor, Delivery,
}
use be_distribution_system_a.Deliveries.World.{delivery_key}

pub data RoomName : Type 0 where
  delivery_name conversation_name session_name : Option ℕ → RoomName
  fleet_name : RoomName
  unknown_name : RoomName

-- `conversation` and `realtimeSession`, as they are selected.
pub record Participants : Type 0 where
  pub id : ℕ
  pub owner_id : ℕ
  pub driver_id : Option ℕ

pub record RoomTables : Type 0 where
  pub deliveries : List Delivery
  pub conversations : List Participants
  pub call_sessions : List Participants

pub data Denial : Type 0 where
  unknown_room_pattern missing_id not_found room_access_denied : Denial

-- interface RoomAuthorizationResult
pub data Authorization : Type 0 where
  authorized : Authorization
  refused : Denial → Authorization

abbrev pub permit_if : Bool → Authorization
permit_if b = if b then authorized else refused room_access_denied

-- The rules of a delivery's room, by the role.
unfoldable pub delivery_rule : DeliveryActor → Role → Delivery → Authorization
delivery_rule a super_admin d = authorized
delivery_rule a admin d = authorized
delivery_rule a owner d =
    permit_if (d.created_by == a.user_id || both_same a.organization_id d.organization_id)
delivery_rule a driver d = permit_if (both_same a.driver_id d.driver_id)
delivery_rule a (other_role r) d = refused room_access_denied

-- authorizeDeliveryRoom
unfoldable pub authorize_delivery_room : DeliveryActor → Option ℕ → RoomTables → Authorization
authorize_delivery_room a none t = refused missing_id
authorize_delivery_room a (some k) t = elim (find_by delivery_key k t.deliveries) [
  | none ↦ refused not_found
  | some d ↦ delivery_rule a a.role d
]

abbrev pub participants_key : Participants → ℕ
participants_key c = c.id

abbrev pub takes_part : DeliveryActor → Participants → Bool
takes_part a c = c.owner_id == a.user_id || both_same a.driver_id c.driver_id

unfoldable pub authorize_participants : DeliveryActor → Option Participants → Authorization
authorize_participants a none = refused not_found
authorize_participants a (some c) = permit_if (takes_part a c)

-- authorizeConversationRoom
unfoldable pub authorize_conversation_room : DeliveryActor → Option ℕ → RoomTables → Authorization
authorize_conversation_room a none t = refused missing_id
authorize_conversation_room a (some k) t =
    authorize_participants a (find_by participants_key k t.conversations)

abbrev pub is_administrator : Role → Bool
is_administrator super_admin = true
is_administrator admin = true
is_administrator _ = false

-- authorizeRealtimeSessionRoom
unfoldable pub authorize_session_room : DeliveryActor → Option ℕ → RoomTables → Authorization
authorize_session_room a none t = refused missing_id
authorize_session_room a (some k) t =
    let found = authorize_participants a (find_by participants_key k t.call_sessions) in
    if is_administrator a.role then authorized else found

-- authorizeFleetMonitoringRoom
unfoldable pub authorize_fleet_room : Role → Authorization
authorize_fleet_room super_admin = authorized
authorize_fleet_room admin = authorized
authorize_fleet_room owner = authorized
authorize_fleet_room _ = refused room_access_denied

-- authorizeRoomJoin, for a socket that has a user and a name that is not blank
unfoldable pub authorize_room_join : DeliveryActor → RoomName → RoomTables → Authorization
authorize_room_join a (delivery_name o) t = authorize_delivery_room a o t
authorize_room_join a (conversation_name o) t = authorize_conversation_room a o t
authorize_room_join a (session_name o) t = authorize_session_room a o t
authorize_room_join a fleet_name t = authorize_fleet_room a.role
authorize_room_join a unknown_name t = refused unknown_room_pattern
