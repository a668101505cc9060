-- ===== src/Chat/Scenarios.antt =====
-- The owner 20 chats with driver 7.
use be_distribution_system_a.Prelude.{
  ◌≡◌, refl, true, ◌||◌, none, some, [], ◌∷◌, map, if◌then◌else◌,
}
use be_distribution_system_a.Prelude.Table.{find_by}
use be_distribution_system_a.Deliveries.Model.{DeliveryActor, admin}
use be_distribution_system_a.Realtime.Rooms.{
  RoomTables, authorize_room_join, conversation_name, permit_if,
}
use be_distribution_system_a.Chat.Conversations.{
  Conversation, ChatTables, conversation, resource_forbidden, is_admin, is_participant,
  verify_conversation_access,
}
use be_distribution_system_a.Chat.Access.{participants, conversation_scope}

abbrev chat : Conversation
chat = record { id = 9; owner_id = 20; driver_id = 7; is_active = true }

abbrev chats : ChatTables
chats = record { drivers = 7 ∷ 8 ∷ []; conversations = chat ∷ []; audited = [] }

abbrev rooms : RoomTables
rooms = record { deliveries = []; conversations = map participants (chat ∷ []); call_sessions = [] }

abbrev an_admin : DeliveryActor
an_admin = record { user_id = 1; role = admin; driver_id = none; organization_id = none }

conversation_scope_example :
    (authorize_room_join an_admin (conversation_name (some 9)) rooms
      ≡ permit_if (is_participant an_admin chat))
    × (verify_conversation_access 9 an_admin chats ≡ (
        if is_admin admin || is_participant an_admin chat
        then conversation chat
        else resource_forbidden))
unfolding find_by
conversation_scope_example = conversation_scope 9 an_admin rooms chats chat refl refl
