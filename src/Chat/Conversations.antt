-- ===== src/Chat/Conversations.antt =====
-- src/modules/conversations/conversations.service.ts: createConversation, getUserConversations and
-- verifyConversationAccess. The names and messages that are included in the answers, and the order of the
-- list, are left out; the audit rows are those of CONVERSATION_CREATED, with the actor and the entity.
use be_distribution_system_a.Prelude.{
  ℕ, Bool, true, false, not, ◌&&◌, ◌||◌, Option, none, some, List, [], ◌∷◌, ◌++◌, ◌==◌, any,
  if◌then◌else◌,
}
use be_distribution_system_a.Prelude.Table.{find_by}
use be_distribution_system_a.Deliveries.Model.{Role, super_admin, admin, is_driver, DeliveryActor}
use be_distribution_system_a.Deliveries.Controllers.{is_operator}

-- model Conversation; the status is ACTIVE or another.
pub record Conversation : Type 0 where
  pub id : ℕ
  pub owner_id : ℕ
  pub driver_id : ℕ
  pub is_active : Bool

pub record ChatTables : Type 0 where
  pub drivers : List ℕ
  pub conversations : List Conversation
  pub audited : List (ℕ × ℕ)

pub data ChatAnswer : Type 0 where
  conversation : Conversation → ChatAnswer
  forbidden driver_not_found conversation_not_found resource_forbidden : ChatAnswer

abbrev pub conversation_key : Conversation → ℕ
conversation_key c = c.id

-- The unique index `ownerId_driverId`
abbrev pub is_between : ℕ → ℕ → Conversation → Bool
is_between owner driver c = c.owner_id == owner && c.driver_id == driver

unfoldable pub find_between : ℕ → ℕ → List Conversation → Option Conversation
find_between owner driver [] = none
find_between owner driver (c ∷ cs) =
    let rest = find_between owner driver cs in if is_between owner driver c then some c else rest

abbrev pub reopened : Conversation → Conversation
reopened c = record c { is_active = true }

-- The row that `upsert` updates or creates, under the id that is generated for it.
abbrev pub upserted : ℕ → ℕ → ℕ → Option Conversation → Conversation
upserted owner driver id none = record {
  id = id;
  owner_id = owner;
  driver_id = driver;
  is_active = true;
}
upserted owner driver id (some c) = reopened c

-- `conversation.upsert`
unfoldable pub upsert_between : ℕ → ℕ → ℕ → List Conversation → List Conversation
upsert_between owner driver id [] = upserted owner driver id none ∷ []
upsert_between owner driver id (c ∷ cs) =
    let rest = upsert_between owner driver id cs in
    if is_between owner driver c then reopened c ∷ cs else c ∷ rest

-- createConversation
unfoldable pub create_conversation : ℕ → DeliveryActor → ℕ → ChatTables → ChatAnswer × ChatTables
create_conversation driver a id t =
    let c = upserted a.user_id driver id (find_between a.user_id driver t.conversations) in
    if not (is_operator a.role)
    then (forbidden, t)
    else (if not (any (λ d. d == driver) t.drivers) then (driver_not_found, t) else (
      conversation c,
      record t {
        conversations = upsert_between a.user_id driver id t.conversations;
        audited = t.audited ++ (a.user_id, c.id) ∷ [];
      },
    ))

-- `findMany({ where: … })`
unfoldable pub select : (Conversation → Bool) → List Conversation → List Conversation
select q [] = []
select q (c ∷ cs) = let rest = select q cs in if q c then c ∷ rest else rest

abbrev pub conversations_of_driver : Option ℕ → ChatTables → List Conversation
conversations_of_driver none t = []
conversations_of_driver (some d) t = select (λ c. c.driver_id == d && c.is_active) t.conversations

-- getUserConversations
unfoldable pub get_user_conversations : DeliveryActor → ChatTables → List Conversation
get_user_conversations a t =
    let owned = select (λ c. c.owner_id == a.user_id && c.is_active) t.conversations in
    if is_driver a.role then conversations_of_driver a.driver_id t else owned

abbrev pub is_admin : Role → Bool
is_admin super_admin = true
is_admin admin = true
is_admin _ = false

-- `actor.driverId && conversation.driverId === actor.driverId`
abbrev pub drives_for : Option ℕ → Conversation → Bool
drives_for none c = false
drives_for (some d) c = c.driver_id == d

-- `isOwner || isDriver`
abbrev pub is_participant : DeliveryActor → Conversation → Bool
is_participant a c = c.owner_id == a.user_id || drives_for a.driver_id c

-- verifyConversationAccess once the conversation is read
unfoldable pub access_to : DeliveryActor → Option Conversation → ChatAnswer
access_to a none = conversation_not_found
access_to a (some c) =
    if is_admin a.role
    then conversation c
    else (if not (is_participant a c) then resource_forbidden else conversation c)

-- verifyConversationAccess
unfoldable pub verify_conversation_access : ℕ → DeliveryActor → ChatTables → ChatAnswer
verify_conversation_access k a t = access_to a (find_by conversation_key k t.conversations)
