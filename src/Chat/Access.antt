-- ===== src/Chat/Access.antt =====
-- Who has access to a conversation, after its creation, over REST and over sockets.
use be_distribution_system_a.Prelude.{
  ℕ, ◌≡◌, refl, ◌∙◌, sym, ap, true, false, ◌||◌, ◌==◌, Option, none, some, List, [], ◌∷◌, map, any,
  arith, if◌then◌else◌,
}
use mathlib.Core.Option
use be_distribution_system_a.Prelude.Table.{find_by, IsUnique}
use be_distribution_system_a.Deliveries.Model.{DeliveryActor}
use be_distribution_system_a.Deliveries.Controllers.{is_operator}
use be_distribution_system_a.Realtime.Rooms.{
  RoomTables, Participants, participants_key, permit_if, authorize_room_join, conversation_name,
  authorize_conversation_room, authorize_participants, takes_part,
}
use be_distribution_system_a.Chat.Conversations.{
  Conversation, ChatTables, conversation, conversation_key, resource_forbidden, find_between,
  upserted, upsert_between, create_conversation, is_admin, is_participant, access_to,
  verify_conversation_access,
}

-- What the authorizer selects of a conversation.
abbrev pub participants : Conversation → Participants
participants c = record { id = c.id; owner_id = c.owner_id; driver_id = some c.driver_id }

find_participants :
    (k : ℕ) (cs : List Conversation)
    → find_by participants_key k (map participants cs)
      ≡ Option.map participants (find_by conversation_key k cs)
unfolding find_by
find_participants k [] = refl
find_participants k (c ∷ cs) = ground (arith, find_participants k cs)

takes_part-participants :
    (a : DeliveryActor) (o : Option ℕ) (c : Conversation)
    → a.driver_id ≡ o
    → takes_part a (participants c) ≡ is_participant a c
takes_part-participants a none c e = ground (arith, e)
takes_part-participants a (some d) c e = ground (arith, e)

-- When the authorizer and the service see the same conversations, for a conversation that is there: its
-- room is open exactly to its owner and to its driver, and verifyConversationAccess answers with it
-- exactly for these and for admins, who do not get into the room of a conversation of others.
pub conversation_scope :
    (k : ℕ) (a : DeliveryActor) (r : RoomTables) (t : ChatTables) (c : Conversation)
    → r.conversations ≡ map participants t.conversations
    → find_by conversation_key k t.conversations ≡ some c
    → (authorize_room_join a (conversation_name (some k)) r ≡ permit_if (is_participant a c))
      × (verify_conversation_access k a t
          ≡ (if is_admin a.role || is_participant a c then conversation c else resource_forbidden))
unfolding authorize_room_join authorize_conversation_room authorize_participants
    verify_conversation_access access_to
conversation_scope k a r t c same found = (
  ap (λ l. authorize_participants a (find_by participants_key k l)) same
      ∙ ap (authorize_participants a) (find_participants k t.conversations)
      ∙ ap (λ o. authorize_participants a (Option.map participants o)) found
      ∙ ap permit_if (takes_part-participants a a.driver_id c refl),
  rw found (ground arith),
)

find_between-upsert :
    (owner driver id : ℕ) (cs : List Conversation)
    → find_between owner driver (upsert_between owner driver id cs)
      ≡ some (upserted owner driver id (find_between owner driver cs))
unfolding find_between upsert_between
find_between-upsert owner driver id [] = ground arith
find_between-upsert owner driver id (c ∷ cs) =
    ground (arith, find_between-upsert owner driver id cs)

-- A row that is found is none whose id is absent.
found-id :
    (owner driver k : ℕ) (cs : List Conversation) (c : Conversation)
    → find_by conversation_key k cs ≡ none
    → find_between owner driver cs ≡ some c
    → (k == c.id) ≡ false
unfolding find_between find_by
found-id owner driver k [] c absent e = cc
found-id owner driver k (x ∷ cs) c absent e = ground (arith, found-id owner driver k cs c)

-- The row that is written has an id that no row before it has.
written-id :
    (owner driver id k : ℕ) (cs : List Conversation) (o : Option Conversation)
    → find_between owner driver cs ≡ o
    → find_by conversation_key k cs ≡ none
    → (k == id) ≡ false
    → (k == (upserted owner driver id o).id) ≡ false
written-id owner driver id k cs none e absent other = other
written-id owner driver id k cs (some c) e absent other = found-id owner driver k cs c absent e

find_by-upsert :
    (owner driver id : ℕ) (cs : List Conversation)
    → IsUnique conversation_key cs
    → find_by conversation_key id cs ≡ none
    → let c = upserted owner driver id (find_between owner driver cs) in
      find_by conversation_key c.id (upsert_between owner driver id cs) ≡ some c
unfolding find_by find_between upsert_between
find_by-upsert owner driver id [] unique fresh = ground arith
find_by-upsert owner driver id (x ∷ cs) (first, rest) fresh = ground (
  arith,
  find_by-upsert owner driver id cs rest,
  written-id owner driver id x.id cs (find_between owner driver cs) refl first,
)

parties :
    (owner driver : ℕ) (cs : List Conversation) (c : Conversation)
    → find_between owner driver cs ≡ some c
    → (c.owner_id ≡ owner) × (c.driver_id ≡ driver)
unfolding find_between
parties owner driver [] c e = cc
parties owner driver (x ∷ cs) c e = ground (arith, parties owner driver cs c)

-- What a creation that is carried out answers and leaves.
created_row :
    (driver id : ℕ) (a : DeliveryActor) (t t' : ChatTables) (c : Conversation)
    → create_conversation driver a id t ≡ (conversation c, t')
    → (c ≡ upserted a.user_id driver id (find_between a.user_id driver t.conversations))
      × (t'.conversations ≡ upsert_between a.user_id driver id t.conversations)
      × (t'.drivers ≡ t.drivers)
      × (is_operator a.role ≡ true)
      × (any (λ d. d == driver) t.drivers ≡ true)
unfolding create_conversation
created_row driver id a t t' c h = ground arith

created_parties :
    (owner driver id : ℕ) (cs : List Conversation) (o : Option Conversation)
    → find_between owner driver cs ≡ o
    → ((upserted owner driver id o).owner_id ≡ owner)
      × ((upserted owner driver id o).driver_id ≡ driver)
      × ((upserted owner driver id o).is_active ≡ true)
created_parties owner driver id cs none e = (refl, refl, refl)
created_parties owner driver id cs (some c) e =
    let (p, q) = parties owner driver cs c e in (p, q, refl)

-- When the ids of conversations are unique and the id that is generated is new: a conversation that has
-- been created is active and between the actor and the driver; verifyConversationAccess then answers
-- the actor with it, and everyone who has this driver's profile, whatever their roles.
created_access :
    (driver id : ℕ) (a b : DeliveryActor) (t t' : ChatTables) (c : Conversation)
    → IsUnique conversation_key t.conversations
    → find_by conversation_key id t.conversations ≡ none
    → b.driver_id ≡ some driver
    → create_conversation driver a id t ≡ (conversation c, t')
    → (c.owner_id ≡ a.user_id)
      × (c.driver_id ≡ driver)
      × (c.is_active ≡ true)
      × (verify_conversation_access c.id a t' ≡ conversation c)
      × (verify_conversation_access c.id b t' ≡ conversation c)
unfolding verify_conversation_access access_to
created_access driver id a b t t' c unique fresh drives h =
    let (row, stored, _, _, _) = created_row driver id a t t' c h in
    let cs = t.conversations in
    let (p, q, r) =
      created_parties a.user_id driver id cs (find_between a.user_id driver cs) refl in
    let found : find_by conversation_key c.id t'.conversations ≡ some c =
      ap (find_by conversation_key c.id) stored
      ∙ ap (λ x. find_by conversation_key x.id (upsert_between a.user_id driver id cs)) row
      ∙ find_by-upsert a.user_id driver id cs unique fresh
      ∙ ap some (sym row) in
    (
      ap (λ x. x.owner_id) row ∙ p,
      ap (λ x. x.driver_id) row ∙ q,
      ap (λ x. x.is_active) row ∙ r,
      rw found (ground (arith, row, p)),
      rw found (ground (arith, row, q, drives)),
    )

upsert_twice :
    (owner driver id id' : ℕ) (cs : List Conversation)
    → upsert_between owner driver id' (upsert_between owner driver id cs)
      ≡ upsert_between owner driver id cs
unfolding upsert_between
upsert_twice owner driver id id' [] = ground arith
upsert_twice owner driver id id' (c ∷ cs) = ground (arith, upsert_twice owner driver id id' cs)

-- A creation by a role that may create, for a driver that is there.
creates :
    (driver id : ℕ) (a : DeliveryActor) (t : ChatTables)
    → is_operator a.role ≡ true
    → any (λ d. d == driver) t.drivers ≡ true
    → ((create_conversation driver a id t).0
        ≡ conversation
            (upserted a.user_id driver id (find_between a.user_id driver t.conversations)))
      × ((create_conversation driver a id t).1.conversations
          ≡ upsert_between a.user_id driver id t.conversations)
unfolding create_conversation
creates driver id a t r d = (rw (r, d) refl, rw (r, d) refl)

-- An actor who creates a conversation again, after one that has been created with the same driver, is
-- answered with the same conversation, and the conversations stay as they are.
create_twice :
    (driver id id' : ℕ) (a : DeliveryActor) (t t' : ChatTables) (c : Conversation)
    → create_conversation driver a id t ≡ (conversation c, t')
    → ((create_conversation driver a id' t').0 ≡ conversation c)
      × ((create_conversation driver a id' t').1.conversations ≡ t'.conversations)
create_twice driver id id' a t t' c h =
    let (row, stored, same, role, known) = created_row driver id a t t' c h in
    let cs = t.conversations in
    let again : find_between a.user_id driver t'.conversations ≡ some c =
      ap (find_between a.user_id driver) stored
      ∙ find_between-upsert a.user_id driver id cs
      ∙ ap some (sym row) in
    let (_, _, active) =
      created_parties a.user_id driver id cs (find_between a.user_id driver cs) refl in
    let (answer, rows) =
      creates driver id' a t' role (ap (λ ds. any (λ d. d == driver) ds) same ∙ known) in
    (
      answer
          ∙ ap (λ o. conversation (upserted a.user_id driver id' o)) again
          ∙ ap (λ b. conversation (record c { is_active = b }))
              (sym (ap (λ x. x.is_active) row ∙ active)),
      rows
          ∙ ap (upsert_between a.user_id driver id') stored
          ∙ upsert_twice a.user_id driver id id' cs
          ∙ sym stored,
    )
