-- ===== src/Calls/Service.antt =====
-- src/modules/communication/services/call-session.service.ts: the rows, and the writes of the handlers.
use be_distribution_system_a.Prelude.{
  ℕ, ◌+◌, ◌*◌, Bool, true, false, ◌&&◌, ◌||◌, Option, none, some, List, [], ◌∷◌, ◌++◌, ◌==◌, ltb,
  leb, is_some_of,
}
use be_distribution_system_a.Prelude.Table.{update_by}
use be_distribution_system_a.Deliveries.Model.{Role, super_admin, admin, owner}

-- enum RealtimeSessionType
pub data CallKind : Type 0 where
  voice_ptt video : CallKind

-- enum RealtimeSessionStatus
pub data CallStatus : Type 0 where
  pending active declined timeout ended : CallStatus

-- model RealtimeSession
pub record CallSession : Type 0 where
  pub id : ℕ
  pub kind : CallKind
  pub owner_id : ℕ
  pub driver_id : ℕ
  pub delivery_id : Option ℕ
  pub status : CallStatus
  pub expires_at : ℕ
  pub started_at : Option ℕ
  pub ended_at : Option ℕ

-- interface UserActor
pub record CallActor : Type 0 where
  pub user_id : ℕ
  pub role : Role
  pub driver_id : Option ℕ

-- class InitiateCallDto
pub record InitiateCallDto : Type 0 where
  pub driver_id : ℕ
  pub kind : CallKind
  pub delivery_id : Option ℕ

pub data CallAction : Type 0 where
  accept decline : CallAction

pub data CallError : Type 0 where
  forbidden rate_limit_exceeded resource_forbidden driver_delivery_mismatch : CallError
  driver_not_found call_session_not_found call_session_expired invalid_call_state : CallError

pub data CallAnswer : Type 0 where
  done : CallSession → CallAnswer
  failed : CallError → CallAnswer

-- The messages of the gateway: `webrtc.call.invite`, `webrtc.call.respond` and `webrtc.call.ended`.
pub data CallNotice : Type 0 where
  call_invite : ℕ → ℕ → CallNotice
  call_respond : ℕ → CallStatus → CallNotice
  call_ended : ℕ → CallNotice

pub record CallWorld : Type 0 where
  pub sessions : List CallSession
  pub notices : List CallNotice

abbrev pub call_key : CallSession → ℕ
call_key s = s.id

abbrev pub is_pending : CallStatus → Bool
is_pending pending = true
is_pending _ = false

abbrev pub is_in_call : CallStatus → Bool
is_in_call active = true
is_in_call _ = false

abbrev pub is_ended : CallStatus → Bool
is_ended ended = true
is_ended _ = false

abbrev active_call_lifetime : ℕ
active_call_lifetime = 60 * 60 * 1000

abbrev pub pending_timeout : ℕ
pending_timeout = 30000

abbrev pub is_staff : Role → Bool
is_staff super_admin = true
is_staff admin = true
is_staff _ = false

abbrev pub is_owner : Role → Bool
is_owner owner = true
is_owner _ = false

-- isAuthorizedParticipant
unfoldable pub is_authorized_participant : CallSession → CallActor → Bool
is_authorized_participant s a =
    is_staff a.role || s.owner_id == a.user_id || is_some_of s.driver_id a.driver_id

-- The writes of the handlers, each of them one statement of the database.
pub data CallWrite : Type 0 where
  invites : ℕ → InitiateCallDto → CallActor → ℕ → CallWrite
  responds : ℕ → CallAction → ℕ → CallWrite
  ends : ℕ → ℕ → CallWrite
  times_out : ℕ → ℕ → CallWrite

unfoldable pub new_call : ℕ → InitiateCallDto → CallActor → ℕ → CallSession
new_call k dto actor now = record {
  id = k;
  kind = dto.kind;
  owner_id = actor.user_id;
  driver_id = dto.driver_id;
  delivery_id = dto.delivery_id;
  status = pending;
  expires_at = now + pending_timeout;
  started_at = none;
  ended_at = none;
}

-- `where: { status: 'PENDING', expiresAt: { gt: now } }` and `{ lte: now }`
abbrev pub may_respond : ℕ → CallSession → Bool
may_respond now s = is_pending s.status && ltb now s.expires_at

abbrev pub may_time_out : ℕ → CallSession → Bool
may_time_out now s = is_pending s.status && leb s.expires_at now

abbrev pub with_response : CallAction → ℕ → CallSession → CallSession
with_response accept now s = record s {
  status = active;
  started_at = some now;
  expires_at = now + active_call_lifetime;
}
with_response decline now s = record s { status = declined; started_at = none }

abbrev pub hung_up : ℕ → CallSession → CallSession
hung_up now s = record s { status = ended; ended_at = some now }

abbrev pub timed_out : CallSession → CallSession
timed_out s = record s { status = timeout }

unfoldable pub write : CallWrite → List CallSession → List CallSession
write (invites k dto actor now) ss = ss ++ new_call k dto actor now ∷ []
write (responds k action now) ss =
    update_by call_key k (may_respond now) (with_response action now) ss
write (ends k now) ss = update_by call_key k (λ s. true) (hung_up now) ss
write (times_out k now) ss = update_by call_key k (may_time_out now) timed_out ss

abbrev pub told : CallWrite → CallNotice → CallWorld → CallWorld
told x n w = record w { sessions = write x w.sessions; notices = w.notices ++ n ∷ [] }
