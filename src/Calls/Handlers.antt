-- ===== src/Calls/Handlers.antt =====
-- src/modules/communication/services/call-session.service.ts: the handlers. The audit rows and the TURN
-- credentials are left out; the count of the rate limit, the id of a new session and the time are
-- arguments.
use be_distribution_system_a.Prelude.{
  ℕ, Bool, not, ◌||◌, Option, none, some, List, ◌==◌, ltb, leb, if◌then◌else◌, is_some_of,
}
use be_distribution_system_a.Prelude.Table.{find_by, count_by}
use be_distribution_system_a.Deliveries.Model.{Delivery}
use be_distribution_system_a.Deliveries.World.{delivery_key}
use be_distribution_system_a.Calls.Service.{
  CallStatus, CallSession, CallActor, InitiateCallDto, CallAction, CallError, CallAnswer, CallWorld,
  call_key, is_pending, is_in_call, is_ended, is_staff, is_owner, is_authorized_participant,
  new_call, may_respond, may_time_out, write, told, active, declined, accept, decline, forbidden,
  rate_limit_exceeded, resource_forbidden, driver_delivery_mismatch, driver_not_found,
  call_session_not_found, call_session_expired, invalid_call_state, done, failed, call_invite,
  call_respond, call_ended, invites, responds, ends, times_out,
}

-- The delivery of a request of an owner.
abbrev pub delivery_check : InitiateCallDto → CallActor → Option Delivery → Option CallError
delivery_check dto a none = some resource_forbidden
delivery_check dto a (some d) =
    if not (d.created_by == a.user_id)
    then some resource_forbidden
    else (if is_some_of dto.driver_id d.driver_id then none else some driver_delivery_mismatch)

abbrev pub owner_check : InitiateCallDto → CallActor → List Delivery → Option ℕ → Option CallError
owner_check dto a ds none = none
owner_check dto a ds (some k) =
    if is_owner a.role then delivery_check dto a (find_by delivery_key k ds) else none

-- The checks of `initiateCallSession`; `has_driver` is the look-up in the table of drivers.
unfoldable pub check_invite :
    (ℕ → Bool) → List Delivery → ℕ → InitiateCallDto → CallActor → Option CallError
check_invite has_driver ds rate dto a =
    if not (is_owner a.role || is_staff a.role)
    then some forbidden
    else (if ltb 3 rate
        then some rate_limit_exceeded
        else (elim (owner_check dto a ds dto.delivery_id) [
          | some e ↦ some e
          | none ↦ if has_driver dto.driver_id then none else some driver_not_found
        ]))

unfoldable pub initiate_call_session :
    (ℕ → Bool)
    → List Delivery
    → ℕ
    → ℕ
    → ℕ
    → InitiateCallDto
    → CallActor
    → CallWorld
    → CallAnswer × CallWorld
initiate_call_session has_driver ds rate k now dto a w =
    elim (check_invite has_driver ds rate dto a) [
      | some e ↦ (failed e, w)
      | none ↦
          (done (new_call k dto a now), told (invites k dto a now) (call_invite k dto.driver_id) w)
    ]

-- The session that a handler loads, and its participants.
unfoldable pub load_call : ℕ → CallActor → List CallSession → CallAnswer
load_call k a ss = elim (find_by call_key k ss) [
  | none ↦ failed call_session_not_found
  | some s ↦ if is_authorized_participant s a then done s else failed resource_forbidden
]

-- The answer of a claim that has found no row to update.
abbrev pub lost_claim : ℕ → Option CallSession → CallError
lost_claim now none = invalid_call_state
lost_claim now (some s) = if leb s.expires_at now then call_session_expired else invalid_call_state

abbrev pub stored_call : ℕ → List CallSession → CallSession → CallSession
stored_call k ss s = elim (find_by call_key k ss) [ none ↦ s | some u ↦ u ]

abbrev pub status_of : CallAction → CallStatus
status_of accept = active
status_of decline = declined

-- `respondToCallSession` from the claim on.
unfoldable pub claim_response :
    ℕ → CallAction → ℕ → CallSession → CallWorld → CallAnswer × CallWorld
claim_response k action now s w =
    if count_by call_key k (may_respond now) w.sessions == 1
    then (
      done (stored_call k (write (responds k action now) w.sessions) s),
      told (responds k action now) (call_respond k (status_of action)) w,
    )
    else (failed (lost_claim now (find_by call_key k w.sessions)), w)

unfoldable pub respond_to_call_session :
    ℕ → CallAction → CallActor → ℕ → CallWorld → CallAnswer × CallWorld
respond_to_call_session k action a now w = elim (load_call k a w.sessions) [
  | failed e ↦ (failed e, w)
  | done s ↦
      if leb s.expires_at now
      then (failed call_session_expired, w)
      else (if is_pending s.status
          then claim_response k action now s w
          else (failed invalid_call_state, w))
]

unfoldable pub end_call_session : ℕ → CallActor → ℕ → CallWorld → CallAnswer × CallWorld
end_call_session k a now w = elim (load_call k a w.sessions) [
  | failed e ↦ (failed e, w)
  | done s ↦ if is_ended s.status then (done s, w) else (
    done (stored_call k (write (ends k now) w.sessions) s),
    told (ends k now) (call_ended k) w,
  )
]

unfoldable pub authorize_signal : ℕ → CallActor → ℕ → List CallSession → CallAnswer
authorize_signal k a now ss = elim (load_call k a ss) [
  | failed e ↦ failed e
  | done s ↦
      if not (is_in_call s.status) || leb s.expires_at now
      then failed invalid_call_state
      else done s
]

-- handlePendingTimeout, with `claimed.count === 1` for the notice
unfoldable pub handle_pending_timeout : ℕ → ℕ → CallWorld → CallWorld
handle_pending_timeout k now w = elim (find_by call_key k w.sessions) [
  | none ↦ w
  | some s ↦
      if not (is_pending s.status)
      then w
      else (if count_by call_key k (may_time_out now) w.sessions == 1
          then told (times_out k now) (call_ended k) w
          else record w { sessions = write (times_out k now) w.sessions })
]
