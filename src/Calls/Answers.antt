-- ===== src/Calls/Answers.antt =====
-- The answers to a call: the response of the driver, the signals and the watchdog.
use be_distribution_system_a.Prelude.{
  ℕ, ◌+◌, ◌≤◌, ◌≡◌, refl, ◌∙◌, ap, Bool, true, false, ◌||◌, none, some, List, [], ◌∷◌, ◌++◌, ◌==◌,
  leb, if◌then◌else◌, any, arith, Bool-cases, Option-cases, inl, inr,
}
use be_distribution_system_a.Prelude.Table.{find_by, find_by-key, find_by-append_none}
use be_distribution_system_a.Deliveries.Model.{Delivery}
use be_distribution_system_a.Calls.Service.{
  CallSession, CallActor, CallAction, accept, decline, InitiateCallDto, CallAnswer, done, failed,
  CallWrite, invites, responds, ends, times_out, CallWorld, call_key, is_pending, is_in_call,
  may_respond, pending_timeout, new_call, write,
}
use be_distribution_system_a.Calls.Handlers.{
  check_invite, initiate_call_session, load_call, claim_response, respond_to_call_session,
  authorize_signal, handle_pending_timeout,
}
use be_distribution_system_a.Calls.Evolution.{
  effect, effects, run, find-effects, effects_move, settled, effects_pending, find-effect,
}

abbrev pub is_done : CallAnswer → Bool
is_done (done s) = true
is_done (failed e) = false

-- A response that succeeds has claimed a pending session.
responded_row :
    (k : ℕ) (action : CallAction) (a : CallActor) (now : ℕ) (w w' : CallWorld) (r : CallSession)
    → respond_to_call_session k action a now w ≡ (done r, w')
    → (s : CallSession) × (find_by call_key k w.sessions ≡ some s)
      × (may_respond now s ≡ true)
      × (w'.sessions ≡ write (responds k action now) w.sessions)
unfolding respond_to_call_session load_call claim_response
responded_row k action a now w w' r h = elim (Option-cases (find_by call_key k w.sessions)) [
  | inl e ↦ absurd (ground arith)
  | inr (s, e) ↦ (s, e, ground arith, ground arith)
]

settled_response :
    (k : ℕ) (action : CallAction) (now : ℕ) (s : CallSession)
    → s.id ≡ k
    → may_respond now s ≡ true
    → is_pending (effect (responds k action now) s).status ≡ false
settled_response k accept now s e h = ground arith
settled_response k decline now s e h = ground arith

refused_response :
    (k : ℕ) (action : CallAction) (a : CallActor) (now : ℕ) (w : CallWorld) (s : CallSession)
    → find_by call_key k w.sessions ≡ some s
    → is_pending s.status ≡ false
    → (is_done (respond_to_call_session k action a now w).0 ≡ false)
      × ((respond_to_call_session k action a now w).1 ≡ w)
unfolding respond_to_call_session load_call
refused_response k action a now w s e h = (ground arith, ground arith)

-- A call is answered once: if a response has succeeded, then after any list of writes every further
-- response, of any actor, with any action and at any time, fails and changes nothing.
pub respond_once :
    (k : ℕ) (action action' : CallAction) (a a' : CallActor) (now now' : ℕ) (w w' : CallWorld)
    (r : CallSession) (xs : List CallWrite)
    → respond_to_call_session k action a now w ≡ (done r, w')
    → let later = record w' { sessions = run xs w'.sessions } in
      (is_done (respond_to_call_session k action' a' now' later).0 ≡ false)
      × ((respond_to_call_session k action' a' now' later).1 ≡ later)
respond_once k action action' a a' now now' w w' r xs h =
    let (s, found, may, stored) = responded_row k action a now w w' r h in
    let s' = effect (responds k action now) s in
    let row =
      ap (find_by call_key k) stored ∙ find-effect k (responds k action now) w.sessions s found in
    refused_response k action' a' now' (record w' { sessions = run xs w'.sessions }) (effects xs s')
      (find-effects k xs w'.sessions s' row)
      (settled (effects_move xs s')
        (settled_response k action now s (find_by-key call_key k w.sessions s found) may))

-- The row of a new call.
invited_writes :
    (has_driver : ℕ → Bool) (ds : List Delivery) (rate k now : ℕ) (dto : InitiateCallDto)
    (a : CallActor) (w w' : CallWorld) (r : CallSession)
    → initiate_call_session has_driver ds rate k now dto a w ≡ (done r, w')
    → w'.sessions ≡ w.sessions ++ new_call k dto a now ∷ []
unfolding initiate_call_session write
invited_writes has_driver ds rate k now dto a w w' r h =
    elim (Option-cases (check_invite has_driver ds rate dto a)) [
      | inl e ↦ ground arith
      | inr (c, e) ↦ absurd (ground arith)
    ]

invited_row :
    (has_driver : ℕ → Bool) (ds : List Delivery) (rate k now : ℕ) (dto : InitiateCallDto)
    (a : CallActor) (w w' : CallWorld) (r : CallSession)
    → find_by call_key k w.sessions ≡ none
    → initiate_call_session has_driver ds rate k now dto a w ≡ (done r, w')
    → find_by call_key k w'.sessions ≡ some (new_call k dto a now)
unfolding new_call find_by
invited_row has_driver ds rate k now dto a w w' r fresh h =
    ap (find_by call_key k) (invited_writes has_driver ds rate k now dto a w w' r h)
    ∙ find_by-append_none call_key k w.sessions (new_call k dto a now ∷ []) fresh
    ∙ ground arith

watchdog_writes :
    (k now : ℕ) (w : CallWorld) (s : CallSession)
    → find_by call_key k w.sessions ≡ some s
    → (handle_pending_timeout k now w).sessions
      ≡ (if is_pending s.status then write (times_out k now) w.sessions else w.sessions)
unfolding handle_pending_timeout
watchdog_writes k now w s e = ground arith

timed_out_row :
    (k now : ℕ) (w : CallWorld) (s : CallSession)
    → find_by call_key k w.sessions ≡ some s
    → (is_pending s.status ≡ true → leb s.expires_at now ≡ true)
    → (s' : CallSession) × (find_by call_key k (handle_pending_timeout k now w).sessions ≡ some s')
      × (is_pending s'.status ≡ false)
timed_out_row k now w s e h = elim (Bool-cases (is_pending s.status)) [
  | inl p ↦ (
    effect (times_out k now) s,
    ap (find_by call_key k) (watchdog_writes k now w s e ∙ ground arith)
        ∙ find-effect k (times_out k now) w.sessions s e,
    ground (arith, h p, find_by-key call_key k w.sessions s e),
  )
  | inr p ↦ (s, ap (find_by call_key k) (watchdog_writes k now w s e ∙ ground arith) ∙ e, p)
]

-- A call does not ring for ever: when a call has been initiated under a new id, then after any list of
-- writes the watchdog, at a time when thirty seconds have passed, leaves a session that is not
-- pending.
pub watchdog_settles :
    (has_driver : ℕ → Bool) (ds : List Delivery) (rate k now later : ℕ) (dto : InitiateCallDto)
    (a : CallActor) (w w' : CallWorld) (r : CallSession) (xs : List CallWrite)
    → find_by call_key k w.sessions ≡ none
    → initiate_call_session has_driver ds rate k now dto a w ≡ (done r, w')
    → now + pending_timeout ≤ later
    → let after = handle_pending_timeout k later (record w' { sessions = run xs w'.sessions }) in
      (s : CallSession) × (find_by call_key k after.sessions ≡ some s)
      × (is_pending s.status ≡ false)
unfolding new_call
watchdog_settles has_driver ds rate k now later dto a w w' r xs fresh h late =
    let s = new_call k dto a now in
    let row = invited_row has_driver ds rate k now dto a w w' r fresh h in
    timed_out_row k later (record w' { sessions = run xs w'.sessions }) (effects xs s)
      (find-effects k xs w'.sessions s row)
      (λ p. ap (λ x. leb x.expires_at later) (effects_pending xs s p) ∙ ground arith)

-- The writes that accept a call.
abbrev pub accepts : ℕ → CallWrite → Bool
accepts k (responds j accept now) = j == k
accepts k _ = false

effect_in_call :
    (k : ℕ) (x : CallWrite) (s : CallSession)
    → s.id ≡ k
    → is_in_call (effect x s).status ≡ true
    → (accepts k x || is_in_call s.status) ≡ true
effect_in_call k (invites j dto actor now) s e h = h
effect_in_call k (responds j accept now) s e h = ground arith
effect_in_call k (responds j decline now) s e h = ground arith
effect_in_call k (ends j now) s e h = ground arith
effect_in_call k (times_out j now) s e h = ground arith

effect_id : (x : CallWrite) (s : CallSession) → (effect x s).id ≡ s.id
effect_id (invites j dto actor now) s = refl
effect_id (responds j accept now) s = ground arith
effect_id (responds j decline now) s = ground arith
effect_id (ends j now) s = ground arith
effect_id (times_out j now) s = ground arith

effects_in_call :
    (k : ℕ) (xs : List CallWrite) (s : CallSession)
    → s.id ≡ k
    → is_in_call (effects xs s).status ≡ true
    → (any (accepts k) xs || is_in_call s.status) ≡ true
effects_in_call k [] s e h = h
effects_in_call k (x ∷ xs) s e h =
    let rest = effects_in_call k xs (effect x s) (effect_id x s ∙ e) h in
    ground (arith, rest, effect_in_call k x s e)

signalled_row :
    (k now : ℕ) (a : CallActor) (ss : List CallSession) (s r : CallSession)
    → find_by call_key k ss ≡ some s
    → authorize_signal k a now ss ≡ done r
    → is_in_call s.status ≡ true
unfolding authorize_signal load_call
signalled_row k now a ss s r e h = ground arith

-- When a call has been initiated under a new id and a signal of any actor is
-- authorised after some writes, then one of these writes has accepted the call.
pub signal_after_accept :
    (has_driver : ℕ → Bool) (ds : List Delivery) (rate k now later : ℕ) (dto : InitiateCallDto)
    (a b : CallActor) (w w' : CallWorld) (r r' : CallSession) (xs : List CallWrite)
    → find_by call_key k w.sessions ≡ none
    → initiate_call_session has_driver ds rate k now dto a w ≡ (done r, w')
    → authorize_signal k b later (run xs w'.sessions) ≡ done r'
    → any (accepts k) xs ≡ true
unfolding new_call
signal_after_accept has_driver ds rate k now later dto a b w w' r r' xs fresh h signal =
    let s = new_call k dto a now in
    let row =
      find-effects k xs w'.sessions s (invited_row has_driver ds rate k now dto a w w' r fresh h) in
    ground (
      arith,
      effects_in_call k xs s refl
          (signalled_row k later b (run xs w'.sessions) (effects xs s) r' row signal),
    )
