-- ===== src/Calls/Scenarios.antt =====
-- An admin calls a driver; the call is answered once, or times out.
use be_distribution_system_a.Prelude.{
  ℕ, ◌≡◌, refl, Bool, true, false, none, some, List, [], ◌∷◌, any, arith,
}
use be_distribution_system_a.Prelude.Table.{find_by, update_by, count_by}
use be_distribution_system_a.Deliveries.Model.{admin, driver}
use be_distribution_system_a.Calls.Service.{
  CallSession, CallActor, video, accept, decline, InitiateCallDto, CallWrite, responds, ends,
  times_out, CallWorld, call_key, is_pending, new_call, write, with_response,
  is_authorized_participant,
}
use be_distribution_system_a.Calls.Handlers.{
  check_invite, initiate_call_session, load_call, claim_response, respond_to_call_session,
  authorize_signal, handle_pending_timeout,
}
use be_distribution_system_a.Calls.Evolution.{run, run_follows, ◌⤳*◌}
use be_distribution_system_a.Calls.Answers.{
  is_done, accepts, respond_once, watchdog_settles, signal_after_accept,
}

abbrev sari : CallActor
sari = record { user_id = 7; role = admin; driver_id = none }

abbrev budi : CallActor
budi = record { user_id = 30; role = driver; driver_id = some 3 }

abbrev request : InitiateCallDto
request = record { driver_id = 3; kind = video; delivery_id = none }

abbrev no_calls : CallWorld
no_calls = record { sessions = []; notices = [] }

abbrev every_driver : ℕ → Bool
every_driver k = true

abbrev ringing : CallWorld
ringing = (initiate_call_session every_driver [] 1 5 100 request sari no_calls).1

abbrev writes : List CallWrite
writes = responds 5 accept 200 ∷ times_out 5 30100 ∷ []

run_follows_example :
    (s' : CallSession) × (find_by call_key 5 (run writes (new_call 5 request sari 100 ∷ []))
      ≡ some s')
    × ((new_call 5 request sari 100).status ⤳* s'.status)
    × (s'.owner_id ≡ 7)
    × (s'.driver_id ≡ 3)
unfolding find_by new_call
run_follows_example =
    run_follows 5 writes (new_call 5 request sari 100 ∷ []) (new_call 5 request sari 100) refl

abbrev answered : CallWorld
answered = (respond_to_call_session 5 accept budi 200 ringing).1

respond_once_example :
    let later = record answered { sessions = run (ends 5 300 ∷ []) answered.sessions } in
    (is_done (respond_to_call_session 5 decline sari 400 later).0 ≡ false)
    × ((respond_to_call_session 5 decline sari 400 later).1 ≡ later)
unfolding respond_to_call_session initiate_call_session check_invite load_call
    is_authorized_participant claim_response find_by count_by update_by write new_call
respond_once_example =
    respond_once 5 accept decline budi sari 200 400 ringing answered
      (with_response accept 200 (new_call 5 request sari 100)) (ends 5 300 ∷ []) refl

watchdog_settles_example :
    let after =
      handle_pending_timeout 5 30100 (record ringing { sessions = run [] ringing.sessions }) in
    (s : CallSession) × (find_by call_key 5 after.sessions ≡ some s) × (is_pending s.status ≡ false)
unfolding initiate_call_session check_invite find_by
watchdog_settles_example =
    watchdog_settles every_driver [] 1 5 100 30100 request sari no_calls ringing
      (new_call 5 request sari 100) [] refl refl (omega arith)

signal_after_accept_example : any (accepts 5) writes ≡ true
unfolding initiate_call_session check_invite authorize_signal load_call is_authorized_participant
    run write new_call find_by update_by
signal_after_accept_example =
    signal_after_accept every_driver [] 1 5 100 300 request sari budi no_calls ringing
      (new_call 5 request sari 100) (with_response accept 200 (new_call 5 request sari 100)) writes
      refl refl refl
