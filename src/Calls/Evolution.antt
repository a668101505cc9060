-- ===== src/Calls/Evolution.antt =====
-- How a call session changes under the writes of the handlers, in whatever order they run: each
-- request reads first and then makes one write, so an interleaving of requests is a list of writes.
use be_distribution_system_a.Prelude.{
  ℕ, ◌≡◌, refl, ◌∙◌, sym, ap, Bool, true, false, ◌&&◌, some, List, [], ◌∷◌, ◌==◌, arith,
}
use be_distribution_system_a.Prelude.Table.{
  find_by, apply_if, find_by-update_by, find_by-key, find_by-append,
}
use be_distribution_system_a.Calls.Service.{
  CallSession, CallStatus, pending, active, declined, timeout, ended, accept, decline, CallWrite,
  invites, responds, ends, times_out, call_key, is_pending, may_respond, may_time_out,
  with_response, hung_up, timed_out, write,
}

-- What a write makes of one row.
abbrev pub effect : CallWrite → CallSession → CallSession
effect (invites k dto actor now) s = s
effect (responds k action now) s =
    apply_if (s.id == k && may_respond now s) (with_response action now) s
effect (ends k now) s = apply_if (s.id == k) (hung_up now) s
effect (times_out k now) s = apply_if (s.id == k && may_time_out now s) timed_out s

abbrev pub effects : List CallWrite → CallSession → CallSession
effects [] s = s
effects (x ∷ xs) s = effects xs (effect x s)

unfoldable pub run : List CallWrite → List CallSession → List CallSession
run [] ss = ss
run (x ∷ xs) ss = run xs (write x ss)

-- The diagram of a call session.
infix 40 ◌⤳◌ ◌⤳*◌
pub data ◌⤳◌ : CallStatus → CallStatus → Type 0 where
  accepted : pending ⤳ active
  refused : pending ⤳ declined
  unanswered : pending ⤳ timeout
  hangs_up : {s : CallStatus} → s ⤳ ended

pub data ◌⤳*◌ : CallStatus → CallStatus → Type 0 where
  stay : {s : CallStatus} → s ⤳* s
  go : {s t u : CallStatus} → s ⤳ t → t ⤳* u → s ⤳* u

⤳*_trans : {s t u : CallStatus} → s ⤳* t → t ⤳* u → s ⤳* u
⤳*_trans stay q = q
⤳*_trans (go e p) q = go e (⤳*_trans p q)

from_pending : (c d : CallStatus) → is_pending c ≡ true → pending ⤳ d → c ⤳ d
from_pending pending d h e = e
from_pending active d h e = cc
from_pending declined d h e = cc
from_pending timeout d h e = cc
from_pending ended d h e = cc

moves_if :
    (b : Bool) (f : CallSession → CallSession) (s : CallSession)
    → (b ≡ true → s.status ⤳ (f s).status)
    → s.status ⤳* (apply_if b f s).status
moves_if false f s h = stay
moves_if true f s h = go (h refl) stay

effect_moves : (x : CallWrite) (s : CallSession) → s.status ⤳* (effect x s).status
effect_moves (invites k dto actor now) s = stay
effect_moves (responds k accept now) s =
    moves_if (s.id == k && may_respond now s) (with_response accept now) s
      (λ h. from_pending s.status active (ground arith) accepted)
effect_moves (responds k decline now) s =
    moves_if (s.id == k && may_respond now s) (with_response decline now) s
      (λ h. from_pending s.status declined (ground arith) refused)
effect_moves (ends k now) s = moves_if (s.id == k) (hung_up now) s (λ h. hangs_up)
effect_moves (times_out k now) s =
    moves_if (s.id == k && may_time_out now s) timed_out s
      (λ h. from_pending s.status timeout (ground arith) unanswered)

pub effects_move : (xs : List CallWrite) (s : CallSession) → s.status ⤳* (effects xs s).status
effects_move [] s = stay
effects_move (x ∷ xs) s = ⤳*_trans (effect_moves x s) (effects_move xs (effect x s))

-- The parts of a row that no write touches.
effect_keeps :
    (x : CallWrite) (s : CallSession)
    → ((effect x s).owner_id ≡ s.owner_id) × ((effect x s).driver_id ≡ s.driver_id)
effect_keeps (invites k dto actor now) s = (refl, refl)
effect_keeps (responds k accept now) s = (ground arith, ground arith)
effect_keeps (responds k decline now) s = (ground arith, ground arith)
effect_keeps (ends k now) s = (ground arith, ground arith)
effect_keeps (times_out k now) s = (ground arith, ground arith)

effects_keep :
    (xs : List CallWrite) (s : CallSession)
    → ((effects xs s).owner_id ≡ s.owner_id) × ((effects xs s).driver_id ≡ s.driver_id)
effects_keep [] s = (refl, refl)
effects_keep (x ∷ xs) s =
    let (o, d) = effects_keep xs (effect x s) in let (p, e) = effect_keeps x s in (o ∙ p, d ∙ e)

-- A row that is still pending is unchanged.
effect_pending :
    (x : CallWrite) (s : CallSession) → is_pending (effect x s).status ≡ true → effect x s ≡ s
effect_pending (invites k dto actor now) s h = refl
effect_pending (responds k accept now) s h = ground arith
effect_pending (responds k decline now) s h = ground arith
effect_pending (ends k now) s h = ground arith
effect_pending (times_out k now) s h = ground arith

-- A state other than PENDING is never PENDING again.
settled_edge : {c d : CallStatus} → c ⤳ d → is_pending d ≡ false
settled_edge accepted = refl
settled_edge refused = refl
settled_edge unanswered = refl
settled_edge hangs_up = refl

pub settled : {c d : CallStatus} → c ⤳* d → is_pending c ≡ false → is_pending d ≡ false
settled stay h = h
settled (go e p) h = settled p (settled_edge e)

pub effects_pending :
    (xs : List CallWrite) (s : CallSession)
    → is_pending (effects xs s).status ≡ true
    → effects xs s ≡ s
effects_pending [] s h = refl
effects_pending (x ∷ xs) s h =
    let later = effects_pending xs (effect x s) h in
    later ∙ effect_pending x s (ap (λ y. is_pending y.status) (sym later) ∙ h)

pub find-effect :
    (k : ℕ) (x : CallWrite) (ss : List CallSession) (s : CallSession)
    → find_by call_key k ss ≡ some s
    → find_by call_key k (write x ss) ≡ some (effect x s)
unfolding write
find-effect k (invites j dto actor now) ss s e = find_by-append call_key k ss _ s e
find-effect k (responds j accept now) ss s e =
    find_by-update_by call_key k j (may_respond now) (with_response accept now) ss (λ x. refl)
    ∙ ground (arith, e, find_by-key call_key k ss s e)
find-effect k (responds j decline now) ss s e =
    find_by-update_by call_key k j (may_respond now) (with_response decline now) ss (λ x. refl)
    ∙ ground (arith, e, find_by-key call_key k ss s e)
find-effect k (ends j now) ss s e =
    find_by-update_by call_key k j (λ x. true) (hung_up now) ss (λ x. refl)
    ∙ ground (arith, e, find_by-key call_key k ss s e)
find-effect k (times_out j now) ss s e =
    find_by-update_by call_key k j (may_time_out now) timed_out ss (λ x. refl)
    ∙ ground (arith, e, find_by-key call_key k ss s e)

pub find-effects :
    (k : ℕ) (xs : List CallWrite) (ss : List CallSession) (s : CallSession)
    → find_by call_key k ss ≡ some s
    → find_by call_key k (run xs ss) ≡ some (effects xs s)
unfolding run
find-effects k [] ss s e = e
find-effects k (x ∷ xs) ss s e =
    find-effects k xs (write x ss) (effect x s) (find-effect k x ss s e)

-- After any list of writes, a call session that was there is still there, with its owner and its
-- driver, and its state has moved along the diagram only: a pending call is accepted, refused or left
-- unanswered, and any call may be hung up.
pub run_follows :
    (k : ℕ) (xs : List CallWrite) (ss : List CallSession) (s : CallSession)
    → find_by call_key k ss ≡ some s
    → (s' : CallSession) × (find_by call_key k (run xs ss) ≡ some s')
      × (s.status ⤳* s'.status)
      × (s'.owner_id ≡ s.owner_id)
      × (s'.driver_id ≡ s.driver_id)
run_follows k xs ss s e =
    let (o, d) = effects_keep xs s in
    (effects xs s, find-effects k xs ss s e, effects_move xs s, o, d)
