-- ===== src/Auth/Verdicts.antt =====
-- The REST guard, the handshake of a socket and the check of its messages, compared.
use be_distribution_system_a.Prelude.{
  ℕ, ◌≡◌, refl, ◌∙◌, sym, ap, Bool, true, false, Option, none, some, List, [], ◌∷◌, arith,
  Bool-cases, Option-cases, inl, inr,
}
use be_distribution_system_a.Prelude.Table.{find_by, apply_if}
use be_distribution_system_a.Sessions.Service.{
  Session, session_key, revoke, is_active, active_of, revoke_where, revoke_all_user_sessions,
}
use be_distribution_system_a.Auth.Tokens.{
  AuthTables, JwtPayload, Claims, Principal, is_accepted, Lookup, user_key, session_serves,
  token_session_serves, validate_user, validate,
}
use be_distribution_system_a.Auth.Sockets.{
  complete, handshake_user, handshake_payload, validate_handshake, validate_socket,
}
use be_distribution_system_a.Auth.Devices.{
  on_device, revoke_device_rows, revoke_device, device_revoked,
}
use be_distribution_system_a.Auth.Users.{
  changed, update_user_role, update_user_status, admin_reset_password, Ending, by_logout,
  by_suspension, by_disabling, by_role, by_password, end_sessions,
}
use be_distribution_system_a.Deliveries.Model.{Role}
use mathlib.Core.Option

same_user_verdict :
    (lookup : Lookup) (t : AuthTables) (now : ℕ) (p : JwtPayload) (u : _)
    → is_accepted (validate_user lookup t now p u) ≡ is_accepted (handshake_user lookup t now p u)
unfolding validate_user handshake_user
same_user_verdict lookup t now p u = ground arith

complete-token :
    (c : Claims) (p : JwtPayload) → complete c ≡ some p → c.is_access_token ≡ p.is_access_token
unfolding complete
complete-token c p e = ground arith

same_user_cases :
    (lookup : Lookup) (t : AuthTables) (now : ℕ) (p : JwtPayload)
    → p.is_access_token ≡ true
    → is_accepted (handshake_payload lookup t now p) ≡ is_accepted (validate lookup t now p)
unfolding validate handshake_payload
same_user_cases lookup t now p e = elim (Option-cases (find_by user_key p.sub t.users)) [
  | inl n ↦ rw (n, e) (ground arith)
  | inr (u, s) ↦ rw (s, e) (ground (arith, same_user_verdict lookup t now p u))
]

refused_type :
    (lookup : Lookup) (t : AuthTables) (now : ℕ) (p : JwtPayload)
    → p.is_access_token ≡ false
    → is_accepted (validate lookup t now p) ≡ false
unfolding validate
refused_type lookup t now p e = ground arith

-- For claims that are complete, what follows the verification of a token is the same in both guards.
pub same_claims_verdict :
    (lookup : Lookup) (t : AuthTables) (now : ℕ) (c : Claims) (p : JwtPayload)
    → complete c ≡ some p
    → is_accepted (validate_handshake lookup t now c) ≡ is_accepted (validate lookup t now p)
unfolding validate_handshake
same_claims_verdict lookup t now c p e = elim (Bool-cases p.is_access_token) [
  | inl is ↦ simp (e, complete-token c p e ∙ is) (same_user_cases lookup t now p is)
  | inr isnt ↦ rw (complete-token c p e ∙ isnt) (sym (refused_type lookup t now p isnt))
]

-- A token whose session does not serve it is refused by all three checks.
unserved-validate :
    (lookup : Lookup) (t : AuthTables) (now : ℕ) (p : JwtPayload)
    → token_session_serves t now p ≡ false
    → is_accepted (validate lookup t now p) ≡ false
unfolding validate validate_user
unserved-validate lookup t now p e = elim (Option-cases (find_by user_key p.sub t.users)) [
  | inl n ↦ rw n (ground arith)
  | inr (u, s) ↦ rw s (ground arith)
]

unserved-socket :
    (lookup : Lookup) (t : AuthTables) (now seconds : ℕ) (d : Principal) (exp : ℕ)
    → session_serves t now d.id d.device_id (find_by session_key d.session_id t.store.sessions)
      ≡ false
    → is_accepted (validate_socket lookup t now seconds d exp) ≡ false
unfolding validate_socket
unserved-socket lookup t now seconds d exp e = ground arith

find_session-revoke :
    (k : ℕ) (q : Session → Bool) (ss : List Session)
    → find_by session_key k (revoke_where q ss)
      ≡ Option.map (λ s. apply_if (q s) revoke s) (find_by session_key k ss)
unfolding find_by revoke_where
find_session-revoke k q [] = refl
find_session-revoke k q (s ∷ ss) = ground (arith, find_session-revoke k q ss)

-- Sessions that are revoked serve no token of those that the filter concerns.
revoked-serves :
    (t : AuthTables) (q : Session → Bool) (now user device : ℕ) (o : Option Session)
    → ((s : Session) → s.user_id ≡ user → s.device_id ≡ device → q s ≡ is_active s)
    → session_serves t now user device (Option.map (λ s. apply_if (q s) revoke s) o) ≡ false
unfolding session_serves
revoked-serves t q now user device none h = refl
revoked-serves t q now user device (some s) h = ground (arith, h s)

unserved_everywhere :
    (lookup : Lookup) (t : AuthTables) (now seconds : ℕ) (c : Claims) (p : JwtPayload)
    (d : Principal) (exp : ℕ)
    → complete c ≡ some p
    → token_session_serves t now p ≡ false
    → session_serves t now d.id d.device_id (find_by session_key d.session_id t.store.sessions)
      ≡ false
    → (is_accepted (validate lookup t now p) ≡ false)
      × (is_accepted (validate_handshake lookup t now c) ≡ false)
      × (is_accepted (validate_socket lookup t now seconds d exp) ≡ false)
unserved_everywhere lookup t now seconds c p d exp e h k = (
  unserved-validate lookup t now p h,
  same_claims_verdict lookup t now c p e ∙ unserved-validate lookup t now p h,
  unserved-socket lookup t now seconds d exp k,
)

ended_rows :
    (role_exists : ℕ → Bool) (e : Ending) (user : ℕ) (t t' : AuthTables)
    → end_sessions role_exists e user t ≡ (changed, t')
    → t'.store.sessions ≡ revoke_where (active_of user) t.store.sessions
unfolding end_sessions revoke_all_user_sessions update_user_role update_user_status
    admin_reset_password
ended_rows role_exists by_logout user t t' h = ground arith
ended_rows role_exists by_suspension user t t' h = ground arith
ended_rows role_exists by_disabling user t t' h = ground arith
ended_rows role_exists (by_role role) user t t' h = ground arith
ended_rows role_exists (by_password hash) user t t' h = ground arith

-- A token of what a filter revokes finds no session that serves it.
unserved :
    (t : AuthTables) (q : Session → Bool) (ss : List Session) (now user device session : ℕ)
    → t.store.sessions ≡ revoke_where q ss
    → ((s : Session) → s.user_id ≡ user → s.device_id ≡ device → q s ≡ is_active s)
    → session_serves t now user device (find_by session_key session t.store.sessions) ≡ false
unserved t q ss now user device session stored h =
    ap (λ x. session_serves t now user device (find_by session_key session x)) stored
    ∙ ap (session_serves t now user device) (find_session-revoke session q ss)
    ∙ revoked-serves t q now user device (find_by session_key session ss) h

-- After a logout of all sessions, a change of the role, a suspension, a disabling or a new password
-- of a user that has been carried out, no token that names this user passes the REST guard or
-- the handshake at the tables that it leaves, and no open socket of the user may send, whatever
-- Redis answers and at any time.
pub ending_shuts_out :
    (role_exists : ℕ → Bool) (ending : Ending) (user : ℕ) (lookup : Lookup) (t t' : AuthTables)
    (now seconds : ℕ) (c : Claims) (p : JwtPayload) (d : Principal) (exp : ℕ)
    → complete c ≡ some p
    → p.sub ≡ user
    → d.id ≡ user
    → end_sessions role_exists ending user t ≡ (changed, t')
    → (is_accepted (validate lookup t' now p) ≡ false)
      × (is_accepted (validate_handshake lookup t' now c) ≡ false)
      × (is_accepted (validate_socket lookup t' now seconds d exp) ≡ false)
unfolding token_session_serves
ending_shuts_out role_exists ending user lookup t t' now seconds c p d exp e h k r =
    let stored = ended_rows role_exists ending user t t' r in
    let ss = t.store.sessions in
    unserved_everywhere lookup t' now seconds c p d exp e
      (unserved t' (active_of user) ss now p.sub p.device_id p.session_id stored
        (λ s f g. ground (arith, f)))
      (unserved t' (active_of user) ss now d.id d.device_id d.session_id stored
        (λ s f g. ground (arith, f)))

device_rows :
    (t t' : AuthTables) (device actor : ℕ) (role : Role)
    → revoke_device device actor role t ≡ (device_revoked, t')
    → t'.store.sessions ≡ revoke_where (on_device device) t.store.sessions
unfolding revoke_device revoke_device_rows
device_rows t t' device actor role r = ground arith

-- After the revocation of a device that was there, by its user or an admin, no token of this
-- device passes the REST guard or the handshake, and no open socket of the device may send,
-- whatever Redis answers and at any time.
pub device_shuts_out :
    (lookup : Lookup) (t t' : AuthTables) (now seconds : ℕ) (c : Claims) (p : JwtPayload)
    (d : Principal) (exp device actor : ℕ) (role : Role)
    → complete c ≡ some p
    → p.device_id ≡ device
    → d.device_id ≡ device
    → revoke_device device actor role t ≡ (device_revoked, t')
    → (is_accepted (validate lookup t' now p) ≡ false)
      × (is_accepted (validate_handshake lookup t' now c) ≡ false)
      × (is_accepted (validate_socket lookup t' now seconds d exp) ≡ false)
unfolding token_session_serves
device_shuts_out lookup t t' now seconds c p d exp device actor role e h k r =
    let stored : t'.store.sessions ≡ revoke_where (on_device device) t.store.sessions =
      device_rows t t' device actor role r in
    let ss = t.store.sessions in
    unserved_everywhere lookup t' now seconds c p d exp e
      (unserved t' (on_device device) ss now p.sub p.device_id p.session_id stored
        (λ s f g. ground (arith, g)))
      (unserved t' (on_device device) ss now d.id d.device_id d.session_id stored
        (λ s f g. ground (arith, g)))
