-- ===== src/Auth/Users.antt =====
-- src/modules/users/users.service.ts: changes of a user by an admin. The audit rows and the messages
-- on `security:revocation` are left out. `role_exists` is the look-up in the table of roles.
use be_distribution_system_a.Prelude.{
  ℕ, Bool, true, false, none, some, List, [], ◌∷◌, ◌++◌, if◌then◌else◌,
}
use be_distribution_system_a.Prelude.Table.{find_by, update_by}
use be_distribution_system_a.Sessions.Service.{
  SessionStore, revoked_user, active_of, revoke_where, revoke_all_user_sessions,
}
use be_distribution_system_a.Auth.Tokens.{
  AccountStatus, suspended, disabled, UserRow, AuthTables, user_key,
}

pub data ChangeAnswer : Type 0 where
  changed missing_user missing_role : ChangeAnswer

-- The sessions of the user are revoked in the database, and the user in Redis.
abbrev pub revoke_user : ℕ → SessionStore → SessionStore
revoke_user user st = record st {
  sessions = revoke_where (active_of user) st.sessions;
  revocations = st.revocations ++ revoked_user user ∷ [];
}

abbrev pub is_closing : AccountStatus → Bool
is_closing suspended = true
is_closing disabled = true
is_closing _ = false

abbrev set_user : ℕ → (UserRow → UserRow) → List UserRow → List UserRow
set_user user f = update_by user_key user (λ u. true) f

unfoldable pub update_user_role : (ℕ → Bool) → ℕ → ℕ → AuthTables → ChangeAnswer × AuthTables
update_user_role role_exists user role t = elim (find_by user_key user t.users) [
  | none ↦ (missing_user, t)
  | some u ↦
      if role_exists role
      then (
        changed,
        record t {
          users = set_user user (λ u. record u { role = role }) t.users;
          store = revoke_user user t.store;
        },
      )
      else (missing_role, t)
]

unfoldable pub update_user_status : ℕ → AccountStatus → AuthTables → ChangeAnswer × AuthTables
update_user_status user status t = elim (find_by user_key user t.users) [
  | none ↦ (missing_user, t)
  | some u ↦ (
    changed,
    record t {
      users = set_user user (λ u. record u { status = status }) t.users;
      store = if is_closing status then revoke_user user t.store else t.store;
    },
  )
]

-- The new password comes as its hash.
unfoldable pub admin_reset_password : ℕ → ℕ → AuthTables → ChangeAnswer × AuthTables
admin_reset_password user hash t = elim (find_by user_key user t.users) [
  | none ↦ (missing_user, t)
  | some u ↦ (
    changed,
    record t {
      users = set_user user (λ u. record u { password_hash = hash }) t.users;
      store = revoke_user user t.store;
    },
  )
]

-- What ends every session of a user: AuthService.logoutAll, a change of the role, the suspension or
-- the disabling of the account, and a new password.
pub data Ending : Type 0 where
  by_logout by_suspension by_disabling : Ending
  by_role by_password : ℕ → Ending

unfoldable pub end_sessions : (ℕ → Bool) → Ending → ℕ → AuthTables → ChangeAnswer × AuthTables
end_sessions role_exists by_logout user t =
    (changed, record t { store = revoke_all_user_sessions (some user) t.store })
end_sessions role_exists by_suspension user t = update_user_status user suspended t
end_sessions role_exists by_disabling user t = update_user_status user disabled t
end_sessions role_exists (by_role role) user t = update_user_role role_exists user role t
end_sessions role_exists (by_password hash) user t = admin_reset_password user hash t
