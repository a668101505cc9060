-- ===== src/Sessions/Service.antt =====
-- src/modules/sessions/session.service.ts. The argument `hash` is `hashToken`; the ids, the tokens
-- and the families that are generated, and the time, are arguments too.
use be_distribution_system_a.Prelude.{
  ℕ, ◌+◌, ◌*◌, Bool, true, false, not, ◌&&◌, ◌||◌, Option, none, some, List, [], ◌∷◌, ◌++◌, ◌==◌,
  leb, if◌then◌else◌,
}
use be_distribution_system_a.Prelude.Table.{find_by, update_by, count_by, apply_if}

-- model Session
pub record Session : Type 0 where
  pub id : ℕ
  pub user_id : ℕ
  pub device_id : ℕ
  pub token_hash : ℕ
  pub token_family : ℕ
  pub is_revoked : Bool
  pub expires_at : ℕ
  pub last_refreshed_at : ℕ

-- `revoked:session:…` and `revoked:user:…` in Redis
pub data Revocation : Type 0 where
  revoked_session revoked_user : ℕ → Revocation

pub data RevocationReason : Type 0 where
  token_reuse_detected user_logout logout_all_sessions : RevocationReason

-- A message on `security:revocation`.
pub record RevocationMessage : Type 0 where
  pub user_id : ℕ
  pub session_id : Option ℕ
  pub reason : RevocationReason

pub record SessionStore : Type 0 where
  pub sessions : List Session
  pub revocations : List Revocation
  pub published : List RevocationMessage
  pub audited_reuses : List (ℕ × ℕ)

-- interface SessionResult
pub record SessionResult : Type 0 where
  pub session_id : ℕ
  pub token_family : ℕ
  pub raw_refresh_token : ℕ
  pub device_id : ℕ
  pub user_id : ℕ

pub data RotationResult : Type 0 where
  rotated : SessionResult → RotationResult
  invalid_refresh_token reuse_detected : RotationResult

abbrev pub session_key : Session → ℕ
session_key s = s.id

abbrev pub token_key : Session → ℕ
token_key s = s.token_hash

abbrev pub revoke : Session → Session
revoke s = record s { is_revoked = true }

abbrev pub is_active : Session → Bool
is_active s = not s.is_revoked

abbrev pub in_family : ℕ → Session → Bool
in_family family s = s.token_family == family

abbrev pub active_of : ℕ → Session → Bool
active_of user s = s.user_id == user && is_active s

-- `updateMany({ where, data: { isRevoked: true } })`
unfoldable pub revoke_where : (Session → Bool) → List Session → List Session
revoke_where q [] = []
revoke_where q (s ∷ ss) = apply_if (q s) revoke s ∷ revoke_where q ss

-- The keys that are set in Redis for the sessions that are revoked.
unfoldable pub revocation_keys : (Session → Bool) → List Session → List Revocation
revocation_keys q [] = []
revocation_keys q (s ∷ ss) =
    let rest = revocation_keys q ss in if q s then revoked_session s.id ∷ rest else rest

abbrev pub week : ℕ
week = 7 * 24 * 60 * 60 * 1000

-- What is generated for a new session.
pub record NewSession : Type 0 where
  pub id : ℕ
  pub raw_token : ℕ
  pub now : ℕ

unfoldable pub new_session : (ℕ → ℕ) → NewSession → ℕ → ℕ → ℕ → Session
new_session hash g user device family = record {
  id = g.id;
  user_id = user;
  device_id = device;
  token_hash = hash g.raw_token;
  token_family = family;
  is_revoked = false;
  expires_at = g.now + week;
  last_refreshed_at = g.now;
}

abbrev pub session_result : NewSession → Session → SessionResult
session_result g s = record {
  session_id = s.id;
  token_family = s.token_family;
  raw_refresh_token = g.raw_token;
  device_id = s.device_id;
  user_id = s.user_id;
}

-- `createSession` for the role DRIVER. `has_device` says whether the row is there that the foreign key
-- of `deviceId` needs: without it the database refuses the new row, which is `none` here, and the
-- transaction is rolled back, but not the keys in Redis.
unfoldable pub create_driver_session :
    (ℕ → ℕ) → NewSession → ℕ → ℕ → ℕ → Bool → SessionStore → Option SessionResult × SessionStore
create_driver_session hash g user device family has_device st =
    let s = new_session hash g user device family in
    let keyed = record st {
      revocations = st.revocations ++ revocation_keys (active_of user) st.sessions;
    } in
    if has_device
    then (
      some (session_result g s),
      record keyed { sessions = revoke_where (active_of user) st.sessions ++ s ∷ [] },
    )
    else (none, keyed)

-- revokeTokenFamily
unfoldable pub revoke_token_family : Session → SessionStore → SessionStore
revoke_token_family s st = record st {
  sessions = revoke_where (in_family s.token_family) st.sessions;
  revocations = st.revocations ++ revoked_session s.id ∷ revoked_user s.user_id ∷ [];
  published =
      st.published
      ++ record { user_id = s.user_id; session_id = some s.id; reason = token_reuse_detected } ∷ [];
  audited_reuses = st.audited_reuses ++ (s.user_id, s.id) ∷ [];
}

-- The transaction of `rotateSession` at the session that was found, and the `catch`.
unfoldable pub rotate_found :
    (ℕ → ℕ) → NewSession → Session → SessionStore → RotationResult × SessionStore
rotate_found hash g s st =
    let t = new_session hash g s.user_id s.device_id s.token_family in
    let claimed = λ (x : Session). record (revoke x) { last_refreshed_at = g.now } in
    if s.is_revoked
      || leb s.expires_at g.now
      || not (count_by session_key s.id is_active st.sessions == 1)
    then (reuse_detected, revoke_token_family s st)
    else (
      rotated (session_result g t),
      record st { sessions = update_by session_key s.id is_active claimed st.sessions ++ t ∷ [] },
    )

unfoldable pub rotate_session :
    (ℕ → ℕ) → ℕ → NewSession → SessionStore → RotationResult × SessionStore
rotate_session hash raw g st = elim (find_by token_key (hash raw) st.sessions) [
  | none ↦ (invalid_refresh_token, st)
  | some s ↦ rotate_found hash g s st
]

abbrev pub revoke_one : Session → SessionStore → SessionStore
revoke_one s st = record st {
  sessions = update_by session_key s.id (λ x. true) revoke st.sessions;
  revocations = st.revocations ++ revoked_session s.id ∷ [];
  published =
      st.published
      ++ record { user_id = s.user_id; session_id = some s.id; reason = user_logout } ∷ [];
}

abbrev belongs : Session → Option ℕ → Bool
belongs s none = true
belongs s (some user) = s.user_id == user

unfoldable pub revoke_session : Option ℕ → Option ℕ → SessionStore → SessionStore
revoke_session none user st = st
revoke_session (some k) user st = elim (find_by session_key k st.sessions) [
  | none ↦ st
  | some s ↦ if belongs s user then revoke_one s st else st
]

unfoldable pub revoke_all_user_sessions : Option ℕ → SessionStore → SessionStore
revoke_all_user_sessions none st = st
revoke_all_user_sessions (some user) st = record st {
  sessions = revoke_where (active_of user) st.sessions;
  revocations = st.revocations ++ revoked_user user ∷ [];
  published =
      st.published
      ++ record { user_id = user; session_id = none; reason = logout_all_sessions } ∷ [];
}
