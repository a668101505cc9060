-- ===== src/Auth/Tokens.antt =====
-- src/modules/auth/strategies/jwt.strategy.ts and src/modules/realtime/guards/ws-jwt-auth.guard.ts.
-- jsonwebtoken, which checks the signature, the issuer and the audience of a token, is a parameter in
-- Auth.Keys; here are the checks of the claims that it has read. `lookup` is what RedisService.isRevoked answers about a
-- key: `none` is its `null`, when Redis is out of reach.
use be_distribution_system_a.Prelude.{
  ℕ, ◌*◌, Bool, true, false, not, ◌&&◌, Option, none, some, List, ◌==◌, leb, if◌then◌else◌,
}
use be_distribution_system_a.Prelude.Table.{find_by}
use be_distribution_system_a.Sessions.Service.{
  Session, SessionStore, Revocation, revoked_session, revoked_user, session_key,
}

-- enum AccountStatus
pub data AccountStatus : Type 0 where
  pending_activation active suspended disabled : AccountStatus

abbrev pub is_active_account : AccountStatus → Bool
is_active_account active = true
is_active_account _ = false

-- model User, with the code of its role and its driver
pub record UserRow : Type 0 where
  pub id : ℕ
  pub username : ℕ
  pub email : Option ℕ
  pub phone : Option ℕ
  pub password_hash : ℕ
  pub role : ℕ
  pub status : AccountStatus
  pub organization_id : Option ℕ
  pub driver_id : Option ℕ

-- model Device
pub record Device : Type 0 where
  pub id : ℕ
  pub user_id : ℕ
  pub device_identifier : ℕ
  pub platform : ℕ
  pub app_version : ℕ
  pub push_token : Option ℕ
  pub is_active : Bool
  pub last_seen_at : ℕ

pub record AuthTables : Type 0 where
  pub users : List UserRow
  pub devices : List Device
  pub store : SessionStore

-- interface JwtPayload: the claims of an access token
pub record JwtPayload : Type 0 where
  pub sub : ℕ
  pub role : ℕ
  pub device_id : ℕ
  pub session_id : ℕ
  pub is_access_token : Bool
  pub exp : ℕ

-- Claims as they come, some of which may be missing.
pub record Claims : Type 0 where
  pub sub : Option ℕ
  pub role : ℕ
  pub device_id : Option ℕ
  pub session_id : Option ℕ
  pub is_access_token : Bool
  pub exp : Option ℕ

-- What `validate` puts on the request, and `validateHandshake` on the socket.
pub record Principal : Type 0 where
  pub id : ℕ
  pub username : ℕ
  pub role : ℕ
  pub organization_id : Option ℕ
  pub device_id : ℕ
  pub session_id : ℕ
  pub driver_id : Option ℕ

pub data AuthError : Type 0 where
  invalid_token_type incomplete_claims token_revoked user_not_found : AuthError
  account_not_active role_updated_reauth_required access_token_expired : AuthError
  token_required invalid_token_format invalid_token_algorithm : AuthError
  invalid_issuer invalid_audience invalid_signature : AuthError

pub data Verdict : Type 0 where
  accepted : Principal → Verdict
  refused : AuthError → Verdict

abbrev pub is_accepted : Verdict → Bool
is_accepted (accepted p) = true
is_accepted (refused e) = false

abbrev pub user_key : UserRow → ℕ
user_key u = u.id

abbrev pub device_key : Device → ℕ
device_key d = d.id

abbrev pub Lookup : Type 0
Lookup = Revocation → Option Bool

abbrev pub says_revoked : Option Bool → Bool
says_revoked (some b) = b
says_revoked none = false

-- `session.device.userId === payload.sub && session.device.status === 'ACTIVE'`
abbrev pub device_serves : ℕ → Option Device → Bool
device_serves user none = false
device_serves user (some d) = d.user_id == user && d.is_active

-- The session is there, is the token's, is neither revoked nor expired, and its device is active.
unfoldable pub session_serves : AuthTables → ℕ → ℕ → ℕ → Option Session → Bool
session_serves t now user device none = false
session_serves t now user device (some s) =
    s.user_id == user
    && s.device_id == device
    && device_serves user (find_by device_key s.device_id t.devices)
    && not s.is_revoked
    && not (leb s.expires_at now)

unfoldable pub token_session_serves : AuthTables → ℕ → JwtPayload → Bool
token_session_serves t now p =
    session_serves t now p.sub p.device_id (find_by session_key p.session_id t.store.sessions)

abbrev pub principal : JwtPayload → UserRow → Principal
principal p u = record {
  id = u.id;
  username = u.username;
  role = u.role;
  organization_id = u.organization_id;
  device_id = p.device_id;
  session_id = p.session_id;
  driver_id = u.driver_id;
}

-- `validate` from the user on: the revocation of the user is looked up before the session is read.
unfoldable pub validate_user : Lookup → AuthTables → ℕ → JwtPayload → UserRow → Verdict
validate_user lookup t now p u =
    if not (is_active_account u.status)
    then refused account_not_active
    else (if not (u.role == p.role)
        then refused role_updated_reauth_required
        else (if says_revoked (lookup (revoked_user p.sub))
            then refused token_revoked
            else (if token_session_serves t now p
                then accepted (principal p u)
                else refused token_revoked)))

-- JwtStrategy.validate, at claims of a token that has been verified
unfoldable pub validate : Lookup → AuthTables → ℕ → JwtPayload → Verdict
validate lookup t now p =
    let checked : Verdict = elim (find_by user_key p.sub t.users) [
      | none ↦ refused user_not_found
      | some u ↦ validate_user lookup t now p u
    ] in
    if not p.is_access_token
    then refused invalid_token_type
    else (if says_revoked (lookup (revoked_session p.session_id))
        then refused token_revoked
        else checked)

-- The strategy at those claims: `ignoreExpiration: false` refuses a token once the current second is its
-- `exp`, and `validate` decides about the others. `now` counts milliseconds.
unfoldable pub authenticate : Lookup → AuthTables → ℕ → JwtPayload → Verdict
authenticate lookup t now p =
    if leb (p.exp * 1000) now then refused access_token_expired else validate lookup t now p
