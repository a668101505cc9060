-- ===== src/Auth/Login.antt =====
-- src/modules/auth/auth.service.ts: login and refresh. Argon2, the signing of tokens and the cookies are
-- third-party code: `verify`, `needs_rehash` and `rehash` stand for the password functions, and the
-- claims of an access token stand for the token. The audit rows, `lastLoginAt` and
-- the reset of the count of attempts are left out.
use be_distribution_system_a.Prelude.{
  ℕ, ◌+◌, Bool, true, false, not, ◌||◌, Option, none, some, List, [], ◌∷◌, ◌++◌, ◌==◌, ltb,
  if◌then◌else◌, is_some_of,
}
use be_distribution_system_a.Prelude.Table.{find_by, update_by}
use be_distribution_system_a.Sessions.Service.{
  SessionStore, NewSession, SessionResult, RotationResult, rotated, invalid_refresh_token,
  reuse_detected, create_driver_session, rotate_session,
}
use be_distribution_system_a.Sessions.Login.{create_session}
use be_distribution_system_a.Auth.Tokens.{
  AccountStatus, UserRow, AuthTables, JwtPayload, Device, is_active_account, user_key, device_key,
}
use be_distribution_system_a.Auth.Devices.{RegisterDeviceDto, new_device}

-- class LoginDto
pub record LoginDto : Type 0 where
  pub username : ℕ
  pub password : ℕ
  pub device_id : Option ℕ
  pub platform : ℕ

-- The functions of the password library.
pub record Passwords : Type 0 where
  pub verify : ℕ → ℕ → Bool
  pub needs_rehash : ℕ → Bool
  pub rehash : ℕ → ℕ

-- The counts of the two rate limits, and what is generated: the session with its token and family,
-- the id and the identifier of a default device, and the time of the token in seconds.
pub record LoginInput : Type 0 where
  pub ip_attempts : ℕ
  pub user_attempts : ℕ
  pub session : NewSession
  pub family : ℕ
  pub new_device_id : ℕ
  pub device_identifier : ℕ
  pub seconds : ℕ

pub data LoginAnswer : Type 0 where
  logged_in : JwtPayload → ℕ → LoginAnswer
  login_rate_limited invalid_credentials device_missing : LoginAnswer
  account_in_status : AccountStatus → LoginAnswer

abbrev pub is_called : ℕ → UserRow → Bool
is_called name u = u.username == name || is_some_of name u.email || is_some_of name u.phone

-- `user.findFirst({ where: { OR: [{ username }, { email }, { phone }] } })`
unfoldable pub find_login : ℕ → List UserRow → Option UserRow
find_login name [] = none
find_login name (u ∷ us) = if is_called name u then some u else find_login name us

abbrev is_present {ℓ} : {A : Type ℓ} → Option A → Bool
is_present none = false
is_present (some a) = true

-- The role code DRIVER.
abbrev pub driver_role : ℕ
driver_role = 1

-- `sessionService.createSession`
unfoldable pub create_for_role :
    (ℕ → ℕ) → LoginInput → UserRow → ℕ → Bool → SessionStore → Option SessionResult × SessionStore
create_for_role hash g u device has_device st =
    if u.role == driver_role
    then create_driver_session hash g.session u.id device g.family has_device st
    else create_session hash g.session u.id device g.family has_device st

-- The claims that are signed: an access token lasts for fifteen minutes.
abbrev pub access_claims : ℕ → UserRow → ℕ → ℕ → JwtPayload
access_claims seconds u device session = record {
  sub = u.id;
  role = u.role;
  device_id = device;
  session_id = session;
  is_access_token = true;
  exp = seconds + 900;
}

abbrev default_dto : LoginInput → LoginDto → RegisterDeviceDto
default_dto g dto = record {
  device_identifier = g.device_identifier;
  platform = dto.platform;
  app_version = 100;
  push_token = none;
}

abbrev pub chosen_device : LoginInput → Option ℕ → ℕ
chosen_device g none = g.new_device_id
chosen_device g (some k) = k

abbrev pub with_device : LoginInput → LoginDto → ℕ → Option ℕ → List Device → List Device
with_device g dto user none ds =
    ds ++ new_device g.new_device_id user (default_dto g dto) g.session.now ∷ []
with_device g dto user (some k) ds = ds

abbrev pub rehashed : Passwords → LoginDto → UserRow → UserRow
rehashed pw dto u = record u { password_hash = pw.rehash dto.password }

-- Whether the foreign key of a session to its device holds.
abbrev pub has_row : ℕ → List Device → Bool
has_row k ds = is_present (find_by device_key k ds)

-- What follows `createSession`, which may throw the error of the foreign key.
abbrev pub session_answer : LoginInput → UserRow → ℕ → Option SessionResult → LoginAnswer
session_answer g u device none = device_missing
session_answer g u device (some r) =
    logged_in (access_claims g.seconds u device r.session_id) r.raw_refresh_token

-- `login` once the password is right.
unfoldable pub open_session :
    (ℕ → ℕ) → Passwords → LoginInput → LoginDto → UserRow → AuthTables → LoginAnswer × AuthTables
open_session hash pw g dto u t =
    let device = chosen_device g dto.device_id in
    let devices = with_device g dto u.id dto.device_id t.devices in
    let (result, store) = create_for_role hash g u device (has_row device devices) t.store in
    (
      session_answer g u device result,
      record t {
        users =
            update_by user_key u.id (λ x. pw.needs_rehash u.password_hash) (rehashed pw dto)
              t.users;
        devices = devices;
        store = store;
      },
    )

unfoldable pub login_user :
    (ℕ → ℕ) → Passwords → LoginInput → LoginDto → UserRow → AuthTables → LoginAnswer × AuthTables
login_user hash pw g dto u t =
    if not (is_active_account u.status)
    then (account_in_status u.status, t)
    else (if pw.verify u.password_hash dto.password
        then open_session hash pw g dto u t
        else (invalid_credentials, t))

-- AuthService.login
unfoldable pub login :
    (ℕ → ℕ) → Passwords → LoginInput → LoginDto → AuthTables → LoginAnswer × AuthTables
login hash pw g dto t =
    if ltb 30 g.ip_attempts || ltb 5 g.user_attempts
    then (login_rate_limited, t)
    else (elim (find_login dto.username t.users) [
      | none ↦ (invalid_credentials, t)
      | some u ↦ login_user hash pw g dto u t
    ])

pub data RefreshAnswer : Type 0 where
  refreshed_as : JwtPayload → ℕ → RefreshAnswer
  missing_refresh_token refresh_token_unknown refresh_token_reused account_inactive : RefreshAnswer

abbrev serve_refresh : ℕ → SessionResult → Option UserRow → RefreshAnswer
serve_refresh seconds r none = account_inactive
serve_refresh seconds r (some u) =
    if is_active_account u.status
    then refreshed_as (access_claims seconds u r.device_id r.session_id) r.raw_refresh_token
    else account_inactive

abbrev pub refresh_answer : ℕ → List UserRow → RotationResult → RefreshAnswer
refresh_answer seconds us (rotated r) = serve_refresh seconds r (find_by user_key r.user_id us)
refresh_answer seconds us invalid_refresh_token = refresh_token_unknown
refresh_answer seconds us reuse_detected = refresh_token_reused

-- AuthService.refresh; the session is rotated before the account is looked at.
unfoldable pub refresh : (ℕ → ℕ) → Option ℕ → LoginInput → AuthTables → RefreshAnswer × AuthTables
refresh hash none g t = (missing_refresh_token, t)
refresh hash (some raw) g t =
    let (result, store) = rotate_session hash raw g.session t.store in
    (refresh_answer g.seconds t.users result, record t { store = store })
