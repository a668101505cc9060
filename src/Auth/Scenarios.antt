-- ===== src/Auth/Scenarios.antt =====
-- A dispatcher logs in, and is shut out again.
use be_distribution_system_a.Prelude.{
  ℕ, ◌⊎◌, ◌+◌, ◌-◌, if◌then◌else◌, ◌≡◌, refl, Bool, true, false, ◌&&◌, ◌==◌, none, some, [], ◌∷◌,
}
use be_distribution_system_a.Prelude.Table.{find_by}
use be_distribution_system_a.Deliveries.Model.{admin}
use be_distribution_system_a.Sessions.Service.{
  Session, revoked_session, revoked_user, revoke_all_user_sessions,
}
use be_distribution_system_a.Auth.Tokens.{
  active, UserRow, Device, AuthTables, JwtPayload, Claims, Lookup, is_accepted, principal,
  validate_user, token_session_serves, session_serves, validate,
}
use be_distribution_system_a.Auth.Sockets.{validate_handshake, validate_socket, complete}
use be_distribution_system_a.Auth.Users.{by_role, end_sessions, update_user_role}
use be_distribution_system_a.Auth.Devices.{revoke_device}
use be_distribution_system_a.Auth.Verdicts.{ending_shuts_out, device_shuts_out}
use be_distribution_system_a.Auth.Login.{LoginDto, Passwords, LoginInput, access_claims}
use be_distribution_system_a.Auth.Keys.{
  TokenLibrary, HandshakeKeys, verified, other_signature, open_handshake, authenticate_token,
  names_key,
}
use be_distribution_system_a.Auth.Grace.{same_verdict, has_exp}

abbrev dewi : UserRow
dewi = record {
  id = 7;
  username = 70;
  email = some 71;
  phone = none;
  password_hash = 5;
  role = 3;
  status = active;
  organization_id = none;
  driver_id = none;
}

abbrev laptop : Device
laptop = record {
  id = 4;
  user_id = 7;
  device_identifier = 40;
  platform = 1;
  app_version = 100;
  push_token = none;
  is_active = true;
  last_seen_at = 0;
}

abbrev open_session_row : Session
open_session_row = record {
  id = 1;
  user_id = 7;
  device_id = 4;
  token_hash = 1005;
  token_family = 9;
  is_revoked = false;
  expires_at = 5000;
  last_refreshed_at = 0;
}

abbrev tables : AuthTables
tables = record {
  users = dewi ∷ [];
  devices = laptop ∷ [];
  store = record {
    sessions = open_session_row ∷ [];
    revocations = [];
    published = [];
    audited_reuses = [];
  };
}

abbrev token : JwtPayload
token = access_claims 1 dewi 4 1

abbrev claims : Claims
claims = record {
  sub = some 7;
  role = 3;
  device_id = some 4;
  session_id = some 1;
  is_access_token = true;
  exp = some 901;
}

-- Redis knows of no revocation, or does not answer.
abbrev quiet : Lookup
quiet r = some false

abbrev silent : Lookup
silent r = none

abbrev any_role : ℕ → Bool
any_role k = true

accepted_before : is_accepted (validate quiet tables 100 token) ≡ true
unfolding validate validate_user token_session_serves session_serves find_by
accepted_before = refl

-- Secret 8 verifies the token 60, and secret 9 the token 61 of the previous key.
abbrev library : TokenLibrary
library = record {
  decode = λ k. some (record { is_hs256 = true; kid = some (k - 60) });
  verify = λ k secret now. if secret == k - 52 then verified claims else other_signature;
}

abbrev keys : HandshakeKeys
keys = record { secret = 8; previous_secret = some 9; previous_key_id = some 1 }

same_verdict_example :
    (is_accepted (open_handshake library keys quiet tables 100 (some 61)) ≡ (
      is_accepted (authenticate_token library 9 quiet tables 100 (some 61))
      && has_exp (library.verify 61 9 100)))
    × (◌≡◌ {A = ℕ} 9 8 ⊎ ((names_key (some 1) (some 1) ≡ true) × (keys.previous_secret ≡ some 9)))
same_verdict_example =
    same_verdict library keys quiet tables 100 61 (record { is_hs256 = true; kid = some 1 }) refl
      refl

ending_shuts_out_example :
    let t' = (end_sessions any_role (by_role 2) 7 tables).1 in
    (is_accepted (validate silent t' 100 token) ≡ false)
    × (is_accepted (validate_handshake silent t' 100 claims) ≡ false)
    × (is_accepted (validate_socket silent t' 100 1 (principal token dewi) 901) ≡ false)
unfolding complete end_sessions update_user_role find_by
ending_shuts_out_example =
    ending_shuts_out any_role (by_role 2) 7 silent tables
      (end_sessions any_role (by_role 2) 7 tables).1 100 1 claims token (principal token dewi) 901
      refl refl refl refl

device_shuts_out_example :
    let t' = (revoke_device 4 1 admin tables).1 in
    (is_accepted (validate silent t' 100 token) ≡ false)
    × (is_accepted (validate_handshake silent t' 100 claims) ≡ false)
    × (is_accepted (validate_socket silent t' 100 1 (principal token dewi) 901) ≡ false)
unfolding complete revoke_device find_by
device_shuts_out_example =
    device_shuts_out silent tables (revoke_device 4 1 admin tables).1 100 1 claims token
      (principal token dewi) 901 4 1 admin refl refl refl refl

abbrev hashed : ℕ → ℕ
hashed n = n + 1000

abbrev passwords : Passwords
passwords = record { verify = λ h p. h == p; needs_rehash = λ h. false; rehash = λ p. p }

abbrev input : LoginInput
input = record {
  ip_attempts = 1;
  user_attempts = 1;
  session = record { id = 2; raw_token = 6; now = 100 };
  family = 10;
  new_device_id = 5;
  device_identifier = 50;
  seconds = 1;
}

abbrev credentials : LoginDto
credentials = record { username = 71; password = 5; device_id = some 4; platform = 1 }

-- The user has been logged out everywhere, and Redis still holds the key of the user.
abbrev holding : Lookup
holding (revoked_user k) = some (k == 7)
holding (revoked_session k) = some false

abbrev logged_out : AuthTables
logged_out = record tables { store = revoke_all_user_sessions (some 7) tables.store }
