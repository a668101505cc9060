-- ===== src/Sessions/Scenarios.antt =====
-- A driver's session is refreshed, and the old token is used again.
use be_distribution_system_a.Sessions.Login.{create_session}
use be_distribution_system_a.Sessions.Bound.{login_bound}
use be_distribution_system_a.Prelude.{
  ℕ, ◌+◌, ◌≤◌, false, ◌≡◌, refl, [], ◌∷◌, ◌==◌, true, ◌&&◌, if◌then◌else◌,
}
use be_distribution_system_a.Prelude.Table.{find_by, count_by}
use be_distribution_system_a.Sessions.Service.{
  Session, SessionStore, NewSession, SessionResult, reuse_detected, is_active, new_session,
  create_driver_session, rotate_session, rotate_found,
}
use be_distribution_system_a.Sessions.Rotation.{
  is_family_active, user_key, rotate_twice, driver_login,
}

abbrev hashed : ℕ → ℕ
hashed n = n + 1000

abbrev old_session : Session
old_session = record {
  id = 1;
  user_id = 30;
  device_id = 4;
  token_hash = 1005;
  token_family = 9;
  is_revoked = false;
  expires_at = 5000;
  last_refreshed_at = 0;
}

abbrev store : SessionStore
store = record {
  sessions = old_session ∷ [];
  revocations = [];
  published = [];
  audited_reuses = [];
}

abbrev generated : ℕ → NewSession
generated k = record { id = k; raw_token = k; now = 100 }

abbrev refreshed : SessionResult
refreshed = record {
  session_id = 2;
  token_family = 9;
  raw_refresh_token = 2;
  device_id = 4;
  user_id = 30;
}

rotate_twice_example :
    let st = (rotate_session hashed 5 (generated 2) store).1 in
    ((rotate_session hashed 5 (generated 3) st).0 ≡ reuse_detected)
    × (is_family_active 9 (rotate_session hashed 5 (generated 3) st).1.sessions ≡ false)
unfolding rotate_session rotate_found new_session find_by count_by
rotate_twice_example =
    rotate_twice hashed 5 (generated 2) (generated 3) store
      (rotate_session hashed 5 (generated 2) store).1 refreshed refl

driver_login_example :
    let st = (create_driver_session hashed (generated 2) 30 4 8 true store).1 in
    count_by user_key 30 is_active st.sessions
    ≡ (if true && 30 == 30 then 1 else count_by user_key 30 is_active store.sessions)
driver_login_example = driver_login hashed (generated 2) 30 4 8 30 true store

login_bound_example :
    count_by user_key 30 is_active
      (create_session hashed (generated 2) 30 4 8 true store).1.sessions
    ≤ 5
login_bound_example = login_bound hashed (generated 2) 30 4 8 true store
