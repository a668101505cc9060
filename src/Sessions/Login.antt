-- ===== src/Sessions/Login.antt =====
-- The login of the roles other than DRIVER in `createSession` of src/modules/sessions/session.service.ts.
use be_distribution_system_a.Prelude.{
  ℕ, ◌-◌, Bool, true, Option, none, some, List, [], ◌∷◌, ◌++◌, map, leb, if◌then◌else◌, length,
  take,
}
use be_distribution_system_a.Prelude.Table.{update_by}
use be_distribution_system_a.Sessions.Service.{
  Session, SessionStore, SessionResult, NewSession, revoked_session, session_key, revoke, active_of,
  new_session, session_result,
}

-- `findMany({ where: { userId, isRevoked: false } })`
unfoldable pub active_sessions : ℕ → List Session → List Session
active_sessions user [] = []
active_sessions user (s ∷ ss) =
    let rest = active_sessions user ss in if active_of user s then s ∷ rest else rest

-- `orderBy: { lastRefreshedAt: 'asc' }`
unfoldable pub insert_by_age : Session → List Session → List Session
insert_by_age s [] = s ∷ []
insert_by_age s (x ∷ xs) =
    let rest = insert_by_age s xs in
    if leb s.last_refreshed_at x.last_refreshed_at then s ∷ x ∷ xs else x ∷ rest

unfoldable pub sort_by_age : List Session → List Session
sort_by_age [] = []
sort_by_age (s ∷ ss) = insert_by_age s (sort_by_age ss)

-- The ids of `sessionsToEvict`: all but the four that were refreshed last, if there are five.
unfoldable pub sessions_to_evict : ℕ → List Session → List ℕ
sessions_to_evict user ss =
    let active = sort_by_age (active_sessions user ss) in
    if leb 5 (length active) then map session_key (take (length active - 4) active) else []

-- The loop over them.
unfoldable pub evict : List ℕ → List Session → List Session
evict [] ss = ss
evict (k ∷ ks) ss = evict ks (update_by session_key k (λ s. true) revoke ss)

-- Where the device's row is missing, the database refuses the new row (`none`), after the evictions.
unfoldable pub create_session :
    (ℕ → ℕ) → NewSession → ℕ → ℕ → ℕ → Bool → SessionStore → Option SessionResult × SessionStore
create_session hash g user device family has_device st =
    let s = new_session hash g user device family in
    let ids = sessions_to_evict user st.sessions in
    let evicted = record st {
      sessions = evict ids st.sessions;
      revocations = st.revocations ++ map revoked_session ids;
    } in
    if has_device
    then (some (session_result g s), record evicted { sessions = evict ids st.sessions ++ s ∷ [] })
    else (none, evicted)
