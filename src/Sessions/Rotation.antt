-- ===== src/Sessions/Rotation.antt =====
-- Refresh tokens that are used again, and the sessions that stay active.
use be_distribution_system_a.Prelude.{
  ℕ, ◌≡◌, refl, ◌∙◌, sym, ap, Bool, true, false, ◌&&◌, some, List, [], ◌∷◌, ◌++◌, any, arith, ◌==◌,
  if◌then◌else◌, Option-cases, inl, inr,
}
use be_distribution_system_a.Prelude.Table.{find_by, update_by, count_by, apply_if, find_by-append}
use be_distribution_system_a.Sessions.Service.{
  Session, SessionStore, SessionResult, rotated, reuse_detected, NewSession, session_key, token_key,
  revoke, is_active, in_family, active_of, revoke_where, new_session, create_driver_session,
  revoke_token_family, rotate_found, rotate_session,
}

-- Some session of the family is active.
abbrev pub is_family_active : ℕ → List Session → Bool
is_family_active family ss = any (λ s. in_family family s && is_active s) ss

-- Some session of the user is active.
abbrev pub is_user_active : ℕ → List Session → Bool
is_user_active user ss = any (active_of user) ss

revoke_family_lem :
    (family : ℕ) (ss : List Session)
    → is_family_active family (revoke_where (in_family family) ss) ≡ false
unfolding revoke_where
revoke_family_lem family [] = refl
revoke_family_lem family (s ∷ ss) = ground (arith, revoke_family_lem family ss)

revoke_user_lem :
    (user : ℕ) (ss : List Session) → is_user_active user (revoke_where (active_of user) ss) ≡ false
unfolding revoke_where
revoke_user_lem user [] = refl
revoke_user_lem user (s ∷ ss) = ground (arith, revoke_user_lem user ss)

-- The row that a token finds after the claim of the session that it found before.
find_token-update :
    (h k : ℕ) (f : Session → Session) (ss : List Session) (s : Session)
    → ((x : Session) → (f x).token_hash ≡ x.token_hash)
    → find_by token_key h ss ≡ some s
    → find_by token_key h (update_by session_key k is_active f ss)
      ≡ some (apply_if (s.id == k && is_active s) f s)
unfolding find_by update_by
find_token-update h k f [] s keeps e = cc
find_token-update h k f (x ∷ ss) s keeps e =
    ground (arith, keeps x, find_token-update h k f ss s keeps)

-- A token that finds a session that is revoked is refused, and no session of the family stays active.
reuse_lem :
    (hash : ℕ → ℕ) (raw : ℕ) (g : NewSession) (st : SessionStore) (s : Session)
    → find_by token_key (hash raw) st.sessions ≡ some s
    → s.is_revoked ≡ true
    → ((rotate_session hash raw g st).0 ≡ reuse_detected)
      × (is_family_active s.token_family (rotate_session hash raw g st).1.sessions ≡ false)
unfolding rotate_session rotate_found revoke_token_family
reuse_lem hash raw g st s found e = ground (arith, revoke_family_lem s.token_family st.sessions)

-- The session that a rotation claims.
abbrev claimed_by : NewSession → Session → Session
claimed_by g s = record (revoke s) { last_refreshed_at = g.now }

rotate_found_writes :
    (hash : ℕ → ℕ) (g : NewSession) (s : Session) (st st' : SessionStore) (r : SessionResult)
    → rotate_found hash g s st ≡ (rotated r, st')
    → (s.is_revoked ≡ false)
      × (st'.sessions
          ≡ update_by session_key s.id is_active (claimed_by g) st.sessions
            ++ new_session hash g s.user_id s.device_id s.token_family ∷ [])
      × (r.token_family ≡ s.token_family)
unfolding rotate_found new_session
rotate_found_writes hash g s st st' r h = ground arith

-- What a rotation that succeeds leaves: the token finds the session, now revoked.
rotate_found_row :
    (hash : ℕ → ℕ) (raw : ℕ) (g : NewSession) (s : Session) (st st' : SessionStore)
    (r : SessionResult)
    → find_by token_key (hash raw) st.sessions ≡ some s
    → rotate_found hash g s st ≡ (rotated r, st')
    → (s : Session) × (find_by token_key (hash raw) st'.sessions ≡ some s)
      × (s.is_revoked ≡ true)
      × (s.token_family ≡ r.token_family)
rotate_found_row hash raw g s st st' r found h =
    let (active, written, family) = rotate_found_writes hash g s st st' r h in
    let t = new_session hash g s.user_id s.device_id s.token_family in
    let after : find_by token_key (hash raw)
          (update_by session_key s.id is_active (claimed_by g) st.sessions)
        ≡ some (claimed_by g s) =
      find_token-update (hash raw) s.id (claimed_by g) st.sessions s (λ x. refl) found
      ∙ ground arith in
    (
      claimed_by g s,
      ap (find_by token_key (hash raw)) written
          ∙ find_by-append token_key (hash raw)
              (update_by session_key s.id is_active (claimed_by g) st.sessions) (t ∷ [])
              (claimed_by g s) after,
      refl,
      sym family,
    )

rotated_row :
    (hash : ℕ → ℕ) (raw : ℕ) (g : NewSession) (st st' : SessionStore) (r : SessionResult)
    → rotate_session hash raw g st ≡ (rotated r, st')
    → (s : Session) × (find_by token_key (hash raw) st'.sessions ≡ some s)
      × (s.is_revoked ≡ true)
      × (s.token_family ≡ r.token_family)
unfolding rotate_session
rotated_row hash raw g st st' r h = elim (Option-cases (find_by token_key (hash raw) st.sessions)) [
  | inl e ↦ absurd (ground arith)
  | inr (s, e) ↦ rotate_found_row hash raw g s st st' r e (ground arith)
]

-- A refresh token is good for one rotation: if it has been rotated, then using it again is refused
-- as a reuse, and no session of its family, the new one included, is active afterwards.
pub rotate_twice :
    (hash : ℕ → ℕ) (raw : ℕ) (g g' : NewSession) (st st' : SessionStore) (r : SessionResult)
    → rotate_session hash raw g st ≡ (rotated r, st')
    → ((rotate_session hash raw g' st').0 ≡ reuse_detected)
      × (is_family_active r.token_family (rotate_session hash raw g' st').1.sessions ≡ false)
rotate_twice hash raw g g' st st' r h =
    let (s, found, revoked, family) = rotated_row hash raw g st st' r h in
    let (refused, closed) = reuse_lem hash raw g' st' s found revoked in
    (
      refused,
      ap (λ f. is_family_active f (rotate_session hash raw g' st').1.sessions) (sym family)
          ∙ closed,
    )

abbrev pub user_key : Session → ℕ
user_key s = s.user_id

count_after_login :
    (user other : ℕ) (ss : List Session) (s : Session)
    → s.user_id ≡ user
    → s.is_revoked ≡ false
    → count_by user_key other is_active (revoke_where (active_of user) ss ++ s ∷ [])
      ≡ (if other == user then 1 else count_by user_key other is_active ss)
unfolding count_by revoke_where
count_after_login user other [] s e a = ground arith
count_after_login user other (x ∷ ss) s e a = ground (arith, count_after_login user other ss s)

-- After a driver has logged in, on a device that is there, exactly one session of the driver is
-- active, and every other user has as many active sessions as before; if the device is not there, every
-- user has as many as before.
pub driver_login :
    (hash : ℕ → ℕ) (g : NewSession) (user device family other : ℕ) (has_device : Bool)
    (st : SessionStore)
    → let st' = (create_driver_session hash g user device family has_device st).1 in
      count_by user_key other is_active st'.sessions
      ≡ (if has_device && other == user then 1 else count_by user_key other is_active st.sessions)
unfolding create_driver_session new_session
driver_login hash g user device family other true st =
    count_after_login user other st.sessions (new_session hash g user device family) refl refl
driver_login hash g user device family other false st = refl
