-- ===== src/Sessions/Bound.antt =====
-- How many sessions of a user are active after a login.
use be_distribution_system_a.Prelude.{
  ℕ, zero, suc, ◌+◌, ◌-◌, ◌≤◌, ◌≡◌, refl, ◌∙◌, Bool, true, false, not, ◌&&◌, List, [], ◌∷◌, ◌++◌,
  map, ◌==◌, leb, if◌then◌else◌, length, take, any, arith, Bool-cases, inl, inr,
}
use be_distribution_system_a.Prelude.Table.{update_by, count_by}
use be_distribution_system_a.Sessions.Service.{
  Session, SessionStore, NewSession, session_key, revoke, is_active, active_of, new_session,
}
use be_distribution_system_a.Sessions.Login.{
  active_sessions, insert_by_age, sort_by_age, sessions_to_evict, evict, create_session,
}
use be_distribution_system_a.Sessions.Rotation.{user_key}

-- Whether a list of ids leaves a session out.
abbrev spared : List ℕ → ℕ → Bool
spared ids k = not (any (λ x. x == k) ids)

-- The number of sessions whose id passes, and of those among the active sessions of a user.
unfoldable count_ids : (ℕ → Bool) → List Session → ℕ
count_ids q [] = 0
count_ids q (s ∷ ss) = (if q s.id then 1 else 0) + count_ids q ss

unfoldable count_active : (ℕ → Bool) → ℕ → List Session → ℕ
count_active q user [] = 0
count_active q user (s ∷ ss) =
    (if active_of user s && q s.id then 1 else 0) + count_active q user ss

count_active-update :
    (q : ℕ → Bool) (user k : ℕ) (ss : List Session)
    → count_active q user (update_by session_key k (λ s. true) revoke ss)
      ≡ count_active (λ j. q j && not (k == j)) user ss
unfolding count_active update_by
count_active-update q user k [] = refl
count_active-update q user k (s ∷ ss) = ground (arith, count_active-update q user k ss)

count_active_ext :
    (q r : ℕ → Bool) (user : ℕ) (ss : List Session)
    → ((j : ℕ) → q j ≡ r j)
    → count_active q user ss ≡ count_active r user ss
unfolding count_active
count_active_ext q r user [] h = refl
count_active_ext q r user (s ∷ ss) h = ground (arith, h s.id, count_active_ext q r user ss h)

count_active-evict :
    (ids : List ℕ) (q : ℕ → Bool) (user : ℕ) (ss : List Session)
    → count_active q user (evict ids ss) ≡ count_active (λ j. q j && spared ids j) user ss
unfolding evict
count_active-evict [] q user ss = count_active_ext q _ user ss (λ j. ground arith)
count_active-evict (k ∷ ids) q user ss =
    count_active-evict ids q user (update_by session_key k (λ s. true) revoke ss)
    ∙ count_active-update (λ j. q j && spared ids j) user k ss
    ∙ count_active_ext (λ j. (q j && spared ids j) && not (k == j)) _ user ss (λ j. ground arith)

count_ids-insert :
    (q : ℕ → Bool) (s : Session) (ss : List Session)
    → count_ids q (insert_by_age s ss) ≡ count_ids q (s ∷ ss)
unfolding count_ids insert_by_age
count_ids-insert q s [] = refl
count_ids-insert q s (x ∷ ss) = ground (arith, count_ids-insert q s ss)

count_ids-sort : (q : ℕ → Bool) (ss : List Session) → count_ids q (sort_by_age ss) ≡ count_ids q ss
unfolding sort_by_age count_ids
count_ids-sort q [] = refl
count_ids-sort q (s ∷ ss) =
    count_ids-insert q s (sort_by_age ss) ∙ unfold count_ids in omega (arith, count_ids-sort q ss)

count_ids-active :
    (q : ℕ → Bool) (user : ℕ) (ss : List Session)
    → count_ids q (active_sessions user ss) ≡ count_active q user ss
unfolding count_ids count_active active_sessions
count_ids-active q user [] = refl
count_ids-active q user (s ∷ ss) = ground (arith, count_ids-active q user ss)

count_ids-all : (ss : List Session) → count_ids (λ j. true) ss ≡ length ss
unfolding count_ids
count_ids-all [] = refl
count_ids-all (s ∷ ss) = omega (arith, count_ids-all ss)

count_ids_bound : (q : ℕ → Bool) (ss : List Session) → count_ids q ss ≤ length ss
unfolding count_ids
count_ids_bound q [] = omega arith
count_ids_bound q (s ∷ ss) = ground (arith, count_ids_bound q ss)

-- No more than the sessions behind the first `m` are spared, if these are among `ids`.
spared_bound :
    (m : ℕ) (ids : List ℕ) (ss : List Session)
    → ((j : ℕ) → spared ids j ≡ true → spared (map session_key (take m ss)) j ≡ true)
    → count_ids (spared ids) ss ≤ length ss - m
unfolding count_ids
spared_bound zero ids ss h = omega (arith, count_ids_bound (spared ids) ss)
spared_bound (suc m) ids [] h = omega arith
spared_bound (suc m) ids (s ∷ ss) h =
    let rest = spared_bound m ids ss (λ j e. ground (arith, h j e)) in ground (arith, rest, h s.id)

count_by-snoc :
    (user : ℕ) (ss : List Session) (s : Session)
    → s.user_id ≡ user
    → s.is_revoked ≡ false
    → count_by user_key user is_active (ss ++ s ∷ []) ≡ suc (count_active (λ j. true) user ss)
unfolding count_by count_active
count_by-snoc user [] s e a = ground arith
count_by-snoc user (x ∷ ss) s e a = ground (arith, count_by-snoc user ss s e a)

active_after_evict :
    (user : ℕ) (ss : List Session)
    → count_active (λ j. true) user (evict (sessions_to_evict user ss) ss) ≤ 4
unfolding sessions_to_evict evict
active_after_evict user ss =
    let sorted = sort_by_age (active_sessions user ss) in
    let count =
      λ (q : ℕ → Bool). count_ids-sort q (active_sessions user ss) ∙ count_ids-active q user ss in
    let ids = map session_key (take (length sorted - 4) sorted) in
    elim (Bool-cases (leb 5 (length sorted))) [
      | inl e ↦ rw e (
          omega (
            arith,
            count_active-evict ids (λ j. true) user ss,
            count_active_ext (λ j. true && spared ids j) (spared ids) user ss (λ j. refl),
            count (spared ids),
            spared_bound (length sorted - 4) ids sorted (λ j h. h),
          ))
      | inr e ↦ rw (e, evict) (ground (arith, count (λ j. true), count_ids-all sorted))
    ]

count_by-active :
    (user : ℕ) (ss : List Session)
    → count_by user_key user is_active ss ≡ count_active (λ j. true) user ss
unfolding count_by count_active
count_by-active user [] = refl
count_by-active user (s ∷ ss) = ground (arith, count_by-active user ss)

-- After a login through `createSession` for a role other than DRIVER, the user has at most five
-- active sessions, whatever sessions there were and whether or not the device is there.
pub login_bound :
    (hash : ℕ → ℕ) (g : NewSession) (user device family : ℕ) (has_device : Bool) (st : SessionStore)
    → count_by user_key user is_active
        (create_session hash g user device family has_device st).1.sessions
      ≤ 5
unfolding create_session new_session
login_bound hash g user device family false st = omega (
  arith,
  count_by-active user (evict (sessions_to_evict user st.sessions) st.sessions),
  active_after_evict user st.sessions,
)
login_bound hash g user device family true st =
    let ids = sessions_to_evict user st.sessions in
    let s = new_session hash g user device family in
    omega (
      arith,
      count_by-snoc user (evict ids st.sessions) s refl refl,
      active_after_evict user st.sessions,
    )
