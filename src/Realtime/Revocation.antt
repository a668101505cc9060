-- ===== src/Realtime/Revocation.antt =====
-- Revocations, and runs of the connection manager.
use be_distribution_system_a.Prelude.{
  ℕ, ◌≡◌, refl, ap, ◌∙◌, true, Option, none, some, ◌==◌, if◌then◌else◌, arith, is_some_of,
  Option-cases, Bool-cases, inl, inr, List, [], ◌∷◌,
}
use be_distribution_system_a.Realtime.Connections.{
  SocketData, Connections, mem, Reason, close_socket, register_socket, remove_socket, live_sockets,
  disconnect_sockets, disconnect_session, disconnect_device, disconnect_user, no_connections,
}
use be_distribution_system_a.Realtime.Consistency.{
  IsConsistent, has, user_of, session_of, device_of, driver_of, remove_socket-IsConsistent,
  close_socket_lem, close_socket-IsConsistent,
}
use be_distribution_system_a.Realtime.Registration.{OnlyDrivers, register_socket-IsConsistent}

mem-live_sockets :
    (j : ℕ) (c : Connections) (ids : List ℕ) (d : SocketData)
    → c.sockets j ≡ some d
    → mem j (live_sockets c ids) ≡ mem j ids
unfolding live_sockets
mem-live_sockets j c [] d e = refl
mem-live_sockets j c (id ∷ ids) d e = elim (Bool-cases (id == j)) [
  | inl g ↦
      let same : id ≡ j = ground arith in
      let here : c.sockets id ≡ some d = ap c.sockets same ∙ e in
      ground (arith, mem-live_sockets j c ids d e)
  | inr g ↦ ground (arith, mem-live_sockets j c ids d e)
]

disconnect_sockets_lem :
    (reason : Reason) (ids : List ℕ) (c : Connections) (j : ℕ)
    → (disconnect_sockets reason ids c).sockets j ≡ (if mem j ids then none else c.sockets j)
unfolding disconnect_sockets
disconnect_sockets_lem reason [] c j = refl
disconnect_sockets_lem reason (id ∷ ids) c j = ground (
  arith,
  disconnect_sockets_lem reason ids (close_socket reason id c) j,
  close_socket_lem reason id j c,
)

disconnect_sockets-IsConsistent :
    (reason : Reason) (ids : List ℕ) (c : Connections)
    → IsConsistent c
    → IsConsistent (disconnect_sockets reason ids c)
unfolding disconnect_sockets
disconnect_sockets-IsConsistent reason [] c h = h
disconnect_sockets-IsConsistent reason (id ∷ ids) c h =
    disconnect_sockets-IsConsistent reason ids (close_socket reason id c)
      (close_socket-IsConsistent reason id c h)

-- The sockets with the key are gone and the others are as they were.
abbrev pub Revoked : (SocketData → Option ℕ) → ℕ → Connections → Connections → Type 0
Revoked f key c c' =
    (j : ℕ) → c'.sockets j ≡ (if has f key (c.sockets j) then none else c.sockets j)

revoke_lem :
    (f : SocketData → Option ℕ) (reason : Reason) (key : ℕ) (ids : List ℕ) (c : Connections)
    → ((j : ℕ) → mem j ids ≡ has f key (c.sockets j))
    → Revoked f key c (disconnect_sockets reason (live_sockets c ids) c)
revoke_lem f reason key ids c agree j = elim (Option-cases (c.sockets j)) [
  | inl e ↦ ground (arith, disconnect_sockets_lem reason (live_sockets c ids) c j)
  | inr (d, e) ↦ ground (
    arith,
    agree j,
    mem-live_sockets j c ids d e,
    disconnect_sockets_lem reason (live_sockets c ids) c j,
  )
]

-- When the maps agree, the revocation of a session, a device or a user removes each of its
-- sockets, and every other socket is as it was.
pub revocation_reaches :
    (key : ℕ) (c : Connections)
    → IsConsistent c
    → Revoked session_of key c (disconnect_session key c)
      × Revoked device_of key c (disconnect_device key c)
      × Revoked user_of key c (disconnect_user key c)
unfolding disconnect_session disconnect_device disconnect_user
revocation_reaches key c h = (
  revoke_lem session_of _ key (c.session_sockets key) c (λ j. h.sessions j key),
  revoke_lem device_of _ key (c.device_sockets key) c (λ j. h.devices j key),
  revoke_lem user_of _ key (c.user_sockets key) c (λ j. h.users j key),
)

-- What may happen to the manager.
pub data Event : Type 0 where
  connect : ℕ → SocketData → Event
  leave revoke_session revoke_device revoke_user : ℕ → Event

unfoldable pub handle : Event → Connections → Connections
handle (connect id d) c = register_socket id d c
handle (leave id) c = remove_socket id c
handle (revoke_session s) c = disconnect_session s c
handle (revoke_device d) c = disconnect_device d c
handle (revoke_user u) c = disconnect_user u c

unfoldable pub run : List Event → Connections → Connections
run [] c = c
run (e ∷ es) c = run es (handle e c)

-- A socket that connects has a new id, and a driver id with the role of a driver only.
abbrev pub IsAllowed : Event → Connections → Type 0
IsAllowed (connect id d) c = (c.sockets id ≡ none) × OnlyDrivers d
IsAllowed _ c = Unit

abbrev pub IsRun : List Event → Connections → Type 0
IsRun [] c = Unit
IsRun (e ∷ es) c = IsAllowed e c × IsRun es (handle e c)

handle-IsConsistent :
    (e : Event) (c : Connections) → IsConsistent c → IsAllowed e c → IsConsistent (handle e c)
unfolding handle disconnect_session disconnect_device disconnect_user
handle-IsConsistent (connect id d) c h a = register_socket-IsConsistent id d c h a.0 a.1
handle-IsConsistent (leave id) c h a = remove_socket-IsConsistent id c h
handle-IsConsistent (revoke_session s) c h a = disconnect_sockets-IsConsistent _ _ c h
handle-IsConsistent (revoke_device d) c h a = disconnect_sockets-IsConsistent _ _ c h
handle-IsConsistent (revoke_user u) c h a = disconnect_sockets-IsConsistent _ _ c h

run-IsConsistent :
    (es : List Event) (c : Connections) → IsConsistent c → IsRun es c → IsConsistent (run es c)
unfolding run
run-IsConsistent [] c h a = h
run-IsConsistent (e ∷ es) c h (allowed, rest) =
    run-IsConsistent es (handle e c) (handle-IsConsistent e c h allowed) rest

-- After any run of registrations under new ids, removals and revocations from an empty manager, in
-- which driver ids belong to drivers, the maps agree: an index holds a socket at a key exactly when
-- the socket is there with that key, and the driver map names a socket exactly when it is the
-- driver's.
pub run_agrees : (es : List Event) → IsRun es no_connections → IsConsistent (run es no_connections)
run_agrees es a =
    run-IsConsistent es no_connections
      (record {
        users = λ id u. refl;
        sessions = λ id s. refl;
        devices = λ id d. refl;
        drivers = λ id k. refl;
      })
      a

same_socket : (o : Option ℕ) (i j : ℕ) → is_some_of i o ≡ true → is_some_of j o ≡ true → i ≡ j
same_socket none i j p q = cc
same_socket (some k) i j p q = ground arith

-- After such a run, two sockets that are there for one driver are the same socket.
pub run_one_socket :
    (es : List Event) (i j k : ℕ)
    → IsRun es no_connections
    → has driver_of k ((run es no_connections).sockets i) ≡ true
    → has driver_of k ((run es no_connections).sockets j) ≡ true
    → i ≡ j
run_one_socket es i j k a p q =
    let h = run_agrees es a in
    same_socket ((run es no_connections).driver_sockets k) i j (h.drivers i k ∙ p)
      (h.drivers j k ∙ q)
