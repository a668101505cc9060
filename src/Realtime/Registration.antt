-- ===== src/Realtime/Registration.antt =====
-- The registration of a socket and the agreement of the maps.
use be_distribution_system_a.Prelude.{
  ℕ, ◌≡◌, refl, ap, ◌∙◌, true, false, Option, none, some, ◌==◌, arith, Option-cases, Bool-cases,
  inl, inr,
}
use be_distribution_system_a.Deliveries.Model.{is_driver}
use be_distribution_system_a.Realtime.Connections.{
  SocketData, Connections, superseded_by_new_login, close_other, supersede, add_socket,
  register_socket,
}
use be_distribution_system_a.Realtime.Consistency.{
  IsConsistent, has, user_of, session_of, device_of, driver_of, index_adds, driver_claims,
  close_socket_lem, close_socket-IsConsistent,
}

-- What makes room for a socket: the maps agree, the socket is not there, and no socket has the driver.
record Cleared (id : ℕ) (o : Option ℕ) (c : Connections) : Type 0 where
  agree : IsConsistent c
  fresh : c.sockets id ≡ none
  alone : (j k : ℕ) → o ≡ some k → has driver_of k (c.sockets j) ≡ false

close_other-Cleared :
    (id k : ℕ) (o : Option ℕ) (c : Connections)
    → IsConsistent c
    → c.sockets id ≡ none
    → c.driver_sockets k ≡ o
    → Cleared id (some k) (close_other id o c)
close_other-Cleared id k none c h fresh e = record {
  agree = h;
  fresh = fresh;
  alone = λ j i g. ground (arith, h.drivers j k);
}
close_other-Cleared id k (some existing) c h fresh e = elim (Bool-cases (existing == id)) [
  | inl g ↦
      let same : existing ≡ id = ground arith in
      let gone : c.sockets existing ≡ none = ap c.sockets same ∙ fresh in
      absurd (ground (arith, h.drivers existing k))
  | inr g ↦ elim (Option-cases (c.sockets existing)) [
    | inl gone ↦ absurd (ground (arith, h.drivers existing k))
    | inr (d, there) ↦
        rw (g, there, close_other)
          record {
            agree = close_socket-IsConsistent superseded_by_new_login existing c h;
            fresh = ground (arith, close_socket_lem superseded_by_new_login existing id c);
            alone = λ j i same.
                ground
                  (arith, h.drivers j k, close_socket_lem superseded_by_new_login existing j c);
          }
  ]
]

-- Only a user with the role of a driver has a driver id.
abbrev pub OnlyDrivers : SocketData → Type 0
OnlyDrivers d = (k : ℕ) → d.driver_id ≡ some k → is_driver d.role ≡ true

supersede-Cleared :
    (id : ℕ) (d : SocketData) (c : Connections)
    → IsConsistent c
    → c.sockets id ≡ none
    → OnlyDrivers d
    → Cleared id d.driver_id (supersede id d c)
unfolding supersede
supersede-Cleared id d c h fresh only = elim (Option-cases d.driver_id) [
  | inl e ↦ rw (e, supersede) record { agree = h; fresh = fresh; alone = λ j i g. cc }
  | inr (k, e) ↦
      rw (e, only k e, supersede) (close_other-Cleared id k (c.driver_sockets k) c h fresh refl)
]

add_socket-IsConsistent :
    (id : ℕ) (d : SocketData) (c : Connections)
    → Cleared id d.driver_id c
    → IsConsistent (add_socket id d c)
unfolding add_socket
add_socket-IsConsistent id d c h = record {
  users = index_adds user_of id d c.sockets c.user_sockets h.agree.users h.fresh;
  sessions = index_adds session_of id d c.sockets c.session_sockets h.agree.sessions h.fresh;
  devices = index_adds device_of id d c.sockets c.device_sockets h.agree.devices h.fresh;
  drivers =
      driver_claims driver_of id d c.sockets c.driver_sockets h.agree.drivers
        (λ j k e. h.alone j k e) h.fresh;
}

pub register_socket-IsConsistent :
    (id : ℕ) (d : SocketData) (c : Connections)
    → IsConsistent c
    → c.sockets id ≡ none
    → OnlyDrivers d
    → IsConsistent (register_socket id d c)
unfolding register_socket
register_socket-IsConsistent id d c h fresh only = elim (Option-cases d.user_id) [
  | inl e ↦ rw (e, register_socket) h
  | inr (u, e) ↦
      rw (e, register_socket)
        (add_socket-IsConsistent id d (supersede id d c) (supersede-Cleared id d c h fresh only))
]
