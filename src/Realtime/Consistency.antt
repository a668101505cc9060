-- ===== src/Realtime/Consistency.antt =====
-- The agreement of the five maps of the connection manager.
use be_distribution_system_a.Prelude.{
  ℕ, ◌≡◌, ap, ◌∙◌, Bool, false, Option, none, some, ◌==◌, if◌then◌else◌, arith, is_some_of,
  Option-cases, Bool-cases, inl, inr,
}
use be_distribution_system_a.Realtime.Connections.{
  SocketData, Index, Connections, set_at, mem, add_socket_to_index, remove_socket_from_index,
  release_driver, claim_driver, forget, remove_socket, Reason, close_socket,
}
use be_distribution_system_a.Realtime.Maps.{
  mem-add_socket_to_index, mem-remove_socket_from_index, release_driver_lem, claim_driver_lem,
}

abbrev pub user_of : SocketData → Option ℕ
user_of d = d.user_id

abbrev pub session_of : SocketData → Option ℕ
session_of d = d.session_id

abbrev pub device_of : SocketData → Option ℕ
device_of d = d.device_id

abbrev pub driver_of : SocketData → Option ℕ
driver_of d = d.driver_id

-- The socket is there and its data have the key.
abbrev pub has : (SocketData → Option ℕ) → ℕ → Option SocketData → Bool
has f key none = false
has f key (some d) = is_some_of key (f d)

-- An index holds a socket at a key exactly when the socket is there with the key, and the
-- driver map names the one socket of the driver.
pub record IsConsistent (c : Connections) : Type 0 where
  pub users : (id u : ℕ) → mem id (c.user_sockets u) ≡ has user_of u (c.sockets id)
  pub sessions : (id s : ℕ) → mem id (c.session_sockets s) ≡ has session_of s (c.sockets id)
  pub devices : (id d : ℕ) → mem id (c.device_sockets d) ≡ has device_of d (c.sockets id)
  pub drivers : (id k : ℕ) → is_some_of id (c.driver_sockets k) ≡ has driver_of k (c.sockets id)

module _ (f : SocketData → Option ℕ) (id : ℕ) (d : SocketData)
    (sockets : ℕ → Option SocketData) where
  index_forgets :
      (index : Index)
      → ((j key : ℕ) → mem j (index key) ≡ has f key (sockets j))
      → sockets id ≡ some d
      → (j key : ℕ)
      → mem j (remove_socket_from_index (f d) id index key) ≡ has f key (set_at id none sockets j)
  index_forgets index agree there j key = elim (Bool-cases (j == id)) [
    | inl e ↦
        let same : j ≡ id = ground arith in
        let here : sockets j ≡ some d = ap sockets same ∙ there in
        ground (arith, agree j key, mem-remove_socket_from_index (f d) id j key index)
    | inr e ↦ ground (arith, agree j key, mem-remove_socket_from_index (f d) id j key index)
  ]

  pub index_adds :
      (index : Index)
      → ((j key : ℕ) → mem j (index key) ≡ has f key (sockets j))
      → sockets id ≡ none
      → (j key : ℕ)
      → mem j (add_socket_to_index (f d) id index key) ≡ has f key (set_at id (some d) sockets j)
  index_adds index agree fresh j key = elim (Bool-cases (j == id)) [
    | inl e ↦
        let same : j ≡ id = ground arith in
        let here : sockets j ≡ none = ap sockets same ∙ fresh in
        ground (arith, agree j key, mem-add_socket_to_index (f d) id j key index)
    | inr e ↦ ground (arith, agree j key, mem-add_socket_to_index (f d) id j key index)
  ]

  driver_forgets :
      (m : ℕ → Option ℕ)
      → ((j key : ℕ) → is_some_of j (m key) ≡ has f key (sockets j))
      → sockets id ≡ some d
      → (j key : ℕ)
      → is_some_of j (release_driver (f d) id m key) ≡ has f key (set_at id none sockets j)
  driver_forgets m agree there j key = elim (Bool-cases (j == id)) [
    | inl e ↦
        let same : j ≡ id = ground arith in
        let here : sockets j ≡ some d = ap sockets same ∙ there in
        ground (arith, agree j key, release_driver_lem (f d) id j key m)
    | inr e ↦ ground (arith, agree j key, release_driver_lem (f d) id j key m)
  ]

  pub driver_claims :
      (m : ℕ → Option ℕ)
      → ((j key : ℕ) → is_some_of j (m key) ≡ has f key (sockets j))
      → ((j key : ℕ) → f d ≡ some key → has f key (sockets j) ≡ false)
      → sockets id ≡ none
      → (j key : ℕ)
      → is_some_of j (claim_driver (f d) id m key) ≡ has f key (set_at id (some d) sockets j)
  driver_claims m agree alone fresh j key = elim (Option-cases (f d)) [
    | inl e ↦ elim (Bool-cases (j == id)) [
      | inl g ↦
          let same : j ≡ id = ground arith in
          let here : sockets j ≡ none = ap sockets same ∙ fresh in
          ground (arith, agree j key, claim_driver_lem (f d) id j key m)
      | inr g ↦ ground (arith, agree j key, claim_driver_lem (f d) id j key m)
    ]
    | inr (k, e) ↦ ground (arith, agree j key, alone j k e, claim_driver_lem (f d) id j key m)
  ]

forget-IsConsistent :
    (id : ℕ) (d : SocketData) (c : Connections)
    → IsConsistent c
    → c.sockets id ≡ some d
    → IsConsistent (forget id d c)
forget-IsConsistent id d c h there = record {
  users = index_forgets user_of id d c.sockets c.user_sockets h.users there;
  sessions = index_forgets session_of id d c.sockets c.session_sockets h.sessions there;
  devices = index_forgets device_of id d c.sockets c.device_sockets h.devices there;
  drivers = driver_forgets driver_of id d c.sockets c.driver_sockets h.drivers there;
}

-- What the removal of a socket leaves of the sockets.
pub remove_socket_lem :
    (id j : ℕ) (c : Connections)
    → (remove_socket id c).sockets j ≡ (if j == id then none else c.sockets j)
unfolding remove_socket
remove_socket_lem id j c = elim (Option-cases (c.sockets id)) [
  | inl e ↦ elim (Bool-cases (j == id)) [
    | inl g ↦
        let same : j ≡ id = ground arith in
        let here : c.sockets j ≡ none = ap c.sockets same ∙ e in ground arith
    | inr g ↦ ground arith
  ]
  | inr (d, e) ↦ ground arith
]

pub remove_socket-IsConsistent :
    (id : ℕ) (c : Connections) → IsConsistent c → IsConsistent (remove_socket id c)
unfolding remove_socket
remove_socket-IsConsistent id c h = elim (Option-cases (c.sockets id)) [
  | inl e ↦ rw (e, remove_socket) h
  | inr (d, e) ↦ rw (e, remove_socket) (forget-IsConsistent id d c h e)
]

pub close_socket-IsConsistent :
    (reason : Reason) (id : ℕ) (c : Connections)
    → IsConsistent c
    → IsConsistent (close_socket reason id c)
unfolding close_socket
close_socket-IsConsistent reason id c h =
    remove_socket-IsConsistent id _
      record { users = h.users; sessions = h.sessions; devices = h.devices; drivers = h.drivers }

pub close_socket_lem :
    (reason : Reason) (id j : ℕ) (c : Connections)
    → (close_socket reason id c).sockets j ≡ (if j == id then none else c.sockets j)
unfolding close_socket
close_socket_lem reason id j c = remove_socket_lem id j _
