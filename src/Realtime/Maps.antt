-- ===== src/Realtime/Maps.antt =====
-- Sets and indices of sockets after an insertion and a deletion.
use be_distribution_system_a.Prelude.{
  ℕ, ◌≡◌, refl, not, ◌&&◌, ◌||◌, Option, none, some, List, [], ◌∷◌, ◌++◌, ◌==◌, if◌then◌else◌,
  arith, is_some_of,
}
use be_distribution_system_a.Realtime.Connections.{
  Index, mem, add, delete, add_socket_to_index, remove_socket_from_index, release_driver,
  claim_driver,
}

mem-snoc : (j k : ℕ) (xs : List ℕ) → mem j (xs ++ k ∷ []) ≡ (mem j xs || k == j)
mem-snoc j k [] = ground arith
mem-snoc j k (x ∷ xs) = ground (arith, mem-snoc j k xs)

mem-add : (j k : ℕ) (xs : List ℕ) → mem j (add k xs) ≡ (mem j xs || k == j)
mem-add j k xs = ground (arith, mem-snoc j k xs)

mem-delete : (j k : ℕ) (xs : List ℕ) → mem j (delete k xs) ≡ (mem j xs && not (k == j))
unfolding delete
mem-delete j k [] = refl
mem-delete j k (x ∷ xs) = ground (arith, mem-delete j k xs)

-- An index holds a socket at a key after its insertion if it did before, or at its own key.
pub mem-add_socket_to_index :
    (o : Option ℕ) (id j key : ℕ) (index : Index)
    → mem j (add_socket_to_index o id index key)
      ≡ (mem j (index key) || is_some_of key o && id == j)
unfolding add_socket_to_index
mem-add_socket_to_index none id j key index = ground arith
mem-add_socket_to_index (some k) id j key index = ground (arith, mem-add j id (index key))

pub mem-remove_socket_from_index :
    (o : Option ℕ) (id j key : ℕ) (index : Index)
    → mem j (remove_socket_from_index o id index key)
      ≡ (mem j (index key) && not (is_some_of key o && id == j))
unfolding remove_socket_from_index
mem-remove_socket_from_index none id j key index = ground arith
mem-remove_socket_from_index (some k) id j key index = ground (arith, mem-delete j id (index key))

pub release_driver_lem :
    (o : Option ℕ) (id j key : ℕ) (m : ℕ → Option ℕ)
    → is_some_of j (release_driver o id m key)
      ≡ (is_some_of j (m key) && not (is_some_of key o && id == j))
unfolding release_driver
release_driver_lem none id j key m = ground arith
release_driver_lem (some k) id j key m = ground arith

pub claim_driver_lem :
    (o : Option ℕ) (id j key : ℕ) (m : ℕ → Option ℕ)
    → is_some_of j (claim_driver o id m key)
      ≡ (if is_some_of key o then id == j else is_some_of j (m key))
unfolding claim_driver
claim_driver_lem none id j key m = refl
claim_driver_lem (some k) id j key m = ground arith
