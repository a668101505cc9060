-- ===== src/Keys/Queue.antt =====
-- The one-time prekeys of a device as a queue: consumePrekeyBundle of
-- src/modules/e2ee-keys/e2ee-keys.service.ts.
use be_distribution_system_a.Prelude.{
  ℕ, ◌≡◌, refl, Bool, true, false, ◌&&◌, Option, none, some, List, [], ◌∷◌, ◌==◌, leb,
  if◌then◌else◌, all, arith, Bool-cases, inl, inr,
}
use be_distribution_system_a.Prelude.Table.{update_by}
use be_distribution_system_a.Keys.Service.{
  Prekey, prekey_key, is_available, lesser, least_available, consumed,
}

-- The queue of a device: its available prekeys by key id.
unfoldable pub insert_prekey : Prekey → List Prekey → List Prekey
insert_prekey p [] = p ∷ []
insert_prekey p (q ∷ qs) =
    let rest = insert_prekey p qs in if leb p.key_id q.key_id then p ∷ q ∷ qs else q ∷ rest

unfoldable pub queue : ℕ → List Prekey → List Prekey
queue device [] = []
queue device (p ∷ ps) =
    let rest = queue device ps in if is_available device p then insert_prekey p rest else rest

abbrev pub head : List Prekey → Option Prekey
head [] = none
head (p ∷ ps) = some p

head-insert : (p : Prekey) (qs : List Prekey) → head (insert_prekey p qs) ≡ lesser p (head qs)
unfolding insert_prekey
head-insert p [] = refl
head-insert p (q ∷ qs) = ground arith

pub least-head : (d : ℕ) (ps : List Prekey) → least_available d ps ≡ head (queue d ps)
unfolding least_available queue
least-head d [] = refl
least-head d (p ∷ ps) = ground (arith, least-head d ps, head-insert p (queue d ps))

-- A row comes before all rows of a list; a list in order.
abbrev precedes : Prekey → List Prekey → Bool
precedes p qs = all (λ q. leb p.key_id q.key_id) qs

abbrev in_order : List Prekey → Bool
in_order [] = true
in_order (p ∷ ps) = precedes p ps && in_order ps

precedes-weaken :
    (p q : Prekey) (qs : List Prekey)
    → leb p.key_id q.key_id ≡ true
    → precedes q qs ≡ true
    → precedes p qs ≡ true
precedes-weaken p q [] h e = refl
precedes-weaken p q (x ∷ qs) h e = ground (arith, precedes-weaken p q qs)

precedes-insert :
    (p q : Prekey) (qs : List Prekey)
    → leb p.key_id q.key_id ≡ true
    → precedes p qs ≡ true
    → precedes p (insert_prekey q qs) ≡ true
unfolding insert_prekey
precedes-insert p q [] h e = ground arith
precedes-insert p q (x ∷ qs) h e = ground (arith, precedes-insert p q qs)

in_order-insert :
    (p : Prekey) (qs : List Prekey) → in_order qs ≡ true → in_order (insert_prekey p qs) ≡ true
unfolding insert_prekey
in_order-insert p [] h = refl
in_order-insert p (q ∷ qs) h =
    ground (arith, precedes-weaken p q qs, precedes-insert q p qs, in_order-insert p qs)

in_order-queue : (d : ℕ) (ps : List Prekey) → in_order (queue d ps) ≡ true
unfolding queue
in_order-queue d [] = refl
in_order-queue d (p ∷ ps) = ground (arith, in_order-queue d ps, in_order-insert p (queue d ps))

-- The rows of a list without those of one id.
unfoldable pub without : ℕ → List Prekey → List Prekey
without k [] = []
without k (p ∷ ps) = let rest = without k ps in if p.id == k then rest else p ∷ rest

precedes-without :
    (p : Prekey) (k : ℕ) (qs : List Prekey)
    → precedes p qs ≡ true
    → precedes p (without k qs) ≡ true
unfolding without
precedes-without p k [] h = refl
precedes-without p k (q ∷ qs) h = ground (arith, precedes-without p k qs)

insert-first : (p : Prekey) (qs : List Prekey) → precedes p qs ≡ true → insert_prekey p qs ≡ p ∷ qs
unfolding insert_prekey
insert-first p [] h = refl
insert-first p (q ∷ qs) h = ground arith

without-insert_other :
    (p : Prekey) (k : ℕ) (qs : List Prekey)
    → (p.id == k) ≡ false
    → in_order qs ≡ true
    → without k (insert_prekey p qs) ≡ insert_prekey p (without k qs)
unfolding without insert_prekey
without-insert_other p k [] e h = ground arith
without-insert_other p k (q ∷ qs) e h = elim (Bool-cases (leb p.key_id q.key_id)) [
  | inl b ↦
      let all_after : precedes p (without k (q ∷ qs)) ≡ true =
        precedes-without p k (q ∷ qs) (ground (arith, precedes-weaken p q qs)) in
      ground (arith, insert-first p (without k (q ∷ qs)) all_after)
  | inr b ↦ ground (arith, without-insert_other p k qs e)
]

without-insert_same :
    (p : Prekey) (k : ℕ) (qs : List Prekey)
    → (p.id == k) ≡ true
    → without k (insert_prekey p qs) ≡ without k qs
unfolding without insert_prekey
without-insert_same p k [] e = ground arith
without-insert_same p k (q ∷ qs) e = ground (arith, without-insert_same p k qs e)

pub queue-update :
    (d k : ℕ) (ps : List Prekey)
    → queue d (update_by prekey_key k (λ x. true) consumed ps) ≡ without k (queue d ps)
unfolding queue update_by
queue-update d k [] = unfold without in refl
queue-update d k (p ∷ ps) = elim (Bool-cases (p.id == k)) [
  | inl e ↦ ground (arith, queue-update d k ps, without-insert_same p k (queue d ps) e)
  | inr e ↦
      ground
        (arith, queue-update d k ps, without-insert_other p k (queue d ps) e (in_order-queue d ps))
]
