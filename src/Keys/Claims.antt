-- ===== src/Keys/Claims.antt =====
-- The claims of one-time prekeys, in consumePrekeyBundle of src/modules/e2ee-keys/e2ee-keys.service.ts,
-- as the dequeues of a queue.
use be_distribution_system_a.Prelude.{
  ℕ, zero, suc, ◌≤◌, ◌≡◌, refl, ◌∙◌, sym, ap, Bool, true, false, Option, none, some, List, [], ◌∷◌,
  map, take, arith, ◌⊎◌, inl, inr,
}
use be_distribution_system_a.Prelude.Table.{
  find_by, update_by, count_by, apply_if, IsUnique, count_by_unique, find_by-update_by,
}
use be_distribution_system_a.Keys.Service.{
  DeviceKey, Prekey, PrekeyItem, KeyTables, KeyAnswer, given, denied, keys_device, prekey_key,
  least_available, consumed, claim_prekey, PrekeyBundle, consume_prekey_bundle,
}
use be_distribution_system_a.Keys.Queue.{
  insert_prekey, queue, head, least-head, without, queue-update,
}

-- How often an id is in a list.
abbrev pub occurrences : ℕ → List Prekey → ℕ
occurrences k ps = count_by prekey_key k (λ p. true) ps

pub occurrences-insert :
    (k : ℕ) (p : Prekey) (qs : List Prekey)
    → occurrences k (insert_prekey p qs) ≡ occurrences k (p ∷ qs)
unfolding count_by insert_prekey
occurrences-insert k p [] = refl
occurrences-insert k p (q ∷ qs) = ground (arith, occurrences-insert k p qs)

pub occurrences-queue : (d k : ℕ) (ps : List Prekey) → occurrences k (queue d ps) ≤ occurrences k ps
unfolding count_by queue
occurrences-queue d k [] = omega arith
occurrences-queue d k (p ∷ ps) =
    ground (arith, occurrences-queue d k ps, occurrences-insert k p (queue d ps))

pub without_absent : (k : ℕ) (ps : List Prekey) → occurrences k ps ≡ 0 → without k ps ≡ ps
unfolding without count_by
without_absent k [] h = refl
without_absent k (p ∷ ps) h = ground (arith, without_absent k ps)

-- Without the id of its head, a queue is its tail.
pub without_head :
    (p : Prekey) (qs : List Prekey) → occurrences p.id (p ∷ qs) ≤ 1 → without p.id (p ∷ qs) ≡ qs
unfolding without count_by
without_head p qs h = ground (arith, without_absent p.id qs)

pub occurrences_unique : (k : ℕ) (ps : List Prekey) → IsUnique prekey_key ps → occurrences k ps ≤ 1
occurrences_unique k ps h = ground (arith, count_by_unique prekey_key k (λ p. true) ps h)

-- A claim takes the head of the queue.
pub claim-queue :
    (d : ℕ) (ps : List Prekey) (p : Prekey) (qs : List Prekey)
    → IsUnique prekey_key ps
    → queue d ps ≡ p ∷ qs
    → (least_available d ps ≡ some p) × (queue d (claim_prekey (some p) ps) ≡ qs)
claim-queue d ps p qs unique e = (
  least-head d ps ∙ ap head e,
  queue-update d p.id ps
      ∙ ap (without p.id) e
      ∙ without_head p qs (
          omega (
            arith,
            occurrences_unique p.id ps unique,
            occurrences-queue d p.id ps,
            ap (occurrences p.id) e,
          )),
)

pub kept_id : (p : Prekey) (b : Bool) → (apply_if b consumed p).id ≡ p.id
kept_id p true = refl
kept_id p false = refl

pub update-IsUnique :
    (k : ℕ) (ps : List Prekey)
    → IsUnique prekey_key ps
    → IsUnique prekey_key (update_by prekey_key k (λ x. true) consumed ps)
unfolding update_by
update-IsUnique k [] h = h
update-IsUnique k (p ∷ ps) (a, h) = (
  ap (λ j. find_by prekey_key j (update_by prekey_key k (λ x. true) consumed ps)) (kept_id p _)
      ∙ find_by-update_by prekey_key p.id k (λ x. true) consumed ps (λ x. refl)
      ∙ ground (arith, a),
  update-IsUnique k ps h,
)

-- The one-time prekeys that successive requests for the bundle of a device are answered with, up to the
-- first that gets none.
abbrev pub prekey_of : KeyAnswer PrekeyBundle → Option PrekeyItem
prekey_of (denied e) = none
prekey_of (given b) = b.one_time_prekey

unfoldable pub handed_out : ℕ → ℕ → KeyTables → List PrekeyItem
handed_out zero d t = []
handed_out (suc n) d t =
    let (answer, t') = consume_prekey_bundle d t in
    let rest = handed_out n d t' in elim (prekey_of answer) [ none ↦ [] | some i ↦ i ∷ rest ]

abbrev pub item : Prekey → PrekeyItem
item p = record { key_id = p.key_id; public_key = p.public_key }

pub handed-some :
    (n d : ℕ) (t : KeyTables) (k : DeviceKey) (p : Prekey)
    → find_by keys_device d t.device_keys ≡ some k
    → least_available d t.prekeys ≡ some p
    → handed_out (suc n) d t
      ≡ item p ∷ handed_out n d (record t { prekeys = claim_prekey (some p) t.prekeys })
unfolding handed_out consume_prekey_bundle
handed-some n d t k p found least = ground arith

pub handed-none :
    (n d : ℕ) (t : KeyTables) (k : DeviceKey)
    → find_by keys_device d t.device_keys ≡ some k
    → least_available d t.prekeys ≡ none
    → handed_out (suc n) d t ≡ []
unfolding handed_out consume_prekey_bundle
handed-none n d t k found least = ground arith

pub head-cases :
    (qs : List Prekey) → (qs ≡ []) ⊎ ((q : Prekey) × (rest : List Prekey) × (qs ≡ q ∷ rest))
head-cases [] = inl refl
head-cases (q ∷ qs) = inr (q, qs, refl)

-- Prekeys are handed out as from a queue: when row ids are unique and the device has registered its keys,
-- the one-time prekeys of any number of successive requests are the first available ones of the
-- device in the order of their key ids, each of them once.
pub handed_in_order :
    (n d : ℕ) (t : KeyTables) (k : DeviceKey)
    → IsUnique prekey_key t.prekeys
    → find_by keys_device d t.device_keys ≡ some k
    → handed_out n d t ≡ take n (map item (queue d t.prekeys))
unfolding handed_out
handed_in_order zero d t k unique found = refl
handed_in_order (suc n) d t k unique found = elim (head-cases (queue d t.prekeys)) [
  | inl e ↦
      handed-none n d t k found (least-head d t.prekeys ∙ ap head e)
      ∙ ap (λ qs. take (suc n) (map item qs)) (sym e)
  | inr (p, qs, e) ↦
      let (least, after) = claim-queue d t.prekeys p qs unique e in
      handed-some n d t k p found least
      ∙ ap (◌∷◌ (item p)) (
          handed_in_order n d (record t { prekeys = claim_prekey (some p) t.prekeys }) k
            (update-IsUnique p.id t.prekeys unique) found
          ∙ ap (λ x. take n (map item x)) after)
      ∙ ap (λ x. take (suc n) (map item x)) (sym e)
]
