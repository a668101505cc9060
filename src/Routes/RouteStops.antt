-- ===== src/Routes/RouteStops.antt =====
-- The stops of a stored route, in their order: the rows of `createMany` in selectRoute and the `orderBy`
-- of getCurrentRoute in src/modules/routes/services/routes-domain.service.ts.
use be_distribution_system_a.Prelude.{
  ℕ, suc, ◌<◌, ◌≡◌, refl, ◌∙◌, ap, List, [], ◌∷◌, ◌++◌, leb, if◌then◌else◌, map, arith,
}
use be_distribution_system_a.Prelude.Table.{find_many}
use be_distribution_system_a.Routes.Domain.{RouteStopRow}
use be_distribution_system_a.Routes.Selection.{StopSequenceItem, route_stop, numbered}

abbrev pub route_of : RouteStopRow → ℕ
route_of r = r.route_id

-- `orderBy: { sequence: 'asc' }` on the stops of a route, and on those of a delivery
unfoldable pub insert_row : RouteStopRow → List RouteStopRow → List RouteStopRow
insert_row r [] = r ∷ []
insert_row r (x ∷ xs) =
    let rest = insert_row r xs in if leb r.sequence x.sequence then r ∷ x ∷ xs else x ∷ rest

unfoldable pub sort_rows : List RouteStopRow → List RouteStopRow
sort_rows [] = []
sort_rows (r ∷ rs) = insert_row r (sort_rows rs)

abbrev pub item_of : RouteStopRow → StopSequenceItem
item_of r = record { delivery_stop_id = r.delivery_stop_id; sequence = r.sequence }

find_many-append_none :
    (k : ℕ) (xs ys : List RouteStopRow)
    → find_many route_of k xs ≡ []
    → find_many route_of k (xs ++ ys) ≡ find_many route_of k ys
unfolding find_many
find_many-append_none k [] ys h = refl
find_many-append_none k (x ∷ xs) ys h = ground (arith, find_many-append_none k xs ys)

find_many-route_stop :
    (k : ℕ) (items : List StopSequenceItem)
    → find_many route_of k (map (route_stop k) items) ≡ map (route_stop k) items
unfolding find_many
find_many-route_stop k [] = refl
find_many-route_stop k (i ∷ items) = ground (arith, find_many-route_stop k items)

insert_first :
    (k i j s : ℕ) (ks : List ℕ)
    → i < suc j
    → insert_row
        (route_stop k (record { delivery_stop_id = s; sequence = i }))
        (map (route_stop k) (numbered j ks))
      ≡ route_stop k (record { delivery_stop_id = s; sequence = i })
        ∷ map (route_stop k) (numbered j ks)
unfolding insert_row numbered
insert_first k i j s [] h = refl
insert_first k i j s (x ∷ ks) h = ground arith

sort_rows-numbered :
    (k i : ℕ) (ks : List ℕ)
    → sort_rows (map (route_stop k) (numbered i ks)) ≡ map (route_stop k) (numbered i ks)
unfolding sort_rows numbered
sort_rows-numbered k i [] = refl
sort_rows-numbered k i (x ∷ ks) =
    ap (insert_row (route_stop k (record { delivery_stop_id = x; sequence = suc i })))
      (sort_rows-numbered k (suc i) ks)
    ∙ insert_first k (suc i) (suc i) x ks (omega arith)

items_of-route_stop :
    (k : ℕ) (items : List StopSequenceItem) → map item_of (map (route_stop k) items) ≡ items
items_of-route_stop k [] = refl
items_of-route_stop k (i ∷ items) = ap (◌∷◌ i) (items_of-route_stop k items)

pub written_stops :
    (k : ℕ) (ids : List ℕ) (rows : List RouteStopRow)
    → find_many route_of k rows ≡ []
    → map item_of (sort_rows (find_many route_of k (rows ++ map (route_stop k) (numbered 0 ids))))
      ≡ numbered 0 ids
written_stops k ids rows fresh =
    ap (λ x. map item_of (sort_rows x))
      (find_many-append_none k rows (map (route_stop k) (numbered 0 ids)) fresh
        ∙ find_many-route_stop k (numbered 0 ids))
    ∙ ap (map item_of) (sort_rows-numbered k 0 ids)
    ∙ items_of-route_stop k (numbered 0 ids)
