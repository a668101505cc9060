-- ===== src/Tracking/Newest.antt =====
-- The cache of src/modules/tracking/services/tracking-cache.service.ts as a view of the stored rows.
use be_distribution_system_a.Prelude.{
  ℕ, ◌≡◌, refl, ◌∙◌, sym, ap, Bool, true, false, All, ◌≤◌, ◌<◌, ◌+◌, ◌*◌, Option-cases, Option,
  none, some, List, [], ◌∷◌, ◌++◌, ◌==◌, ltb, if◌then◌else◌, arith, ==_iff, Bool-cases, inl, inr,
}
use mathlib.Core.Path.{subst}
use be_distribution_system_a.Prelude.Table.{find_by}
use be_distribution_system_a.Tracking.Points.{
  LocationDto, CachedLocation, CacheEntry, cache_ttl, Speeding, cached_driver, set_cached,
  set_latest_location, get_latest_location,
}
use be_distribution_system_a.Tracking.Telemetry.{
  LocationRow, TrackingWorld, TelemetryRequest, location_of, for_cache, store_point,
}
use be_distribution_system_a.Tracking.Latest.{run_telemetry, run_keeps}

-- The later of a row and a row behind it; the earlier stored one, if they were recorded together.
abbrev later_row : LocationRow → Option LocationRow → Option LocationRow
later_row r none = some r
later_row r (some s) = if ltb r.location.recorded_at s.location.recorded_at then some s else some r

-- Of the rows of a driver, the one that was recorded last.
unfoldable pub newest : ℕ → List LocationRow → Option LocationRow
newest d [] = none
newest d (r ∷ rs) =
    let rest = newest d rs in if r.location.driver_id == d then later_row r rest else rest

abbrev pub shown : Option LocationRow → Option CachedLocation
shown none = none
shown (some r) = some (for_cache r.location)

abbrev location_in : Option CacheEntry → Option CachedLocation
location_in none = none
location_in (some e) = some e.location

get-set_cached :
    (d : ℕ) (e : CacheEntry) (es : List CacheEntry)
    → find_by cached_driver d (set_cached e es)
      ≡ (if cached_driver e == d then some e else find_by cached_driver d es)
unfolding find_by set_cached
get-set_cached d e [] = ground arith
get-set_cached d e (x ∷ es) = ground (arith, get-set_cached d e es)

-- No entry expires before a time.
abbrev LastsUntil : ℕ → List CacheEntry → Type 0
LastsUntil limit es = All (λ e. limit ≤ e.expires_at) es

LastsUntil-find :
    (limit d : ℕ) (es : List CacheEntry) (e : CacheEntry)
    → LastsUntil limit es
    → find_by cached_driver d es ≡ some e
    → limit ≤ e.expires_at
unfolding find_by
LastsUntil-find limit d [] e h found = cc
LastsUntil-find limit d (x ∷ es) e (first, rest) found =
    ground (arith, LastsUntil-find limit d es e rest, first)

LastsUntil-set_cached :
    (limit : ℕ) (e : CacheEntry) (es : List CacheEntry)
    → LastsUntil limit es
    → limit ≤ e.expires_at
    → LastsUntil limit (set_cached e es)
unfolding set_cached
LastsUntil-set_cached limit e [] h g = (g, tt)
LastsUntil-set_cached limit e (x ∷ es) (first, rest) g =
    elim (Bool-cases (cached_driver x == cached_driver e)) [
      | inl same ↦ rw same (g, rest)
      | inr other ↦ rw other (first, LastsUntil-set_cached limit e es rest g)
    ]

-- Before that time the cache answers with its entries.
get-lasting :
    (limit now d : ℕ) (es : List CacheEntry)
    → LastsUntil limit es
    → now < limit
    → get_latest_location now d es ≡ location_in (find_by cached_driver d es)
unfolding get_latest_location
get-lasting limit now d es h early = elim (Option-cases (find_by cached_driver d es)) [
  | inl e ↦ ground arith
  | inr (x, e) ↦ ground (arith, LastsUntil-find limit d es x h e, early)
]

newest-append_other :
    (d : ℕ) (rs : List LocationRow) (r : LocationRow)
    → (r.location.driver_id == d) ≡ false
    → newest d (rs ++ r ∷ []) ≡ newest d rs
unfolding newest
newest-append_other d [] r h = ground arith
newest-append_other d (x ∷ rs) r h = ground (arith, newest-append_other d rs r h)

-- What a row that is stored last makes of the newest one.
abbrev replaced : LocationRow → Option LocationRow → Option LocationRow
replaced r none = some r
replaced r (some s) = if ltb s.location.recorded_at r.location.recorded_at then some r else some s

replaced-later :
    (x r : LocationRow) (o : Option LocationRow)
    → later_row x (replaced r o) ≡ replaced r (later_row x o)
replaced-later x r none = refl
replaced-later x r (some s) = ground arith

newest-append :
    (d : ℕ) (rs : List LocationRow) (r : LocationRow)
    → (r.location.driver_id == d) ≡ true
    → newest d (rs ++ r ∷ []) ≡ replaced r (newest d rs)
unfolding newest
newest-append d [] r h = ground arith
newest-append d (x ∷ rs) r h = elim (Bool-cases (x.location.driver_id == d)) [
  | inl e ↦ rw e (ap (later_row x) (newest-append d rs r h) ∙ replaced-later x r (newest d rs))
  | inr e ↦ rw e (newest-append d rs r h)
]

-- A location that is set shows the row of its driver if it is the newest.
cached_row :
    (now d : ℕ) (r : LocationRow) (o : Option LocationRow) (es : List CacheEntry)
    → r.location.driver_id ≡ d
    → get_latest_location now d es ≡ shown o
    → location_in (find_by cached_driver d es) ≡ shown o
    → location_in (find_by cached_driver d (set_latest_location now (for_cache r.location) es))
      ≡ shown (replaced r o)
unfolding set_latest_location
cached_row now d r none es e seen h =
    let before = ap (λ k. get_latest_location now k es) e ∙ seen in
    ground (
      arith,
      before,
      h,
      get-set_cached d (record { location = for_cache r.location; expires_at = now + cache_ttl })
          es,
    )
cached_row now d r (some s) es e seen h =
    let before = ap (λ k. get_latest_location now k es) e ∙ seen in
    ground (
      arith,
      before,
      h,
      get-set_cached d (record { location = for_cache r.location; expires_at = now + cache_ttl })
          es,
    )

set_latest-other :
    (now d : ℕ) (c : CachedLocation) (es : List CacheEntry)
    → (c.driver_id == d) ≡ false
    → find_by cached_driver d (set_latest_location now c es) ≡ find_by cached_driver d es
unfolding set_latest_location
set_latest-other now d c es h =
    ground (arith, get-set_cached d (record { location = c; expires_at = now + cache_ttl }) es)

LastsUntil-if :
    (b : Bool) (limit : ℕ) (es fs : List CacheEntry)
    → LastsUntil limit es
    → LastsUntil limit fs
    → LastsUntil limit (if b then es else fs)
LastsUntil-if true limit es fs h g = h
LastsUntil-if false limit es fs h g = g

LastsUntil-set_latest :
    (limit now : ℕ) (c : CachedLocation) (es : List CacheEntry)
    → LastsUntil limit es
    → limit ≤ now + cache_ttl
    → LastsUntil limit (set_latest_location now c es)
unfolding set_latest_location
LastsUntil-set_latest limit now c es h late =
    LastsUntil-if _ limit _ es
      (LastsUntil-set_cached limit (record { location = c; expires_at = now + cache_ttl }) es h
        late)
      h

-- Until a time, the cache shows the newest row of every driver.
abbrev pub Shows : ℕ → TrackingWorld → Type 0
Shows limit w =
    LastsUntil limit w.cache
    × ((d : ℕ) → location_in (find_by cached_driver d w.cache) ≡ shown (newest d w.points))

-- A request of the day that starts at `start`.
abbrev pub OnDay : ℕ → TelemetryRequest → Type 0
OnDay start q = (start ≤ q.received_at) × (q.received_at < start + 86400 * 1000)

Shows-after :
    (start : ℕ) (q : TelemetryRequest) (p : LocationDto) (driver : ℕ) (status : _)
    (w : TrackingWorld)
    → OnDay start q
    → Shows (start + cache_ttl) w
    → Shows (start + cache_ttl) (store_point q p driver status w).1
unfolding store_point
Shows-after start q p driver status w (after, before) (lasting, h) =
    let r : LocationRow = record {
      id = q.location_id;
      status = status;
      location = location_of driver p q.received_at;
    } in
    (
      LastsUntil-set_latest (start + cache_ttl) q.received_at (for_cache r.location) w.cache lasting
          (omega (arith, after)),
      λ d. elim (Bool-cases (driver == d)) [
        | inl e ↦
            cached_row q.received_at d r (newest d w.points) w.cache ((==_iff driver d).0 e)
              (get-lasting (start + cache_ttl) q.received_at d w.cache lasting before ∙ h d) (h d)
            ∙ ap shown (sym (newest-append d w.points r e))
        | inr e ↦
            ap location_in (set_latest-other q.received_at d (for_cache r.location) w.cache e)
            ∙ h d
            ∙ ap shown (sym (newest-append_other d w.points r e))
      ],
    )

-- The cache refines the table over a day, the time that its entries last: after any run of requests
-- that arrive within the 86,400 seconds from `start` on, of whatever drivers and in whatever order their
-- points were recorded, from an empty table and an empty cache, a look-up within the same time finds for
-- every driver the location of the row that was recorded last, the first stored of several.
pub run_shows_newest :
    (is_too_fast : Speeding) (start now : ℕ) (qs : List (TelemetryRequest × LocationDto))
    (w : TrackingWorld) (d : ℕ)
    → All (λ (q, p). OnDay start q) qs
    → now < start + 86400 * 1000
    → w.points ≡ []
    → w.cache ≡ []
    → get_latest_location now d (run_telemetry is_too_fast qs w).cache
      ≡ shown (newest d (run_telemetry is_too_fast qs w).points)
unfolding find_by newest
run_shows_newest is_too_fast start now qs w d on_day early no_points no_cache =
    let (lasting, h) =
      run_keeps is_too_fast (OnDay start) (Shows (start + cache_ttl))
        (λ q p driver status w fine v h. Shows-after start q p driver status w fine h) qs on_day w
        (
          subst (LastsUntil (start + cache_ttl)) (sym no_cache) tt,
          λ k.
              ap (λ es. location_in (find_by cached_driver k es)) no_cache
              ∙ ap (λ x. shown (newest k x)) (sym no_points),
        ) in
    get-lasting (start + cache_ttl) now d _ lasting early ∙ h d
