-- ===== src/Cache.antt =====
-- src/core/cache/mod.rs: the response cache. `entries` is a `HashMap`, and `access_order` the
-- vector that picks the entry to evict. Times and durations are nanoseconds, and an operation
-- takes the time `now` that its clock readings give. The type of keys is a parameter with a
-- decidable equality, which for `CacheKey` is the derived `Eq`.
pub mod Order
pub mod Agrees
pub mod Invariant
pub mod Eviction
pub mod Expiry
pub mod Reachable
pub mod Snapshot
pub mod Reads
pub mod Queue
pub mod Refines
use heimdallr.Common.{
  ℕ, zero, suc, ◌+◌, ◌-◌, Bool, true, false, not, ◌&&◌, List, [], ◌∷◌, ◌++◌, Option, none, some,
  ite, leb, ltb, ◌==◌, if◌then◌else◌, length,
}
use heimdallr.Common.Words.{add64, mul64, from_secs}
use mathlib.Core.Option
use heimdallr.HashMap.{get, insert as put, remove, modify, has_key}
use heimdallr.Metrics.{MetricsRegistry, cache_hits_total, cache_misses_total, increment}

pub record CacheEntry : Type 0 where
  pub response_bytes : List ℕ
  pub inserted_at : ℕ
  pub original_ttl : ℕ
  pub hit_count : ℕ
  pub last_access : ℕ

-- `Instant::elapsed`, which saturates at zero
abbrev pub elapsed : CacheEntry → ℕ → ℕ
elapsed e now = now - e.inserted_at

unfoldable pub ttl_remaining : CacheEntry → ℕ → ℕ
ttl_remaining e now =
    if leb e.original_ttl (elapsed e now) then 0 else e.original_ttl - elapsed e now

unfoldable pub is_expired : CacheEntry → ℕ → Bool
unfolding ttl_remaining
is_expired e now = ttl_remaining e now == 0

unfoldable pub is_stale : CacheEntry → ℕ → ℕ → Bool
unfolding is_expired
is_stale e stale_window now =
    is_expired e now && leb (elapsed e now) (e.original_ttl + stale_window)

-- `entry.hit_count += 1; entry.last_access = Instant::now()`
abbrev pub touch : ℕ → CacheEntry → CacheEntry
touch now e = record e { hit_count = add64 e.hit_count 1; last_access = now }

-- the filter of `reap_expired`
abbrev pub is_dead : ℕ → ℕ → CacheEntry → Bool
is_dead stale_window now e = is_expired e now && not (is_stale e stale_window now)

pub record CacheConfig : Type 0 where
  pub size : ℕ
  pub serve_stale : ℕ
  pub prefetch : ℕ

-- `CacheConfig::default`
abbrev pub default_config : CacheConfig
default_config = record { size = 50_000; serve_stale = from_secs 30; prefetch = 2 }

pub record Cache (K : Type 0) : Type 0 where
  pub config : CacheConfig
  pub entries : List (K × CacheEntry)
  pub access_order : List K
  pub hits : ℕ
  pub misses : ℕ

unfoldable pub new : {K : Type 0} → CacheConfig → Cache K
new config = record { config = config; entries = []; access_order = []; hits = 0; misses = 0 }

module _ {K : Type 0} where
  unfoldable pub len : Cache K → ℕ
  len c = length c.entries

  unfoldable pub is_empty : Cache K → Bool
  is_empty c = length c.entries == 0

  -- `clear`
  unfoldable pub clear : Cache K → Cache K
  clear c = record c { entries = []; access_order = []; hits = 0; misses = 0 }

  -- `record_miss`, on the cache and the global registry
  unfoldable pub record_miss : Cache K → MetricsRegistry → Cache K × MetricsRegistry
  record_miss c m = (record c { misses = add64 c.misses 1 }, increment cache_misses_total 1 m)

module _ {K : Type 0} (dec : Discrete K) where
  -- `access_order.retain(|j| j != k)`
  unfoldable pub retain : K → List K → List K
  retain k [] = []
  retain k (j ∷ o) = ite (dec j k) (retain k o) (j ∷ retain k o)

  -- `lookup`: the bytes, the stale flag and the hit count
  unfoldable pub lookup : Cache K → K → ℕ → Cache K × Option (List ℕ × Bool × ℕ)
  lookup c key now = elim (get dec key c.entries) [
    | none ↦ (c, none)
    | some e ↦ (
      record c { entries = modify dec key (touch now) c.entries; hits = add64 c.hits 1 },
      some (e.response_bytes, is_stale e c.config.serve_stale now, add64 e.hit_count 1),
    )
  ]

  -- `lookup_with_metrics`
  unfoldable pub lookup_with_metrics :
      Cache K → K → ℕ → MetricsRegistry → Cache K × MetricsRegistry × Option (List ℕ × Bool × ℕ)
  unfolding lookup record_miss
  lookup_with_metrics c key now m =
      let (c', found) = lookup c key now in
      elim found [
        | some result ↦ (c', increment cache_hits_total 1 m, some result)
        | none ↦ ((record_miss c' m).0, (record_miss c' m).1, none)
      ]

  -- `Cache::is_expired`
  unfoldable pub key_expired : Cache K → K → ℕ → Bool
  key_expired c key now = elim (get dec key c.entries) [ none ↦ true | some e ↦ is_expired e now ]

  evict_first : Cache K → List K → Cache K
  evict_first c [] = c
  evict_first c (oldest ∷ rest) = record c {
    entries = remove dec oldest c.entries;
    access_order = rest;
  }

  -- `evict_lru`
  unfoldable pub evict_lru : Cache K → Cache K
  unfolding evict_first
  evict_lru c = evict_first c c.access_order

  -- `while self.entries.len() >= self.config.size { self.evict_lru(); }`, on fuel
  unfoldable pub make_room : ℕ → Cache K → Option (Cache K)
  make_room zero c = none
  make_room (suc fuel) c =
      let rest = make_room fuel (evict_lru c) in
      if leb c.config.size (length c.entries) then rest else some c

  -- `insert` behind its loop
  unfoldable pub store : K → List ℕ → ℕ → ℕ → Cache K → Cache K
  store key response_bytes original_ttl now c = record c {
    entries =
        put dec key
          (record {
            response_bytes = response_bytes;
            inserted_at = now;
            original_ttl = original_ttl;
            hit_count = 0;
            last_access = now;
          })
          c.entries;
    access_order =
        (if has_key dec key c.entries then retain key c.access_order else c.access_order)
        ++ key ∷ [];
  }

  -- `insert`; `none` if the loop does not end within a round for each entry of the order
  unfoldable pub insert : Cache K → K → List ℕ → ℕ → ℕ → Option (Cache K)
  insert c key response_bytes original_ttl now =
      Option.map (store key response_bytes original_ttl now)
        (make_room (suc (length c.access_order)) c)

  unfoldable pub dead_keys : ℕ → ℕ → List (K × CacheEntry) → List K
  dead_keys w now [] = []
  dead_keys w now ((k, e) ∷ m) =
      let rest = dead_keys w now m in if is_dead w now e then k ∷ rest else rest

  unfoldable pub drop_keys : List K → Cache K → Cache K
  drop_keys [] c = c
  drop_keys (k ∷ ks) c =
      drop_keys ks
        (record c { entries = remove dec k c.entries; access_order = retain k c.access_order })

  -- `reap_expired`
  unfoldable pub reap_expired : Cache K → ℕ → Cache K
  reap_expired c now = drop_keys (dead_keys c.config.serve_stale now c.entries) c

  -- `should_prefetch`
  unfoldable pub should_prefetch : Cache K → K → ℕ → Bool
  should_prefetch c key now =
      if c.config.prefetch == 0 then false else elim (get dec key c.entries) [
        | none ↦ false
        | some e ↦ ltb (ttl_remaining e now) (from_secs (mul64 c.config.prefetch e.hit_count))
      ]
