-- ===== src/Cache/Expiry.antt =====
-- Time to live: what a lookup reports, what the reaper removes, when a prefetch starts.
use heimdallr.Common.{
  ℕ, ◌+◌, ◌-◌, ◌*◌, ◌≤◌, ◌<◌, ◌^◌, Bool, true, false, ◌≡◌, refl, ◌∙◌, ◌↔◌, List, [], ◌∷◌, none,
  some, arith, if◌then◌else◌,
}
use native.Mathlib.Nat.{mod-eq_of_lt}
use heimdallr.Common.Words.{add64, mul64, from_secs}
use heimdallr.HashMap.{get, remove, modify, IsMap, get-remove, get-modify_self}
use heimdallr.Cache.{
  Cache, CacheEntry, retain, ttl_remaining, is_expired, is_stale, is_dead, dead_keys, drop_keys,
  reap_expired, insert, lookup, elapsed, touch, should_prefetch,
}
use heimdallr.Cache.Invariant.{IsValid, insert-IsValid}
use heimdallr.Cache.Eviction.{fresh, insert_lem}
use heimdallr.Cache.Order.{has}

pub is_expired_iff :
    (e : CacheEntry) (now : ℕ) → (is_expired e now ≡ true) ↔ (e.original_ttl ≤ elapsed e now)
unfolding is_expired
is_expired_iff e now = ground arith

pub is_stale_iff :
    (e : CacheEntry) (w now : ℕ)
    → (is_stale e w now ≡ true)
      ↔ ((e.original_ttl ≤ elapsed e now) × (elapsed e now ≤ e.original_ttl + w))
unfolding is_stale
is_stale_iff e w now = ground arith

-- the entry is past its serve-stale window
abbrev pub IsDead : CacheEntry → ℕ → ℕ → Type 0
IsDead e w now = e.original_ttl + w < elapsed e now

pub is_dead_iff : (e : CacheEntry) (w now : ℕ) → (is_dead w now e ≡ true) ↔ IsDead e w now
unfolding is_stale
is_dead_iff e w now = ground arith

threshold_pos :
    (p h : ℕ) → 0 < p → p * (h + 1) < 2 ^ 64 → h + 1 < 2 ^ 64 → 0 < from_secs (mul64 p (add64 h 1))
unfolding mul64 add64
threshold_pos p h on small hits = rw (mod-eq_of_lt hits, mod-eq_of_lt small) (grind arith)

module _ {K : Type 0} (dec : Discrete K) where
  pub lookup_hit :
      (c : Cache K) (k : K) (e : CacheEntry) (now : ℕ)
      → get dec k c.entries ≡ some e
      → lookup dec c k now ≡ (
        record c { entries = modify dec k (touch now) c.entries; hits = add64 c.hits 1 },
        some (e.response_bytes, is_stale e c.config.serve_stale now, add64 e.hit_count 1),
      )
  unfolding lookup
  lookup_hit c k e now found = rw (found, lookup)

  -- Past the serve-stale window an entry is still served, and not flagged as stale.
  pub lookup-IsDead :
      (c : Cache K) (k : K) (e : CacheEntry) (now : ℕ)
      → get dec k c.entries ≡ some e
      → IsDead e c.config.serve_stale now
      → (lookup dec c k now).1 ≡ some (e.response_bytes, false, add64 e.hit_count 1)
  unfolding lookup is_stale
  lookup-IsDead c k e now found dead = rw (found, lookup) (ground arith)

  -- After an insertion under `k` into a valid cache of a size above zero, a lookup of `k` at a
  -- later time gives the inserted bytes with hit count one, and the stale flag is set exactly
  -- from the end of the time to live to the end of the serve-stale window, both included.
  pub lookup-insert :
      (c : Cache K) (k : K) (b : List ℕ) (ttl now later : ℕ)
      → IsValid dec c
      → 0 < c.config.size
      → (c' : Cache K) × (flag : Bool) × (insert dec c k b ttl now ≡ some c')
        × ((lookup dec c' k later).1 ≡ some (b, flag, 1))
        × ((flag ≡ true) ↔ ((ttl ≤ later - now) × (later - now ≤ ttl + c.config.serve_stale)))
  unfolding lookup add64
  lookup-insert c k b ttl now later v p =
      let (c', ends, _, gets) = insert_lem dec c k b ttl now v p in
      let (c₂, ends', _, config) = insert-IsValid dec c k b ttl now v p in
      let kept : c'.config ≡ c.config = ground (arith, ends, ends', config) in
      let found : get dec k c'.entries ≡ some (fresh b ttl now) = gets k ∙ ground arith in
      (
        c',
        is_stale (fresh b ttl now) c'.config.serve_stale later,
        ends,
        rw (found, lookup) refl,
        rw kept (is_stale_iff (fresh b ttl now) c.config.serve_stale later),
      )

  has-dead_keys :
      (w now : ℕ) (m : List (K × CacheEntry)) (k : K)
      → IsMap dec m
      → has dec k (dead_keys dec w now m)
        ≡ (elim (get dec k m) [ none ↦ false | some e ↦ is_dead w now e ])
  unfolding has dead_keys get
  has-dead_keys w now [] k u = refl
  has-dead_keys w now ((j, e) ∷ m) k u = ground (arith, has-dead_keys w now m k u.1)

  pub get-drop_keys :
      (ks : List K) (c : Cache K) (j : K)
      → get dec j (drop_keys dec ks c).entries
        ≡ (if has dec j ks then none else get dec j c.entries)
  unfolding drop_keys has
  get-drop_keys [] c j = refl
  get-drop_keys (k ∷ ks) c j = ground (
    arith,
    get-drop_keys ks
        (record c { entries = remove dec k c.entries; access_order = retain dec k c.access_order })
        j,
    get-remove dec k j c.entries,
  )

  -- Reaping a valid cache removes the entries past their serve-stale window and no others.
  pub get-reap_expired :
      (c : Cache K) (now : ℕ) (k : K)
      → IsValid dec c
      → get dec k (reap_expired dec c now).entries ≡ (elim (get dec k c.entries) [
        | none ↦ none
        | some e ↦ if is_dead c.config.serve_stale now e then none else some e
      ])
  unfolding reap_expired
  get-reap_expired c now k v = ground (
    arith,
    get-drop_keys (dead_keys dec c.config.serve_stale now c.entries) c k,
    has-dead_keys c.config.serve_stale now c.entries k v.agrees.is_map,
  )

  -- With prefetching on, and as long as the 64-bit product of threshold and hits does not wrap
  -- round, serving an expired entry makes the key due for a prefetch.
  pub should_prefetch-lookup :
      (c : Cache K) (k : K) (e : CacheEntry) (now : ℕ)
      → get dec k c.entries ≡ some e
      → e.original_ttl ≤ elapsed e now
      → 0 < c.config.prefetch
      → c.config.prefetch * (e.hit_count + 1) < 2 ^ 64
      → e.hit_count + 1 < 2 ^ 64
      → should_prefetch dec (lookup dec c k now).0 k now ≡ true
  unfolding should_prefetch ttl_remaining
  should_prefetch-lookup c k e now found expired on small hits =
      let same : (lookup dec c k now).0.config.prefetch ≡ c.config.prefetch =
        rw (lookup_hit c k e now found) refl in
      rw (lookup_hit c k e now found) (
        rw (get-modify_self dec k (touch now) c.entries e found, should_prefetch)
          (ground (arith, threshold_pos c.config.prefetch e.hit_count on small hits)))
