-- ===== src/Cache/Reachable.antt =====
-- The caches that a server builds, as a step relation over the operations.
use heimdallr.Common.{ℕ, ◌<◌, ◌≡◌, refl, ◌∙◌, List, [], ◌∷◌, some, arith}
use heimdallr.Metrics.{MetricsRegistry}
use heimdallr.Cache.{
  Cache, CacheConfig, new, clear, insert, lookup, record_miss, reap_expired, drop_keys,
}
use heimdallr.Cache.Eviction.{lookup-access_order}
use heimdallr.Cache.Invariant.{
  IsValid, new-IsValid, clear-IsValid, lookup-IsValid, insert-IsValid, reap_expired-IsValid,
}

module _ {K : Type 0} (dec : Discrete K) where
  -- One call on the cache.
  pub data Step : Cache K → Cache K → Type 0 where
    served : (c : Cache K) (k : K) (now : ℕ) → Step c (lookup dec c k now).0
    inserted :
        (c c' : Cache K) (k : K) (b : List ℕ) (ttl now : ℕ)
        → insert dec c k b ttl now ≡ some c'
        → Step c c'
    reaped : (c : Cache K) (now : ℕ) → Step c (reap_expired dec c now)
    missed : (c : Cache K) (m : MetricsRegistry) → Step c (record_miss c m).0
    cleared : (c : Cache K) → Step c (clear c)

  pub data Reach (config : CacheConfig) : Cache K → Type 0 where
    start : Reach config (new config)
    next : {c c' : Cache K} → Reach config c → Step c c' → Reach config c'

  drop_keys-config : (ks : List K) (c : Cache K) → (drop_keys dec ks c).config ≡ c.config
  unfolding drop_keys
  drop_keys-config [] c = refl
  drop_keys-config (k ∷ ks) c = drop_keys-config ks _

  Step-IsValid :
      {c c' : Cache K}
      → Step c c'
      → 0 < c.config.size
      → IsValid dec c
      → IsValid dec c' × (c'.config ≡ c.config)
  unfolding reap_expired record_miss clear
  Step-IsValid (served c k now) p v =
      (lookup-IsValid dec c k now v, (lookup-access_order dec c k now).2)
  Step-IsValid (inserted c c' k b ttl now e) p v =
      let (c₂, ends, v₂, config) = insert-IsValid dec c k b ttl now v p in
      (ground (arith, v₂, e, ends), ground (arith, config, e, ends))
  Step-IsValid (reaped c now) p v = (reap_expired-IsValid dec c now v, drop_keys-config _ c)
  Step-IsValid (missed c m) p v = (record { agrees = v.agrees; bounded = v.bounded }, refl)
  Step-IsValid (cleared c) p v = (clear-IsValid dec c, refl)

  Reach-keeps :
      {config : CacheConfig} {c : Cache K}
      → Reach config c
      → 0 < config.size
      → IsValid dec c × (c.config ≡ config)
  unfolding new
  Reach-keeps {config} start p = (new-IsValid dec config, refl)
  Reach-keeps (next r st) p =
      let (v, config) = Reach-keeps r p in
      let (v', config') = Step-IsValid st (rw config p) v in (v', config' ∙ config)

  -- From an empty cache of a size above zero, any sequence of lookups, insertions, reaps, misses
  -- and clears leads to a cache that has the same configuration, holds no more entries than its
  -- size, and whose map and order agree; and in each of them an insertion ends.
  pub Reach-IsValid :
      {config : CacheConfig} {c : Cache K}
      → Reach config c
      → 0 < config.size
      → IsValid dec c
        × (c.config ≡ config)
        × ((k : K) (b : List ℕ) (ttl now : ℕ)
            → (c' : Cache K) × (insert dec c k b ttl now ≡ some c'))
  Reach-IsValid {config} {c} r p =
      let (v, e) = Reach-keeps r p in
      (
        v,
        e,
        λ k b ttl now.
            let (c', ends, _, _) = insert-IsValid dec c k b ttl now v (rw e p) in (c', ends),
      )
