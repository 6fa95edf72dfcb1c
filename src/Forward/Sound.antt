-- ===== src/Forward/Sound.antt =====
-- The cache of the authority: what every operation on it keeps.
use heimdallr.Common.{ℕ, ◌<◌, ◌≡◌, refl, sym, ◌∙◌, List, some, arith, Option-cases, inl, inr, ap}
use heimdallr.Cache.{Cache, CacheEntry, insert, lookup_with_metrics}
use heimdallr.Cache.Eviction.{insert_lem, fresh}
use heimdallr.Cache.Reads.{get-insert_cases, lookup_with_metrics-IsValid}
use heimdallr.Cache.Invariant.{IsValid, insert-IsValid}
use heimdallr.Dns.Records.{Record}
use heimdallr.Forward.Lookup.{cache_store, set_ttl}
use heimdallr.Forward.Service.{CacheKey, key_discrete, Services, World}
use heimdallr.HashMap.{get}
use heimdallr.Metrics.{MetricsRegistry}

module _ {Name NetError : Type 0} (s : Services Name NetError) where
  -- the bytes of an entry are a written record set
  abbrev pub IsWritten : CacheEntry → Type 0
  IsWritten e = (records : List (Record Name)) × (s.encode records ≡ some e.response_bytes)

  pub record IsSound (c : Cache CacheKey) : Type 0 where
    pub valid : IsValid key_discrete c
    pub size_pos : 0 < c.config.size
    pub written :
        (k : CacheKey) (e : CacheEntry) → get key_discrete k c.entries ≡ some e → IsWritten e

  pub insert-IsSound :
      (c : Cache CacheKey) (k : CacheKey) (records : List (Record Name)) (b : List ℕ) (ttl now : ℕ)
      → IsSound c
      → s.encode records ≡ some b
      → (c' : Cache CacheKey) × (insert key_discrete c k b ttl now ≡ some c')
        × IsSound c'
        × (get key_discrete k c'.entries ≡ some (fresh b ttl now))
  insert-IsSound c k records b ttl now v w =
      let (c', ends, _, gets) = insert_lem key_discrete c k b ttl now v.valid v.size_pos in
      let (c₂, ends', v', config) = insert-IsValid key_discrete c k b ttl now v.valid v.size_pos in
      let same : c₂ ≡ c' = ground (arith, ends, ends') in
      let here : get key_discrete k c'.entries ≡ some (fresh b ttl now) = gets k ∙ ground arith in
      let sound : IsSound c' = record {
        valid = rw same at v';
        size_pos = omega (arith, ap (λ x. x.config.size) same, ap (λ x. x.size) config, v.size_pos);
        written = λ j e found.
            elim (get-insert_cases key_discrete c c' k j b ttl now e v.valid v.size_pos ends
              found) [ inl old ↦ v.written j e old | inr new ↦ (records, w ∙ ap some (sym new)) ];
      } in
      (c', ends, sound, here)

  pub lookup_with_metrics-IsSound :
      (c : Cache CacheKey) (k : CacheKey) (now : ℕ) (m : MetricsRegistry)
      → IsSound c
      → IsSound (lookup_with_metrics key_discrete c k now m).0
  lookup_with_metrics-IsSound c k now m v =
      let (v', config, kept) = lookup_with_metrics-IsValid key_discrete c k now m v.valid in
      record {
        valid = v';
        size_pos = rw config v.size_pos;
        written = λ j e found.
            let (e₀, old, same) = kept j e found in
            let (records, encoded) = v.written j e₀ old in (records, encoded ∙ ap some same);
      }

  -- storing a record set ends, and changes nothing but the cache
  pub cache_store-IsSound :
      (w : World Name) (k : CacheKey) (records : List (Record Name)) (now : ℕ)
      → IsSound w.cache
      → (c : Cache CacheKey) × (cache_store s w k records now ≡ some (record w { cache = c }))
        × IsSound c
  unfolding cache_store
  cache_store-IsSound w k records now v = elim (Option-cases (s.encode records)) [
    | inl failed ↦ (w.cache, rw (failed, cache_store) refl, v)
    | inr (b, written) ↦
        let (c, ends, v', _) = insert-IsSound w.cache k records b (set_ttl records) now v written in
        (c, rw (written, cache_store, ends) refl, v')
  ]

  -- the entry that a record set is stored in
  pub cache_store_lem :
      (w : World Name) (k : CacheKey) (records : List (Record Name)) (now : ℕ) (b : List ℕ)
      → IsSound w.cache
      → s.encode records ≡ some b
      → (w' : World Name) × (cache_store s w k records now ≡ some w')
        × IsSound w'.cache
        × (get key_discrete k w'.cache.entries ≡ some (fresh b (set_ttl records) now))
  unfolding cache_store
  cache_store_lem w k records now b v written =
      let (c, ends, v', here) =
        insert-IsSound w.cache k records b (set_ttl records) now v written in
      (record w { cache = c }, rw (written, cache_store, ends) refl, v', here)
