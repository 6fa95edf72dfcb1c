-- ===== src/Cache/Reads.antt =====
-- What lookups and insertions do to the entries of the cache.
use heimdallr.Common.{
  ℕ, ◌<◌, ◌≡◌, refl, ap, ◌⊎◌, List, [], ◌∷◌, none, some, arith, ite, Option-cases, inl, inr,
  if◌then◌else◌,
}
use heimdallr.Common.Words.{add64}
use heimdallr.HashMap.{get, modify, length-modify}
use heimdallr.Metrics.{MetricsRegistry, increment, cache_hits_total, cache_misses_total}
use heimdallr.Cache.{
  Cache, CacheEntry, insert, lookup, lookup_with_metrics, touch, is_stale, record_miss,
}
use heimdallr.Cache.Eviction.{insert_lem, fresh, survivors}
use heimdallr.Cache.Expiry.{lookup_hit}
use heimdallr.Cache.Invariant.{IsValid, lookup-IsValid, Agrees-modify}
use heimdallr.Cache.Order.{has}

module _ {K : Type 0} (dec : Discrete K) where
  pub lookup_with_metrics_hit :
      (c : Cache K) (k : K) (e : CacheEntry) (now : ℕ) (m : MetricsRegistry)
      → get dec k c.entries ≡ some e
      → lookup_with_metrics dec c k now m ≡ (
        record c { entries = modify dec k (touch now) c.entries; hits = add64 c.hits 1 },
        increment cache_hits_total 1 m,
        some (e.response_bytes, is_stale e c.config.serve_stale now, add64 e.hit_count 1),
      )
  unfolding lookup_with_metrics
  lookup_with_metrics_hit c k e now m found =
      let hit = lookup_hit dec c k e now found in
      rw (lookup_with_metrics, hit)
        (ap
          (λ r. (
            r.0,
            increment cache_hits_total 1 m,
            some (e.response_bytes, is_stale e c.config.serve_stale now, add64 e.hit_count 1),
          ))
          hit)

  lookup_miss :
      (c : Cache K) (k : K) (now : ℕ) → get dec k c.entries ≡ none → lookup dec c k now ≡ (c, none)
  unfolding lookup
  lookup_miss c k now absent = rw (absent, lookup)

  pub lookup_with_metrics_miss :
      (c : Cache K) (k : K) (now : ℕ) (m : MetricsRegistry)
      → get dec k c.entries ≡ none
      → lookup_with_metrics dec c k now m
        ≡ (record c { misses = add64 c.misses 1 }, increment cache_misses_total 1 m, none)
  unfolding lookup_with_metrics record_miss
  lookup_with_metrics_miss c k now m absent =
      let missed = lookup_miss c k now absent in
      rw (lookup_with_metrics, missed)
        (ap (λ r. ((record_miss r.0 m).0, (record_miss r.0 m).1, none)) missed)

  -- an entry behind an insertion is an old one or the new one
  pub get-insert_cases :
      (c c' : Cache K) (k j : K) (b : List ℕ) (ttl now : ℕ) (e : CacheEntry)
      → IsValid dec c
      → 0 < c.config.size
      → insert dec c k b ttl now ≡ some c'
      → get dec j c'.entries ≡ some e
      → (get dec j c.entries ≡ some e) ⊎ (e.response_bytes ≡ b)
  get-insert_cases c c' k j b ttl now e v p inserted found =
      let (c₂, ends, _, gets) = insert_lem dec c k b ttl now v p in
      let same : c₂ ≡ c' = ground (arith, ends, inserted) in
      let at : get dec j c'.entries
          ≡ ite (dec k j) (some (fresh b ttl now))
              (if has dec j (survivors dec c) then get dec j c.entries else none) =
        rw same at (gets j) in
      ground (arith, at, found)

  get-modify_cases :
      (k j : K) (now : ℕ) (m : List (K × CacheEntry)) (e : CacheEntry)
      → get dec j (modify dec k (touch now) m) ≡ some e
      → (e₀ : CacheEntry) × (get dec j m ≡ some e₀) × (e₀.response_bytes ≡ e.response_bytes)
  unfolding get modify
  get-modify_cases k j now [] e found = ground (arith, found)
  get-modify_cases k j now ((i, x) ∷ m) e found = elim (dec i k) [
    | yes here ↦ elim (dec i j) [
      | yes it ↦ (x, ground (arith, found), ground (arith, found))
      | no other ↦ (e, ground (arith, found), refl)
    ]
    | no away ↦ elim (dec i j) [
      | yes it ↦ (x, ground (arith, found), ground (arith, found))
      | no other ↦
          let (e₀, old, same) = get-modify_cases k j now m e (ground (arith, found)) in
          (e₀, ground (arith, old), same)
    ]
  ]

  -- a counted lookup keeps the invariant, the configuration and the bytes of the entries
  pub lookup_with_metrics-IsValid :
      (c : Cache K) (k : K) (now : ℕ) (m : MetricsRegistry)
      → IsValid dec c
      → IsValid dec (lookup_with_metrics dec c k now m).0
        × ((lookup_with_metrics dec c k now m).0.config ≡ c.config)
        × ((j : K) (e : CacheEntry)
            → get dec j (lookup_with_metrics dec c k now m).0.entries ≡ some e
            → (e₀ : CacheEntry) × (get dec j c.entries ≡ some e₀)
              × (e₀.response_bytes ≡ e.response_bytes))
  lookup_with_metrics-IsValid c k now m v = elim (Option-cases (get dec k c.entries)) [
    | inl absent ↦
        rw (lookup_with_metrics_miss c k now m absent)
          (record { agrees = v.agrees; bounded = v.bounded }, refl, λ j e found. (e, found, refl))
    | inr (e, present) ↦
        let seen = lookup-IsValid dec c k now v in
        rw (lookup_with_metrics_hit c k e now m present) (
          record {
            agrees = Agrees-modify dec c.entries c.access_order k (touch now) v.agrees;
            bounded = omega (arith, length-modify dec k (touch now) c.entries, v.bounded);
          },
          refl,
          λ j x found. get-modify_cases k j now c.entries x found,
        )
  ]
