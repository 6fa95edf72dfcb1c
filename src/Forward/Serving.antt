-- ===== src/Forward/Serving.antt =====
-- What the authority's cache answers with, and what is put into it.
use heimdallr.Common.{
  ℕ, false, ◌≡◌, refl, sym, ap, ◌∙◌, List, ◌∷◌, ◌++◌, none, some, arith, Option-cases, Bool-cases,
  inl, inr, if◌then◌else◌, length, ◌==◌,
}
use heimdallr.Common.Words.{add64}
use heimdallr.Cache.{Cache, CacheEntry, should_prefetch, touch}
use heimdallr.Cache.Reads.{lookup_with_metrics_hit, lookup_with_metrics_miss}
use heimdallr.Dns.{RecordType, any as type_any}
use heimdallr.Dns.Records.{Record}
use heimdallr.Forward.Lookup.{is_type, cache_store, cached, check_cache, on_found}
use heimdallr.Forward.Resolve.{
  forward, dns64, chain_cut, note_rebinding, flatten, conclude, complete, after_forward,
  after_check, lookup, with_dname, query_key,
}
use heimdallr.Forward.Service.{
  CacheKey, key_discrete, read_back, Services, Authority, World, Answer, answered,
}
use heimdallr.Forward.Sound.{IsSound}
use heimdallr.Forward.Total.{dns64-Spends, chain_cut-Spends, forward-Spends}
use heimdallr.HashMap.{get, modify}
use heimdallr.Metrics.{increment, cache_hits_total, cache_misses_total}

module _ {Name NetError Regex : Type 0} (s : Services Name NetError) (cfg : Authority Regex) where
  -- the world behind a hit
  abbrev pub after_hit : World Name → Name → RecordType → CacheEntry → ℕ → World Name
  after_hit w n rtype e now =
      let key = query_key s cfg n rtype in
      let c : Cache CacheKey = record w.cache {
        entries = modify key_discrete key (touch now) w.cache.entries;
        hits = add64 w.cache.hits 1;
      } in
      record w {
        cache = c;
        metrics = increment cache_hits_total 1 w.metrics;
        tasks =
            if should_prefetch key_discrete c key now
            then record { name = n; rtype = rtype } ∷ w.tasks
            else w.tasks;
      }

  pub check_cache_hit :
      (w : World Name) (n : Name) (rtype : RecordType) (e : CacheEntry) (now : ℕ)
      → get key_discrete (query_key s cfg n rtype) w.cache.entries ≡ some e
      → check_cache s w (query_key s cfg n rtype) n rtype now
        ≡ (after_hit w n rtype e now, s.decode e.response_bytes)
  unfolding check_cache on_found cached
  check_cache_hit w n rtype e now found =
      let key = query_key s cfg n rtype in
      ap (λ r. on_found s w key n rtype now r)
        (lookup_with_metrics_hit key_discrete w.cache key e now w.metrics found)

  pub lookup_hit :
      (w : World Name) (n : Name) (rtype : RecordType) (clock : ℕ → ℕ) (e : CacheEntry)
      (records : List (Record Name))
      → is_type rtype type_any ≡ false
      → get key_discrete (query_key s cfg n rtype) w.cache.entries ≡ some e
      → s.decode e.response_bytes ≡ some records
      → lookup s cfg w n rtype clock
        ≡ some (after_hit w n rtype e (clock w.lookups), answered records)
  unfolding lookup after_check
  lookup_hit w n rtype clock e records one found decoded =
      let hit = check_cache_hit w n rtype e (clock w.lookups) found in
      let next = after_check s cfg (query_key s cfg n rtype) n rtype clock in
      rw one (ap next (hit ∙ ap (λ d. (after_hit w n rtype e (clock w.lookups), d)) decoded))

  -- the world behind a miss
  abbrev pub after_miss : World Name → World Name
  after_miss w = record w {
    cache = record w.cache { misses = add64 w.cache.misses 1 };
    metrics = increment cache_misses_total 1 w.metrics;
  }

  pub lookup_miss :
      (w : World Name) (n : Name) (rtype : RecordType) (clock : ℕ → ℕ)
      → is_type rtype type_any ≡ false
      → get key_discrete (query_key s cfg n rtype) w.cache.entries ≡ none
      → lookup s cfg w n rtype clock
        ≡ after_forward s cfg
            (query_key s cfg n rtype)
            (s.relative n)
            rtype
            clock
            (forward s cfg (after_miss w) (s.relative n) rtype)
  unfolding lookup after_check check_cache on_found
  lookup_miss w n rtype clock one absent =
      let key = query_key s cfg n rtype in
      let now = clock w.lookups in
      let missed = lookup_with_metrics_miss key_discrete w.cache key now w.metrics absent in
      rw one (ap (λ r. after_check s cfg key n rtype clock (on_found s w key n rtype now r)) missed)

  -- From a sound cache, a query whose key is cached (of any type but ANY) is answered with the
  -- record set that was cached, as it is read back from its message (the names fully qualified, the
  -- times to live unchanged, and all of it if it fits), however old the entry is, and the upstream
  -- is not asked.
  pub lookup-get :
      (w : World Name) (n : Name) (rtype : RecordType) (clock : ℕ → ℕ) (e : CacheEntry)
      → IsSound s w.cache
      → is_type rtype type_any ≡ false
      → get key_discrete (query_key s cfg n rtype) w.cache.entries ≡ some e
      → (records : List (Record Name)) × (w' : World Name) × (s.encode records
          ≡ some e.response_bytes)
        × (lookup s cfg w n rtype clock ≡ some (w', answered (read_back s records)))
        × (w'.lookups ≡ w.lookups)
  lookup-get w n rtype clock e v one found =
      let (records, written) = v.written (query_key s cfg n rtype) e found in
      let decoded = s.decode-encode records e.response_bytes written in
      (
        records,
        after_hit w n rtype e (clock w.lookups),
        written,
        lookup_hit w n rtype clock e (read_back s records) one found decoded,
        refl,
      )

  -- the answer is a failure
  abbrev pub IsFailure : Answer Name NetError → Type 0
  IsFailure (answered records) = ⊥
  IsFailure _ = Unit

  complete-cache :
      (w w' : World Name) (k : CacheKey) (upstream : List (Record Name)) (n : Name)
      (rtype : RecordType) (clock : ℕ → ℕ) (b : Answer Name NetError)
      → complete s cfg w k upstream n rtype clock ≡ some (w', b)
      → IsFailure b
      → w'.cache ≡ w.cache
  unfolding complete conclude
  complete-cache w w' k upstream n rtype clock b ends failed =
      let (w₁, synthesized) = dns64 s cfg w upstream n rtype in
      let records = with_dname s cfg (upstream ++ synthesized) n in
      let (w₂, cut) = chain_cut s cfg w₁ records in
      let w₃ = note_rebinding s cfg w₂ records in
      let (d, _) = dns64-Spends s cfg w upstream n rtype in
      let (c, _) = chain_cut-Spends s cfg w₁ records in
      elim (Bool-cases cut) [
        | inl over ↦
            let at = rw (over, complete) at ends in
            let same : w' ≡ w₂ = ground (arith, at) in ap (λ x. x.cache) same ∙ c ∙ d
        | inr within ↦ elim (Option-cases (cache_store s w₃ k records (clock w₃.lookups))) [
          | inl stuck ↦ let at = rw (within, stuck, complete) at ends in absurd (ground (arith, at))
          | inr (after, stored) ↦
              let at = rw (within, stored, complete) at ends in
              let all = (flatten s cfg after records).1 in
              let given : b ≡ answered (if length synthesized == 0 then upstream else all) =
                ground (arith, at) in
              absurd (rw given at failed)
        ]
      ]

  after_forward-cache :
      (w w' : World Name) (k : CacheKey) (n : Name) (rtype : RecordType) (clock : ℕ → ℕ)
      (a b : Answer Name NetError)
      → after_forward s cfg k n rtype clock (w, a) ≡ some (w', b)
      → IsFailure b
      → w'.cache ≡ w.cache
  unfolding after_forward
  after_forward-cache w w' k n rtype clock (answered records) b ends failed =
      complete-cache w w' k records n rtype clock b ends failed
  after_forward-cache w w' k n rtype clock a b ends failed = ground (arith, ends)

  -- A query of any type but ANY, whose key is not cached, and that ends with a failure (the
  -- upstream's error, a name that cannot be minimised, or a CNAME chain over the limit) leaves
  -- the cache's entries and their order as they were: no failure is cached.
  pub lookup_failed :
      (w w' : World Name) (n : Name) (rtype : RecordType) (clock : ℕ → ℕ) (a : Answer Name NetError)
      → is_type rtype type_any ≡ false
      → get key_discrete (query_key s cfg n rtype) w.cache.entries ≡ none
      → lookup s cfg w n rtype clock ≡ some (w', a)
      → IsFailure a
      → w'.cache ≡ record w.cache { misses = add64 w.cache.misses 1 }
  lookup_failed w w' n rtype clock a one absent ends failed =
      let (w₁, b) = forward s cfg (after_miss w) (s.relative n) rtype in
      let at = sym (lookup_miss w n rtype clock one absent) ∙ ends in
      let spent = forward-Spends s cfg (after_miss w) (s.relative n) rtype in
      after_forward-cache w₁ w' (query_key s cfg n rtype) (s.relative n) rtype clock b a at failed
      ∙ spent.0
