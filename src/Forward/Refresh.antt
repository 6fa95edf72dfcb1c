-- ===== src/Forward/Refresh.antt =====
-- Record sets that are stored by a lookup or by a prefetch, and served from then on.
use heimdallr.Common.{
  ℕ, suc, ◌+◌, ◌*◌, ◌^◌, ◌≤◌, ◌<◌, false, ◌≡◌, refl, sym, ap, ◌∙◌, List, [], ◌∷◌, ◌++◌, none, some,
  arith, if◌then◌else◌, length, ◌==◌,
}
use heimdallr.Cache.{CacheEntry, elapsed}
use heimdallr.Cache.Eviction.{fresh}
use heimdallr.Cache.Expiry.{should_prefetch-lookup, lookup_hit as find_hit}
use heimdallr.Dns.{RecordType, any as type_any}
use heimdallr.Dns.Records.{Record}
use heimdallr.Forward.Lookup.{ask, is_type, key_of, prefetch, prefetched, set_ttl}
use heimdallr.Forward.Resolve.{
  forward, dns64, chain_cut, note_rebinding, flatten, conclude, complete, after_forward, lookup,
  with_dname, query_key,
}
use heimdallr.Forward.Service.{
  CacheKey, key_discrete, read_back, Services, Authority, World, answered,
}
use heimdallr.Forward.Serving.{after_hit, after_miss, lookup_hit, lookup_miss}
use heimdallr.Forward.Sound.{IsSound, cache_store_lem, lookup_with_metrics-IsSound}
use heimdallr.Cache.Reads.{lookup_with_metrics_hit}
use heimdallr.Forward.Total.{
  dns64-Spends, chain_cut-Spends, note_rebinding-Spends, flatten-Spends, forward-Spends,
}
use heimdallr.HashMap.{get}
use heimdallr.Qmin.{ok}

chosen_empty :
    {Name : Type 0} (upstream synthesized all : List (Record Name))
    → synthesized ≡ []
    → (if length synthesized == 0 then upstream else all) ≡ upstream
chosen_empty upstream synthesized all h = rw h refl

module _ {Name NetError Regex : Type 0} (s : Services Name NetError) (cfg : Authority Regex) where
  -- the record set that is checked and stored, for the upstream's records
  abbrev pub extended : World Name → List (Record Name) → Name → RecordType → List (Record Name)
  extended w upstream n rtype = with_dname s cfg (upstream ++ (dns64 s cfg w upstream n rtype).1) n

  complete_lem :
      (w : World Name) (k : CacheKey) (upstream : List (Record Name)) (n : Name)
      (rtype : RecordType) (clock : ℕ → ℕ) (b : List ℕ)
      → IsSound s w.cache
      → (chain_cut s cfg (dns64 s cfg w upstream n rtype).0 (extended w upstream n rtype)).1 ≡ false
      → s.encode (extended w upstream n rtype) ≡ some b
      → (w' : World Name) × (first : List (Record Name)) × (now : ℕ) × (complete s cfg w k upstream
            n rtype clock
          ≡ some (w', answered first))
        × ((dns64 s cfg w upstream n rtype).1 ≡ [] → first ≡ upstream)
        × (get key_discrete k w'.cache.entries
            ≡ some (fresh b (set_ttl (extended w upstream n rtype)) now))
  unfolding complete conclude
  complete_lem w k upstream n rtype clock b v within written =
      let (w₁, synthesized) = dns64 s cfg w upstream n rtype in
      let records = extended w upstream n rtype in
      let w₂ = (chain_cut s cfg w₁ records).0 in
      let w₃ = note_rebinding s cfg w₂ records in
      let (d, _) = dns64-Spends s cfg w upstream n rtype in
      let (c, _) = chain_cut-Spends s cfg w₁ records in
      let (r, _) = note_rebinding-Spends s cfg w₂ records in
      let sound : IsSound s w₃.cache = rw (r, c, d) v in
      let (after, stored, _, here) =
        cache_store_lem s w₃ k records (clock w₃.lookups) b sound written in
      let (f, _) = flatten-Spends s cfg after records in
      (
        (flatten s cfg after records).0,
        (if length synthesized == 0 then upstream else (flatten s cfg after records).1),
        clock w₃.lookups,
        rw (within, stored, complete) refl,
        chosen_empty upstream synthesized (flatten s cfg after records).1,
        rw f here,
      )

  after_miss-IsSound : (w : World Name) → IsSound s w.cache → IsSound s (after_miss s cfg w).cache
  after_miss-IsSound w v = record {
    valid = record { agrees = v.valid.agrees; bounded = v.valid.bounded };
    size_pos = v.size_pos;
    written = v.written;
  }

  -- A query that is not cached (of any type but ANY), that the upstream answers, and whose
  -- records pass the test of the CNAME chain and can be written, from a sound cache: it is
  -- answered, with the upstream's records if DNS64 made none; and the same query, asked again at
  -- any later time, is answered without a lookup upstream, with the upstream's records, those of
  -- DNS64 and those that stand for DNAME records, all as they are read back from one message.
  pub lookup-lookup :
      (w w₁ : World Name) (n : Name) (rtype : RecordType) (clock later : ℕ → ℕ)
      (upstream : List (Record Name)) (b : List ℕ)
      → IsSound s w.cache
      → is_type rtype type_any ≡ false
      → get key_discrete (query_key s cfg n rtype) w.cache.entries ≡ none
      → forward s cfg (after_miss s cfg w) (s.relative n) rtype ≡ (w₁, answered upstream)
      → (chain_cut s cfg
          (dns64 s cfg w₁ upstream (s.relative n) rtype).0
          (extended w₁ upstream (s.relative n) rtype)).1
        ≡ false
      → s.encode (extended w₁ upstream (s.relative n) rtype) ≡ some b
      → (w' w'' : World Name) × (first : List (Record Name)) × (lookup s cfg w n rtype clock
          ≡ some (w', answered first))
        × ((dns64 s cfg w₁ upstream (s.relative n) rtype).1 ≡ [] → first ≡ upstream)
        × (lookup s cfg w' n rtype later
            ≡ some (w'', answered (read_back s (extended w₁ upstream (s.relative n) rtype))))
        × (w''.lookups ≡ w'.lookups)
  unfolding after_forward
  lookup-lookup w w₁ n rtype clock later upstream b v one absent sent within written =
      let k = query_key s cfg n rtype in
      let records = extended w₁ upstream (s.relative n) rtype in
      let (spent, _) = forward-Spends s cfg (after_miss s cfg w) (s.relative n) rtype in
      let same : w₁.cache ≡ (after_miss s cfg w).cache = sym (ap (λ r. r.0.cache) sent) ∙ spent in
      let sound : IsSound s w₁.cache = rw same (after_miss-IsSound w v) in
      let (w', first, now, ends, chosen, here) =
        complete_lem w₁ k upstream (s.relative n) rtype clock b sound within written in
      (
        w',
        after_hit s cfg w' n rtype (fresh b (set_ttl records) now) (later w'.lookups),
        first,
        lookup_miss s cfg w n rtype clock one absent
            ∙ ap (after_forward s cfg k (s.relative n) rtype clock) sent
            ∙ ends,
        chosen,
        lookup_hit s cfg w' n rtype later (fresh b (set_ttl records) now) (read_back s records) one
            here (s.decode-encode records b written),
        refl,
      )

  query_key-key_of : (n : Name) (rtype : RecordType) → query_key s cfg n rtype ≡ key_of s n rtype
  unfolding query_key key_of
  query_key-key_of n rtype = ground arith

  -- In a sound cache with prefetching on, take an entry past its time to live, and a query for it
  -- (of any type but ANY; the product of threshold and hits does not wrap round). The query is
  -- answered with the records that the entry's bytes hold, without a lookup upstream, and a
  -- prefetch is spawned. When that has run next, at any
  -- time, and the upstream gave it records that can be written, the query is answered with those
  -- records as they are read back from a message, and the upstream is not asked for it.
  pub lookup-prefetch :
      (w : World Name) (n : Name) (rtype : RecordType) (clock between later : ℕ → ℕ)
      (e : CacheEntry) (records : List (Record Name)) (b : List ℕ)
      → IsSound s w.cache
      → is_type rtype type_any ≡ false
      → get key_discrete (query_key s cfg n rtype) w.cache.entries ≡ some e
      → e.original_ttl ≤ elapsed e (clock w.lookups)
      → 0 < w.cache.config.prefetch
      → w.cache.config.prefetch * (e.hit_count + 1) < 2 ^ 64
      → e.hit_count + 1 < 2 ^ 64
      → s.lookup w.lookups (s.relative n) rtype ≡ ok records
      → s.encode records ≡ some b
      → (w₁ w₂ w₃ : World Name) × (old : List (Record Name)) × (lookup s cfg w n rtype clock
          ≡ some (w₁, answered old))
        × (s.decode e.response_bytes ≡ some old)
        × (w₁.lookups ≡ w.lookups)
        × (w₁.tasks ≡ record { name = n; rtype = rtype } ∷ w.tasks)
        × (prefetch s (record { name = n; rtype = rtype }) between w₁ ≡ some w₂)
        × (lookup s cfg w₂ n rtype later ≡ some (w₃, answered (read_back s records)))
        × (w₃.lookups ≡ w₂.lookups)
  unfolding prefetch prefetched ask
  lookup-prefetch w n rtype clock between later e records b v one found old on small hits sent
        written =
      let k = query_key s cfg n rtype in
      let (stale, kept) = v.written k e found in
      let decoded = s.decode-encode stale e.response_bytes kept in
      let now = clock w.lookups in
      let w₁ = after_hit s cfg w n rtype e now in
      let due = should_prefetch-lookup key_discrete w.cache k e now found old on small hits in
      let due' = rw (find_hit key_discrete w.cache k e now found) at due in
      let asked : World Name = record w₁ { lookups = suc w.lookups } in
      let sound : IsSound s asked.cache =
        rw (lookup_with_metrics_hit key_discrete w.cache k e now w.metrics found) at
          (lookup_with_metrics-IsSound s w.cache k now w.metrics v) in
      let (w₂, stored, _, here) =
        cache_store_lem s asked (key_of s n rtype) records (between (suc w.lookups)) b sound
          written in
      let same : get key_discrete k w₂.cache.entries
          ≡ some (fresh b (set_ttl records) (between (suc w.lookups))) =
        ap (λ j. get key_discrete j w₂.cache.entries) (query_key-key_of n rtype) ∙ here in
      (
        w₁,
        w₂,
        after_hit s cfg w₂ n rtype (fresh b (set_ttl records) (between (suc w.lookups)))
            (later w₂.lookups),
        read_back s stale,
        lookup_hit s cfg w n rtype clock e (read_back s stale) one found decoded,
        decoded,
        refl,
        rw due' refl,
        ap (λ r. prefetched s (record { name = n; rtype = rtype }) between (asked, r)) sent
            ∙ stored,
        lookup_hit s cfg w₂ n rtype later _ (read_back s records) one same
            (s.decode-encode records b written),
        refl,
      )
