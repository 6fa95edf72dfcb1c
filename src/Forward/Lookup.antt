-- ===== src/Forward/Lookup.antt =====
-- src/core/resolver/forward.rs: `lookup` of the forwarding authority and the tasks that it spawns.
-- `clock n` is the time at which n lookups have been sent upstream. An operation gives `none` if
-- the eviction loop of the cache does not end.
use heimdallr.Common.{
  ℕ, suc, Bool, true, false, List, [], ◌∷◌, map, Option, none, some, ite, if◌then◌else◌, any,
}
use heimdallr.Common.Words.{from_secs}
use heimdallr.Common.Addr.{Ipv4Addr}
use mathlib.Core.Option
use heimdallr.Metrics.{MetricsRegistry}
use heimdallr.Cache.{Cache, insert, lookup_with_metrics, should_prefetch}
use heimdallr.Dns.{RecordType, record_type_discrete, a as type_a, aaaa as type_aaaa}
use heimdallr.Dns.Records.{Record, a, cname, record_type, min_or}
use heimdallr.Forward.Service.{
  CacheKey, key_discrete, Services, Task, World, Answer, answered, no_address,
}
use heimdallr.Qmin.{Lookup, ok, err}

-- `==` on record types
unfoldable pub is_type : RecordType → RecordType → Bool
is_type s t = ite (record_type_discrete s t) true false

module _ {Name : Type 0} where
  -- the time to live that a record set is cached with
  unfoldable pub set_ttl : List (Record Name) → ℕ
  unfolding min_or
  set_ttl records = min_or (from_secs 300) (map (λ r. from_secs r.ttl) records)

  unfoldable pub has_type : RecordType → List (Record Name) → Bool
  unfolding is_type record_type
  has_type t records = any (λ r. is_type (record_type r.data_) t) records

  -- the addresses of the A records
  unfoldable pub a_addresses : List (Record Name) → List Ipv4Addr
  a_addresses [] = []
  a_addresses (r ∷ records) = elim r.data_ [
    | a ip ↦ ip ∷ a_addresses records
    | _ ↦ a_addresses records
  ]

  -- the times to live of the records of type A
  unfoldable pub a_ttls : List (Record Name) → List ℕ
  unfolding is_type record_type
  a_ttls [] = []
  a_ttls (r ∷ records) =
      let rest = a_ttls records in
      if is_type (record_type r.data_) type_a then r.ttl ∷ rest else rest

  -- the target of the first CNAME record
  unfoldable pub first_cname : List (Record Name) → Option Name
  first_cname [] = none
  first_cname (r ∷ records) = elim r.data_ [ cname target ↦ some target | _ ↦ first_cname records ]

module _ {Name NetError : Type 0} (s : Services Name NetError) where
  -- one lookup of the upstream resolver
  unfoldable pub ask : World Name → Name → RecordType → World Name × Lookup (Record Name) NetError
  ask w n rtype = (record w { lookups = suc w.lookups }, s.lookup w.lookups n rtype)

  unfoldable pub key_of : Name → RecordType → CacheKey
  key_of n rtype = record { qname = s.to_utf8 n; qtype = s.type_number rtype; client_subnet = none }

  -- a record set is put into the cache if it can be written
  unfoldable pub cache_store : World Name → CacheKey → List (Record Name) → ℕ → Option (World Name)
  unfolding set_ttl
  cache_store w key records now = elim (s.encode records) [
    | none ↦ some w
    | some bytes ↦
        Option.map (λ c. record w { cache = c })
          (insert key_discrete w.cache key bytes (set_ttl records) now)
  ]

  unfoldable pub prefetched :
      Task Name → (ℕ → ℕ) → World Name × Lookup (Record Name) NetError → Option (World Name)
  unfolding key_of cache_store
  prefetched t clock (w, err e) = some w
  prefetched t clock (w, ok records) =
      cache_store w (key_of t.name t.rtype) records (clock w.lookups)

  -- the task that `lookup` spawns
  unfoldable pub prefetch : Task Name → (ℕ → ℕ) → World Name → Option (World Name)
  unfolding ask prefetched
  prefetch t clock w = prefetched t clock (ask w (s.relative t.name) t.rtype)

  -- the cache's answer: what its bytes decode to
  unfoldable pub cached : Option (List ℕ × Bool × ℕ) → Option (List (Record Name))
  cached none = none
  cached (some (bytes, stale, hits)) = s.decode bytes

  -- a hit in `lookup`, with the prefetch that it may spawn, or a miss
  unfoldable pub on_found :
      World Name
      → CacheKey
      → Name
      → RecordType
      → ℕ
      → Cache CacheKey × MetricsRegistry × Option (List ℕ × Bool × ℕ)
      → World Name × Option (List (Record Name))
  unfolding cached
  on_found w key n rtype now (c, m, none) = (record w { cache = c; metrics = m }, none)
  on_found w key n rtype now (c, m, some hit) =
      let task : Task Name = record { name = n; rtype = rtype } in
      (
        record w {
          cache = c;
          metrics = m;
          tasks = if should_prefetch key_discrete c key now then task ∷ w.tasks else w.tasks;
        },
        cached (some hit),
      )

  -- the check of the cache in `lookup`
  unfoldable pub check_cache :
      World Name → CacheKey → Name → RecordType → ℕ → World Name × Option (List (Record Name))
  unfolding on_found
  check_cache w key n rtype now =
      on_found w key n rtype now (lookup_with_metrics key_discrete w.cache key now w.metrics)

  -- a type of `lookup_any` behind the upstream's answer
  unfoldable pub any_forward :
      CacheKey
      → (ℕ → ℕ)
      → World Name × Lookup (Record Name) NetError
      → Option (World Name × Option (List (Record Name)))
  unfolding cache_store
  any_forward key clock (w, err e) = some (w, none)
  any_forward key clock (w, ok []) = some (w, none)
  any_forward key clock (w, ok (r ∷ records)) =
      Option.map (λ w'. (w', some (r ∷ records)))
        (cache_store w key (r ∷ records) (clock w.lookups))

  -- records from the cache are the answer if there are some
  unfoldable pub any_choose :
      World Name
      → Option (List (Record Name))
      → Option (World Name × Option (List (Record Name)))
      → Option (World Name × Option (List (Record Name)))
  any_choose seen (some (r ∷ records)) forwarded = some (seen, some (r ∷ records))
  any_choose seen _ forwarded = forwarded

  -- one type of `lookup_any`; the answer is `none` if the next type is tried
  unfoldable pub any_round :
      World Name → Name → RecordType → (ℕ → ℕ) → Option (World Name × Option (List (Record Name)))
  unfolding ask key_of cached any_forward any_choose
  any_round w n rtype clock =
      let key = key_of n rtype in
      let (c, m, found) =
        lookup_with_metrics key_discrete w.cache key (clock w.lookups) w.metrics in
      let seen : World Name = record w { cache = c; metrics = m } in
      any_choose seen (cached found) (any_forward key clock (ask seen (s.relative n) rtype))

  unfoldable pub any_last :
      Option (World Name × Option (List (Record Name))) → Option (World Name × Answer Name NetError)
  any_last none = none
  any_last (some (w, some records)) = some (w, answered records)
  any_last (some (w, none)) = some (w, no_address)

  unfoldable pub any_next :
      Name
      → (ℕ → ℕ)
      → Option (World Name × Option (List (Record Name)))
      → Option (World Name × Answer Name NetError)
  unfolding any_round any_last
  any_next n clock none = none
  any_next n clock (some (w, some records)) = some (w, answered records)
  any_next n clock (some (w, none)) = any_last (any_round w n type_aaaa clock)

  -- `lookup_any`
  unfoldable pub lookup_any :
      World Name → Name → (ℕ → ℕ) → Option (World Name × Answer Name NetError)
  unfolding any_round any_next
  lookup_any w n clock = any_next n clock (any_round w n type_a clock)
