-- ===== src/Forward/Requests.antt =====
-- The states of a running authority: requests and prefetches in any order, at any times.
use heimdallr.Common.{
  ℕ, suc, ◌+◌, ◌≤◌, ◌<◌, ◌≡◌, refl, List, [], ◌∷◌, Option, none, some, arith, inl, inr,
  Option-cases,
}
use heimdallr.Cache.{CacheConfig, new}
use heimdallr.Cache.Invariant.{new-IsValid}
use heimdallr.Dns.{RecordType, a as type_a, aaaa as type_aaaa, any as type_any}
use heimdallr.Dns.Records.{Record}
use heimdallr.Forward.Lookup.{
  ask, is_type, key_of, cache_store, prefetch, prefetched, lookup_any, any_round, any_choose,
  any_forward, any_next, any_last,
}
use heimdallr.Forward.Resolve.{lookup}
use heimdallr.Forward.Service.{
  CacheKey, key_discrete, Services, Authority, World, Task, Answer, answered, no_address,
}
use heimdallr.Forward.Sound.{IsSound, cache_store-IsSound}
use heimdallr.Forward.Total.{lookup-Ends, lookup_any-Ends}
use heimdallr.HashMap.{get}
use heimdallr.Metrics.{MetricsRegistry}
use heimdallr.Qmin.{Lookup, ok, err}

module _ {Name NetError : Type 0} (s : Services Name NetError) where
  after_lookup-Ends :
      (w : World Name) (t : Task Name) (clock : ℕ → ℕ) (found : Lookup (Record Name) NetError)
      → IsSound s w.cache
      → (w' : World Name) × (prefetched s t clock (w, found) ≡ some w')
        × IsSound s w'.cache
        × (w'.lookups ≡ w.lookups)
  unfolding prefetched
  after_lookup-Ends w t clock (err e) v = (w, refl, v, refl)
  after_lookup-Ends w t clock (ok records) v =
      let (c, ends, v') =
        cache_store-IsSound s w (key_of s t.name t.rtype) records (clock w.lookups) v in
      (record w { cache = c }, ends, v', refl)

  prefetch-Ends :
      (w : World Name) (t : Task Name) (clock : ℕ → ℕ)
      → IsSound s w.cache
      → (w' : World Name) × (prefetch s t clock w ≡ some w')
        × IsSound s w'.cache
        × (w'.lookups ≡ suc w.lookups)
  unfolding prefetch ask
  prefetch-Ends w t clock v = after_lookup-Ends (ask s w (s.relative t.name) t.rtype).0 t clock _ v

module _ {Name NetError Regex : Type 0} (s : Services Name NetError) (cfg : Authority Regex) where
  -- a request, or a prefetch that runs
  pub data Step : World Name → World Name → Type 0 where
    requested :
        (w w' : World Name) (n : Name) (rtype : RecordType) (clock : ℕ → ℕ)
        (a : Answer Name NetError)
        → lookup s cfg w n rtype clock ≡ some (w', a)
        → Step w w'
    refreshed :
        (w w' : World Name) (t : Task Name) (clock : ℕ → ℕ)
        → prefetch s t clock w ≡ some w'
        → Step w w'

  pub data Reach (config : CacheConfig) : World Name → Type 0 where
    start :
        (m : MetricsRegistry)
        → Reach config (record { cache = new config; metrics = m; lookups = 0; tasks = [] })
    next : {w w' : World Name} → Reach config w → Step w w' → Reach config w'

  Step-IsSound : {w w' : World Name} → Step w w' → IsSound s w.cache → IsSound s w'.cache
  Step-IsSound (requested w w' n rtype clock a e) v =
      let (w₂, b, ends, v', _) = lookup-Ends s cfg w n rtype clock v in
      let same : w₂ ≡ w' = ground (arith, e, ends) in rw same at v'
  Step-IsSound (refreshed w w' t clock e) v =
      let (w₂, ends, v', _) = prefetch-Ends s w t clock v in
      let same : w₂ ≡ w' = ground (arith, e, ends) in rw same at v'

  Reach-keeps :
      {config : CacheConfig} {w : World Name} → Reach config w → 0 < config.size → IsSound s w.cache
  unfolding new get
  Reach-keeps {config} (start m) p = record {
    valid = new-IsValid key_discrete config;
    size_pos = p;
    written = λ k e found. ground (arith, found);
  }
  Reach-keeps (next r st) p = Step-IsSound st (Reach-keeps r p)

  -- From an empty cache of a size above zero, after any sequence of requests and prefetches, at
  -- any times and whatever the upstream answered: the cache is valid and its entries are record
  -- sets that can be read back; and every further request and every further prefetch ends.
  pub Reach-Ends :
      {config : CacheConfig} {w : World Name}
      → Reach config w
      → 0 < config.size
      → IsSound s w.cache
        × ((n : Name) (rtype : RecordType) (clock : ℕ → ℕ)
            → (w' : World Name) × (a : Answer Name NetError) × (lookup s cfg w n rtype clock
                ≡ some (w', a)))
        × ((t : Task Name) (clock : ℕ → ℕ) → (w' : World Name) × (prefetch s t clock w ≡ some w'))
  Reach-Ends {config} {w} r p =
      let v = Reach-keeps r p in
      (
        v,
        λ n rtype clock.
            let (w', a, ends, _, _) = lookup-Ends s cfg w n rtype clock v in (w', a, ends),
        λ t clock. let (w', ends, _, _) = prefetch-Ends s w t clock v in (w', ends),
      )

  -- a record set that is not empty, or the answer that there is none
  pub data IsAnyAnswer : Answer Name NetError → Type 0 where
    some_records :
        (r : Record Name) (records : List (Record Name)) → IsAnyAnswer (answered (r ∷ records))
    no_records : IsAnyAnswer no_address

  IsRound : Option (World Name × Option (List (Record Name))) → Type 0
  IsRound (some (w, some [])) = ⊥
  IsRound _ = Unit

  any_forward-IsRound :
      (k : CacheKey) (clock : ℕ → ℕ) (w : World Name) (found : Lookup (Record Name) NetError)
      → IsRound (any_forward s k clock (w, found))
  unfolding any_forward IsRound
  any_forward-IsRound k clock w (err e) = tt
  any_forward-IsRound k clock w (ok []) = tt
  any_forward-IsRound k clock w (ok (r ∷ records)) =
      elim (Option-cases (cache_store s w k (r ∷ records) (clock w.lookups))) [
        | inl stuck ↦ rw (stuck, any_forward) tt
        | inr (after, stored) ↦ rw (stored, any_forward) tt
      ]

  any_choose-IsRound :
      (seen : World Name) (hit : Option (List (Record Name)))
      (forwarded : Option (World Name × Option (List (Record Name))))
      → IsRound forwarded
      → IsRound (any_choose s seen hit forwarded)
  unfolding any_choose IsRound
  any_choose-IsRound seen (some (r ∷ records)) forwarded v = tt
  any_choose-IsRound seen (some []) forwarded v = v
  any_choose-IsRound seen none forwarded v = v

  any_round-IsRound :
      (w : World Name) (n : Name) (rtype : RecordType) (clock : ℕ → ℕ)
      → IsRound (any_round s w n rtype clock)
  unfolding any_round ask
  any_round-IsRound w n rtype clock =
      any_choose-IsRound _ _ _ (any_forward-IsRound (key_of s n rtype) clock _ _)

  any_last-IsAnyAnswer :
      (round : Option (World Name × Option (List (Record Name)))) (w : World Name)
      (a : Answer Name NetError)
      → IsRound round
      → any_last s round ≡ some (w, a)
      → IsAnyAnswer a
  unfolding any_last IsRound
  any_last-IsAnyAnswer (some (w', some (r ∷ records))) w a v e =
      let same : answered (r ∷ records) ≡ a = ground (arith, e) in
      rw same at (some_records r records)
  any_last-IsAnyAnswer (some (w', none)) w a v e =
      let same : no_address ≡ a = ground (arith, e) in rw same at no_records
  any_last-IsAnyAnswer (some (w', some [])) w a v e = absurd v
  any_last-IsAnyAnswer none w a v e = ground (arith, e)

  any_next-IsAnyAnswer :
      (n : Name) (clock : ℕ → ℕ) (round : Option (World Name × Option (List (Record Name))))
      (w : World Name) (a : Answer Name NetError)
      → IsRound round
      → any_next s n clock round ≡ some (w, a)
      → IsAnyAnswer a
  unfolding any_next IsRound
  any_next-IsAnyAnswer n clock (some (w', some (r ∷ records))) w a v e =
      let same : answered (r ∷ records) ≡ a = ground (arith, e) in
      rw same at (some_records r records)
  any_next-IsAnyAnswer n clock (some (w', some [])) w a v e = absurd v
  any_next-IsAnyAnswer n clock (some (w', none)) w a v e =
      any_last-IsAnyAnswer (any_round s w' n type_aaaa clock) w a
        (any_round-IsRound w' n type_aaaa clock) e
  any_next-IsAnyAnswer n clock none w a v e = ground (arith, e)

  -- On a sound cache a query of type ANY ends, with a record set that is not empty or with the
  -- error that there is no address, and asks the upstream at most twice.
  pub lookup-IsAnyAnswer :
      (w : World Name) (n : Name) (clock : ℕ → ℕ)
      → IsSound s w.cache
      → (w' : World Name) × (a : Answer Name NetError) × (lookup s cfg w n type_any clock
          ≡ some (w', a))
        × IsAnyAnswer a
        × (w'.lookups ≤ w.lookups + 2)
  unfolding lookup lookup_any is_type
  lookup-IsAnyAnswer w n clock v =
      let (w', a, ends, _, le) = lookup_any-Ends s cfg w n clock v in
      (
        w',
        a,
        ends,
        any_next-IsAnyAnswer n clock (any_round s w n type_a clock) w' a
            (any_round-IsRound w n type_a clock) ends,
        le,
      )
