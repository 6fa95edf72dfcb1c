-- ===== src/Forward/Total.antt =====
-- Every lookup of the forwarding authority and every prefetch ends, with a sound cache and a
-- bounded number of lookups upstream.
use heimdallr.Common.{
  ℕ, suc, ◌+◌, ◌≤◌, max, min, length, length-take, Bool, ◌≡◌, refl, List, [], ◌∷◌, ◌++◌, Option,
  none, some, arith, Bool-cases, inl, inr, if◌then◌else◌,
}
use heimdallr.Cache.{Cache, lookup_with_metrics}
use heimdallr.Dns.{RecordType, a as type_a, aaaa as type_aaaa, any as type_any}
use heimdallr.Dns.Records.{Record}
use heimdallr.Forward.Lookup.{
  ask, key_of, cached, check_cache, on_found, any_round, any_forward, any_choose, any_next,
  any_last, lookup_any, is_type,
}
use heimdallr.Forward.Resolve.{
  forward, as_answer, chained, dns64, chain_cut, note_rebinding, flatten, conclude, complete,
  after_forward, after_check, lookup, with_dname, query_key,
}
use heimdallr.Forward.Service.{
  CacheKey, key_discrete, Services, Authority, World, Answer, answered, chain_truncated, no_address,
}
use heimdallr.Forward.Sound.{IsSound, cache_store-IsSound, lookup_with_metrics-IsSound}
use heimdallr.Metrics.{MetricsRegistry}
use heimdallr.Qmin.{Lookup, ok, err, lookups_made, planned, made_behind, peel_labels}

module _ {Name NetError Regex : Type 0} (s : Services Name NetError) (cfg : Authority Regex) where
  -- the lookups that the first answer may take
  abbrev pub budget : ℕ
  budget = if cfg.minimize then suc (max cfg.max_iterations 1) else 1

  -- a step that leaves the cache alone and asks upstream at most `n` times
  abbrev pub Spends : ℕ → World Name → World Name → Type 0
  Spends n w w' = (w'.cache ≡ w.cache) × (w'.lookups ≤ w.lookups + n)

  lookups_made-le :
      (upstream : ℕ → Name → Lookup (Record Name) NetError) (n : Name)
      → lookups_made upstream s.names cfg.max_iterations n ≤ suc (max cfg.max_iterations 1)
  unfolding lookups_made planned made_behind
  lookups_made-le upstream n = ground (
    arith,
    length-take (min (max cfg.max_iterations 1) (length (peel_labels s.names n)))
        (peel_labels s.names n),
  )

  pub forward-Spends :
      (w : World Name) (n : Name) (rtype : RecordType) → Spends budget w (forward s cfg w n rtype).0
  unfolding forward as_answer ask
  forward-Spends w n rtype =
      ground (arith, lookups_made-le (λ i n. s.lookup (w.lookups + i) n rtype) n)

  pub dns64-Spends :
      (w : World Name) (answers : List (Record Name)) (n : Name) (rtype : RecordType)
      → Spends 1 w (dns64 s cfg w answers n rtype).0
  unfolding dns64 chained ask
  dns64-Spends w answers n rtype = ground arith

  pub chain_cut-Spends :
      (w : World Name) (records : List (Record Name)) → Spends 0 w (chain_cut s cfg w records).0
  unfolding chain_cut
  chain_cut-Spends w records = ground arith

  pub note_rebinding-Spends :
      (w : World Name) (records : List (Record Name)) → Spends 0 w (note_rebinding s cfg w records)
  unfolding note_rebinding
  note_rebinding-Spends w records = ground arith

  pub flatten-Spends :
      (w : World Name) (records : List (Record Name)) → Spends 2 w (flatten s cfg w records).0
  unfolding flatten ask
  flatten-Spends w records = ground arith

  -- an operation's result: it ends, with a sound cache and at most `n` lookups more
  abbrev pub Ends : {B : Type 0} → ℕ → World Name → Option (World Name × B) → Type 0
  Ends {B} n w result =
      (w' : World Name) × (b : B) × (result ≡ some (w', b))
      × IsSound s w'.cache
      × (w'.lookups ≤ w.lookups + n)

  complete-Ends :
      (w : World Name) (k : CacheKey) (upstream : List (Record Name)) (n : Name)
      (rtype : RecordType) (clock : ℕ → ℕ)
      → IsSound s w.cache
      → Ends 3 w (complete s cfg w k upstream n rtype clock)
  unfolding complete
  complete-Ends w k upstream n rtype clock v =
      let (w₁, synthesized) = dns64 s cfg w upstream n rtype in
      let records = with_dname s cfg (upstream ++ synthesized) n in
      let (w₂, cut) = chain_cut s cfg w₁ records in
      let w₃ = note_rebinding s cfg w₂ records in
      let d = dns64-Spends w upstream n rtype in
      let c = chain_cut-Spends w₁ records in
      let r = note_rebinding-Spends w₂ records in
      let sound : IsSound s w₃.cache = rw (r.0, c.0, d.0) v in
      let (stored, ends, v') = cache_store-IsSound s w₃ k records (clock w₃.lookups) sound in
      let after : World Name = record w₃ { cache = stored } in
      let f = flatten-Spends after records in
      elim (Bool-cases cut) [
        | inl over ↦ (
          w₂,
          chain_truncated,
          rw (over, complete) refl,
          rw (c.0, d.0) v,
          omega (arith, c.1, d.1),
        )
        | inr within ↦ (
          (flatten s cfg after records).0,
          (conclude s cfg upstream synthesized (flatten s cfg after records)).1,
          rw (within, ends, complete) refl,
          rw f.0 v',
          omega (arith, c.1, d.1, r.1, f.1),
        )
      ]

  after_forward-Ends :
      (w : World Name) (k : CacheKey) (a : Answer Name NetError) (n : Name) (rtype : RecordType)
      (clock : ℕ → ℕ)
      → IsSound s w.cache
      → Ends 3 w (after_forward s cfg k n rtype clock (w, a))
  unfolding after_forward complete
  after_forward-Ends w k (answered records) n rtype clock v =
      complete-Ends w k records n rtype clock v
  after_forward-Ends w k failure n rtype clock v = (w, failure, refl, v, omega arith)

  any_forward-Ends :
      (w : World Name) (k : CacheKey) (clock : ℕ → ℕ) (found : Lookup (Record Name) NetError)
      → IsSound s w.cache
      → Ends 0 w (any_forward s k clock (w, found))
  unfolding any_forward
  any_forward-Ends w k clock (err e) v = (w, none, refl, v, omega arith)
  any_forward-Ends w k clock (ok []) v = (w, none, refl, v, omega arith)
  any_forward-Ends w k clock (ok (r ∷ records)) v =
      let (c, ends, v') = cache_store-IsSound s w k (r ∷ records) (clock w.lookups) v in
      (record w { cache = c }, some (r ∷ records), rw ends refl, v', omega arith)

  any_choose-Ends :
      (w seen : World Name) (hit : Option (List (Record Name)))
      (forwarded : Option (World Name × Option (List (Record Name))))
      → IsSound s seen.cache
      → seen.lookups ≡ w.lookups
      → Ends 1 w forwarded
      → Ends 1 w (any_choose s seen hit forwarded)
  unfolding any_choose
  any_choose-Ends w seen (some (r ∷ records)) forwarded v same ends =
      (seen, some (r ∷ records), refl, v, omega (arith, same))
  any_choose-Ends w seen (some []) forwarded v same ends = ends
  any_choose-Ends w seen none forwarded v same ends = ends

  any_round-Ends :
      (w : World Name) (n : Name) (rtype : RecordType) (clock : ℕ → ℕ)
      → IsSound s w.cache
      → Ends 1 w (any_round s w n rtype clock)
  unfolding any_round ask
  any_round-Ends w n rtype clock v =
      let key = key_of s n rtype in
      let (c, m, found) =
        lookup_with_metrics key_discrete w.cache key (clock w.lookups) w.metrics in
      let sound : IsSound s c =
        lookup_with_metrics-IsSound s w.cache key (clock w.lookups) w.metrics v in
      let seen : World Name = record w { cache = c; metrics = m } in
      let (w₁, found') = ask s seen (s.relative n) rtype in
      let (w₂, records, ends, v', le) = any_forward-Ends w₁ key clock found' sound in
      any_choose-Ends w seen (cached s found) _ sound refl
        (w₂, records, ends, v', omega (arith, le))

  any_last-Ends :
      (n : ℕ) (w : World Name) (round : Option (World Name × Option (List (Record Name))))
      → Ends n w round
      → Ends n w (any_last s round)
  unfolding any_last
  any_last-Ends n w round (w₁, some records, ends, v, le) =
      rw ends (w₁, answered records, refl, v, le)
  any_last-Ends n w round (w₁, none, ends, v, le) = rw ends (w₁, no_address, refl, v, le)

  any_next-Ends :
      (w : World Name) (n : Name) (clock : ℕ → ℕ)
      (round : Option (World Name × Option (List (Record Name))))
      → Ends 1 w round
      → Ends 2 w (any_next s n clock round)
  unfolding any_next
  any_next-Ends w n clock round (w₁, some records, ends, v, le) =
      rw ends (w₁, answered records, refl, v, omega (arith, le))
  any_next-Ends w n clock round (w₁, none, ends, v, le) =
      let (w₂, a, ends', v', le') =
        any_last-Ends 1 w₁ (any_round s w₁ n type_aaaa clock)
          (any_round-Ends w₁ n type_aaaa clock v) in
      rw ends (w₂, a, ends', v', omega (arith, le, le'))

  pub lookup_any-Ends :
      (w : World Name) (n : Name) (clock : ℕ → ℕ)
      → IsSound s w.cache
      → Ends 2 w (lookup_any s w n clock)
  unfolding lookup_any
  lookup_any-Ends w n clock v = any_next-Ends w n clock _ (any_round-Ends w n type_a clock v)

  on_found-cache :
      (w : World Name) (k : CacheKey) (n : Name) (rtype : RecordType) (now : ℕ)
      (r : Cache CacheKey × MetricsRegistry × Option (List ℕ × Bool × ℕ))
      → ((on_found s w k n rtype now r).0.cache ≡ r.0)
        × ((on_found s w k n rtype now r).0.lookups ≡ w.lookups)
  unfolding on_found
  on_found-cache w k n rtype now (c, m, none) = (refl, refl)
  on_found-cache w k n rtype now (c, m, some hit) = (refl, refl)

  after_check-Ends :
      (k : CacheKey) (n : Name) (rtype : RecordType) (clock : ℕ → ℕ)
      (r : World Name × Option (List (Record Name)))
      → IsSound s r.0.cache
      → Ends (3 + budget) r.0 (after_check s cfg k n rtype clock r)
  unfolding after_check
  after_check-Ends k n rtype clock (w, some records) v = (w, answered records, refl, v, omega arith)
  after_check-Ends k n rtype clock (w, none) v =
      let fwd_name = s.relative n in
      let (w', a) = forward s cfg w fwd_name rtype in
      let (cache, le) = forward-Spends w fwd_name rtype in
      let sound : IsSound s w'.cache = rw cache v in
      let (w'', b, ends, v', le') = after_forward-Ends w' k a fwd_name rtype clock sound in
      (w'', b, ends, v', omega (arith, le', le))

  -- On a sound cache (a valid one, of a size above zero, whose entries are written record sets) a
  -- lookup ends, whatever the upstream answers and whatever the times; the cache is sound again;
  -- and the upstream is asked at most three times more than the first answer takes, which is
  -- once, or, with QNAME minimisation, the limit of the labels (at least one) and once more.
  pub lookup-Ends :
      (w : World Name) (n : Name) (rtype : RecordType) (clock : ℕ → ℕ)
      → IsSound s w.cache
      → Ends (3 + budget) w (lookup s cfg w n rtype clock)
  unfolding lookup
  lookup-Ends w n rtype clock v = elim (Bool-cases (is_type rtype type_any)) [
    | inl all ↦
        let (w', a, ends, v', le) = lookup_any-Ends w n clock v in
        rw all (w', a, ends, v', ground (arith, le))
    | inr one ↦
        let k = query_key s cfg n rtype in
        let now = clock w.lookups in
        let r = lookup_with_metrics key_discrete w.cache k now w.metrics in
        let (cache, same) = on_found-cache w k n rtype now r in
        let sound = lookup_with_metrics-IsSound s w.cache k now w.metrics v in
        let (w', a, ends, v', le) =
          after_check-Ends k n rtype clock (on_found s w k n rtype now r) (rw cache sound) in
        rw one (w', a, unfold check_cache in ends, v', omega (arith, le, same))
  ]
