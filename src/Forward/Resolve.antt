-- ===== src/Forward/Resolve.antt =====
-- src/core/resolver/forward.rs: what `lookup` does behind the cache: the upstream, with QNAME
-- minimisation if that is on, DNS64, DNAME synthesis, the filter's checks, the store, and the
-- flattening of a CNAME.
use heimdallr.Common.{
  ℕ, ◌+◌, Bool, true, false, not, ◌&&◌, ◌||◌, List, [], ◌++◌, map, Option, none, some, ◌==◌,
  if◌then◌else◌, length,
}
use mathlib.Core.Option
use heimdallr.Dns.{RecordType, a as type_a, aaaa as type_aaaa, aname as type_aname, any as type_any}
use heimdallr.Dns.Records.{Record, aaaa, min_or}
use heimdallr.Dns64.{Dns64Prefix, synthesize_aaaa}
use heimdallr.Filter.{unwrap_or}
use heimdallr.Filter.Answers.{cname_chain_truncated, rebinding_detected}
use heimdallr.Forward.{extract_ecs_scope, synthesize_dname_cnames}
use heimdallr.Forward.Service.{
  CacheKey, Services, Authority, World, Answer, answered, upstream_error, not_minimized,
  chain_truncated,
}
use heimdallr.Forward.Lookup.{
  is_type, has_type, a_addresses, a_ttls, first_cname, ask, cache_store, check_cache, lookup_any,
}
use heimdallr.Qmin.{
  Lookup, ok, err, Outcome, cannot_minimize, failed, done, lookups_made, resolve_with_minimization,
}

module _ {Name NetError Regex : Type 0} (s : Services Name NetError) (cfg : Authority Regex) where
  unfoldable pub as_answer :
      World Name × Lookup (Record Name) NetError → World Name × Answer Name NetError
  as_answer (w, ok records) = (w, answered records)
  as_answer (w, err e) = (w, upstream_error e)

  unfoldable pub outcome_answer : Outcome Name (Record Name) NetError → Answer Name NetError
  outcome_answer cannot_minimize = not_minimized
  outcome_answer (failed e) = upstream_error e
  outcome_answer (done r) = answered r.records

  -- the upstream is asked
  unfoldable pub forward : World Name → Name → RecordType → World Name × Answer Name NetError
  unfolding ask as_answer outcome_answer
  forward w fwd_name rtype =
      let upstream : ℕ → Name → Lookup (Record Name) NetError =
        λ i n. s.lookup (w.lookups + i) n rtype in
      let (out, m) =
        resolve_with_minimization upstream s.names cfg.max_iterations fwd_name w.metrics in
      let made = lookups_made upstream s.names cfg.max_iterations fwd_name in
      if cfg.minimize
      then (record w { metrics = m; lookups = w.lookups + made }, outcome_answer out)
      else as_answer (ask s w fwd_name rtype)

  -- the AAAA records made from the answer to the chained query
  unfoldable pub chained :
      Dns64Prefix
      → Name
      → World Name × Lookup (Record Name) NetError
      → World Name × List (Record Name)
  unfolding a_addresses a_ttls min_or
  chained prefix fwd_name (w, err e) = (w, [])
  chained prefix fwd_name (w, ok records) =
      let a_records = a_addresses records in
      let (aaaa_list, m) = synthesize_aaaa a_records prefix w.metrics in
      if length a_records == 0 then (w, []) else (
        record w { metrics = m },
        map (λ v6. record { name = fwd_name; ttl = min_or 300 (a_ttls records); data_ = aaaa v6 })
            aaaa_list,
      )

  -- DNS64
  unfoldable pub dns64 :
      World Name → List (Record Name) → Name → RecordType → World Name × List (Record Name)
  unfolding ask chained is_type has_type
  dns64 w answers fwd_name rtype = elim cfg.dns64_prefix [
    | none ↦ (w, [])
    | some prefix ↦
        if is_type rtype type_aaaa
          && (not (has_type type_aaaa answers) || cfg.dns64_always_synthesize)
        then chained prefix fwd_name (ask s w (s.relative fwd_name) type_a)
        else (w, [])
  ]

  -- the records with the CNAME records that stand for DNAME ones
  unfoldable pub with_dname : List (Record Name) → Name → List (Record Name)
  unfolding has_type
  with_dname records fwd_name =
      if has_type type_aname records
      then records ++ synthesize_dname_cnames s.name_discrete records fwd_name
      else records

  -- the test of the CNAME chain, which counts
  unfoldable pub chain_cut : World Name → List (Record Name) → World Name × Bool
  chain_cut w records =
      let (truncated, m) =
        cname_chain_truncated cfg.filter (map (λ r. r.data_) records) w.metrics in
      if cfg.filter.cname_cloaking && truncated
      then (record w { metrics = m }, true)
      else (w, false)

  -- the test for rebinding, of which only the count is used
  unfoldable pub note_rebinding : World Name → List (Record Name) → World Name
  note_rebinding w records =
      if cfg.filter.rebinding
      then record w {
        metrics = (rebinding_detected cfg.filter (map (λ r. r.data_) records) w.metrics).1;
      }
      else w

  -- the records of an answer that may have failed
  unfoldable pub answers_of : Lookup (Record Name) NetError → List (Record Name)
  answers_of (ok records) = records
  answers_of (err e) = []

  -- the lookups of the target of a CNAME record
  unfoldable pub flatten : World Name → List (Record Name) → World Name × List (Record Name)
  unfolding ask answers_of first_cname unwrap_or
  flatten w records = elim (first_cname records) [
    | none ↦ (w, records)
    | some target ↦
        let target_name = unwrap_or s.names.root (s.from_ascii (s.to_utf8 target)) in
        let (w', a_lookup) = ask s w target_name type_a in
        let (w'', aaaa_lookup) = ask s w' target_name type_aaaa in
        (w'', (records ++ answers_of a_lookup) ++ answers_of aaaa_lookup)
  ]

  -- the answer: the extended records only if DNS64 gave some
  unfoldable pub conclude :
      List (Record Name)
      → List (Record Name)
      → World Name × List (Record Name)
      → World Name × Answer Name NetError
  conclude upstream synthesized (w, records) =
      (w, answered (if length synthesized == 0 then upstream else records))

  -- what follows the upstream's answer
  unfoldable pub complete :
      World Name
      → CacheKey
      → List (Record Name)
      → Name
      → RecordType
      → (ℕ → ℕ)
      → Option (World Name × Answer Name NetError)
  unfolding dns64 with_dname chain_cut note_rebinding flatten conclude
  complete w key upstream fwd_name rtype clock =
      let (w', synthesized) = dns64 w upstream fwd_name rtype in
      let records = with_dname (upstream ++ synthesized) fwd_name in
      let (w'', cut) = chain_cut w' records in
      let noted = note_rebinding w'' records in
      let stored = cache_store s noted key records (clock noted.lookups) in
      if cut
      then some (w'', chain_truncated)
      else Option.map (λ after. conclude upstream synthesized (flatten after records)) stored

  unfoldable pub after_forward :
      CacheKey
      → Name
      → RecordType
      → (ℕ → ℕ)
      → World Name × Answer Name NetError
      → Option (World Name × Answer Name NetError)
  unfolding complete
  after_forward key fwd_name rtype clock (w, answered records) =
      complete w key records fwd_name rtype clock
  after_forward key fwd_name rtype clock (w, failure) = some (w, failure)

  -- the key of a query
  unfoldable pub query_key : Name → RecordType → CacheKey
  unfolding extract_ecs_scope
  query_key n rtype = record {
    qname = s.to_utf8 n;
    qtype = s.type_number rtype;
    client_subnet = if cfg.ecs then extract_ecs_scope else none;
  }

  unfoldable pub after_check :
      CacheKey
      → Name
      → RecordType
      → (ℕ → ℕ)
      → World Name × Option (List (Record Name))
      → Option (World Name × Answer Name NetError)
  unfolding forward after_forward
  after_check key n rtype clock (w, some records) = some (w, answered records)
  after_check key n rtype clock (w, none) =
      after_forward key (s.relative n) rtype clock (forward w (s.relative n) rtype)

  -- `lookup`
  unfoldable pub lookup :
      World Name → Name → RecordType → (ℕ → ℕ) → Option (World Name × Answer Name NetError)
  unfolding query_key check_cache after_check is_type
  lookup w n rtype clock =
      let key = query_key n rtype in
      if is_type rtype type_any
      then lookup_any s w n clock
      else after_check key n rtype clock (check_cache s w key n rtype (clock w.lookups))
