-- ===== src/Tests/LookupRuns.antt =====
-- src/core/resolver/forward.rs at concrete inputs: names are numbers, of which 0 is the root; a
-- record is written as six octets.
use heimdallr.Common.{
  ℕ, ◌-◌, ◌≤◌, true, false, ◌≡◌, refl, List, [], ◌∷◌, Option, none, some, arith, ◌==◌, ℕ_discrete,
  if◌then◌else◌, Option-cases, inl, inr, map, ◌∙◌, ap, sym,
}
use heimdallr.Common.Text.{Text}
use heimdallr.Common.Words.{from_secs, add64}
use heimdallr.HashMap.{get, insert as put}
use heimdallr.Metrics.{increment, cache_misses_total, new as registry}
use heimdallr.Cache.{
  CacheEntry, default_config, new, insert, make_room, store, lookup as find, lookup_with_metrics,
  record_miss,
}
use heimdallr.Cache.Eviction.{fresh}
use heimdallr.Dns.{RecordType, a as type_a, any as type_any}
use heimdallr.Dns.Records.{
  Record, RData, a, aaaa, cname, aname, soa, ptr, txt, other, record_type, min_or,
}
use heimdallr.Filter.{Filter}
use heimdallr.Filter.Answers.{
  cname_chain_truncated, cname_chain_count, rebinding_detected, points_inside,
  is_private_or_loopback,
}
use heimdallr.Forward.{extract_ecs_scope}
use heimdallr.Forward.Service.{
  CacheKey, key_discrete, as_read, read_back, Services, Authority, World, Task, Answer, answered,
  upstream_error,
}
use heimdallr.Forward.Lookup.{
  is_type, has_type, first_cname, set_ttl, ask, cache_store, check_cache, on_found, prefetch,
}
use heimdallr.Forward.Resolve.{
  forward, as_answer, dns64, with_dname, chain_cut, note_rebinding, flatten, conclude, complete,
  after_forward, after_check, query_key, lookup,
}
use heimdallr.Forward.Requests.{Reach-Ends, start, next, requested, IsAnyAnswer, lookup-IsAnyAnswer}
use heimdallr.Forward.Refresh.{extended, lookup-lookup, lookup-prefetch}
use heimdallr.Forward.Serving.{after_miss, lookup-get, lookup_failed}
use heimdallr.Forward.Sound.{IsSound}
use heimdallr.Forward.Total.{Ends, lookup-Ends}
use heimdallr.Qmin.{ok, err}

abbrev address : ℕ → Record ℕ
address x = record { name = x; ttl = 60; data_ = a (record { a = 203; b = 0; c = 113; d = x }) }

-- a message of records of type A
abbrev write : List (Record ℕ) → Option (List ℕ)
write [] = some []
write (r ∷ rs) = elim r.data_ [
  | a ip ↦ elim (write rs) [
    | none ↦ none
    | some bytes ↦ some (r.name ∷ r.ttl ∷ ip.a ∷ ip.b ∷ ip.c ∷ ip.d ∷ bytes)
  ]
  | _ ↦ none
]

abbrev read : List ℕ → Option (List (Record ℕ))
read [] = some []
read (n ∷ t ∷ w ∷ x ∷ y ∷ z ∷ bytes) = elim (read bytes) [
  | none ↦ none
  | some rs ↦
      some (record { name = n; ttl = t; data_ = a (record { a = w; b = x; c = y; d = z }) } ∷ rs)
]
read _ = none

read-write : (rs : List (Record ℕ)) (bytes : List ℕ) → write rs ≡ some bytes → read bytes ≡ some rs
read-write [] bytes h = ground (arith, h)
read-write (r ∷ rs) bytes h = go (read-write rs) r.data_ refl
  where
    go :
        ((b : List ℕ) → write rs ≡ some b → read b ≡ some rs)
        → (d : RData ℕ) → r.data_ ≡ d
        → read bytes ≡ some (r ∷ rs)
    go ih (a ip) same = elim (Option-cases (write rs)) [
      | inl failed ↦ ground (arith, h, failed, same)
      | inr (rest, written) ↦ ground (arith, h, written, same, ih rest written)
    ]
    go ih (aaaa x) same = ground (arith, h, same)
    go ih (cname x) same = ground (arith, h, same)
    go ih (aname x) same = ground (arith, h, same)
    go ih (soa x) same = ground (arith, h, same)
    go ih (ptr x) same = ground (arith, h, same)
    go ih (txt x) same = ground (arith, h, same)
    go ih (other x) same = ground (arith, h, same)

as_read-same : (rs : List (Record ℕ)) → map (as_read (λ n. n) (λ d. d)) rs ≡ rs
as_read-same [] = refl
as_read-same (r ∷ rs) = ap (λ t. r ∷ t) (as_read-same rs)

root_labels : (n : ℕ) → (n == 0) ≡ true → n ≡ 0
root_labels n h = ground (arith, h)

abbrev first_code : Text → Option ℕ
first_code [] = none
first_code (x ∷ xs) = some x

-- a name has as many labels as its number says, and every name has one address
abbrev services : Services ℕ ℕ
services = record {
  lookup = λ i n rtype. ok (address n ∷ []);
  encode = write;
  decode = read;
  names = record {
    num_labels = λ n. n;
    base_name = λ n. n - 1;
    is_root = λ n. n == 0;
    root = 0;
    is_root-num_labels = root_labels;
  };
  name_discrete = ℕ_discrete;
  to_utf8 = λ n. n ∷ [];
  from_ascii = first_code;
  relative = λ n. n;
  type_number = λ rtype. if is_type rtype type_a then 1 else 28;
  fits = λ rs. true;
  cut = λ rs. rs;
  qualified = λ n. n;
  qualified_data = λ d. d;
  decode-encode = λ rs bytes h. read-write rs bytes h ∙ ap some (sym (as_read-same rs));
}

abbrev filter : Filter ℕ
filter = record {
  cname_chain_limit = 8;
  cname_cloaking = true;
  rebinding = true;
  blocklist = [];
  allowlist = [];
  per_client = [];
  sinkhole_v4 = record { a = 0; b = 0; c = 0; d = 0 };
  sinkhole_v6 = record { octets = [] };
  regex_blocklist = [];
}

abbrev authority : Authority ℕ
authority = record {
  minimize = false;
  max_iterations = 10;
  filter = filter;
  dns64_prefix = none;
  dns64_always_synthesize = false;
  ecs = false;
}

abbrev fresh_world : World ℕ
fresh_world = record { cache = new default_config; metrics = registry; lookups = 0; tasks = [] }

start-IsSound : IsSound services fresh_world.cache
start-IsSound = (Reach-Ends services authority (start registry) (omega arith)).0

lookup-Ends_example :
    Ends services authority 4 fresh_world (lookup services authority fresh_world 3 type_a (λ n. n))
lookup-Ends_example = lookup-Ends services authority fresh_world 3 type_a (λ n. n) start-IsSound

abbrev key : CacheKey
key = record { qname = 3 ∷ []; qtype = 1; client_subnet = none }

abbrev entry : CacheEntry
entry = fresh (3 ∷ 60 ∷ 203 ∷ 0 ∷ 113 ∷ 3 ∷ []) (from_secs 60) 0

-- the world behind the first query for name 3
abbrev stored_world : World ℕ
stored_world = record {
  cache = record {
    config = default_config;
    entries = (key, entry) ∷ [];
    access_order = key ∷ [];
    hits = 0;
    misses = 1;
  };
  metrics = increment cache_misses_total 1 registry;
  lookups = 1;
  tasks = [];
}

abbrev key_is : query_key services authority 3 type_a ≡ key
unfolding query_key is_type extract_ecs_scope
key_is = refl

first_query :
    lookup services authority fresh_world 3 type_a (λ n. 0)
    ≡ some (stored_world, answered (address 3 ∷ []))
unfolding lookup query_key is_type extract_ecs_scope check_cache on_found after_check forward
    after_forward complete dns64 with_dname chain_cut note_rebinding cache_store flatten conclude
    lookup_with_metrics find insert make_room store new put get ask as_answer has_type record_type
    first_cname set_ttl min_or cname_chain_truncated cname_chain_count rebinding_detected
    points_inside is_private_or_loopback record_miss add64
first_query = refl

stored-IsSound : IsSound services stored_world.cache
stored-IsSound =
    (Reach-Ends services authority
      (next (start registry) (requested fresh_world stored_world 3 type_a (λ n. 0) _ first_query))
      (omega arith)).0

one_type : is_type type_a type_any ≡ false
unfolding is_type
one_type = refl

kept_under :
    get key_discrete (query_key services authority 3 type_a) stored_world.cache.entries ≡ some entry
unfolding get query_key extract_ecs_scope is_type ℕ_discrete
kept_under = refl

not_yet : get key_discrete (query_key services authority 3 type_a) fresh_world.cache.entries ≡ none
unfolding get new
not_yet = refl

-- a day later
lookup-get_example :
    (records : List (Record ℕ)) × (w' : World ℕ) × (write records ≡ some entry.response_bytes)
    × (lookup services authority stored_world 3 type_a (λ n. from_secs 86400)
        ≡ some (w', answered (read_back services records)))
    × (w'.lookups ≡ 1)
lookup-get_example =
    lookup-get services authority stored_world 3 type_a (λ n. from_secs 86400) entry stored-IsSound
      one_type kept_under

-- the upstream is down
abbrev down : Services ℕ ℕ
down = record services { lookup = λ i n rtype. err 9 }

abbrev missed_world : World ℕ
missed_world = record (after_miss down authority fresh_world) { lookups = 1 }

failed_query :
    lookup down authority fresh_world 3 type_a (λ n. 0) ≡ some (missed_world, upstream_error 9)
unfolding lookup query_key is_type extract_ecs_scope check_cache on_found after_check forward
    after_forward lookup_with_metrics find new get ask as_answer record_miss
failed_query = refl

lookup_failed_example : missed_world.cache ≡ record fresh_world.cache { misses = add64 0 1 }
unfolding query_key new
lookup_failed_example =
    lookup_failed down authority fresh_world missed_world 3 type_a (λ n. 0) (upstream_error 9)
      one_type not_yet failed_query tt

abbrev asked_world : World ℕ
asked_world = record (after_miss services authority fresh_world) { lookups = 1 }

sent_once :
    forward services authority (after_miss services authority fresh_world) 3 type_a
    ≡ (asked_world, answered (address 3 ∷ []))
unfolding forward as_answer ask
sent_once = refl

one_address : extended services authority asked_world (address 3 ∷ []) 3 type_a ≡ address 3 ∷ []
unfolding with_dname dns64 has_type is_type record_type
one_address = refl

within_limit :
    (chain_cut services authority
      (dns64 services authority asked_world (address 3 ∷ []) 3 type_a).0
      (extended services authority asked_world (address 3 ∷ []) 3 type_a)).1
    ≡ false
unfolding chain_cut dns64 with_dname has_type is_type record_type cname_chain_truncated
    cname_chain_count
within_limit = refl

writable :
    write (extended services authority asked_world (address 3 ∷ []) 3 type_a)
    ≡ some (3 ∷ 60 ∷ 203 ∷ 0 ∷ 113 ∷ 3 ∷ [])
unfolding with_dname dns64 has_type is_type record_type
writable = refl

lookup-lookup_example :
    (w' w'' : World ℕ) × (first : List (Record ℕ)) × (lookup services authority fresh_world 3 type_a
        (λ n. 0)
      ≡ some (w', answered first))
    × ((dns64 services authority asked_world (address 3 ∷ []) 3 type_a).1 ≡ []
        → first ≡ address 3 ∷ [])
    × (lookup services authority w' 3 type_a (λ n. from_secs 5)
        ≡ some (
          w'',
          answered (
              read_back services
                (extended services authority asked_world (address 3 ∷ []) 3 type_a)),
        ))
    × (w''.lookups ≡ w'.lookups)
lookup-lookup_example =
    lookup-lookup services authority fresh_world asked_world 3 type_a (λ n. 0) (λ n. from_secs 5)
      (address 3 ∷ []) (3 ∷ 60 ∷ 203 ∷ 0 ∷ 113 ∷ 3 ∷ []) start-IsSound one_type not_yet sent_once
      within_limit writable

over_a_minute : entry.original_ttl ≤ from_secs 61
over_a_minute = omega arith

lookup-prefetch_example :
    (w₁ w₂ w₃ : World ℕ) × (old : List (Record ℕ)) × (lookup services authority stored_world 3
        type_a
        (λ n. from_secs 61)
      ≡ some (w₁, answered old))
    × (services.decode entry.response_bytes ≡ some old)
    × (w₁.lookups ≡ stored_world.lookups)
    × (w₁.tasks ≡ record { name = 3; rtype = type_a } ∷ [])
    × (prefetch services (record { name = 3; rtype = type_a }) (λ n. from_secs 62) w₁ ≡ some w₂)
    × (lookup services authority w₂ 3 type_a (λ n. from_secs 63)
        ≡ some (w₃, answered (address 3 ∷ [])))
    × (w₃.lookups ≡ w₂.lookups)
lookup-prefetch_example =
    lookup-prefetch services authority stored_world 3 type_a (λ n. from_secs 61) (λ n. from_secs 62)
      (λ n. from_secs 63) entry (address 3 ∷ []) (3 ∷ 60 ∷ 203 ∷ 0 ∷ 113 ∷ 3 ∷ []) stored-IsSound
      one_type kept_under over_a_minute (omega arith) (omega arith) (omega arith) refl refl

lookup-IsAnyAnswer_example :
    (w' : World ℕ) × (a : Answer ℕ ℕ) × (lookup services authority fresh_world 3 type_any (λ n. 0)
      ≡ some (w', a))
    × IsAnyAnswer services authority a
    × (w'.lookups ≤ 2)
lookup-IsAnyAnswer_example =
    lookup-IsAnyAnswer services authority fresh_world 3 (λ n. 0) start-IsSound

Reach-Ends_example :
    IsSound services stored_world.cache
    × ((n : ℕ) (rtype : RecordType) (clock : ℕ → ℕ)
        → (w' : World ℕ) × (a : Answer ℕ ℕ) × (lookup services authority stored_world n rtype clock
            ≡ some (w', a)))
    × ((t : Task ℕ) (clock : ℕ → ℕ)
        → (w' : World ℕ) × (prefetch services t clock stored_world ≡ some w'))
Reach-Ends_example =
    Reach-Ends services authority
      (next (start registry) (requested fresh_world stored_world 3 type_a (λ n. 0) _ first_query))
      (omega arith)
