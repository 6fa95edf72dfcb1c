-- ===== src/Tests/CacheRuns.antt =====
-- src/core/cache/mod.rs and src/core/metrics/mod.rs at concrete inputs. The keys are numbers.
use mathlib.Core.Option
use heimdallr.Common.{
  ℕ, ◌+◌, ◌-◌, ◌≤◌, ◌<◌, Bool, true, ◌≡◌, refl, ◌↔◌, List, [], ◌∷◌, ◌++◌, none, some, ite, arith,
  if◌then◌else◌, ℕ_discrete,
}
use heimdallr.HashMap.{get, insert as put}
use heimdallr.Cache.{Cache, CacheConfig, CacheEntry, new, retain, insert, lookup, make_room, store}
use heimdallr.Cache.Eviction.{fresh, survivors, insert_lem}
use heimdallr.Cache.Expiry.{lookup-insert}
use heimdallr.Cache.Invariant.{IsValid, new-IsValid}
use heimdallr.Cache.Order.{has}
use heimdallr.Cache.Reachable.{Reach, start, next, inserted, Reach-IsValid}
use heimdallr.Cache.Queue.{QueueStep, put as put_item, queue}
use heimdallr.Cache.Refines.{Step-QueueStep}
use heimdallr.Cache.Snapshot.{
  loaded, save_to_file, load_from_file, reloaded, load_from_file-save_to_file, Saved,
}

abbrev config : CacheConfig
config = record { size = 2; serve_stale = 30; prefetch = 2 }

abbrev entry_1 : CacheEntry
entry_1 = fresh (10 ∷ []) 100 0

abbrev entry_2 : CacheEntry
entry_2 = fresh (20 ∷ []) 50 5

-- a full cache
abbrev two : Cache ℕ
two = record {
  config = config;
  entries = (1, entry_1) ∷ (2, entry_2) ∷ [];
  access_order = 1 ∷ 2 ∷ [];
  hits = 0;
  misses = 0;
}

abbrev empty : Cache ℕ
empty = new config

-- the full cache, as insertions build it
abbrev one : Cache ℕ
one = record {
  config = config;
  entries = (1, entry_1) ∷ [];
  access_order = 1 ∷ [];
  hits = 0;
  misses = 0;
}

insert_1 : insert ℕ_discrete empty 1 (10 ∷ []) 100 0 ≡ some one
unfolding insert make_room new store put get ℕ_discrete
insert_1 = refl

insert_2 : insert ℕ_discrete one 2 (20 ∷ []) 50 5 ≡ some two
unfolding insert make_room new store put get retain ℕ_discrete
insert_2 = refl

abbrev two-Reach : Reach ℕ_discrete config two
two-Reach =
    next (next start (inserted empty one 1 (10 ∷ []) 100 0 insert_1))
      (inserted one two 2 (20 ∷ []) 50 5 insert_2)

size-pos : 0 < config.size
size-pos = omega arith

Reach-IsValid_example :
    IsValid ℕ_discrete two
    × (two.config ≡ config)
    × ((k : ℕ) (b : List ℕ) (ttl now : ℕ)
        → (c' : Cache ℕ) × (insert ℕ_discrete two k b ttl now ≡ some c'))
Reach-IsValid_example = Reach-IsValid ℕ_discrete two-Reach size-pos

two-IsValid : IsValid ℕ_discrete two
two-IsValid = (Reach-IsValid ℕ_discrete two-Reach size-pos).0

found_1 : get ℕ_discrete 1 two.entries ≡ some entry_1
unfolding get ℕ_discrete
found_1 = refl

-- key 3 into the full cache
insert_lem_example :
    (c' : Cache ℕ) × (insert ℕ_discrete two 3 (30 ∷ []) 60 9 ≡ some c')
    × (c'.access_order ≡ retain ℕ_discrete 3 (survivors ℕ_discrete two) ++ 3 ∷ [])
    × ((j : ℕ)
        → get ℕ_discrete j c'.entries
          ≡ ite (ℕ_discrete 3 j) (some (fresh (30 ∷ []) 60 9)) (
              if has ℕ_discrete j (survivors ℕ_discrete two)
              then get ℕ_discrete j two.entries
              else none))
insert_lem_example = insert_lem ℕ_discrete two 3 (30 ∷ []) 60 9 two-IsValid size-pos

lookup-insert_example :
    (c' : Cache ℕ) × (flag : Bool) × (insert ℕ_discrete two 3 (30 ∷ []) 60 9 ≡ some c')
    × ((lookup ℕ_discrete c' 3 80).1 ≡ some (30 ∷ [], flag, 1))
    × ((flag ≡ true) ↔ ((60 ≤ 80 - 9) × (80 - 9 ≤ 60 + 30)))
lookup-insert_example = lookup-insert ℕ_discrete two 3 (30 ∷ []) 60 9 80 two-IsValid size-pos

has_2 : has ℕ_discrete 2 (2 ∷ []) ≡ true
unfolding has ℕ_discrete
has_2 = refl

-- the identity as the encoding
load_from_file-save_to_file_example :
    (c' : Cache ℕ) × (load_from_file ℕ_discrete
        (λ s. s)
        (λ (s : List (Saved ℕ)). some s)
        (some (save_to_file ℕ_discrete (λ s. s) (λ (s : List (Saved ℕ)). some s) two))
        9
      ≡ loaded c')
    × IsValid ℕ_discrete c'
    × ((k : ℕ)
        → get ℕ_discrete k c'.entries
          ≡ Option.map (reloaded ℕ_discrete 9) (get ℕ_discrete k two.entries))
load_from_file-save_to_file_example =
    load_from_file-save_to_file ℕ_discrete (λ s. s) (λ (s : List (Saved ℕ)). some s) two 9
      two-IsValid.agrees.is_map refl

Step-QueueStep_example :
    QueueStep ℕ_discrete config
      (put_item 1 (record { bytes = 10 ∷ []; inserted_at = 0; ttl = 100 }))
      (queue ℕ_discrete empty)
      (queue ℕ_discrete one)
unfolding new
Step-QueueStep_example =
    Step-QueueStep ℕ_discrete (inserted empty one 1 (10 ∷ []) 100 0 insert_1)
      (new-IsValid ℕ_discrete config) (omega arith)
