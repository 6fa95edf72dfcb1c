-- ===== src/Cache/Queue.antt =====
-- What the cache promises, as a queue: the oldest insertion first, one item for a key, at most
-- as many as its size. The map, the counts and the times of access are forgotten.
use heimdallr.Common.{
  ℕ, Bool, true, ◌≡◌, refl, List, [], ◌∷◌, ◌++◌, Option, none, some, arith, ite, leb, if◌then◌else◌,
  length, drop,
}
use mathlib.Core.Option
use heimdallr.HashMap.{get, remove, modify, has_key}
use heimdallr.Cache.{
  Cache, CacheEntry, CacheConfig, retain, touch, is_dead, is_stale, is_expired, ttl_remaining,
}
use heimdallr.Cache.Eviction.{fresh}
use heimdallr.Cache.Order.{has, has-retain}

pub record Item : Type 0 where
  pub bytes : List ℕ
  pub inserted_at : ℕ
  pub ttl : ℕ

abbrev pub item : CacheEntry → Item
item e = record { bytes = e.response_bytes; inserted_at = e.inserted_at; ttl = e.original_ttl }

-- the calls: a lookup, an insertion, a sweep, the count of a miss, the clearing
pub data QueueCall (K : Type 0) : Type 0 where
  look : K → QueueCall K
  put : K → Item → QueueCall K
  sweep : ℕ → QueueCall K
  count empty : QueueCall K

-- the item is past its time to live and a window
unfoldable pub is_over : ℕ → ℕ → Item → Bool
is_over window now i = is_dead window now (fresh i.bytes i.ttl i.inserted_at)

module _ {K : Type 0} (dec : Discrete K) where
  -- the queue without the items that are over
  unfoldable pub keep_alive : ℕ → ℕ → List (K × Item) → List (K × Item)
  unfolding is_over
  keep_alive window now [] = []
  keep_alive window now ((k, i) ∷ q) =
      let rest = keep_alive window now q in if is_over window now i then rest else (k, i) ∷ rest

  -- the queue with an item at its end, in place of that of the same key
  unfoldable pub enqueue : ℕ → K → Item → List (K × Item) → List (K × Item)
  enqueue size k i q = remove dec k (if leb size (length q) then drop 1 q else q) ++ (k, i) ∷ []

  -- what a queue does in a call
  pub data QueueStep (config : CacheConfig)
      : QueueCall K → List (K × Item) → List (K × Item) → Type 0 where
    looked : (q : List (K × Item)) (k : K) → QueueStep config (look k) q q
    enqueued :
        (q : List (K × Item)) (k : K) (i : Item)
        → QueueStep config (put k i) q (enqueue config.size k i q)
    swept :
        (q : List (K × Item)) (now : ℕ)
        → QueueStep config (sweep now) q (keep_alive config.serve_stale now q)
    counted : (q : List (K × Item)) → QueueStep config count q q
    emptied : (q : List (K × Item)) → QueueStep config empty q []

  abbrev pub item_at : List (K × CacheEntry) → K → Option Item
  item_at m k = Option.map item (get dec k m)

  unfoldable pub view : List (K × CacheEntry) → List K → List (K × Item)
  view m [] = []
  view m (k ∷ o) = elim (item_at m k) [ none ↦ view m o | some i ↦ (k, i) ∷ view m o ]

  -- the queue that a cache stands for
  abbrev pub queue : Cache K → List (K × Item)
  queue c = view c.entries c.access_order

  pub view-append :
      (m : List (K × CacheEntry)) (o p : List K) → view m (o ++ p) ≡ view m o ++ view m p
  unfolding view
  view-append m [] p = refl
  view-append m (k ∷ o) p = ground (arith, view-append m o p)

  pub view-retain :
      (m : List (K × CacheEntry)) (k : K) (o : List K)
      → view m (retain dec k o) ≡ remove dec k (view m o)
  unfolding view retain remove
  view-retain m k [] = refl
  view-retain m k (j ∷ o) = ground (arith, view-retain m k o)

  pub view_cong :
      (m n : List (K × CacheEntry)) (o : List K)
      → ((j : K) → has dec j o ≡ true → item_at m j ≡ item_at n j)
      → view m o ≡ view n o
  unfolding view has
  view_cong m n [] h = refl
  view_cong m n (j ∷ o) h =
      let here : item_at m j ≡ item_at n j = h j (ground arith) in
      let rest : view m o ≡ view n o = view_cong m n o (λ i p. h i (ground (arith, p))) in
      ground (arith, here, rest)

  pub length-view :
      (m : List (K × CacheEntry)) (o : List K)
      → ((j : K) → has dec j o ≡ true → has_key dec j m ≡ true)
      → length (view m o) ≡ length o
  unfolding view has
  length-view m [] h = refl
  length-view m (j ∷ o) h = ground (arith, h j, length-view m o (λ i p. h i (ground (arith, p))))

  pub view-drop :
      (m : List (K × CacheEntry)) (o : List K)
      → ((j : K) → has dec j o ≡ true → has_key dec j m ≡ true)
      → view m (drop 1 o) ≡ drop 1 (view m o)
  unfolding view has
  view-drop m [] h = refl
  view-drop m (k ∷ o) h = ground (arith, h k)

  pub kept_item :
      (n m : List (K × CacheEntry)) (k : K) (e : CacheEntry) (o : List K)
      → ((j : K) → get dec j n ≡ ite (dec k j) (some e) (if has dec j o then get dec j m else none))
      → (j : K) → has dec j (retain dec k o) ≡ true
      → item_at n j ≡ item_at m j
  kept_item n m k e o gets j h = ground (arith, gets j, has-retain dec k j o, h)

  pub view-last :
      (n m : List (K × CacheEntry)) (k : K) (e : CacheEntry) (o : List K)
      → ((j : K) → get dec j n ≡ ite (dec k j) (some e) (if has dec j o then get dec j m else none))
      → view n (k ∷ []) ≡ (k, item e) ∷ []
  unfolding view
  view-last n m k e o gets = ground (arith, gets k)

  pub item_at-touch :
      (k j : K) (now : ℕ) (m : List (K × CacheEntry))
      → item_at (modify dec k (touch now) m) j ≡ item_at m j
  unfolding get modify
  item_at-touch k j now [] = refl
  item_at-touch k j now ((i, e) ∷ m) = ground (arith, item_at-touch k j now m)

  pub is_dead-fresh :
      (window now : ℕ) (e : CacheEntry)
      → is_dead window now (fresh e.response_bytes e.original_ttl e.inserted_at)
        ≡ is_dead window now e
  unfolding is_stale is_expired ttl_remaining
  is_dead-fresh window now e = refl

  pub view-retain_absent :
      (m : List (K × CacheEntry)) (k : K) (o : List K)
      → item_at m k ≡ none
      → view m (retain dec k o) ≡ view m o
  unfolding view retain
  view-retain_absent m k [] h = refl
  view-retain_absent m k (j ∷ o) h = ground (arith, view-retain_absent m k o)

  pub view-keep_alive :
      (m n : List (K × CacheEntry)) (window now : ℕ) (o : List K)
      → ((j : K)
          → item_at n j ≡ (elim (item_at m j) [
            | none ↦ none
            | some i ↦ if is_over window now i then none else some i
          ]))
      → view n o ≡ keep_alive window now (view m o)
  unfolding view keep_alive
  view-keep_alive m n window now [] h = refl
  view-keep_alive m n window now (j ∷ o) h = ground (arith, h j, view-keep_alive m n window now o h)
