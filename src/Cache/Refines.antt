-- ===== src/Cache/Refines.antt =====
-- That each call on the cache is a step of the queue that it stands for.
use heimdallr.Common.{
  ℕ, ◌<◌, ◌≡◌, refl, sym, ap, ◌∙◌, List, [], ◌∷◌, ◌++◌, none, some, arith, leb, if◌then◌else◌,
  length, drop, Option-cases, inl, inr,
}
use mathlib.Core.Option
use heimdallr.HashMap.{get, get-remove, remove}
use heimdallr.Cache.{
  Cache, CacheEntry, clear, insert, lookup, retain, reap_expired, dead_keys, drop_keys, record_miss,
}
use heimdallr.Cache.Eviction.{insert_lem, survivors}
use heimdallr.Cache.Expiry.{get-reap_expired, get-drop_keys}
use heimdallr.Cache.Invariant.{IsValid}
use heimdallr.Cache.Order.{has}
use heimdallr.Cache.Reachable.{Step, served, inserted, reaped, missed, cleared}
use heimdallr.Cache.Queue.{
  Item, item_at, is_over, keep_alive, enqueue, QueueStep, looked, enqueued, swept, counted, emptied,
  QueueCall, look, put, sweep, count, empty, view, queue, view-append, view-retain, view_cong,
  length-view, view-drop, kept_item, view-last, is_dead-fresh, view-retain_absent, view-keep_alive,
  item_at-touch,
}

module _ {K : Type 0} (dec : Discrete K) where
  length-queue : (c : Cache K) → IsValid dec c → length (queue dec c) ≡ length c.entries
  length-queue c v =
      length-view dec c.entries c.access_order (λ j h. sym (v.agrees.same j) ∙ h)
      ∙ sym v.agrees.lengths

  queue-survivors :
      (c : Cache K)
      → IsValid dec c
      → view dec c.entries (survivors dec c)
        ≡ (if leb c.config.size (length (queue dec c)) then drop 1 (queue dec c) else queue dec c)
  queue-survivors c v = ground (
    arith,
    view-drop dec c.entries c.access_order (λ j h. sym (v.agrees.same j) ∙ h),
    length-queue c v,
  )

  queue-insert :
      (c c' : Cache K) (k : K) (b : List ℕ) (ttl now : ℕ)
      → IsValid dec c
      → 0 < c.config.size
      → insert dec c k b ttl now ≡ some c'
      → queue dec c'
        ≡ enqueue dec c.config.size k
            (record { bytes = b; inserted_at = now; ttl = ttl })
            (queue dec c)
  unfolding enqueue
  queue-insert c c' k b ttl now v p ends =
      let (c₂, ends', order, gets) = insert_lem dec c k b ttl now v p in
      let same : c₂ ≡ c' = ground (arith, ends, ends') in
      let new_item : Item = record { bytes = b; inserted_at = now; ttl = ttl } in
      let kept : view dec c₂.entries (retain dec k (survivors dec c))
          ≡ view dec c.entries (retain dec k (survivors dec c)) =
        view_cong dec c₂.entries c.entries (retain dec k (survivors dec c))
          (kept_item dec c₂.entries c.entries k _ (survivors dec c) gets) in
      let last : view dec c₂.entries (k ∷ []) ≡ (k, new_item) ∷ [] =
        view-last dec c₂.entries c.entries k _ (survivors dec c) gets in
      rw same at (
        ap (view dec c₂.entries) order
        ∙ view-append dec c₂.entries (retain dec k (survivors dec c)) (k ∷ [])
        ∙ ap (λ q. q ++ view dec c₂.entries (k ∷ []))
            (kept
              ∙ view-retain dec c.entries k (survivors dec c)
              ∙ ap (remove dec k) (queue-survivors c v))
        ∙ ap
            (λ q.
              remove dec k (
                if leb c.config.size (length (queue dec c))
                then drop 1 (queue dec c)
                else queue dec c)
              ++ q)
            last)

  queue-lookup : (c : Cache K) (k : K) (now : ℕ) → queue dec (lookup dec c k now).0 ≡ queue dec c
  unfolding lookup
  queue-lookup c k now = elim (Option-cases (get dec k c.entries)) [
    | inl absent ↦ rw (absent, lookup) refl
    | inr (e, found) ↦
        rw (found, lookup)
          (view_cong dec _ c.entries c.access_order (λ j _. item_at-touch dec k j now c.entries))
  ]

  find_alive :
      (c : Cache K) (now : ℕ) (j : K)
      → IsValid dec c
      → item_at dec (reap_expired dec c now).entries j ≡ (elim (item_at dec c.entries j) [
        | none ↦ none
        | some i ↦ if is_over c.config.serve_stale now i then none else some i
      ])
  unfolding is_over
  find_alive c now j v = elim (Option-cases (get dec j c.entries)) [
    | inl absent ↦ ground (arith, get-reap_expired dec c now j v, absent)
    | inr (e, found) ↦
        ground (
          arith,
          get-reap_expired dec c now j v,
          found,
          is_dead-fresh dec c.config.serve_stale now e,
        )
  ]

  queue-drop_keys :
      (ks : List K) (c : Cache K)
      → queue dec (drop_keys dec ks c) ≡ view dec (drop_keys dec ks c).entries c.access_order
  unfolding drop_keys
  queue-drop_keys [] c = refl
  queue-drop_keys (k ∷ ks) c =
      let c₁ : Cache K = record c {
        entries = remove dec k c.entries;
        access_order = retain dec k c.access_order;
      } in
      let absent : item_at dec (drop_keys dec ks c₁).entries k ≡ none =
        ground (arith, get-drop_keys dec ks c₁ k, get-remove dec k k c.entries) in
      queue-drop_keys ks c₁
      ∙ view-retain_absent dec (drop_keys dec ks c₁).entries k c.access_order absent

  queue-reap_expired :
      (c : Cache K) (now : ℕ)
      → IsValid dec c
      → queue dec (reap_expired dec c now) ≡ keep_alive dec c.config.serve_stale now (queue dec c)
  unfolding reap_expired
  queue-reap_expired c now v =
      queue-drop_keys (dead_keys dec c.config.serve_stale now c.entries) c
      ∙ view-keep_alive dec c.entries _ c.config.serve_stale now c.access_order
          (λ j. find_alive c now j v)

  -- the call that a step of the cache makes
  abbrev pub call_of : {c c' : Cache K} → Step dec c c' → QueueCall K
  call_of (served c k now) = look k
  call_of (inserted c c' k b ttl now e) = put k (record { bytes = b; inserted_at = now; ttl = ttl })
  call_of (reaped c now) = sweep now
  call_of (missed c m) = count
  call_of (cleared c) = empty

  -- Every call on a valid cache of a size above zero does to the queue that the cache stands for
  -- what the queue does in this call. A lookup and the count of a miss leave the queue as it is; an
  -- insertion drops the oldest item if the queue is full, then that of the same key, and puts the
  -- new one at the end; the reaper takes out the items past their window; clearing empties it.
  pub Step-QueueStep :
      {c c' : Cache K} (step : Step dec c c')
      → IsValid dec c
      → 0 < c.config.size
      → QueueStep dec c.config (call_of step) (queue dec c) (queue dec c')
  unfolding record_miss clear view
  Step-QueueStep (served c k now) v p = rw (queue-lookup c k now) (looked (queue dec c) k)
  Step-QueueStep (inserted c c' k b ttl now e) v p =
      rw (queue-insert c c' k b ttl now v p e)
        (enqueued (queue dec c) k (record { bytes = b; inserted_at = now; ttl = ttl }))
  Step-QueueStep (reaped c now) v p = rw (queue-reap_expired c now v) (swept (queue dec c) now)
  Step-QueueStep (missed c m) v p = counted (queue dec c)
  Step-QueueStep (cleared c) v p = emptied (queue dec c)

  get-view :
      (m : List (K × CacheEntry)) (k : K) (o : List K)
      → get dec k (view dec m o) ≡ (if has dec k o then item_at dec m k else none)
  unfolding get view has
  get-view m k [] = refl
  get-view m k (j ∷ o) = ground (arith, get-view m k o)

  -- A lookup in a valid cache gives the bytes of the key's item in the queue, and nothing if the
  -- queue has no such item.
  pub lookup-queue :
      (c : Cache K) (k : K) (now : ℕ)
      → IsValid dec c
      → Option.map (λ r. r.0) (lookup dec c k now).1
        ≡ Option.map (λ i. i.bytes) (get dec k (queue dec c))
  unfolding lookup
  lookup-queue c k now v = ground (arith, get-view c.entries k c.access_order, v.agrees.same k)
