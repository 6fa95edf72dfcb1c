-- ===== src/Cache/Eviction.antt =====
-- What an insertion leaves in the cache, and which entry it evicts.
use heimdallr.Common.{
  ℕ, zero, suc, ◌+◌, ◌≤◌, ◌<◌, true, false, ◌≡◌, refl, ap, ◌∙◌, ◌≢◌, List, [], ◌∷◌, ◌++◌, none,
  some, ite, arith, length, drop, Bool-cases, inl, inr, leb, le→leb, if◌then◌else◌,
}
use heimdallr.HashMap.{get, remove, get-remove, get-insert, length-modify}
use heimdallr.Cache.{
  Cache, CacheEntry, retain, evict_first, evict_lru, make_room, store, insert, lookup, touch,
}
use heimdallr.Cache.Agrees.{Agrees, Agrees-pop}
use heimdallr.Cache.Invariant.{IsValid, lookup-IsValid, make_room_lem, insert-IsValid}
use heimdallr.Cache.Order.{has, IsDistinct, retain_absent, length-retain, length-concat}

-- the entry that `insert` writes
abbrev pub fresh : List ℕ → ℕ → ℕ → CacheEntry
fresh b ttl now = record {
  response_bytes = b;
  inserted_at = now;
  original_ttl = ttl;
  hit_count = 0;
  last_access = now;
}

module _ {K : Type 0} (dec : Discrete K) where
  -- the keys that an insertion keeps: in a full cache all but the first of the order
  abbrev pub survivors : Cache K → List K
  survivors c =
      if leb c.config.size (length c.entries) then drop 1 c.access_order else c.access_order

  evict_lru_cons :
      (c : Cache K) (k : K) (rest : List K)
      → c.access_order ≡ k ∷ rest
      → evict_lru dec c ≡ record c { entries = remove dec k c.entries; access_order = rest }
  unfolding evict_lru
  evict_lru_cons c k rest e = ap (evict_first dec c) e

  evict_lru-config : (c : Cache K) → (evict_lru dec c).config.size ≡ c.config.size
  unfolding evict_lru
  evict_lru-config c = go c.access_order
    where
      go : (o : List K) → (evict_first dec c o).config.size ≡ c.config.size
      go [] = refl
      go (k ∷ o) = refl

  get-remove_first :
      (m : List (K × CacheEntry)) (k : K) (rest : List K) (j : K)
      → Agrees dec m (k ∷ rest)
      → get dec j (remove dec k m) ≡ (if has dec j rest then get dec j m else none)
  unfolding has
  get-remove_first m k rest j a =
      ground (arith, get-remove dec k j m, a.same j, a.same k, a.distinct.0)

  length-remove_first :
      (m : List (K × CacheEntry)) (k : K) (rest : List K)
      → Agrees dec m (k ∷ rest)
      → suc (length (remove dec k m)) ≡ length m
  length-remove_first m k rest a = omega (arith, a.lengths, (Agrees-pop dec m k rest a).lengths)

  make_room_full :
      (c : Cache K) (o : List K)
      → c.access_order ≡ o
      → IsValid dec c
      → 0 < c.config.size
      → leb c.config.size (length c.entries) ≡ true
      → (make_room dec (suc (length o)) c ≡ some (evict_lru dec c))
        × ((evict_lru dec c).access_order ≡ drop 1 o)
        × ((j : K)
            → get dec j (evict_lru dec c).entries
              ≡ (if has dec j (drop 1 o) then get dec j c.entries else none))
  unfolding make_room
  make_room_full c [] e v p full = absurd (ground (arith, v.agrees.lengths, ap length e))
  make_room_full c (k ∷ rest) e v p full =
      let a : Agrees dec c.entries (k ∷ rest) = rw e at v.agrees in
      rw (evict_lru_cons c k rest e) (
        ground (arith, length-remove_first c.entries k rest a, v.bounded),
        refl,
        λ j. get-remove_first c.entries k rest j a,
      )

  make_room_fits :
      (c : Cache K) (fuel : ℕ)
      → leb c.config.size (length c.entries) ≡ false
      → make_room dec (suc fuel) c ≡ some c
  unfolding make_room
  make_room_fits c fuel room = rw room

  get_unless_absent :
      (c : Cache K) (j : K)
      → IsValid dec c
      → get dec j c.entries ≡ (if has dec j c.access_order then get dec j c.entries else none)
  get_unless_absent c j v = ground (arith, v.agrees.same j)

  -- what the loop leaves for `store`
  make_room-survivors :
      (c : Cache K)
      → IsValid dec c
      → 0 < c.config.size
      → (c' : Cache K) × (make_room dec (suc (length c.access_order)) c ≡ some c')
        × (c'.access_order ≡ survivors c)
        × ((j : K)
            → get dec j c'.entries
              ≡ (if has dec j (survivors c) then get dec j c.entries else none))
  make_room-survivors c v p = elim (Bool-cases (leb c.config.size (length c.entries))) [
    | inl full ↦
        let (ends, order, gets) = make_room_full c c.access_order refl v p full in
        rw full (evict_lru dec c, ends, order, gets)
    | inr room ↦ rw room (c, make_room_fits c _ room, refl, λ j. get_unless_absent c j v)
  ]

  store-access_order :
      (c : Cache K) (k : K) (b : List ℕ) (ttl now : ℕ)
      → Agrees dec c.entries c.access_order
      → (store dec k b ttl now c).access_order ≡ retain dec k c.access_order ++ k ∷ []
  unfolding store
  store-access_order c k b ttl now a = ground (arith, a.same k, retain_absent dec k c.access_order)

  -- Inserting under key `k` into a valid cache of a size above zero ends, and then: the order is
  -- that of the surviving keys without `k`, followed by `k`; `k` has the new entry; every other
  -- surviving key has its old entry; and no other key is there. The survivors are all keys, or,
  -- if the cache was full, all but the first of the order.
  pub insert_lem :
      (c : Cache K) (k : K) (b : List ℕ) (ttl now : ℕ)
      → IsValid dec c
      → 0 < c.config.size
      → (c' : Cache K) × (insert dec c k b ttl now ≡ some c')
        × (c'.access_order ≡ retain dec k (survivors c) ++ k ∷ [])
        × ((j : K)
            → get dec j c'.entries
              ≡ ite
                  (dec k j)
                  (some (fresh b ttl now))
                  (if has dec j (survivors c) then get dec j c.entries else none))
  unfolding insert
  insert_lem c k b ttl now v p =
      let (c₁, ends, order, gets) = make_room-survivors c v p in
      let (c₂, ends', agrees, _, _) =
        make_room_lem dec (suc (length c.access_order)) c v.agrees p (omega arith) in
      let a : Agrees dec c₁.entries c₁.access_order = ground (arith, agrees, ends, ends') in
      (
        store dec k b ttl now c₁,
        rw ends,
        store-access_order c₁ k b ttl now a ∙ ap (λ o. retain dec k o ++ k ∷ []) order,
        λ j.
            unfold store in ground (arith, get-insert dec k j (fresh b ttl now) c₁.entries, gets j),
      )

  pub lookup-access_order :
      (c : Cache K) (k : K) (now : ℕ)
      → ((lookup dec c k now).0.access_order ≡ c.access_order)
        × (length (lookup dec c k now).0.entries ≡ length c.entries)
        × ((lookup dec c k now).0.config ≡ c.config)
  unfolding lookup
  lookup-access_order c k now = ground (arith, length-modify dec k (touch now) c.entries)

  -- Serving a key does not protect it. In a full valid cache of a size above zero, a lookup of
  -- the first key of the order followed by the insertion of another key evicts the key just
  -- served.
  pub insert-lookup_evicts :
      (c : Cache K) (k j : K) (rest : List K) (b : List ℕ) (ttl served now : ℕ)
      → IsValid dec c
      → 0 < c.config.size
      → c.config.size ≤ length c.entries
      → c.access_order ≡ k ∷ rest
      → j ≢ k
      → (c' : Cache K) × (insert dec (lookup dec c k served).0 j b ttl now ≡ some c')
        × (get dec k c'.entries ≡ none)
  unfolding has
  insert-lookup_evicts c k j rest b ttl served now v p full first other =
      let l = (lookup dec c k served).0 in
      let (order, len, config) = lookup-access_order c k served in
      let (c', ends, _, gets) =
        insert_lem l j b ttl now (lookup-IsValid dec c k served v) (rw config p) in
      let distinct : IsDistinct dec (k ∷ rest) = rw first at v.agrees.distinct in
      let kept : has dec k (survivors l) ≡ false =
        rw (config, len, le→leb c.config.size (length c.entries) full, order, first) distinct.0 in
      (c', ends, gets k ∙ ground (arith, kept))

  -- Refreshing a key costs another. In a full valid cache of a size above zero, inserting under
  -- a key that is there, and is not the first of the order, evicts the first key and leaves the
  -- cache one entry short of its size.
  pub insert_present_evicts :
      (c : Cache K) (k j : K) (rest : List K) (b : List ℕ) (ttl now : ℕ)
      → IsValid dec c
      → 0 < c.config.size
      → c.config.size ≤ length c.entries
      → c.access_order ≡ k ∷ rest
      → has dec j rest ≡ true
      → (c' : Cache K) × (insert dec c j b ttl now ≡ some c')
        × (get dec k c'.entries ≡ none)
        × (length c'.entries + 1 ≡ c.config.size)
  unfolding has
  insert_present_evicts c k j rest b ttl now v p full first present =
      let (c', ends, order, gets) = insert_lem c j b ttl now v p in
      let (c₂, ends', v', _) = insert-IsValid dec c j b ttl now v p in
      let a : Agrees dec c'.entries c'.access_order = ground (arith, v'.agrees, ends, ends') in
      let distinct : IsDistinct dec (k ∷ rest) = rw first at v.agrees.distinct in
      let kept : survivors c ≡ rest =
        rw (le→leb c.config.size (length c.entries) full) (ap (drop 1) first) in
      (
        c',
        ends,
        gets k ∙ rw kept (ground (arith, distinct.0)),
        omega (
          arith,
          a.lengths,
          ap length order,
          length-concat (retain dec j (survivors c)) j,
          ap (λ o. length (retain dec j o)) kept,
          length-retain dec j rest distinct.1 present,
          v.agrees.lengths,
          ap length first,
          v.bounded,
        ),
      )

  -- Where the size is zero the eviction loop never ends: it uses up any fuel.
  pub make_room_zero : (fuel : ℕ) (c : Cache K) → c.config.size ≡ 0 → make_room dec fuel c ≡ none
  unfolding make_room
  make_room_zero zero c h = refl
  make_room_zero (suc fuel) c h =
      ground (arith, make_room_zero fuel (evict_lru dec c) (evict_lru-config c ∙ h))
