-- ===== src/Cache/Invariant.antt =====
-- What every cache that the operations build satisfies, and that each operation keeps it.
use heimdallr.Common.{
  ℕ, zero, suc, ◌≤◌, ◌<◌, ◌≡◌, refl, ◌∙◌, List, [], ◌∷◌, some, arith, length, Bool-cases,
  Option-cases, inl, inr, leb,
}
use heimdallr.HashMap.{
  get, modify, modify-IsMap, has_key-modify, length-modify, length-insert-le, length-remove-le,
}
use heimdallr.Cache.{
  Cache, CacheEntry, CacheConfig, evict_first, evict_lru, make_room, store, touch, lookup, insert,
  new, drop_keys, reap_expired, clear,
}
use heimdallr.Cache.Agrees.{Agrees, Agrees-pop, Agrees-drop, Agrees-store}
use heimdallr.Cache.Order.{has}

module _ {K : Type 0} (dec : Discrete K) where
  pub record IsValid (c : Cache K) : Type 0 where
    pub agrees : Agrees dec c.entries c.access_order
    pub bounded : length c.entries ≤ c.config.size

  pub new-IsValid : (config : CacheConfig) → IsValid (new config)
  unfolding new has get
  new-IsValid config = record {
    agrees = record { is_map = tt; distinct = tt; same = λ k. refl; lengths = refl };
    bounded = omega arith;
  }

  pub clear-IsValid : (c : Cache K) → IsValid (clear c)
  unfolding clear has get
  clear-IsValid c = record {
    agrees = record { is_map = tt; distinct = tt; same = λ k. refl; lengths = refl };
    bounded = omega arith;
  }

  pub Agrees-modify :
      (m : List (K × CacheEntry)) (o : List K) (k : K) (f : CacheEntry → CacheEntry)
      → Agrees dec m o
      → Agrees dec (modify dec k f m) o
  Agrees-modify m o k f v = record {
    is_map = modify-IsMap dec k f m v.is_map;
    distinct = v.distinct;
    same = λ j. ground (arith, v.same j, has_key-modify dec k j f m);
    lengths = omega (arith, length-modify dec k f m, v.lengths);
  }

  pub lookup-IsValid : (c : Cache K) (k : K) (now : ℕ) → IsValid c → IsValid (lookup dec c k now).0
  unfolding lookup
  lookup-IsValid c k now v = elim (Option-cases (get dec k c.entries)) [
    | inl absent ↦ rw (absent, lookup) v
    | inr (e, found) ↦
        rw (found, lookup)
          (record {
            agrees = Agrees-modify c.entries c.access_order k (touch now) v.agrees;
            bounded = omega (arith, length-modify dec k (touch now) c.entries, v.bounded);
          })
  ]

  evict_lru_lem :
      (c : Cache K)
      → Agrees dec c.entries c.access_order
      → 0 < length c.entries
      → Agrees dec (evict_lru dec c).entries (evict_lru dec c).access_order
        × (suc (length (evict_lru dec c).access_order) ≡ length c.access_order)
        × ((evict_lru dec c).config ≡ c.config)
  unfolding evict_lru
  evict_lru_lem c = go c.access_order
    where
      go :
          (o : List K)
          → Agrees dec c.entries o
          → 0 < length c.entries
          → Agrees dec (evict_first dec c o).entries (evict_first dec c o).access_order
            × (suc (length (evict_first dec c o).access_order) ≡ length o)
            × ((evict_first dec c o).config ≡ c.config)
      go [] v h = absurd (omega (arith, v.lengths))
      go (k ∷ rest) v h = (Agrees-pop dec c.entries k rest v, refl, refl)

  -- The eviction loop ends with room for one more, and with a map and an order in step.
  pub make_room_lem :
      (fuel : ℕ) (c : Cache K)
      → Agrees dec c.entries c.access_order
      → 0 < c.config.size
      → length c.access_order < fuel
      → (c' : Cache K) × (make_room dec fuel c ≡ some c')
        × Agrees dec c'.entries c'.access_order
        × (length c'.entries < c'.config.size)
        × (c'.config ≡ c.config)
  unfolding make_room
  make_room_lem zero c v p h = absurd (omega arith)
  make_room_lem (suc fuel) c v p h = elim (Bool-cases (leb c.config.size (length c.entries))) [
    | inl full ↦
        let (v', shorter, kept) = evict_lru_lem c v (ground arith) in
        let (c', ends, agrees, room, config) =
          make_room_lem fuel (evict_lru dec c) v' (rw kept p) (omega arith) in
        (c', rw full ends, agrees, room, config ∙ kept)
    | inr room ↦ (c, rw room, v, ground arith, refl)
  ]

  store-IsValid :
      (c : Cache K) (k : K) (b : List ℕ) (ttl now : ℕ)
      → Agrees dec c.entries c.access_order
      → length c.entries < c.config.size
      → IsValid (store dec k b ttl now c)
  unfolding store
  store-IsValid c k b ttl now v room = record {
    agrees = Agrees-store dec c.entries c.access_order k _ v;
    bounded = omega (arith, length-insert-le dec k _ c.entries, room);
  }

  -- With a size above zero an insertion ends, and keeps the invariant.
  pub insert-IsValid :
      (c : Cache K) (k : K) (b : List ℕ) (ttl now : ℕ)
      → IsValid c
      → 0 < c.config.size
      → (c' : Cache K) × (insert dec c k b ttl now ≡ some c') × IsValid c' × (c'.config ≡ c.config)
  unfolding insert
  insert-IsValid c k b ttl now v p =
      let (c', ends, agrees, room, config) =
        make_room_lem (suc (length c.access_order)) c v.agrees p (omega arith) in
      (
        store dec k b ttl now c',
        rw ends,
        store-IsValid c' k b ttl now agrees room,
        unfold store in config,
      )

  drop_keys-IsValid : (ks : List K) (c : Cache K) → IsValid c → IsValid (drop_keys dec ks c)
  unfolding drop_keys
  drop_keys-IsValid [] c v = v
  drop_keys-IsValid (k ∷ ks) c v = drop_keys-IsValid ks _ (record {
    agrees = Agrees-drop dec c.entries c.access_order k v.agrees;
    bounded = omega (arith, length-remove-le dec k c.entries, v.bounded);
  })

  pub reap_expired-IsValid : (c : Cache K) (now : ℕ) → IsValid c → IsValid (reap_expired dec c now)
  unfolding reap_expired
  reap_expired-IsValid c now v = drop_keys-IsValid _ c v
