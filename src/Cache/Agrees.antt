-- ===== src/Cache/Agrees.antt =====
-- The map and the order, kept in step.
use heimdallr.Common.{
  true, false, ◌≡◌, List, [], ◌∷◌, ◌++◌, none, some, arith, length, Bool-cases, Option-cases, inl,
  inr, if◌then◌else◌,
}
use heimdallr.HashMap
use heimdallr.HashMap.{
  get, remove, IsMap, has_key, get-remove, get-insert, length-remove, remove-IsMap, insert-IsMap,
  length-insert_absent, length-insert_present, remove_absent,
}
use heimdallr.Cache.{CacheEntry, retain}
use heimdallr.Cache.Order.{
  has, IsDistinct, has-retain, retain_absent, length-retain, retain-IsDistinct, has-concat,
  concat-IsDistinct, length-concat,
}

module _ {K : Type 0} (dec : Discrete K) where
  -- The order lists each key of the map once, and nothing else.
  pub record Agrees (m : List (K × CacheEntry)) (o : List K) : Type 0 where
    pub is_map : IsMap dec m
    pub distinct : IsDistinct dec o
    pub same : (k : K) → has dec k o ≡ has_key dec k m
    pub lengths : length m ≡ length o

  get_of_has :
      (m : List (K × CacheEntry)) (k : K)
      → has_key dec k m ≡ true
      → (e : CacheEntry) × (get dec k m ≡ some e)
  get_of_has m k h = ground arith

  none_of_has : (m : List (K × CacheEntry)) (k : K) → has_key dec k m ≡ false → get dec k m ≡ none
  none_of_has m k h = ground arith

  pub Agrees-pop :
      (m : List (K × CacheEntry)) (k : K) (rest : List K)
      → Agrees m (k ∷ rest)
      → Agrees (remove dec k m) rest
  unfolding has
  Agrees-pop m k rest v =
      let (e, found) = get_of_has m k (ground (arith, v.same k)) in
      record {
        is_map = remove-IsMap dec k m v.is_map;
        distinct = v.distinct.1;
        same = λ j. ground (arith, v.same j, get-remove dec k j m);
        lengths = omega (arith, length-remove dec k m e v.is_map found, v.lengths);
      }

  pub Agrees-drop :
      (m : List (K × CacheEntry)) (o : List K) (k : K)
      → Agrees m o
      → Agrees (remove dec k m) (retain dec k o)
  Agrees-drop m o k v = record {
    is_map = remove-IsMap dec k m v.is_map;
    distinct = retain-IsDistinct dec k o v.distinct;
    same = λ j. ground (arith, v.same j, get-remove dec k j m, has-retain dec k j o);
    lengths = elim (Option-cases (get dec k m)) [
      | inl absent ↦
          ground (arith, v.same k, v.lengths, remove_absent dec k m absent, retain_absent dec k o)
      | inr (e, found) ↦ ground (
        arith,
        v.same k,
        v.lengths,
        length-remove dec k m e v.is_map found,
        length-retain dec k o v.distinct,
      )
    ];
  }

  pub Agrees-store :
      (m : List (K × CacheEntry)) (o : List K) (k : K) (e : CacheEntry)
      → Agrees m o
      → Agrees
          (HashMap.insert dec k e m)
          ((if has_key dec k m then retain dec k o else o) ++ k ∷ [])
  Agrees-store m o k e v = elim (Bool-cases (has_key dec k m)) [
    | inl present ↦ rw present (
        let (old, found) = get_of_has m k present in
        record {
          is_map = insert-IsMap dec k e m v.is_map;
          distinct =
              concat-IsDistinct dec k (retain dec k o) (retain-IsDistinct dec k o v.distinct)
                (ground (arith, has-retain dec k k o));
          same = λ j. ground (
            arith,
            v.same j,
            get-insert dec k j e m,
            has-concat dec k j (retain dec k o),
            has-retain dec k j o,
          );
          lengths = ground (
            arith,
            v.same k,
            v.lengths,
            length-insert_present dec k e old m found,
            length-retain dec k o v.distinct,
            length-concat (retain dec k o) k,
          );
        })
    | inr absent ↦ rw absent (record {
      is_map = insert-IsMap dec k e m v.is_map;
      distinct = concat-IsDistinct dec k o v.distinct (ground (arith, v.same k));
      same = λ j. ground (arith, v.same j, get-insert dec k j e m, has-concat dec k j o);
      lengths = ground (
        arith,
        v.lengths,
        length-insert_absent dec k e m (none_of_has m k absent),
        length-concat o k,
      );
    })
  ]
