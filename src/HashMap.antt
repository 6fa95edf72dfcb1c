-- ===== src/HashMap.antt =====
-- `std::collections::HashMap` as an association list with one entry for a key. The order of the
-- list stands for the order of iteration, which the program does not rely on.
use heimdallr.Common.{
  suc, ◌≤◌, ◌≡◌, refl, ◌≢◌, Bool, true, false, List, [], ◌∷◌, Option, none, some, arith, ite,
  length,
}

module _ {ℓ} {K V : Type ℓ} (dec : Discrete K) where
  unfoldable pub get : K → List (K × V) → Option V
  get k [] = none
  get k ((j, v) ∷ m) = ite (dec j k) (some v) (get k m)

  unfoldable pub insert : K → V → List (K × V) → List (K × V)
  insert k v [] = (k, v) ∷ []
  insert k v ((j, w) ∷ m) = ite (dec j k) ((k, v) ∷ m) ((j, w) ∷ insert k v m)

  unfoldable pub remove : K → List (K × V) → List (K × V)
  remove k [] = []
  remove k ((j, w) ∷ m) = ite (dec j k) (remove k m) ((j, w) ∷ remove k m)

  -- `get_mut`, and a write through the reference
  unfoldable pub modify : K → (V → V) → List (K × V) → List (K × V)
  modify k f [] = []
  modify k f ((j, w) ∷ m) = ite (dec j k) ((j, f w) ∷ m) ((j, w) ∷ modify k f m)

  -- no key twice
  abbrev pub IsMap : List (K × V) → Type ℓ
  IsMap [] = Unit
  IsMap ((k, v) ∷ m) = (get k m ≡ none) × IsMap m

  pub get-insert :
      (k j : K) (v : V) (m : List (K × V)) → get j (insert k v m) ≡ ite (dec k j) (some v) (get j m)
  unfolding get insert
  get-insert k j v [] = refl
  get-insert k j v ((i, w) ∷ m) = ground (arith, get-insert k j v m)

  pub get-remove : (k j : K) (m : List (K × V)) → get j (remove k m) ≡ ite (dec k j) none (get j m)
  unfolding get remove
  get-remove k j [] = ground arith
  get-remove k j ((i, w) ∷ m) = ground (arith, get-remove k j m)

  pub get-modify_self :
      (k : K) (f : V → V) (m : List (K × V)) (v : V)
      → get k m ≡ some v
      → get k (modify k f m) ≡ some (f v)
  unfolding get modify
  get-modify_self k f [] v h = cc
  get-modify_self k f ((i, w) ∷ m) v h = ground (arith, get-modify_self k f m v)

  pub get-modify_ne :
      (k j : K) (f : V → V) (m : List (K × V)) → k ≢ j → get j (modify k f m) ≡ get j m
  unfolding get modify
  get-modify_ne k j f [] h = refl
  get-modify_ne k j f ((i, w) ∷ m) h = ground (arith, get-modify_ne k j f m h)

  abbrev pub has_key : K → List (K × V) → Bool
  has_key k m = elim (get k m) [ none ↦ false | some _ ↦ true ]

  pub remove_absent : (k : K) (m : List (K × V)) → get k m ≡ none → remove k m ≡ m
  unfolding get remove
  remove_absent k [] h = refl
  remove_absent k ((i, w) ∷ m) h = ground (arith, remove_absent k m)

  pub length-remove :
      (k : K) (m : List (K × V)) (v : V)
      → IsMap m
      → get k m ≡ some v
      → suc (length (remove k m)) ≡ length m
  unfolding get remove
  length-remove k [] v u h = cc
  length-remove k ((i, w) ∷ m) v u h = ground (arith, length-remove k m v u.1, remove_absent k m)

  pub remove-IsMap : (k : K) (m : List (K × V)) → IsMap m → IsMap (remove k m)
  unfolding get remove
  remove-IsMap k [] u = u
  remove-IsMap k ((i, w) ∷ m) u = ground (arith, remove-IsMap k m u.1, get-remove k i m)

  pub insert-IsMap : (k : K) (v : V) (m : List (K × V)) → IsMap m → IsMap (insert k v m)
  unfolding get insert
  insert-IsMap k v [] u = (refl, tt)
  insert-IsMap k v ((i, w) ∷ m) u = ground (arith, insert-IsMap k v m u.1, get-insert k i v m)

  pub length-insert_absent :
      (k : K) (v : V) (m : List (K × V)) → get k m ≡ none → length (insert k v m) ≡ suc (length m)
  unfolding get insert
  length-insert_absent k v [] h = refl
  length-insert_absent k v ((i, w) ∷ m) h = ground (arith, length-insert_absent k v m)

  pub length-insert_present :
      (k : K) (v w : V) (m : List (K × V)) → get k m ≡ some w → length (insert k v m) ≡ length m
  unfolding get insert
  length-insert_present k v w [] h = cc
  length-insert_present k v w ((i, x) ∷ m) h = ground (arith, length-insert_present k v w m)

  pub length-modify : (k : K) (f : V → V) (m : List (K × V)) → length (modify k f m) ≡ length m
  unfolding modify
  length-modify k f [] = refl
  length-modify k f ((i, w) ∷ m) = ground (arith, length-modify k f m)

  pub get-modify-none :
      (k j : K) (f : V → V) (m : List (K × V)) → get j m ≡ none → get j (modify k f m) ≡ none
  unfolding get modify
  get-modify-none k j f [] h = refl
  get-modify-none k j f ((i, w) ∷ m) h = ground (arith, get-modify-none k j f m)

  pub modify-IsMap : (k : K) (f : V → V) (m : List (K × V)) → IsMap m → IsMap (modify k f m)
  unfolding get modify
  modify-IsMap k f [] u = u
  modify-IsMap k f ((i, w) ∷ m) u = ground (arith, modify-IsMap k f m u.1, get-modify-none k i f m)

  pub has_key-modify :
      (k j : K) (f : V → V) (m : List (K × V)) → has_key j (modify k f m) ≡ has_key j m
  unfolding get modify
  has_key-modify k j f [] = refl
  has_key-modify k j f ((i, w) ∷ m) = ground (arith, has_key-modify k j f m)

  pub length-insert-le : (k : K) (v : V) (m : List (K × V)) → length (insert k v m) ≤ suc (length m)
  unfolding insert
  length-insert-le k v [] = omega arith
  length-insert-le k v ((i, w) ∷ m) = ground (arith, length-insert-le k v m)

  pub length-remove-le : (k : K) (m : List (K × V)) → length (remove k m) ≤ length m
  unfolding remove
  length-remove-le k [] = omega arith
  length-remove-le k ((i, w) ∷ m) = ground (arith, length-remove-le k m)
