-- ===== src/Cache/Order.antt =====
-- The access order as a list of keys: membership, removal, length.
use heimdallr.Common.{
  suc, ◌≤◌, Bool, true, false, ◌≡◌, refl, List, [], ◌∷◌, ◌++◌, ite, arith, length,
}
use heimdallr.Cache.{retain}

module _ {K : Type 0} (dec : Discrete K) where
  unfoldable pub has : K → List K → Bool
  has k [] = false
  has k (j ∷ o) = ite (dec j k) true (has k o)

  abbrev pub IsDistinct : List K → Type 0
  IsDistinct [] = Unit
  IsDistinct (k ∷ o) = (has k o ≡ false) × IsDistinct o

  pub has-retain : (k j : K) (o : List K) → has j (retain dec k o) ≡ ite (dec k j) false (has j o)
  unfolding has retain
  has-retain k j [] = ground arith
  has-retain k j (i ∷ o) = ground (arith, has-retain k j o)

  pub retain_absent : (k : K) (o : List K) → has k o ≡ false → retain dec k o ≡ o
  unfolding has retain
  retain_absent k [] h = refl
  retain_absent k (i ∷ o) h = ground (arith, retain_absent k o)

  pub length-retain :
      (k : K) (o : List K)
      → IsDistinct o
      → has k o ≡ true
      → suc (length (retain dec k o)) ≡ length o
  unfolding has retain
  length-retain k [] d h = cc
  length-retain k (i ∷ o) d h = ground (arith, length-retain k o d.1, retain_absent k o)

  pub retain-IsDistinct : (k : K) (o : List K) → IsDistinct o → IsDistinct (retain dec k o)
  unfolding has retain
  retain-IsDistinct k [] d = d
  retain-IsDistinct k (i ∷ o) d = ground (arith, retain-IsDistinct k o d.1, has-retain k i o)

  pub has-concat : (k j : K) (o : List K) → has j (o ++ k ∷ []) ≡ ite (dec k j) true (has j o)
  unfolding has
  has-concat k j [] = refl
  has-concat k j (i ∷ o) = ground (arith, has-concat k j o)

  pub concat-IsDistinct :
      (k : K) (o : List K) → IsDistinct o → has k o ≡ false → IsDistinct (o ++ k ∷ [])
  unfolding has
  concat-IsDistinct k [] d h = (refl, tt)
  concat-IsDistinct k (i ∷ o) d h = ground (arith, concat-IsDistinct k o d.1, has-concat k i o)

pub length-concat {ℓ} : {A : Type ℓ} (o : List A) (k : A) → length (o ++ k ∷ []) ≡ suc (length o)
length-concat [] k = refl
length-concat (i ∷ o) k = omega (arith, length-concat o k)

pub length-retain-le :
    {K : Type 0} (dec : Discrete K) (k : K) (o : List K) → length (retain dec k o) ≤ length o
unfolding retain
length-retain-le dec k [] = omega arith
length-retain-le dec k (i ∷ o) = ground (arith, length-retain-le dec k o)
