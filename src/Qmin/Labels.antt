-- ===== src/Qmin/Labels.antt =====
-- The names that a query name is peeled to.
use heimdallr.Common.{
  ℕ, zero, suc, ◌-◌, ◌≡◌, refl, ◌≤◌, ◌<◌, false, List, [], ◌∷◌, ltb, length, arith, Bool-cases, inl,
  inr,
}
use heimdallr.Qmin.{NameApi, peel_loop, peel_labels}

-- `base_name` takes one label off. A label `*` at the front is not counted, so this is said of the
-- names without such labels.
module _ {Name : Type 0} (api : NameApi Name) (IsPlain : Name → Type 0)
    (base_name-IsPlain : (n : Name) → IsPlain n → IsPlain (api.base_name n))
    (num_labels-base_name : (n : Name)
      → IsPlain n
      → api.num_labels (api.base_name n) ≡ api.num_labels n - 1) where
  -- from `n` on, each name is the one before without its first label, and the root ends the list
  pub data Peels : Name → List Name → Type 0 where
    to_root : {n : Name} → api.num_labels n ≡ 1 → Peels n (api.root ∷ [])
    next :
        {n : Name} {ns : List Name}
        → 1 < api.num_labels n
        → Peels (api.base_name n) ns
        → Peels n (api.base_name n ∷ ns)

  peel_loop-Peels :
      (fuel : ℕ) (n : Name)
      → IsPlain n
      → 0 < api.num_labels n
      → api.num_labels n ≤ fuel
      → Peels n (peel_loop api fuel n) × (length (peel_loop api fuel n) ≡ api.num_labels n)
  unfolding peel_loop
  peel_loop-Peels zero n plain pos h = absurd (omega (arith, pos, h))
  peel_loop-Peels (suc fuel) n plain pos h = elim (Bool-cases (ltb 1 (api.num_labels n))) [
    | inl more ↦
        let fewer = num_labels-base_name n plain in
        let (chain, len) =
          peel_loop-Peels fuel (api.base_name n) (base_name-IsPlain n plain)
            (ground (arith, more, fewer)) (omega (arith, fewer, h)) in
        rw more (next (ground (arith, more)) chain, ground (arith, len, fewer, more))
    | inr one ↦
        let rooted : api.is_root n ≡ false = ground (arith, api.is_root-num_labels n, pos) in
        rw (one, rooted) (to_root (ground (arith, one, pos)), ground (arith, one, pos))
  ]

  -- Such a name with labels is peeled to itself, then to its parents one label at a time, then to the
  -- root: one name more than it has labels.
  pub peel_labels-Peels :
      (n : Name)
      → IsPlain n
      → 0 < api.num_labels n
      → (ns : List Name) × (peel_labels api n ≡ n ∷ ns)
        × Peels n ns
        × (length (peel_labels api n) ≡ suc (api.num_labels n))
  unfolding peel_labels
  peel_labels-Peels n plain pos =
      let (chain, len) = peel_loop-Peels (suc (api.num_labels n)) n plain pos (omega arith) in
      (peel_loop api (suc (api.num_labels n)) n, refl, chain, omega (arith, len))
