-- ===== src/Blocklist/Suffix.antt =====
-- What the matching loop decides.
use heimdallr.Common.{
  ℕ, zero, suc, ◌<◌, true, ◌≡◌, refl, sym, ap, ◌∙◌, ◌↔◌, ◌⊎◌, inl, inr, List, [], ◌∷◌, ◌++◌, some,
  arith, ◌==◌, length, length-append, Bool-cases, Option-cases,
}
use mathlib.Core.Bool.{false≢true}
use mathlib.Core.List.{append_assoc}
use heimdallr.Common.Text.{Text}
use heimdallr.Blocklist.{contains, after_dot, walk, is_listed, blocked, normalize}

-- `e` is the name `q`, or a parent of it: what follows one of its dots.
abbrev pub Covers : Text → Text → Type 0
Covers e q = (e ≡ q) ⊎ ((p : Text) × (q ≡ p ++ b'.' ∷ e))

-- Some entry is the name or a parent of it.
abbrev pub IsListed : List Text → Text → Type 0
IsListed es q = (e : Text) × (contains es e ≡ true) × Covers e q

after_dot_split : (q r : Text) → after_dot q ≡ some r → (p : Text) × (q ≡ p ++ b'.' ∷ r)
unfolding after_dot
after_dot_split [] r h = cc
after_dot_split (x ∷ q) r h = elim (Bool-cases (x == b'.')) [
  | inl dot ↦ ([], ground arith)
  | inr other ↦ let (p, split) = after_dot_split q r (ground arith) in (x ∷ p, cc)
]

after_dot-Covers : (q r e : Text) → after_dot q ≡ some r → Covers e r → Covers e q
after_dot-Covers q r e h (inl same) =
    let (p, split) = after_dot_split q r h in inr (p, rw same split)
after_dot-Covers q r e h (inr (p', split')) =
    let (p, split) = after_dot_split q r h in
    inr (p ++ b'.' ∷ p', split ∙ rw split' (sym (append_assoc p (b'.' ∷ p') (b'.' ∷ e))))

-- After the first dot of `p.e` comes `e`, or a shorter name that ends in `.e`.
after_dot-append : (p e : Text) → (r : Text) × (after_dot (p ++ b'.' ∷ e) ≡ some r) × Covers e r
unfolding after_dot
after_dot-append [] e = (e, refl, inl refl)
after_dot-append (x ∷ p) e = elim (Bool-cases (x == b'.')) [
  | inl dot ↦ (p ++ b'.' ∷ e, rw dot refl, inr (p, refl))
  | inr other ↦ let (r, h, c) = after_dot-append p e in (r, rw other h, c)
]

length-after_dot : (q r : Text) → after_dot q ≡ some r → length r < length q
length-after_dot q r h =
    let (p, split) = after_dot_split q r h in
    omega (arith, ap length split, length-append p (b'.' ∷ r))

walk_sound : (f : ℕ) (es : List Text) (q : Text) → walk f es q ≡ true → IsListed es q
unfolding walk
walk_sound zero es q h = cc
walk_sound (suc f) es q h = elim (Bool-cases (contains es q)) [
  | inl here ↦ (q, here, inl refl)
  | inr not_here ↦ elim (Option-cases (after_dot q)) [
    | inl last ↦ absurd (ground arith)
    | inr (r, found) ↦
        let (e, member, c) = walk_sound f es r (ground arith) in
        (e, member, after_dot-Covers q r e found c)
  ]
]

walk_complete :
    (f : ℕ) (es : List Text) (q e : Text)
    → length q < f
    → contains es e ≡ true
    → Covers e q
    → walk f es q ≡ true
unfolding walk
walk_complete zero es q e h m c = absurd (omega arith)
walk_complete (suc f) es q e h m (inl same) = rw (← same, m, walk)
walk_complete (suc f) es q e h m (inr (p, split)) =
    let (r, found, c) = after_dot-append p e in
    let found' : after_dot q ≡ some r = rw split found in
    ground (arith, found', walk_complete f es r e (omega (arith, length-after_dot q r found')) m c)

-- A name is on a list exactly when the list holds the normalised name (lower case, no dots at the
-- end) or one of its parents, where a parent is what follows one of the dots.
pub is_listed_iff :
    (es : List Text) (qname : Text) → (is_listed es qname ≡ true) ↔ IsListed es (normalize qname)
unfolding is_listed
is_listed_iff [] qname = unfold contains in (λ h. cc, λ (e, m, c). cc)
is_listed_iff (x ∷ es) qname = (
  walk_sound _ (x ∷ es) (normalize qname),
  λ (e, m, c). walk_complete _ (x ∷ es) (normalize qname) e (omega arith) m c,
)

-- A name is blocked exactly when the blocklist holds it or a parent of it, and the allowlist
-- holds neither.
pub blocked_iff :
    (blocklist allowlist : List Text) (qname : Text)
    → (blocked blocklist allowlist qname ≡ true)
      ↔ (IsListed blocklist (normalize qname) × (¬ IsListed allowlist (normalize qname)))
unfolding blocked
blocked_iff b a qname =
    let on_b = is_listed_iff b qname in
    let on_a = is_listed_iff a qname in
    elim (Bool-cases (is_listed a qname)) [
      | inl yes_a ↦ rw yes_a (λ h. cc, λ h. absurd (h.1 (on_a.0 yes_a)))
      | inr no_a ↦ rw no_a (λ h. (on_b.0 h, λ l. false≢true (sym no_a ∙ on_a.1 l)), λ h. on_b.1 h.0)
    ]
