-- ===== src/Proxy/Short.antt =====
-- A buffer of at most sixteen bytes: too short for a header that carries an address.
use heimdallr.Common.{
  ℕ, suc, ◌+◌, ◌-◌, ◌*◌, ◌≤◌, Bool, true, false, ◌&&◌, ◌≡◌, refl, sym, ap, ◌∙◌, inl, inr, List, [],
  ◌∷◌, ◌++◌, Option, none, some, leb, ◌==◌, if◌then◌else◌, length, take, arith, length-take,
  Bool-cases, Option-cases,
}
use native.Mathlib.Numerals.{unary_clauses}
use heimdallr.Common.Text.{Text, codes, text_eq_iff, starts_with, split, pieces}
use heimdallr.Common.Utf8.{from_utf8, prepend, between, tail_bits, second_of_three, second_of_four}
use heimdallr.Common.Addr.{v4, unspecified_v4}
use heimdallr.Proxy.{
  ProxyInfo, found, parse_v1, v1_prefix, v1_fields, v1_text, find_crlf, parse_proxy_header,
  v2_signature,
}
use heimdallr.Proxy.Accepts.{parse_v2-IsAccepted}

-- the characters of the pieces and the separators between them
total : List Text → ℕ
total [] = 0
total (p ∷ ps) = suc (length p + total ps)

length-pieces :
    (sep : ℕ → Bool) (s : Text) → length (pieces sep s).0 + total (pieces sep s).1 ≡ length s
unfolding pieces total
length-pieces sep [] = omega arith
length-pieces sep (x ∷ s) = ground (arith, length-pieces sep s)

size : Option Text → ℕ
size none = 0
size (some t) = length t

-- at most `n` code points
record Fits (n : ℕ) (o : Option Text) : Type 0 where
  bound : size o ≤ n

Fits-prepend : (c : ℕ) {n : ℕ} {o : Option Text} → Fits n o → Fits (suc n) (prepend c o)
unfolding size prepend
Fits-prepend c {o = none} h = record { bound = omega arith }
Fits-prepend c {o = some t} h = record { bound = omega (arith, h.bound) }

Fits-more : {n m : ℕ} {o : Option Text} → Fits n o → n ≤ m → Fits m o
Fits-more h k = record { bound = omega (arith, h.bound, k) }

Fits-if :
    (b : Bool) {n : ℕ} {o o' : Option Text} → Fits n o → Fits n o' → Fits n (if b then o else o')
Fits-if true h k = h
Fits-if false h k = k

Fits-one : (c : ℕ) {n : ℕ} → Fits (suc n) (some (c ∷ []))
unfolding size
Fits-one c = record { bound = omega arith }

Fits-none : {n : ℕ} → Fits n none
unfolding size
Fits-none = record { bound = omega arith }

Fits-from_utf8 : (s : List ℕ) → Fits (length s) (from_utf8 s)
unfolding from_utf8
Fits-from_utf8 [] = record { bound = unfold size in omega arith }
Fits-from_utf8 (x ∷ []) = Fits-if (leb x 0x7f) (Fits-one x) Fits-none
Fits-from_utf8 (x ∷ y ∷ []) = Fits-if (leb x 0x7f) (Fits-prepend x (Fits-from_utf8 (y ∷ []))) (
    Fits-if (between 0xc2 x 0xdf && between 0x80 y 0xbf)
      (Fits-one ((x - 0xc0) * 0x40 + tail_bits y)) Fits-none)
Fits-from_utf8 (x ∷ y ∷ z ∷ []) =
    Fits-if (leb x 0x7f) (Fits-prepend x (Fits-from_utf8 (y ∷ z ∷ []))) (
      Fits-if (between 0xc2 x 0xdf && between 0x80 y 0xbf)
        (Fits-prepend ((x - 0xc0) * 0x40 + tail_bits y)
          (Fits-more (Fits-from_utf8 (z ∷ [])) (omega arith)))
        (Fits-if (between 0xe0 x 0xef && second_of_three x y && between 0x80 z 0xbf)
          (Fits-one ((x - 0xe0) * 0x1000 + tail_bits y * 0x40 + tail_bits z)) Fits-none))
Fits-from_utf8 (x ∷ y ∷ z ∷ w ∷ s) =
    Fits-if (leb x 0x7f) (Fits-prepend x (Fits-from_utf8 (y ∷ z ∷ w ∷ s))) (
      Fits-if (between 0xc2 x 0xdf && between 0x80 y 0xbf)
        (Fits-prepend ((x - 0xc0) * 0x40 + tail_bits y)
          (Fits-more (Fits-from_utf8 (z ∷ w ∷ s)) (omega arith)))
        (Fits-if (between 0xe0 x 0xef && second_of_three x y && between 0x80 z 0xbf)
          (Fits-prepend ((x - 0xe0) * 0x1000 + tail_bits y * 0x40 + tail_bits z)
            (Fits-more (Fits-from_utf8 (w ∷ s)) (omega arith)))
          (Fits-if
            (between 0xf0 x 0xf4
              && second_of_four x y
              && between 0x80 z 0xbf
              && between 0x80 w 0xbf)
            (Fits-prepend
              ((x - 0xf0) * 0x40000 + tail_bits y * 0x1000 + tail_bits z * 0x40 + tail_bits w)
              (Fits-more (Fits-from_utf8 s) (omega arith)))
            Fits-none)))

from_utf8-ascii :
    (x : ℕ) (s : List ℕ)
    → leb x 0x7f ≡ true
    → from_utf8 (x ∷ s) ≡ (elim (from_utf8 s) [ none ↦ none | some t ↦ some (x ∷ t) ])
unfolding from_utf8
from_utf8-ascii x [] h = ground arith
from_utf8-ascii x (y ∷ []) h = ground arith
from_utf8-ascii x (y ∷ z ∷ []) h = ground arith
from_utf8-ascii x (y ∷ z ∷ w ∷ s) h = ground arith

fields-short :
    (p : Text) (ps : List Text) (info : ProxyInfo)
    → length p + total ps ≤ 8
    → v1_fields (codes "PROXY" ∷ p ∷ ps) ≡ found info
    → ⊥
unfolding v1_fields total
fields-short p [] info h e = ground arith
fields-short p (a ∷ []) info h e = ground arith
fields-short p (a ∷ b ∷ []) info h e = ground arith
fields-short p ([] ∷ b ∷ c ∷ ps) info h e = ground arith
fields-short p ((x ∷ a) ∷ b ∷ [] ∷ ps) info h e = ground arith
fields-short p ((x ∷ a) ∷ b ∷ (y ∷ c) ∷ ps) info h e =
    ground (arith, text_eq_iff p (codes "TCP4"), text_eq_iff p (codes "TCP6"))

from_utf8-v1_prefix :
    (t : List ℕ)
    → from_utf8 (codes "PROXY " ++ t)
      ≡ (elim (from_utf8 t) [ none ↦ none | some u ↦ some (codes "PROXY " ++ u) ])
from_utf8-v1_prefix t = ground (
  arith,
  from_utf8-ascii b'P' (codes "ROXY " ++ t),
  from_utf8-ascii b'R' (codes "OXY " ++ t),
  from_utf8-ascii b'O' (codes "XY " ++ t),
  from_utf8-ascii b'X' (codes "Y " ++ t),
  from_utf8-ascii b'Y' (codes " " ++ t),
  from_utf8-ascii b' ' t,
)

split-v1_prefix :
    (u : Text)
    → split b' ' (codes "PROXY " ++ u)
      ≡ codes "PROXY" ∷ (pieces (λ x. x == b' ') u).0 ∷ (pieces (λ x. x == b' ') u).1
unfolding split pieces
split-v1_prefix u = refl

text-short :
    (t : List ℕ) (info : ProxyInfo)
    → length t ≤ 8
    → v1_text (from_utf8 (codes "PROXY " ++ t)) ≡ found info
    → ⊥
unfolding v1_text size
text-short t info h e = elim (Option-cases (from_utf8 t)) [
  | inl bad ↦
      let none_ : from_utf8 (codes "PROXY " ++ t) ≡ none = from_utf8-v1_prefix t ∙ rw bad refl in
      ground (arith, rw none_ at e)
  | inr (u, good) ↦
      let some_ : from_utf8 (codes "PROXY " ++ t) ≡ some (codes "PROXY " ++ u) =
        from_utf8-v1_prefix t ∙ rw good refl in
      let e' : v1_text (some (codes "PROXY " ++ u)) ≡ found info = rw some_ at e in
      let bound : size (from_utf8 t) ≤ length t = (Fits-from_utf8 t).bound in
      let small : length u ≤ length t = rw good at bound in
      fields-short _ _ info (omega (arith, length-pieces (λ x. x == b' ') u, h, small))
        (sym (ap v1_fields (split-v1_prefix u)) ∙ e')
]

-- what follows a prefix
starts_with-append : (p s : List ℕ) → starts_with p s ≡ true → (r : List ℕ) × (s ≡ p ++ r)
unfolding starts_with
starts_with-append [] s h = (s, refl)
starts_with-append (c ∷ p) [] h = ground arith
starts_with-append (c ∷ p) (x ∷ s) h =
    let (r, e) = starts_with-append p s (ground (arith, h)) in (r, ground (arith, h, e))

find_crlf-v1_prefix :
    (r : List ℕ)
    → find_crlf (codes "PROXY " ++ r) ≡ (elim (find_crlf r) [ none ↦ none | some n ↦ some (n + 6) ])
unfolding find_crlf
find_crlf-v1_prefix [] = refl
find_crlf-v1_prefix (x ∷ r) = ground arith

find_crlf-lt : (s : List ℕ) (n : ℕ) → find_crlf s ≡ some n → n + 2 ≤ length s
unfolding find_crlf
find_crlf-lt [] n h = ground arith
find_crlf-lt (x ∷ []) n h = ground arith
find_crlf-lt (x ∷ y ∷ s) n h = ground (arith, find_crlf-lt (y ∷ s) (n - 1))

take_prefix : (n : ℕ) (r : List ℕ) → take (n + 6) (codes "PROXY " ++ r) ≡ codes "PROXY " ++ take n r
take_prefix n r = simp unary_clauses refl

parse_v1-short :
    (r : List ℕ) (info : ProxyInfo)
    → length r ≤ 10
    → parse_v1 (codes "PROXY " ++ r) ≡ found info
    → ⊥
unfolding parse_v1
parse_v1-short r info h e = elim (Option-cases (find_crlf r)) [
  | inl none_ ↦
      let missing : find_crlf (codes "PROXY " ++ r) ≡ none =
        find_crlf-v1_prefix r ∙ rw none_ refl in
      ground (arith, rw (missing, parse_v1) at e)
  | inr (n, e₁) ↦
      let at_ : find_crlf (codes "PROXY " ++ r) ≡ some (n + 6) =
        find_crlf-v1_prefix r ∙ rw e₁ refl in
      text-short (take n r) info (omega (arith, length-take n r, find_crlf-lt r n e₁, h)) (
        let e' : v1_text (from_utf8 (take (n + 6) (codes "PROXY " ++ r))) ≡ found info =
          rw (at_, parse_v1) at e in
        sym (ap (λ l. v1_text (from_utf8 l)) (take_prefix n r)) ∙ e')
]

-- In at most sixteen bytes the parser finds nothing but a version-two header without an address:
-- the source that it reports is the unspecified address with port 0.
pub parse_proxy_header-short :
    (buf : List ℕ) (info : ProxyInfo)
    → length buf ≤ 16
    → parse_proxy_header buf ≡ found info
    → info.source ≡ record { ip = v4 unspecified_v4; port = 0 }
unfolding parse_proxy_header
parse_proxy_header-short buf info h e = elim (Bool-cases (starts_with v2_signature buf)) [
  | inl binary ↦ ground (arith, parse_v2-IsAccepted buf info (ground (arith, binary, e)), h)
  | inr other ↦ elim (Bool-cases (starts_with v1_prefix buf)) [
    | inr neither ↦ ground (arith, other, neither, e)
    | inl text ↦
        let (r, same) = starts_with-append v1_prefix buf text in
        let e' : parse_v1 (v1_prefix ++ r) ≡ found info =
          ap parse_v1 (sym same) ∙ ground (arith, other, text, e) in
        absurd (parse_v1-short r info (omega (arith, h, ap length same)) e')
  ]
]
