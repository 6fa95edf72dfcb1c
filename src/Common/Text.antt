-- ===== src/Common/Text.antt =====
-- Text as a list of code points, with the operations of `str` that the program calls.
use Prim.Native.Char.{code}
use Prim.Native.String.{String}
use Prim.Native.Nat.{ℕ, ◌≤◌, ◌+◌, ◌-◌, ◌*◌}
use mathlib.Core.Path.{◌≡◌, refl}
use mathlib.Core.Bool.{Bool, true, false, ◌&&◌, ◌||◌}
use mathlib.Core.List.{List, [], ◌∷◌, map}
use mathlib.Core.Logic.{◌↔◌}
use mathlib.Core.Option.{Option, none, some}
use native.Mathlib.Omega.{arith}
use heimdallr.Common.Tests.{leb, ◌==◌, if◌then◌else◌}

abbrev pub Text : Type 0
Text = List ℕ

-- a literal of the source
abbrev pub codes : String → Text
codes String.[] = []
codes (String.◌∷◌ c s) = code c ∷ codes s

-- `==` of two texts
unfoldable pub text_eq : Text → Text → Bool
text_eq [] [] = true
text_eq (x ∷ xs) (y ∷ ys) = x == y && text_eq xs ys
text_eq _ _ = false

pub text_eq_iff : (a b : Text) → (text_eq a b ≡ true) ↔ (a ≡ b)
unfolding text_eq
text_eq_iff (x ∷ a) (y ∷ b) = ground (arith, text_eq_iff a b)
text_eq_iff _ _ = ground arith

-- `strip_prefix`
unfoldable pub strip_prefix : Text → Text → Option Text
strip_prefix [] s = some s
strip_prefix (c ∷ p) [] = none
strip_prefix (c ∷ p) (x ∷ s) = let rest = strip_prefix p s in if c == x then rest else none

-- `starts_with`
unfoldable pub starts_with : Text → Text → Bool
starts_with [] s = true
starts_with (c ∷ p) [] = false
starts_with (c ∷ p) (x ∷ s) = c == x && starts_with p s

-- `trim_end_matches(c)`
unfoldable pub trim_end_matches : ℕ → Text → Text
trim_end_matches c [] = []
trim_end_matches c (x ∷ s) = elim (trim_end_matches c s) [
  | [] ↦ if x == c then [] else x ∷ []
  | y ∷ t ↦ x ∷ y ∷ t
]

unfoldable pub to_lower : ℕ → ℕ
to_lower c = if leb b'A' c && leb c b'Z' then c + 32 else c

-- `to_ascii_lowercase`
unfoldable pub to_ascii_lowercase : Text → Text
to_ascii_lowercase = map to_lower

-- `contains(c)`
unfoldable pub has_char : ℕ → Text → Bool
has_char c [] = false
has_char c (x ∷ s) = x == c || has_char c s

-- `char::is_whitespace`
unfoldable pub is_whitespace : ℕ → Bool
is_whitespace c =
    c == b' '
    || (leb 9 c && leb c 13)
    || c == 0x85
    || c == 0xa0
    || c == 0x1680
    || (leb 0x2000 c && leb c 0x200a)
    || c == 0x2028
    || c == 0x2029
    || c == 0x202f
    || c == 0x205f
    || c == 0x3000

-- `trim_start`
unfoldable pub trim_start : Text → Text
trim_start [] = []
trim_start (x ∷ s) = let rest = trim_start s in if is_whitespace x then rest else x ∷ s

unfoldable pub trim_end : Text → Text
trim_end [] = []
trim_end (x ∷ s) = elim (trim_end s) [
  | [] ↦ if is_whitespace x then [] else x ∷ []
  | y ∷ t ↦ x ∷ y ∷ t
]

-- `trim`
unfoldable pub trim : Text → Text
unfolding trim_start trim_end is_whitespace
trim s = trim_start (trim_end s)

-- the pieces between the characters that `sep` marks; never empty
unfoldable pub pieces : (ℕ → Bool) → Text → Text × List Text
pieces sep [] = ([], [])
pieces sep (x ∷ s) = let (p, ps) = pieces sep s in if sep x then ([], p ∷ ps) else (x ∷ p, ps)

-- `split(c)`
unfoldable pub split : ℕ → Text → List Text
unfolding pieces
split c s = (pieces (λ x. x == c) s).0 ∷ (pieces (λ x. x == c) s).1

drop_empty : List Text → List Text
drop_empty [] = []
drop_empty ([] ∷ ps) = drop_empty ps
drop_empty ((c ∷ p) ∷ ps) = (c ∷ p) ∷ drop_empty ps

-- `split_whitespace`
unfoldable pub split_whitespace : Text → List Text
unfolding pieces drop_empty is_whitespace
split_whitespace s = drop_empty ((pieces is_whitespace s).0 ∷ (pieces is_whitespace s).1)

-- `split_once(c)`
unfoldable pub split_once : ℕ → Text → Option (Text × Text)
split_once c [] = none
split_once c (x ∷ s) =
    let rest : Option (Text × Text) = elim (split_once c s) [
      | none ↦ none
      | some (a, b) ↦ some (x ∷ a, b)
    ] in
    if x == c then some ([], s) else rest

drop_last_empty : List Text → List Text
drop_last_empty [] = []
drop_last_empty ([] ∷ []) = []
drop_last_empty (p ∷ ps) = p ∷ drop_last_empty ps

strip_cr : Text → Text
strip_cr [] = []
strip_cr (x ∷ []) = if x == b'\r' then [] else x ∷ []
strip_cr (x ∷ y ∷ s) = x ∷ strip_cr (y ∷ s)

-- `lines`
unfoldable pub lines : Text → List Text
unfolding split drop_last_empty strip_cr
lines s = map strip_cr (drop_last_empty (split b'\n' s))

is_digit : ℕ → Bool
is_digit c = leb b'0' c && leb c b'9'

-- the value of a run of digits, read from the left
unfoldable pub digits_value : ℕ → Text → Option ℕ
unfolding is_digit
digits_value acc [] = some acc
digits_value acc (c ∷ s) =
    let rest = digits_value (acc * 10 + (c - b'0')) s in if is_digit c then rest else none

no_sign : Text → Text
no_sign [] = []
no_sign (c ∷ s) = if c == b'+' then s else c ∷ s

within : ℕ → Option ℕ → Option ℕ
within limit none = none
within limit (some n) = if leb n limit then some n else none

unfoldable pub parse_digits : ℕ → Text → Option ℕ
unfolding within digits_value
parse_digits limit [] = none
parse_digits limit (c ∷ s) = within limit (digits_value 0 (c ∷ s))

-- `parse` of an unsigned integer type with the greatest value `limit`: a sign `+` is allowed
unfoldable pub parse_uint : ℕ → Text → Option ℕ
unfolding no_sign within parse_digits digits_value
parse_uint limit s = parse_digits limit (no_sign s)

pub to_lower_idem : (c : ℕ) → to_lower (to_lower c) ≡ to_lower c
unfolding to_lower
to_lower_idem c = ground arith

pub to_ascii_lowercase_idem :
    (s : Text) → to_ascii_lowercase (to_ascii_lowercase s) ≡ to_ascii_lowercase s
unfolding to_ascii_lowercase
to_ascii_lowercase_idem [] = refl
to_ascii_lowercase_idem (c ∷ s) = cc (to_lower_idem c, to_ascii_lowercase_idem s)

to_lower_dot : (c : ℕ) → (to_lower c == b'.') ≡ (c == b'.')
unfolding to_lower
to_lower_dot c = ground arith

pub trim_end_matches-to_ascii_lowercase :
    (s : Text)
    → trim_end_matches b'.' (to_ascii_lowercase s) ≡ to_ascii_lowercase (trim_end_matches b'.' s)
unfolding trim_end_matches to_ascii_lowercase
trim_end_matches-to_ascii_lowercase [] = refl
trim_end_matches-to_ascii_lowercase (c ∷ s) =
    ground (arith, to_lower_dot c, trim_end_matches-to_ascii_lowercase s)

pub trim_end_matches_idem :
    (c : ℕ) (s : Text) → trim_end_matches c (trim_end_matches c s) ≡ trim_end_matches c s
unfolding trim_end_matches
trim_end_matches_idem c [] = refl
trim_end_matches_idem c (x ∷ s) = ground (arith, trim_end_matches_idem c s)

within-le : (limit n : ℕ) (o : Option ℕ) → within limit o ≡ some n → n ≤ limit
unfolding within
within-le limit n none e = ground (arith, e)
within-le limit n (some m) e = ground (arith, e)

pub parse_digits-le : (limit : ℕ) (s : Text) (n : ℕ) → parse_digits limit s ≡ some n → n ≤ limit
unfolding parse_digits
parse_digits-le limit [] n e = ground (arith, e)
parse_digits-le limit (c ∷ s) n e = within-le limit n (digits_value 0 (c ∷ s)) e

pub parse_uint-le : (limit : ℕ) (s : Text) (n : ℕ) → parse_uint limit s ≡ some n → n ≤ limit
unfolding parse_uint
parse_uint-le limit s n h = parse_digits-le limit (no_sign s) n h
