-- ===== src/Catalog/Members.antt =====
-- The members that a catalog zone names.
use heimdallr.Common.{
  ℕ, ◌-◌, ◌≡◌, refl, ap, ◌∙◌, List, [], ◌∷◌, ◌++◌, Option, some, arith, length, length-append, take,
  drop,
}
use heimdallr.Common.Text.{Text, codes, text_eq_iff, trim_end_matches}
use heimdallr.Catalog.{strip_suffix, member_of, members_of, parse_member_zones}
use heimdallr.Dns.Records.{Record, ptr}

cut_at : (xs ys : Text) → (take (length xs) (xs ++ ys) ≡ xs) × (drop (length xs) (xs ++ ys) ≡ ys)
cut_at [] ys = (refl, refl)
cut_at (x ∷ xs) ys = ground (arith, cut_at xs ys)

pub strip_suffix-append : (xs suffix : Text) → strip_suffix suffix (xs ++ suffix) ≡ some xs
unfolding strip_suffix
strip_suffix-append xs suffix =
    let n : length (xs ++ suffix) - length suffix ≡ length xs =
      omega (arith, length-append xs suffix) in
    let (front, back) = cut_at xs suffix in
    rw (n, front, back) (ground (arith, text_eq_iff suffix suffix, length-append xs suffix))

trim_tail :
    (c x y : ℕ) (xs : Text)
    → trim_end_matches c (x ∷ y ∷ xs) ≡ x ∷ y ∷ xs
    → trim_end_matches c (y ∷ xs) ≡ y ∷ xs
unfolding trim_end_matches
trim_tail c x y xs h = ground (arith, h)

trim_end_matches-append :
    (c : ℕ) (xs : Text) → trim_end_matches c xs ≡ xs → trim_end_matches c (xs ++ c ∷ []) ≡ xs
unfolding trim_end_matches
trim_end_matches-append c [] h = ground arith
trim_end_matches-append c (x ∷ []) h = ground (arith, h)
trim_end_matches-append c (x ∷ y ∷ xs) h =
    ground (arith, trim_end_matches-append c (y ∷ xs) (trim_tail c x y xs h))

module _ {Name : Type 0} (name_discrete : Discrete Name) (to_string : Name → Text)
    (from_ascii : Text → Option Name) where
  members_of-append :
      (suffix : Text) (xs ys : List (Record Name))
      → members_of name_discrete to_string from_ascii suffix (xs ++ ys)
        ≡ members_of name_discrete to_string from_ascii suffix xs
          ++ members_of name_discrete to_string from_ascii suffix ys
  unfolding members_of
  members_of-append suffix [] ys = refl
  members_of-append suffix (x ∷ xs) ys = ground (arith, members_of-append suffix xs ys)

  -- A PTR record whose name prints as a label that does not end with a dot, a dot, `zones.` and
  -- the catalog's origin names a member, wherever it stands: the label and the record's target.
  pub parse_member_zones-append :
      (origin target : Name) (label : Text) (r : Record Name) (xs ys : List (Record Name))
      → r.data_ ≡ ptr target
      → to_string r.name ≡ (label ++ codes ".") ++ (codes "zones." ++ to_string origin)
      → trim_end_matches b'.' label ≡ label
      → parse_member_zones name_discrete to_string from_ascii origin (xs ++ r ∷ ys)
        ≡ parse_member_zones name_discrete to_string from_ascii origin xs
          ++ (label, target) ∷ parse_member_zones name_discrete to_string from_ascii origin ys
  unfolding parse_member_zones members_of member_of
  parse_member_zones-append origin target label r xs ys points printed plain =
      let suffix = codes "zones." ++ to_string origin in
      let stripped : strip_suffix suffix (to_string r.name) ≡ some (label ++ codes ".") =
        ap (strip_suffix suffix) printed ∙ strip_suffix-append (label ++ codes ".") suffix in
      let trimmed = trim_end_matches-append b'.' label plain in
      let all = members_of name_discrete to_string from_ascii suffix in
      let member : member_of name_discrete to_string from_ascii suffix r ≡ some (label, target) =
        ground (arith, points, stripped, trimmed) in
      let here : all (r ∷ ys) ≡ (label, target) ∷ all ys = ground (arith, member) in
      members_of-append suffix xs (r ∷ ys) ∙ ap (λ t. all xs ++ t) here
