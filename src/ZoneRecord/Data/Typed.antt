-- ===== src/ZoneRecord/Data/Typed.antt =====
-- That the data of a record have the record's type, and numbers in the range of their fields.
use heimdallr.Common.{
  ℕ, Bool, ◌≤◌, ◌≡◌, refl, List, [], ◌∷◌, Option, none, some, arith, if◌then◌else◌, Option-cases,
  inl, inr,
}
use mathlib.Core.Option
use heimdallr.Common.Text.{
  Text, codes, strip_prefix, parse_uint, parse_digits, parse_uint-le, parse_digits-le,
  split_whitespace,
}
use heimdallr.Dns.{
  RecordType, a as type_a, aaaa as type_aaaa, cname as type_cname, mx as type_mx, ns as type_ns,
  soa as type_soa, txt as type_txt, srv as type_srv, ptr as type_ptr, tlsa as type_tlsa,
  sshfp as type_sshfp, https as type_https, svcb as type_svcb, aname as type_aname,
}
use heimdallr.ZoneRecord.{bind_cases}
use heimdallr.ZoneRecord.Data.{
  Parsed, a, aaaa, cname, ns, ptr, aname, mx, txt, srv, tlsa, sshfp, svcb, https, soa, type_of,
  Parsers, mx_of, srv_of, soa_of, parse_rdata, parse_i32,
}

-- a sign and a magnitude that fit in 32 bits
abbrev pub IsInt32 : Bool × ℕ → Type 0
IsInt32 (negative, magnitude) = magnitude ≤ (if negative then 2147483648 else 2147483647)

parse_i32-IsInt32 : (s : Text) (x : Bool × ℕ) → parse_i32 s ≡ some x → IsInt32 x
unfolding parse_i32
parse_i32-IsInt32 s x h = elim (Option-cases (strip_prefix (codes "-") s)) [
  | inl plain ↦ elim (Option-cases (parse_uint 2147483647 s)) [
    | inl bad ↦ ground (arith, h, plain, bad)
    | inr (n, read) ↦ ground (arith, h, plain, read, parse_uint-le 2147483647 s n read)
  ]
  | inr (digits, minus) ↦ elim (Option-cases (parse_digits 2147483648 digits)) [
    | inl bad ↦ ground (arith, h, minus, bad)
    | inr (n, read) ↦ ground (arith, h, minus, read, parse_digits-le 2147483648 digits n read)
  ]
]

module _ {Name Sshfp Svcb : Type 0} where
  -- the 16-bit and 32-bit numbers of the data are in range
  abbrev pub Fits : Parsed Name Sshfp Svcb → Type 0
  Fits (mx preference n) = preference ≤ 65535
  Fits (srv priority weight port n) = (priority ≤ 65535) × (weight ≤ 65535) × (port ≤ 65535)
  Fits (soa mname rname serial refresh retry expire minimum) =
      (serial ≤ 4294967295)
      × IsInt32 refresh
      × IsInt32 retry
      × IsInt32 expire
      × (minimum ≤ 4294967295)
  Fits _ = Unit

  abbrev pub IsTyped : RecordType → Parsed Name Sshfp Svcb → Type 0
  IsTyped rtype d = (type_of d ≡ rtype) × Fits d

  map-IsTyped :
      {B : Type 0} (f : B → Parsed Name Sshfp Svcb) (rtype : RecordType) (o : Option B)
      (d : Parsed Name Sshfp Svcb)
      → ((x : B) → IsTyped rtype (f x))
      → Option.map f o ≡ some d
      → IsTyped rtype d
  map-IsTyped f rtype none d h e = ground (arith, e)
  map-IsTyped f rtype (some x) d h e = let same : f x ≡ d = ground (arith, e) in rw same at (h x)

module _ {Name Sshfp Svcb : Type 0} (p : Parsers Name Sshfp Svcb) where
  given :
      (rtype : RecordType) (x d : Parsed Name Sshfp Svcb)
      → IsTyped rtype x
      → some x ≡ some d
      → IsTyped rtype d
  given rtype x d v e = let same : x ≡ d = ground (arith, e) in rw same at v

  mx_of-IsTyped :
      (parts : List Text) (d : Parsed Name Sshfp Svcb) → mx_of p parts ≡ some d → IsTyped type_mx d
  unfolding mx_of type_of
  mx_of-IsTyped (x ∷ y ∷ []) d e =
      let (n, read, e₁) = bind_cases (parse_uint 65535 x) _ d e in
      let (exchange, _, e₂) = bind_cases (p.from_ascii y) _ d e₁ in
      given type_mx (mx n exchange) d (refl, parse_uint-le 65535 x n read) e₂
  mx_of-IsTyped _ d e = ground (arith, e)

  srv_of-IsTyped :
      (parts : List Text) (d : Parsed Name Sshfp Svcb)
      → srv_of p parts ≡ some d
      → IsTyped type_srv d
  unfolding srv_of type_of
  srv_of-IsTyped (x ∷ y ∷ z ∷ t ∷ []) d e =
      let (i, r₁, e₁) = bind_cases (parse_uint 65535 x) _ d e in
      let (j, r₂, e₂) = bind_cases (parse_uint 65535 y) _ d e₁ in
      let (k, r₃, e₃) = bind_cases (parse_uint 65535 z) _ d e₂ in
      let (target, _, e₄) = bind_cases (p.from_ascii t) _ d e₃ in
      given type_srv (srv i j k target) d
        (refl, (parse_uint-le 65535 x i r₁, parse_uint-le 65535 y j r₂, parse_uint-le 65535 z k r₃))
        e₄
  srv_of-IsTyped _ d e = ground (arith, e)

  soa_of-IsTyped :
      (parts : List Text) (d : Parsed Name Sshfp Svcb)
      → soa_of p parts ≡ some d
      → IsTyped type_soa d
  unfolding soa_of type_of
  soa_of-IsTyped (m ∷ r ∷ s ∷ f ∷ t ∷ x ∷ n ∷ []) d e =
      let (mname, _, e₁) = bind_cases (p.from_ascii m) _ d e in
      let (rname, _, e₂) = bind_cases (p.from_ascii r) _ d e₁ in
      let (serial, r₃, e₃) = bind_cases (parse_uint 4294967295 s) _ d e₂ in
      let (refresh, r₄, e₄) = bind_cases (parse_i32 f) _ d e₃ in
      let (retry, r₅, e₅) = bind_cases (parse_i32 t) _ d e₄ in
      let (expire, r₆, e₆) = bind_cases (parse_i32 x) _ d e₅ in
      let (minimum, r₇, e₇) = bind_cases (parse_uint 4294967295 n) _ d e₆ in
      given type_soa (soa mname rname serial refresh retry expire minimum) d
        (
          refl,
          (
            parse_uint-le 4294967295 s serial r₃,
            parse_i32-IsInt32 f refresh r₄,
            parse_i32-IsInt32 t retry r₅,
            parse_i32-IsInt32 x expire r₆,
            parse_uint-le 4294967295 n minimum r₇,
          ),
        )
        e₇
  soa_of-IsTyped _ d e = ground (arith, e)

  -- Data that are parsed for a record type have that type, and the numbers of MX, SRV and SOA data
  -- fit in their fields: 16 bits, 32 bits for the serial and the minimum, and signed 32 bits for
  -- the other times of a zone.
  pub parse_rdata-IsTyped :
      (rtype : RecordType) (text : Text) (d : Parsed Name Sshfp Svcb)
      → parse_rdata p rtype text ≡ some d
      → IsTyped rtype d
  unfolding parse_rdata type_of
  parse_rdata-IsTyped type_a s d e = map-IsTyped a type_a _ d (λ x. (refl, tt)) e
  parse_rdata-IsTyped type_aaaa s d e = map-IsTyped aaaa type_aaaa _ d (λ x. (refl, tt)) e
  parse_rdata-IsTyped type_cname s d e = map-IsTyped cname type_cname _ d (λ x. (refl, tt)) e
  parse_rdata-IsTyped type_ns s d e = map-IsTyped ns type_ns _ d (λ x. (refl, tt)) e
  parse_rdata-IsTyped type_mx s d e = mx_of-IsTyped (split_whitespace s) d e
  parse_rdata-IsTyped type_txt s d e = given type_txt (txt _) d (refl, tt) e
  parse_rdata-IsTyped type_srv s d e = srv_of-IsTyped (split_whitespace s) d e
  parse_rdata-IsTyped type_ptr s d e = map-IsTyped ptr type_ptr _ d (λ x. (refl, tt)) e
  parse_rdata-IsTyped type_tlsa s d e = map-IsTyped tlsa type_tlsa _ d (λ x. (refl, tt)) e
  parse_rdata-IsTyped type_sshfp s d e = map-IsTyped sshfp type_sshfp _ d (λ x. (refl, tt)) e
  parse_rdata-IsTyped type_svcb s d e = map-IsTyped svcb type_svcb _ d (λ x. (refl, tt)) e
  parse_rdata-IsTyped type_https s d e = map-IsTyped https type_https _ d (λ x. (refl, tt)) e
  parse_rdata-IsTyped type_aname s d e = map-IsTyped aname type_aname _ d (λ x. (refl, tt)) e
  parse_rdata-IsTyped type_soa s d e = soa_of-IsTyped (split_whitespace s) d e
  parse_rdata-IsTyped _ s d e = ground (arith, e)
