-- ===== src/Dns64/Embedding.antt =====
-- Where the IPv4 address stands in the address that is made from it.
use heimdallr.Common.{
  ℕ, zero, suc, ◌+◌, ◌/◌, ◌≤◌, true, ◌≡◌, refl, sym, ap, ◌∙◌, inl, inr, ◌⊎◌, List, [], ◌∷◌, ◌++◌,
  some, ◌==◌, if◌then◌else◌, length, take, drop, arith, length-take, length-drop, length-append,
  append_assoc,
}
use Prim.Derive.{subst}
use heimdallr.Common.Text.{text_eq, text_eq_iff}
use heimdallr.Common.Words.{add64}
use heimdallr.Common.Addr.{Ipv4Addr, Ipv6Addr}
use heimdallr.Metrics.{MetricsRegistry, read, dns64_synthesized_total}
use heimdallr.Metrics.Counters.{HasCounter, read-increment}
use heimdallr.Dns64.{
  Dns64Prefix, write_at, octets_v4, synthesize_one, synthesize_each, synthesize_aaaa,
}

text_eq_refl : (s : List ℕ) → text_eq s s ≡ true
text_eq_refl s = (text_eq_iff s s).1 refl

take-take_append : (i : ℕ) (xs ys : List ℕ) → i ≤ length xs → take i (take i xs ++ ys) ≡ take i xs
take-take_append zero xs ys h = refl
take-take_append (suc i) [] ys h = absurd (omega (arith, h))
take-take_append (suc i) (x ∷ xs) ys h =
    ap (λ t. x ∷ t) (take-take_append i xs ys (omega (arith, h)))

drop-take_append : (i : ℕ) (xs ys : List ℕ) → i ≤ length xs → drop i (take i xs ++ ys) ≡ ys
drop-take_append zero xs ys h = refl
drop-take_append (suc i) [] ys h = absurd (omega (arith, h))
drop-take_append (suc i) (x ∷ xs) ys h = drop-take_append i xs ys (omega (arith, h))

drop_all : (i : ℕ) (xs : List ℕ) → length xs ≤ i → drop i xs ≡ []
drop_all zero [] h = refl
drop_all zero (x ∷ xs) h = absurd (omega (arith, h))
drop_all (suc i) [] h = refl
drop_all (suc i) (x ∷ xs) h = drop_all i xs (omega (arith, h))

-- A prefix of length 96 gives, from any IPv4 address, an address that begins with the prefix's
-- twelve octets and ends with the four of the IPv4 address.
pub synthesize_one-96 :
    (v4 : Ipv4Addr) (addr : Ipv6Addr)
    → length addr.octets ≡ 16
    → (v6 : Ipv6Addr) × (synthesize_one v4 (record { addr = addr; len = 96 }) ≡ some v6)
      × (take 12 v6.octets ≡ take 12 addr.octets)
      × (drop 12 v6.octets ≡ octets_v4 v4)
unfolding synthesize_one
synthesize_one-96 v4 addr h =
    let bytes = addr.octets in
    (
      record { octets = write_at 12 (octets_v4 v4) bytes },
      rw (text_eq_refl (take 12 bytes)) refl,
      take-take_append 12 bytes _ (omega (arith, h)),
      drop-take_append 12 bytes _ (omega (arith, h))
          ∙ ap (λ t. octets_v4 v4 ++ t) (drop_all 16 bytes (omega (arith, h))),
    )

length-synthesize_each :
    (vs : List Ipv4Addr) (p : Dns64Prefix)
    → (p.len ≡ 96) ⊎ (p.len ≡ 64)
    → length (synthesize_each vs p) ≡ length vs
unfolding synthesize_each
length-synthesize_each [] p h = refl
length-synthesize_each (v ∷ vs) p h = ground (
  arith,
  length-synthesize_each vs p h,
  text_eq_refl (take 12 p.addr.octets),
  text_eq_refl (take 8 p.addr.octets),
)

take-plus :
    (n i j : ℕ) (xs ys : List ℕ)
    → n ≡ i + j
    → i ≤ length xs
    → take n (take i xs ++ ys) ≡ take i xs ++ take j ys
take-plus n zero j xs ys e h = ap (λ t. take t ys) (omega (arith, e))
take-plus n (suc i) j [] ys e h = absurd (omega (arith, h))
take-plus zero (suc i) j (x ∷ xs) ys e h = absurd (omega (arith, e))
take-plus (suc n) (suc i) j (x ∷ xs) ys e h =
    ap (λ t. x ∷ t) (take-plus n i j xs ys (omega (arith, e)) (omega (arith, h)))

-- A prefix of length 64 puts the first octet of the IPv4 address at the ninth place (bits 64 to
-- 71 of the address), and the others behind it.
pub synthesize_one-64 :
    (v4 : Ipv4Addr) (addr : Ipv6Addr)
    → length addr.octets ≡ 16
    → (v6 : Ipv6Addr) × (synthesize_one v4 (record { addr = addr; len = 64 }) ≡ some v6)
      × (take 8 v6.octets ≡ take 8 addr.octets)
      × (drop 8 v6.octets ≡ octets_v4 v4 ++ 0 ∷ 0 ∷ 0 ∷ 0 ∷ [])
unfolding synthesize_one
synthesize_one-64 v4 addr h =
    let bytes = addr.octets in
    let pad : List ℕ = 0 ∷ 0 ∷ 0 ∷ 0 ∷ [] in
    let inner = write_at 8 (octets_v4 v4) bytes in
    let len : length inner ≡ 16 = omega (
      arith,
      length-append (take 8 bytes) (octets_v4 v4 ++ drop 12 bytes),
      length-take 8 bytes,
      length-drop 12 bytes,
      h,
    ) in
    let outer : write_at 12 pad inner ≡ take 8 bytes ++ (octets_v4 v4 ++ pad) =
      ap (λ t. t ++ (pad ++ drop 16 inner))
        (take-plus 12 8 4 bytes (octets_v4 v4 ++ drop 12 bytes) refl (omega (arith, h)))
      ∙ ap (λ t. (take 8 bytes ++ octets_v4 v4) ++ (pad ++ t))
          (drop_all 16 inner (omega (arith, len)))
      ∙ append_assoc (take 8 bytes) (octets_v4 v4) pad in
    (
      record { octets = write_at 12 pad inner },
      rw (text_eq_refl (take 8 bytes)) refl,
      ap (take 8) outer ∙ take-take_append 8 bytes _ (omega (arith, h)),
      ap (drop 8) outer ∙ drop-take_append 8 bytes _ (omega (arith, h)),
    )

-- The address begins with the octets of the prefix, and then it has those of the IPv4 address, at
-- its end or, for a prefix of length 64, with four zero octets behind them.
abbrev pub Embeds : Dns64Prefix → Ipv4Addr → Ipv6Addr → Type 0
Embeds p v4 v6 =
    (take (p.len / 8) v6.octets ≡ take (p.len / 8) p.addr.octets)
    × (drop (p.len / 8) v6.octets
        ≡ octets_v4 v4 ++ (if p.len == 96 then [] else 0 ∷ 0 ∷ 0 ∷ 0 ∷ []))

-- one address for each, in their order
abbrev pub EmbedsEach : Dns64Prefix → List Ipv4Addr → List Ipv6Addr → Type 0
EmbedsEach p [] [] = Unit {0}
EmbedsEach p (v4 ∷ vs) (v6 ∷ out) = Embeds p v4 v6 × EmbedsEach p vs out
EmbedsEach p _ _ = ⊥

synthesize_one-Embeds :
    (v4 : Ipv4Addr) (p : Dns64Prefix)
    → (p.len ≡ 96) ⊎ (p.len ≡ 64)
    → length p.addr.octets ≡ 16
    → (v6 : Ipv6Addr) × (synthesize_one v4 p ≡ some v6) × Embeds p v4 v6
synthesize_one-Embeds v4 p (inl is_96) h =
    let (v6, made, front, back) = synthesize_one-96 v4 p.addr h in
    let same : p ≡ record { addr = p.addr; len = 96 } = ground (arith, is_96) in
    subst (λ q. (v6 : Ipv6Addr) × (synthesize_one v4 q ≡ some v6) × Embeds q v4 v6) (sym same)
      (v6, made, (front, back))
synthesize_one-Embeds v4 p (inr is_64) h =
    let (v6, made, front, back) = synthesize_one-64 v4 p.addr h in
    let same : p ≡ record { addr = p.addr; len = 64 } = ground (arith, is_64) in
    subst (λ q. (v6 : Ipv6Addr) × (synthesize_one v4 q ≡ some v6) × Embeds q v4 v6) (sym same)
      (v6, made, (front, back))

synthesize_each-EmbedsEach :
    (vs : List Ipv4Addr) (p : Dns64Prefix)
    → (p.len ≡ 96) ⊎ (p.len ≡ 64)
    → length p.addr.octets ≡ 16
    → EmbedsEach p vs (synthesize_each vs p)
unfolding synthesize_each
synthesize_each-EmbedsEach [] p h full = tt
synthesize_each-EmbedsEach (v4 ∷ vs) p h full =
    let (v6, made, embeds) = synthesize_one-Embeds v4 p h full in
    let each : synthesize_each (v4 ∷ vs) p ≡ v6 ∷ synthesize_each vs p = ground (arith, made) in
    subst (EmbedsEach p (v4 ∷ vs)) (sym each) (embeds, synthesize_each-EmbedsEach vs p h full)

-- With a prefix of 16 octets and length 96 or 64 every address of the answer gives one, in their
-- order: it begins with the octets of the prefix, behind which stand those of the IPv4 address,
-- and, for length 64, four zero octets. Their number is added to the counter of synthesised
-- addresses (modulo 2^64).
pub synthesize_aaaa_lem :
    (vs : List Ipv4Addr) (p : Dns64Prefix) (m : MetricsRegistry)
    → (p.len ≡ 96) ⊎ (p.len ≡ 64)
    → length p.addr.octets ≡ 16
    → HasCounter dns64_synthesized_total m
    → EmbedsEach p vs (synthesize_aaaa vs p m).0
      × (read dns64_synthesized_total (synthesize_aaaa vs p m).1 ≡ (
          if length vs == 0
          then read dns64_synthesized_total m
          else add64 (read dns64_synthesized_total m) (length vs)))
unfolding synthesize_aaaa
synthesize_aaaa_lem vs p m h full has =
    let len = length-synthesize_each vs p h in
    (
      synthesize_each-EmbedsEach vs p h full,
      ground (
        arith,
        len,
        read-increment dns64_synthesized_total dns64_synthesized_total (length vs) m has,
      ),
    )
