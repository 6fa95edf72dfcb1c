-- ===== src/Filter/Cidr.antt =====
-- Networks in CIDR notation.
use Prim.Native.Nat.{bit_and}
use native.Mathlib.Nat.{one-le-pow}
use heimdallr.Common.{
  ℕ, zero, suc, ◌-◌, ◌*◌, ◌/◌, ◌^◌, ◌<◌, ◌≤◌, Bool, true, false, ◌≡◌, refl, ap, ◌↔◌, leb, ◌==◌,
  arith, Bool-cases, inl, inr, none, some,
}
use heimdallr.Common.Addr.{Ipv4Addr, IsIpv4, to_u32, to_u32-lt, parse_ipv4, parse_ipv4-IsIpv4}
use heimdallr.Common.Bits.{bit_and_top}
use heimdallr.Common.Text.{Text, split_once, parse_uint}
use heimdallr.Common.{Option, Option-cases, ℕ_discrete, ◌&&◌}
use heimdallr.Filter.{Ipv4Cidr, contains, mask, cidr_parts, from_str, ok}

pub record IsCidr (net : Ipv4Cidr) : Type 0 where
  pub address : IsIpv4 net.addr
  pub prefix_le : net.prefix ≤ 32

all_below : ℕ → (ℕ → Bool) → Bool
all_below zero test = true
all_below (suc n) test = all_below n test && test n

all_below_elim : (n : ℕ) (test : ℕ → Bool) (i : ℕ) → all_below n test ≡ true → i < n → test i ≡ true
unfolding all_below
all_below_elim zero test i h k = absurd (omega (arith, k))
all_below_elim (suc n) test i h k = elim (ℕ_discrete i n) [
  | yes same ↦ rw same (ground (arith, h))
  | no other ↦ all_below_elim n test i (ground (arith, h)) (omega (arith, k, other))
]

mask_test : ℕ → Bool
unfolding mask
mask_test p = (mask p == (2 ^ p - 1) * 2 ^ (32 - p)) && (2 ^ (32 - p) * 2 ^ p == 2 ^ 32)

mask_lem :
    (p : ℕ) → p < 32 → (mask p ≡ (2 ^ p - 1) * 2 ^ (32 - p)) × (2 ^ (32 - p) * 2 ^ p ≡ 2 ^ 32)
unfolding mask_test
mask_lem p h =
    let both = all_below_elim 32 mask_test p (unfold all_below in refl) h in ground (arith, both)

pub scale_cancel : (x y b : ℕ) → 0 < b → x * b ≡ y * b → x ≡ y
scale_cancel x y b h e = grind (arith, h, e)

pub masked : (p x : ℕ) → p < 32 → x < 2 ^ 32 → bit_and x (mask p) ≡ x / 2 ^ (32 - p) * 2 ^ (32 - p)
masked p x h k = let (m, whole) = mask_lem p h in rw m (bit_and_top (32 - p) p x (rw whole k))

masked_iff :
    (p x y : ℕ)
    → p < 32
    → x < 2 ^ 32
    → y < 2 ^ 32
    → ((bit_and x (mask p) == bit_and y (mask p)) ≡ true) ↔ (x / 2 ^ (32 - p) ≡ y / 2 ^ (32 - p))
masked_iff p x y h hx hy =
    let positive = one-le-pow (32 - p) 2 (omega arith) in
    rw (masked p x h hx, masked p y h hy)
      (
        λ e. scale_cancel _ _ (2 ^ (32 - p)) positive (ground (arith, e)),
        λ e. ground (arith, ap (λ t. t * 2 ^ (32 - p)) e),
      )

same_address :
    (x y : Ipv4Addr)
    → IsIpv4 x
    → IsIpv4 y
    → (((x.a == y.a) && (x.b == y.b) && (x.c == y.c) && (x.d == y.d)) ≡ true)
      ↔ (to_u32 x ≡ to_u32 y)
same_address x y v w = ground arith

contains-zero : (x ip : Ipv4Addr) → contains (record { addr = x; prefix = 0 }) ip ≡ true
unfolding contains
contains-zero x ip = refl

contains_at :
    (x ip : Ipv4Addr) (p : ℕ)
    → p ≤ 32
    → IsIpv4 x
    → IsIpv4 ip
    → (contains (record { addr = x; prefix = p }) ip ≡ true)
      ↔ (to_u32 x / 2 ^ (32 - p) ≡ to_u32 ip / 2 ^ (32 - p))
unfolding contains
contains_at x ip zero h v w =
    let hx = to_u32-lt x v in let hy = to_u32-lt ip w in (λ _. omega (arith, hx, hy), λ _. refl)
contains_at x ip (suc p) h v w = elim (Bool-cases (leb 32 (suc p))) [
  | inl full ↦
      let e : suc p ≡ 32 = ground (arith, full, h) in
      rw e (
        λ c. ap (λ t. t / 1) ((same_address x ip v w).0 c),
        λ c. (same_address x ip v w).1 (omega (arith, c)),
      )
  | inr part ↦
      let nonzero : (suc p == 0) ≡ false = ground arith in
      rw (nonzero, part)
        (masked_iff (suc p) (to_u32 x) (to_u32 ip) (ground (arith, part)) (to_u32-lt x v)
          (to_u32-lt ip w))
]

-- A network whose prefix is at most 32 holds exactly the addresses that agree with its own in
-- the first `prefix` bits.
pub contains_iff :
    (net : Ipv4Cidr) (ip : Ipv4Addr)
    → IsCidr net
    → IsIpv4 ip
    → (contains net ip ≡ true)
      ↔ (to_u32 net.addr / 2 ^ (32 - net.prefix) ≡ to_u32 ip / 2 ^ (32 - net.prefix))
contains_iff net ip v w = contains_at net.addr ip net.prefix v.prefix_le v.address w

cidr_parts-IsCidr :
    (x : Option Ipv4Addr) (p : Option ℕ) (net : Ipv4Cidr)
    → ((ip : Ipv4Addr) → x ≡ some ip → IsIpv4 ip)
    → cidr_parts x p ≡ ok net
    → IsCidr net
unfolding cidr_parts
cidr_parts-IsCidr none p net v h = ground (arith, h)
cidr_parts-IsCidr (some x) none net v h = ground (arith, h)
cidr_parts-IsCidr (some x) (some p) net v h =
    let valid = v x refl in
    let same : (net.addr ≡ x) × (net.prefix ≡ p) × (p ≤ 32) = ground (arith, h) in
    record { address = rw (same.0) valid; prefix_le = omega (arith, same.1, same.2) }

-- Whatever text is parsed as a network, its prefix is at most 32 and its address has four octets.
pub from_str-IsCidr : (s : Text) (net : Ipv4Cidr) → from_str s ≡ ok net → IsCidr net
unfolding from_str
from_str-IsCidr s net h = elim (Option-cases (split_once b'/' s)) [
  | inl no_slash ↦ ground (arith, no_slash, h)
  | inr ((addr_str, prefix_str), found) ↦
      let e : cidr_parts (parse_ipv4 addr_str) (parse_uint 255 prefix_str) ≡ ok net =
        rw (found, from_str) at h in
      cidr_parts-IsCidr (parse_ipv4 addr_str) (parse_uint 255 prefix_str) net
        (λ ip. parse_ipv4-IsIpv4 addr_str ip) e
]
