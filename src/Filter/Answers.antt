-- ===== src/Filter/Answers.antt =====
-- src/core/filter/mod.rs: the checks of an answer's records. Of the DNS crate's record data the
-- model has what the checks tell apart.
use heimdallr.Common.{
  ℕ, suc, ◌+◌, ◌*◌, ◌/◌, ◌^◌, ◌++◌, ◌⊎◌, ◌<◌, ◌≤◌, Bool, true, false, not, ◌&&◌, ◌||◌, List, [],
  ◌∷◌, leb, ltb, ◌==◌, if◌then◌else◌, any, ◌≡◌, refl, ◌↔◌, arith,
}
use heimdallr.Common.Addr.{Ipv4Addr, Ipv6Addr, to_u32, IsIpv4}
use heimdallr.Metrics.{
  MetricsRegistry, increment, cname_chain_truncated_total, rebinding_detected_total,
}
use heimdallr.Filter.{Filter}
use heimdallr.Dns.Records.{RData, a, aaaa, cname, aname}

is_cname : {Name : Type 0} → RData Name → Bool
is_cname (cname target) = true
is_cname _ = false

is_aname : {Name : Type 0} → RData Name → Bool
is_aname (aname target) = true
is_aname _ = false

-- `dname_cname_coexistence_violation`
unfoldable pub dname_cname_coexistence_violation : {Name : Type 0} → List (RData Name) → Bool
unfolding is_aname is_cname
dname_cname_coexistence_violation records = any is_aname records && any is_cname records

-- `is_private_or_loopback`
unfoldable pub is_private_or_loopback : Ipv4Addr → Bool
is_private_or_loopback ip =
    (ip.a == 127)
    || (ip.a == 10)
    || (ip.a == 172 && leb 16 ip.b && leb ip.b 31)
    || (ip.a == 192 && ip.b == 168)
    || (ip.a == 169 && ip.b == 254)

all_zero : List ℕ → Bool
all_zero [] = true
all_zero (x ∷ xs) = (x == 0) && all_zero xs

zeros_then_one : List ℕ → Bool
zeros_then_one [] = false
zeros_then_one (x ∷ []) = x == 1
zeros_then_one (x ∷ y ∷ xs) = (x == 0) && zeros_then_one (y ∷ xs)

unique_local : List ℕ → Bool
unique_local [] = false
unique_local (x ∷ xs) = x / 2 == 0x7e

-- `is_private_or_loopback_aaaa`
unfoldable pub is_private_or_loopback_aaaa : Ipv6Addr → Bool
unfolding zeros_then_one unique_local all_zero
is_private_or_loopback_aaaa ip =
    zeros_then_one ip.octets || unique_local ip.octets || all_zero ip.octets

-- the address of an answer is an inner one
unfoldable pub points_inside : {Name : Type 0} → RData Name → Bool
unfolding is_private_or_loopback is_private_or_loopback_aaaa
points_inside (a ip) = is_private_or_loopback ip
points_inside (aaaa ip) = is_private_or_loopback_aaaa ip
points_inside _ = false

-- `cname_chain_count`
unfoldable pub cname_chain_count : {Name : Type 0} → List (RData Name) → ℕ
unfolding is_cname
cname_chain_count [] = 0
cname_chain_count (r ∷ records) =
    let rest = cname_chain_count records in if is_cname r then suc rest else rest

module _ {Regex Name : Type 0} where
  -- `cname_chain_truncated`
  unfoldable pub cname_chain_truncated :
      Filter Regex → List (RData Name) → MetricsRegistry → Bool × MetricsRegistry
  unfolding cname_chain_count
  cname_chain_truncated f records m =
      let truncated = f.cname_cloaking && ltb f.cname_chain_limit (cname_chain_count records) in
      (truncated, if truncated then increment cname_chain_truncated_total 1 m else m)

  -- `rebinding_detected`
  unfoldable pub rebinding_detected :
      Filter Regex → List (RData Name) → MetricsRegistry → Bool × MetricsRegistry
  unfolding points_inside
  rebinding_detected f records m =
      let detected = if not f.rebinding then false else any points_inside records in
      (detected, if detected then increment rebinding_detected_total 1 m else m)

-- 10/8, 127/8, 169.254/16, 172.16/12 and 192.168/16, as ranges of integers
abbrev pub IsInner : ℕ → Type 0
IsInner n =
    ((10 * 2 ^ 24 ≤ n) × (n < 11 * 2 ^ 24))
    ⊎ ((127 * 2 ^ 24 ≤ n) × (n < 128 * 2 ^ 24))
    ⊎ ((169 * 2 ^ 24 + 254 * 2 ^ 16 ≤ n) × (n < 169 * 2 ^ 24 + 255 * 2 ^ 16))
    ⊎ ((172 * 2 ^ 24 + 16 * 2 ^ 16 ≤ n) × (n < 172 * 2 ^ 24 + 32 * 2 ^ 16))
    ⊎ ((192 * 2 ^ 24 + 168 * 2 ^ 16 ≤ n) × (n < 192 * 2 ^ 24 + 169 * 2 ^ 16))

-- The test of an IPv4 address accepts exactly the loopback, private and link-local networks.
pub is_private_or_loopback_iff :
    (ip : Ipv4Addr) → IsIpv4 ip → (is_private_or_loopback ip ≡ true) ↔ IsInner (to_u32 ip)
unfolding is_private_or_loopback
is_private_or_loopback_iff ip v = ground arith

any-points_inside :
    {Name : Type 0} (xs ys : List (RData Name)) (r : RData Name)
    → points_inside r ≡ true
    → any points_inside (xs ++ r ∷ ys) ≡ true
any-points_inside [] ys r h = rw h refl
any-points_inside (x ∷ xs) ys r h = ground (arith, any-points_inside xs ys r h)

module _ {Regex Name : Type 0} where
  -- With the check on, an answer that holds, at any place, an IPv4 address of the loopback,
  -- private or link-local networks is reported and counted once; with the check off, no answer
  -- is, and nothing is counted.
  pub rebinding_detected_lem :
      (f : Filter Regex) (xs ys : List (RData Name)) (ip : Ipv4Addr) (m : MetricsRegistry)
      → IsIpv4 ip
      → IsInner (to_u32 ip)
      → rebinding_detected f (xs ++ a ip ∷ ys) m
        ≡ (if f.rebinding then (true, increment rebinding_detected_total 1 m) else (false, m))
  unfolding rebinding_detected
  rebinding_detected_lem f xs ys ip m v h =
      let inside : points_inside {Name = Name} (a ip) ≡ true =
        (is_private_or_loopback_iff ip v).1 h in
      ground (arith, any-points_inside xs ys (a ip) inside)
