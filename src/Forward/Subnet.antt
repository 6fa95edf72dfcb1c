-- ===== src/Forward/Subnet.antt =====
-- Client subnets with their host bits cleared.
use Prim.Native.Nat.{bit_and}
use native.Mathlib.Nat.{one-le-pow, div-mul-le_self}
use heimdallr.Common.{
  ℕ, zero, suc, ◌-◌, ◌*◌, ◌/◌, ◌^◌, ◌<◌, ◌≤◌, true, false, ◌≡◌, sym, ap, ◌∙◌, ◌↔◌, arith, leb, ◌==◌,
  Bool-cases, inl, inr,
}
use heimdallr.Common.Addr.{
  Ipv4Addr, IsIpv4, IpAddr, v4, v6, to_u32, from_u32, to_u32-lt, to_u32-from_u32,
}
use heimdallr.Common.Bits.{bit_and_top}
use heimdallr.Filter.{Ipv4Cidr, contains, mask}
use heimdallr.Filter.Cidr.{contains_iff, masked, scale_cancel}
use heimdallr.Forward.{mask_v4, scope_zero_subnet}

bit_and-mask_v4 :
    (p x : ℕ) → p ≤ 32 → x < 2 ^ 32 → bit_and x (mask_v4 p) ≡ x / 2 ^ (32 - p) * 2 ^ (32 - p)
unfolding mask_v4
bit_and-mask_v4 zero x h k = bit_and_top 32 0 x (omega (arith, k))
bit_and-mask_v4 (suc p) x h k = elim (Bool-cases (leb 32 (suc p))) [
  | inl full ↦
      let e : suc p ≡ 32 = ground (arith, full, h) in rw e (bit_and_top 0 32 x (omega (arith, k)))
  | inr part ↦
      let nonzero : (suc p == 0) ≡ false = ground arith in
      rw (nonzero, part) (unfold mask in masked (suc p) x (ground (arith, part)) k)
]

-- the integer of an IPv4 address
integer : IpAddr → ℕ
integer (v4 ip) = to_u32 ip
integer (v6 ip) = 0

to_u32-scope_zero :
    (x : Ipv4Addr) (p : ℕ)
    → IsIpv4 x
    → p ≤ 32
    → integer (scope_zero_subnet (v4 x) p).0 ≡ to_u32 x / 2 ^ (32 - p) * 2 ^ (32 - p)
unfolding scope_zero_subnet integer
to_u32-scope_zero x p v h =
    let cut = bit_and-mask_v4 p (to_u32 x) h (to_u32-lt x v) in
    let less = div-mul-le_self (to_u32 x) (2 ^ (32 - p)) in
    to_u32-from_u32 (bit_and (to_u32 x) (mask_v4 p)) (omega (arith, cut, less, to_u32-lt x v)) ∙ cut

-- Two IPv4 clients are reduced to the same subnet exactly if the network of the one, with the
-- prefix given (at most 32), holds the other.
pub scope_zero_subnet_iff :
    (x y : Ipv4Addr) (p : ℕ)
    → IsIpv4 x
    → IsIpv4 y
    → p ≤ 32
    → (scope_zero_subnet (v4 x) p ≡ scope_zero_subnet (v4 y) p)
      ↔ (contains (record { addr = x; prefix = p }) y ≡ true)
unfolding scope_zero_subnet
scope_zero_subnet_iff x y p vx vy h =
    let b = 2 ^ (32 - p) in
    let cx = bit_and-mask_v4 p (to_u32 x) h (to_u32-lt x vx) in
    let cy = bit_and-mask_v4 p (to_u32 y) h (to_u32-lt y vy) in
    let network : Ipv4Cidr = record { addr = x; prefix = p } in
    let holds = contains_iff network y (record { address = vx; prefix_le = h }) vy in
    (
      λ e. holds.1 (
          scale_cancel _ _ b (one-le-pow (32 - p) 2 (omega arith)) (
            sym (to_u32-scope_zero x p vx h)
            ∙ ap (λ r. integer r.0) e
            ∙ to_u32-scope_zero y p vy h)),
      λ e. ap (λ n. (v4 (from_u32 n), p)) (cx ∙ ap (λ t. t * b) (holds.0 e) ∙ sym cy),
    )
