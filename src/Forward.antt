-- ===== src/Forward.antt =====
-- src/core/resolver/forward.rs: the helpers of the forwarding authority, on client subnets and on
-- the CNAME records that stand for DNAME ones. Names are the DNS crate's, with their equality.
pub mod Subnet
pub mod Service
pub mod Lookup
pub mod Resolve
pub mod Sound
pub mod Total
pub mod Serving
pub mod Refresh
pub mod Requests
use Prim.Native.Nat.{bit_and}
use heimdallr.Common.{
  ℕ, ◌-◌, ◌*◌, ◌%◌, ◌^◌, List, [], ◌∷◌, Option, none, some, ite, leb, ◌==◌, if◌then◌else◌,
}
use heimdallr.Dns.Records.{Record, aname, cname}
use heimdallr.Common.Addr.{Ipv6Addr, IpAddr, v4, v6, to_u32, from_u32, from_be, to_be}

-- the mask of an IPv4 prefix
unfoldable pub mask_v4 : ℕ → ℕ
mask_v4 source_prefix =
    if source_prefix == 0
    then 0
    else if leb 32 source_prefix
    then 0xffffffff
    else (2 ^ 32 - 1) * 2 ^ (32 - source_prefix) % 2 ^ 32

-- the mask of an IPv6 prefix
unfoldable pub mask_v6 : ℕ → ℕ
mask_v6 source_prefix =
    if source_prefix == 0
    then 0
    else if leb 128 source_prefix
    then 2 ^ 128 - 1
    else (2 ^ 128 - 1) * 2 ^ (128 - source_prefix) % 2 ^ 128

-- `scope_zero_subnet`
unfoldable pub scope_zero_subnet : IpAddr → ℕ → IpAddr × ℕ
unfolding mask_v4 mask_v6 from_be to_be
scope_zero_subnet (v4 ip) source_prefix =
    (v4 (from_u32 (bit_and (to_u32 ip) (mask_v4 source_prefix))), source_prefix)
scope_zero_subnet (v6 ip) source_prefix = (
  v6 (record { octets = to_be 16 (bit_and (from_be 0 ip.octets) (mask_v6 source_prefix)) }),
  source_prefix,
)

-- `extract_ecs_scope`, whatever the request
unfoldable pub extract_ecs_scope : Option (IpAddr × ℕ)
extract_ecs_scope = none

module _ {Name : Type 0} (dec : Discrete Name) where
  -- the record that a DNAME record gives, where the original name is not its target
  unfoldable pub dname_cname : Name → Record Name → Option (Record Name)
  dname_cname original r = elim r.data_ [
    | aname target ↦
        ite (dec target original) none
          (some (record { name = original; ttl = r.ttl; data_ = cname target }))
    | _ ↦ none
  ]

  -- `synthesize_dname_cnames`
  unfoldable pub synthesize_dname_cnames : List (Record Name) → Name → List (Record Name)
  unfolding dname_cname
  synthesize_dname_cnames [] original = []
  synthesize_dname_cnames (r ∷ records) original = elim (dname_cname original r) [
    | none ↦ synthesize_dname_cnames records original
    | some c ↦ c ∷ synthesize_dname_cnames records original
  ]
