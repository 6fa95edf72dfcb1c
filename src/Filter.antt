-- ===== src/Filter.antt =====
-- src/core/filter/mod.rs: what is blocked for which client, and the checks of an answer. The
-- regular expressions are those of a crate: their compiled form and its match are parameters.
-- Resource records are the DNS crate's: the model has the data that the filter tells apart.
pub mod Cidr
pub mod Blocking
pub mod Answers
use Prim.Native.Nat.{bit_and}
use heimdallr.Common.{
  ℕ, zero, suc, ◌+◌, ◌-◌, ◌*◌, ◌/◌, ◌%◌, ◌^◌, ◌<◌, Bool, true, false, not, ◌&&◌, ◌||◌, List, [],
  ◌∷◌, ◌++◌, Option, none, some, leb, ltb, ◌==◌, if◌then◌else◌, length, any,
}
use heimdallr.Common.Text.{Text, split_once, parse_uint}
use heimdallr.Common.Addr.{
  Ipv4Addr, Ipv6Addr, IpAddr, v4, v6, unspecified_v4, unspecified_v6, to_u32, parse_ipv4,
}
use heimdallr.Common.Ipv6.{parse_ipv6}
use heimdallr.Metrics.{MetricsRegistry, MetricName, new as new_registry, increment, blocked_total}
use heimdallr.Blocklist.{blocked, load_sources}

pub record Ipv4Cidr : Type 0 where
  pub addr : Ipv4Addr
  pub prefix : ℕ

-- `!0u32 << (32 - prefix)`
unfoldable pub mask : ℕ → ℕ
mask prefix = (2 ^ 32 - 1) * 2 ^ (32 - prefix) % 2 ^ 32

-- `Ipv4Cidr::contains`
unfoldable pub contains : Ipv4Cidr → Ipv4Addr → Bool
unfolding mask
contains net ip =
    if net.prefix == 0
    then true
    else if leb 32 net.prefix
    then (net.addr.a == ip.a)
      && (net.addr.b == ip.b)
      && (net.addr.c == ip.c)
      && (net.addr.d == ip.d)
    else bit_and (to_u32 net.addr) (mask net.prefix) == bit_and (to_u32 ip) (mask net.prefix)

pub data CidrError : Type 0 where
  missing_slash bad_address bad_prefix out_of_range : CidrError

pub data CidrResult : Type 0 where
  ok : Ipv4Cidr → CidrResult
  err : CidrError → CidrResult

unfoldable pub cidr_parts : Option Ipv4Addr → Option ℕ → CidrResult
cidr_parts none prefix = err bad_address
cidr_parts (some addr) none = err bad_prefix
cidr_parts (some addr) (some prefix) =
    if ltb 32 prefix then err out_of_range else ok (record { addr = addr; prefix = prefix })

-- `Ipv4Cidr::from_str`
unfoldable pub from_str : Text → CidrResult
unfolding cidr_parts parse_ipv4 parse_uint split_once
from_str s = elim (split_once b'/' s) [
  | none ↦ err missing_slash
  | some (addr_str, prefix_str) ↦ cidr_parts (parse_ipv4 addr_str) (parse_uint 255 prefix_str)
]

-- `FilterConfig`, with the pairs of `per_client` in the order of the map's iterator
pub record FilterConfig : Type 0 where
  pub blocklists : List Text
  pub allowlists : List Text
  pub regex_blocklist : List Text
  pub per_client : List (Text × Bool)
  pub cname_cloaking : Bool
  pub rebinding : Bool
  pub cname_chain_limit : Option ℕ
  pub sinkhole_v4 : Text
  pub sinkhole_v6 : Text

pub record Filter (Regex : Type 0) : Type 0 where
  pub cname_chain_limit : ℕ
  pub cname_cloaking : Bool
  pub rebinding : Bool
  pub blocklist : List Text
  pub allowlist : List Text
  pub per_client : List (Ipv4Cidr × Bool)
  pub sinkhole_v4 : Ipv4Addr
  pub sinkhole_v6 : Ipv6Addr
  pub regex_blocklist : List Regex

-- the entries of `per_client` that parse
unfoldable pub parse_clients : List (Text × Bool) → List (Ipv4Cidr × Bool)
unfolding from_str
parse_clients [] = []
parse_clients ((cidr, block) ∷ cs) = elim (from_str cidr) [
  | ok net ↦ (net, block) ∷ parse_clients cs
  | err e ↦ parse_clients cs
]

-- `unwrap_or`
unfoldable pub unwrap_or {ℓ} : {A : Type ℓ} → A → Option A → A
unwrap_or d none = d
unwrap_or d (some a) = a

module _ {Regex : Type 0} where
  unfoldable pub compile_all : (Text → Option Regex) → List Text → List Regex
  compile_all compile [] = []
  compile_all compile (pat ∷ pats) = elim (compile pat) [
    | some re ↦ re ∷ compile_all compile pats
    | none ↦ compile_all compile pats
  ]

  -- `Filter::new`
  unfoldable pub new : (Text → Option Text) → (Text → Option Regex) → FilterConfig → Filter Regex
  unfolding parse_clients unwrap_or parse_ipv4 parse_ipv6 load_sources compile_all
  new fetch_text compile cfg = record {
    cname_chain_limit = unwrap_or 8 cfg.cname_chain_limit;
    cname_cloaking = cfg.cname_cloaking;
    rebinding = cfg.rebinding;
    blocklist = load_sources fetch_text cfg.blocklists;
    allowlist = load_sources fetch_text cfg.allowlists;
    per_client = parse_clients cfg.per_client;
    sinkhole_v4 = unwrap_or unspecified_v4 (parse_ipv4 cfg.sinkhole_v4);
    sinkhole_v6 = unwrap_or unspecified_v6 (parse_ipv6 cfg.sinkhole_v6);
    regex_blocklist = compile_all compile cfg.regex_blocklist;
  }

-- the first network of the list that holds the address
unfoldable pub first_match : List (Ipv4Cidr × Bool) → Ipv4Addr → Option Bool
unfolding contains
first_match [] ip = none
first_match ((net, block) ∷ cs) ip = if contains net ip then some block else first_match cs ip

unfoldable pub client_rule : List (Ipv4Cidr × Bool) → IpAddr → Option Bool
unfolding first_match
client_rule cs (v4 ip) = first_match cs ip
client_rule cs (v6 ip) = none

module _ {Regex : Type 0} (is_match : Regex → Text → Bool) where
  -- `is_blocked` behind the client's rule, with the global registry. The registry that the
  -- regular expressions count in is a new one, which nobody sees.
  unfoldable pub by_name : Filter Regex → Text → MetricsRegistry → Bool × MetricsRegistry
  unfolding blocked
  by_name f qname m =
      let listed = blocked f.blocklist f.allowlist qname in
      if any (λ re. is_match re qname) f.regex_blocklist
      then (true, m)
      else (listed, if listed then increment blocked_total 1 m else m)

  -- `Filter::is_blocked`
  unfoldable pub is_blocked :
      Filter Regex → Text → IpAddr → MetricsRegistry → Bool × MetricsRegistry
  unfolding by_name client_rule
  is_blocked f qname client m = elim (client_rule f.per_client client) [
    | some block ↦ (block, m)
    | none ↦ by_name f qname m
  ]
