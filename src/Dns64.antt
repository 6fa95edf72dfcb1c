-- ===== src/Dns64.antt =====
-- src/core/resolver/dns64.rs: IPv6 addresses made from IPv4 answers. Octets are a list, and the
-- assignments to a run of them are one write.
pub mod Embedding
use heimdallr.Common.{
  ℕ, zero, suc, ◌+◌, ◌<◌, Bool, true, false, not, List, [], ◌∷◌, ◌++◌, Option, none, some, ltb,
  ◌==◌, if◌then◌else◌, length, take, drop,
}
use heimdallr.Common.Text.{Text, text_eq, split_once, parse_uint}
use heimdallr.Common.Addr.{Ipv4Addr, Ipv6Addr}
use heimdallr.Common.Ipv6.{parse_ipv6}
use heimdallr.Metrics.{MetricsRegistry, increment, dns64_synthesized_total}

pub record Dns64Prefix : Type 0 where
  pub addr : Ipv6Addr
  pub len : ℕ

prefix_parts : Option Ipv6Addr → Option ℕ → Option Dns64Prefix
prefix_parts none len = none
prefix_parts (some addr) none = none
prefix_parts (some addr) (some len) =
    if ltb 128 len then none else some (record { addr = addr; len = len })

-- `Dns64Prefix::parse`
unfoldable pub parse : Text → Option Dns64Prefix
unfolding prefix_parts split_once parse_ipv6 parse_uint
parse s = elim (split_once b'/' s) [
  | none ↦ none
  | some (addr_str, len_str) ↦ prefix_parts (parse_ipv6 addr_str) (parse_uint 255 len_str)
]

-- the bytes with a block written over them from an index on
unfoldable pub write_at : ℕ → List ℕ → List ℕ → List ℕ
write_at i block bytes = take i bytes ++ (block ++ drop (i + length block) bytes)

-- `v4.octets()`
abbrev pub octets_v4 : Ipv4Addr → List ℕ
octets_v4 ip = ip.a ∷ ip.b ∷ ip.c ∷ ip.d ∷ []

-- `synthesize_one`
unfoldable pub synthesize_one : Ipv4Addr → Dns64Prefix → Option Ipv6Addr
unfolding write_at text_eq
synthesize_one v4 prefix =
    let v6_bytes = prefix.addr.octets in
    if prefix.len == 96
    then if not (text_eq (take 12 v6_bytes) (take 12 prefix.addr.octets))
      then none
      else some (record { octets = write_at 12 (octets_v4 v4) v6_bytes })
    else if prefix.len == 64
    then if not (text_eq (take 8 v6_bytes) (take 8 prefix.addr.octets))
      then none
      else some (record {
        octets = write_at 12 (0 ∷ 0 ∷ 0 ∷ 0 ∷ []) (write_at 8 (octets_v4 v4) v6_bytes);
      })
    else none

unfoldable pub synthesize_each : List Ipv4Addr → Dns64Prefix → List Ipv6Addr
unfolding synthesize_one
synthesize_each [] prefix = []
synthesize_each (v4 ∷ a_records) prefix = elim (synthesize_one v4 prefix) [
  | none ↦ synthesize_each a_records prefix
  | some v6 ↦ v6 ∷ synthesize_each a_records prefix
]

-- `synthesize_aaaa`, with the global registry
unfoldable pub synthesize_aaaa :
    List Ipv4Addr → Dns64Prefix → MetricsRegistry → List Ipv6Addr × MetricsRegistry
unfolding synthesize_each
synthesize_aaaa a_records prefix m =
    let out = synthesize_each a_records prefix in
    (out, if length out == 0 then m else increment dns64_synthesized_total (length out) m)
