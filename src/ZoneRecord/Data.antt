-- ===== src/ZoneRecord/Data.antt =====
-- src/core/zone/record.rs: `parse_rdata`. The parsing of names and of the data that the program
-- hands on to the DNS crate (SSHFP, SVCB and HTTPS) is the crate's. A signed 32-bit number is its
-- sign and its magnitude.
pub mod Typed
use heimdallr.Common.{
  ℕ, Bool, true, false, ◌≡◌, refl, ap, ◌∙◌, arith, List, [], ◌∷◌, Option, none, some, leb, ◌==◌,
  if◌then◌else◌,
}
use mathlib.Core.Option
use heimdallr.Common.Addr.{Ipv4Addr, Ipv6Addr, parse_ipv4}
use heimdallr.Common.Ipv6.{parse_ipv6}
use heimdallr.Common.Text.{
  Text, codes, split_whitespace, strip_prefix, parse_uint, parse_digits, trim_start,
  trim_end_matches,
}
use heimdallr.Dns.{
  RecordType, a as type_a, aaaa as type_aaaa, cname as type_cname, mx as type_mx, ns as type_ns,
  soa as type_soa, txt as type_txt, srv as type_srv, ptr as type_ptr, tlsa as type_tlsa,
  sshfp as type_sshfp, https as type_https, svcb as type_svcb, aname as type_aname,
}
use heimdallr.ZoneRecord.{◌>>=◌, bind_cases, Matching, Tlsa, parse_tlsa_data}

-- the data that can be inserted. `Sshfp` and `Svcb` are the crate's.
pub data Parsed (Name Sshfp Svcb : Type 0) : Type 0 where
  a : Ipv4Addr → Parsed Name Sshfp Svcb
  aaaa : Ipv6Addr → Parsed Name Sshfp Svcb
  cname ns ptr aname : Name → Parsed Name Sshfp Svcb
  mx : ℕ → Name → Parsed Name Sshfp Svcb
  txt : Text → Parsed Name Sshfp Svcb
  srv : ℕ → ℕ → ℕ → Name → Parsed Name Sshfp Svcb
  tlsa : Tlsa → Parsed Name Sshfp Svcb
  sshfp : Sshfp → Parsed Name Sshfp Svcb
  svcb https : Svcb → Parsed Name Sshfp Svcb
  soa : Name → Name → ℕ → Bool × ℕ → Bool × ℕ → Bool × ℕ → ℕ → Parsed Name Sshfp Svcb

-- `trim_matches(c)`
unfoldable pub trim_matches : ℕ → Text → Text
unfolding trim_end_matches
trim_matches c [] = []
trim_matches c (x ∷ s) = if x == c then trim_matches c s else trim_end_matches c (x ∷ s)

-- `parse::<i32>()`
unfoldable pub parse_i32 : Text → Option (Bool × ℕ)
unfolding parse_uint parse_digits strip_prefix
parse_i32 s = elim (strip_prefix (codes "-") s) [
  | none ↦ Option.map (λ n. (false, n)) (parse_uint 2147483647 s)
  | some digits ↦
      Option.map (λ n. if n == 0 then (false, 0) else (true, n)) (parse_digits 2147483648 digits)
]

-- the type of the data
unfoldable pub type_of : {Name Sshfp Svcb : Type 0} → Parsed Name Sshfp Svcb → RecordType
type_of (a ip) = type_a
type_of (aaaa ip) = type_aaaa
type_of (cname n) = type_cname
type_of (ns n) = type_ns
type_of (ptr n) = type_ptr
type_of (aname n) = type_aname
type_of (mx preference n) = type_mx
type_of (txt t) = type_txt
type_of (srv priority weight port n) = type_srv
type_of (tlsa t) = type_tlsa
type_of (sshfp s) = type_sshfp
type_of (svcb s) = type_svcb
type_of (https s) = type_https
type_of (soa mname rname serial refresh retry expire minimum) = type_soa

-- the crate's parsers
pub record Parsers (Name Sshfp Svcb : Type 0) : Type 0 where
  pub from_ascii : Text → Option Name
  pub parse_sshfp : Text → Option Sshfp
  pub parse_svcb : Text → Option Svcb
  pub parse_https : Text → Option Svcb
  pub matching_from : ℕ → Matching
  pub hex_decode : Text → Option (List ℕ)

module _ {Name Sshfp Svcb : Type 0} (p : Parsers Name Sshfp Svcb) where
  unfoldable pub mx_of : List Text → Option (Parsed Name Sshfp Svcb)
  unfolding parse_uint
  mx_of (x ∷ y ∷ []) = do
    preference ← parse_uint 65535 x
    exchange ← p.from_ascii y
    some (mx preference exchange)
  mx_of _ = none

  unfoldable pub srv_of : List Text → Option (Parsed Name Sshfp Svcb)
  unfolding parse_uint
  srv_of (x ∷ y ∷ z ∷ t ∷ []) = do
    priority ← parse_uint 65535 x
    weight ← parse_uint 65535 y
    port ← parse_uint 65535 z
    target ← p.from_ascii t
    some (srv priority weight port target)
  srv_of _ = none

  unfoldable pub soa_of : List Text → Option (Parsed Name Sshfp Svcb)
  unfolding parse_uint parse_i32
  soa_of (m ∷ r ∷ s ∷ f ∷ t ∷ e ∷ n ∷ []) = do
    mname ← p.from_ascii m
    rname ← p.from_ascii r
    serial ← parse_uint 4294967295 s
    refresh ← parse_i32 f
    retry ← parse_i32 t
    expire ← parse_i32 e
    minimum ← parse_uint 4294967295 n
    some (soa mname rname serial refresh retry expire minimum)
  soa_of _ = none

  -- `parse_rdata`
  unfoldable pub parse_rdata : RecordType → Text → Option (Parsed Name Sshfp Svcb)
  unfolding parse_ipv4 parse_ipv6 split_whitespace trim_matches mx_of srv_of soa_of parse_tlsa_data
  parse_rdata type_a s = Option.map a (parse_ipv4 s)
  parse_rdata type_aaaa s = Option.map aaaa (parse_ipv6 s)
  parse_rdata type_cname s = Option.map cname (p.from_ascii s)
  parse_rdata type_ns s = Option.map ns (p.from_ascii s)
  parse_rdata type_mx s = mx_of (split_whitespace s)
  parse_rdata type_txt s = some (txt (trim_matches b'\'' (trim_matches b'"' s)))
  parse_rdata type_srv s = srv_of (split_whitespace s)
  parse_rdata type_ptr s = Option.map ptr (p.from_ascii s)
  parse_rdata type_tlsa s = Option.map tlsa (parse_tlsa_data p.matching_from p.hex_decode s)
  parse_rdata type_sshfp s = Option.map sshfp (p.parse_sshfp s)
  parse_rdata type_svcb s = Option.map svcb (p.parse_svcb s)
  parse_rdata type_https s = Option.map https (p.parse_https s)
  parse_rdata type_aname s = Option.map aname (p.from_ascii s)
  parse_rdata type_soa s = soa_of (split_whitespace s)
  parse_rdata _ s = none
