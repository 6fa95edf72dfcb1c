-- ===== src/Common/Addr.antt =====
-- IP addresses of the standard library: their octets, the integers they stand for, and the
-- dotted text form of an IPv4 address.
use Prim.Native.Nat.{ℕ, zero, suc, ◌+◌, ◌*◌, ◌/◌, ◌%◌, ◌<◌, ◌^◌}
use mathlib.Core.Path.{◌≡◌}
use mathlib.Core.List.{List, [], ◌∷◌, ◌++◌}
use mathlib.Core.Option.{Option, none, some}
use native.Mathlib.Omega.{arith}
use heimdallr.Common.Tests.{◌==◌, if◌then◌else◌}
use heimdallr.Common.Text.{Text, split, parse_uint, parse_uint-le}

pub record Ipv4Addr : Type 0 where
  pub a : ℕ
  pub b : ℕ
  pub c : ℕ
  pub d : ℕ

-- the sixteen octets
pub record Ipv6Addr : Type 0 where
  pub octets : List ℕ

pub data IpAddr : Type 0 where
  v4 : Ipv4Addr → IpAddr
  v6 : Ipv6Addr → IpAddr

abbrev pub unspecified_v4 : Ipv4Addr
unspecified_v4 = record { a = 0; b = 0; c = 0; d = 0 }

abbrev pub unspecified_v6 : Ipv6Addr
unspecified_v6 = record {
  octets = 0 ∷ 0 ∷ 0 ∷ 0 ∷ 0 ∷ 0 ∷ 0 ∷ 0 ∷ 0 ∷ 0 ∷ 0 ∷ 0 ∷ 0 ∷ 0 ∷ 0 ∷ 0 ∷ [];
}

-- `from_be_bytes`, with the value read so far
unfoldable pub from_be : ℕ → List ℕ → ℕ
from_be acc [] = acc
from_be acc (x ∷ xs) = from_be (acc * 256 + x) xs

-- `to_be_bytes` of a word of `w` bytes
unfoldable pub to_be : ℕ → ℕ → List ℕ
to_be zero n = []
to_be (suc w) n = to_be w (n / 256) ++ (n % 256) ∷ []

abbrev pub u16_from_be : ℕ → ℕ → ℕ
u16_from_be x y = x * 256 + y

-- `u32::from(v4)`
abbrev pub to_u32 : Ipv4Addr → ℕ
to_u32 ip = ip.a * 2 ^ 24 + ip.b * 2 ^ 16 + ip.c * 2 ^ 8 + ip.d

-- `Ipv4Addr::from(u32)`
abbrev pub from_u32 : ℕ → Ipv4Addr
from_u32 n = record { a = n / 2 ^ 24 % 256; b = n / 2 ^ 16 % 256; c = n / 2 ^ 8 % 256; d = n % 256 }

pub record IsIpv4 (ip : Ipv4Addr) : Type 0 where
  pub a_lt : ip.a < 256
  pub b_lt : ip.b < 256
  pub c_lt : ip.c < 256
  pub d_lt : ip.d < 256

pub to_u32-lt : (ip : Ipv4Addr) → IsIpv4 ip → to_u32 ip < 2 ^ 32
to_u32-lt ip v = omega arith

pub from_u32-to_u32 : (ip : Ipv4Addr) → IsIpv4 ip → from_u32 (to_u32 ip) ≡ ip
from_u32-to_u32 ip v = ground arith

pub to_u32-from_u32 : (n : ℕ) → n < 2 ^ 32 → to_u32 (from_u32 n) ≡ n
to_u32-from_u32 n h = omega arith

-- an octet in decimal: no sign, no leading zero
parse_octet : Text → Option ℕ
parse_octet [] = none
parse_octet (c ∷ []) = if c == b'+' then none else parse_uint 255 (c ∷ [])
parse_octet (c ∷ e ∷ s) =
    if c == b'+' then none else if c == b'0' then none else parse_uint 255 (c ∷ e ∷ s)

four : List (Option ℕ) → Option Ipv4Addr
four (some w ∷ some x ∷ some y ∷ some z ∷ []) = some (record { a = w; b = x; c = y; d = z })
four _ = none

octets_of : List Text → List (Option ℕ)
unfolding parse_octet parse_uint
octets_of [] = []
octets_of (p ∷ ps) = parse_octet p ∷ octets_of ps

-- `parse::<Ipv4Addr>()`
unfoldable pub parse_ipv4 : Text → Option Ipv4Addr
unfolding four octets_of split
parse_ipv4 s = four (octets_of (split b'.' s))

parse_octet-lt : (s : Text) (n : ℕ) → parse_octet s ≡ some n → n < 256
unfolding parse_octet
parse_octet-lt [] n h = ground (arith, h)
parse_octet-lt (c ∷ []) n h = ground (arith, parse_uint-le 255 (c ∷ []) n, h)
parse_octet-lt (c ∷ e ∷ s) n h = ground (arith, parse_uint-le 255 (c ∷ e ∷ s) n, h)

four-IsIpv4 : (ps : List Text) (ip : Ipv4Addr) → four (octets_of ps) ≡ some ip → IsIpv4 ip
unfolding four octets_of
four-IsIpv4 (p ∷ q ∷ r ∷ s ∷ []) ip h =
    let lt_p = parse_octet-lt p in
    let lt_q = parse_octet-lt q in
    let lt_r = parse_octet-lt r in let lt_s = parse_octet-lt s in ground arith
four-IsIpv4 _ ip h = ground arith

pub parse_ipv4-IsIpv4 : (s : Text) (ip : Ipv4Addr) → parse_ipv4 s ≡ some ip → IsIpv4 ip
unfolding parse_ipv4
parse_ipv4-IsIpv4 s ip h = four-IsIpv4 (split b'.' s) ip h
