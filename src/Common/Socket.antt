-- ===== src/Common/Socket.antt =====
-- The text form of a socket address that the standard library reads.
use Prim.Native.Nat.{ℕ}
use mathlib.Core.List.{[], ◌∷◌}
use mathlib.Core.Option.{Option, none, some}
use mathlib.Core.Option
use heimdallr.Common.Tests.{ltb, ◌==◌, if◌then◌else◌}
use heimdallr.Common.Text.{Text, split_once, digits_value}
use heimdallr.Common.Addr.{IpAddr, v4, v6, parse_ipv4}
use heimdallr.Common.Ipv6.{parse_ipv6}

below : ℕ → Option ℕ → Option ℕ
below limit none = none
below limit (some n) = if ltb n limit then some n else none

-- digits without a sign
unsigned : ℕ → Text → Option ℕ
unfolding digits_value below
unsigned limit [] = none
unsigned limit (c ∷ s) = below limit (digits_value 0 (c ∷ s))

both : Option IpAddr → Option ℕ → Option (IpAddr × ℕ)
both (some ip) (some port) = some (ip, port)
both _ _ = none

ipv6 : Text → Option IpAddr
unfolding parse_ipv6
ipv6 t = Option.map v6 (parse_ipv6 t)

-- the address if its scope is one
scoped : Option IpAddr → Option ℕ → Option IpAddr
scoped ip none = none
scoped ip (some scope) = ip

-- the address in brackets, with a scope or without one
scoped_ipv6 : Text → Option IpAddr
unfolding ipv6 unsigned scoped split_once
scoped_ipv6 t = elim (split_once b'%' t) [
  | none ↦ ipv6 t
  | some (ip, scope) ↦ scoped (ipv6 ip) (unsigned 4294967296 scope)
]

colon_port : Text → Option ℕ
unfolding unsigned
colon_port [] = none
colon_port (c ∷ s) = if c == b':' then unsigned 65536 s else none

after_bracket : Text → Option (IpAddr × ℕ)
unfolding scoped_ipv6 colon_port both split_once
after_bracket s = elim (split_once b']' s) [
  | none ↦ none
  | some (ip, port) ↦ both (scoped_ipv6 ip) (colon_port port)
]

ipv4 : Text → Option IpAddr
unfolding parse_ipv4
ipv4 t = Option.map v4 (parse_ipv4 t)

-- an IPv4 address and a port
unfoldable pub socket_v4 : Text → Option (IpAddr × ℕ)
unfolding ipv4 unsigned both split_once
socket_v4 t = elim (split_once b':' t) [
  | none ↦ none
  | some (ip, port) ↦ both (ipv4 ip) (unsigned 65536 port)
]

-- `parse::<SocketAddr>()`: the address and the port
unfoldable pub parse_socket_addr : Text → Option (IpAddr × ℕ)
unfolding after_bracket socket_v4
parse_socket_addr [] = none
parse_socket_addr (c ∷ s) = if c == b'[' then after_bracket s else socket_v4 (c ∷ s)
