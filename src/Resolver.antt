-- ===== src/Resolver.antt =====
-- src/core/resolver/mod.rs: the set-up of the upstream resolver from the configuration. The
-- resolver is another crate's: what is built here is the servers and the options that it gets.
-- Whether the crate's builder
-- takes them, whether the stub file of systemd-resolved exists, and what the system's resolv.conf
-- holds, are arguments.
pub mod Asked
pub mod System
pub mod Servers
use heimdallr.Common.{
  ℕ, Bool, true, false, ◌≡◌, refl, List, [], ◌∷◌, ◌++◌, Option, none, some, if◌then◌else◌, any,
}
use heimdallr.Common.Addr.{IpAddr, v4}
use heimdallr.Common.Socket.{parse_socket_addr}
use heimdallr.Common.Text.{Text, codes, text_eq, lines, trim, strip_prefix, split}
use heimdallr.Config.{Config}
use heimdallr.ZoneRecord.{◌>>=◌}

-- how a server is asked: the encrypted protocols with the name that its certificate has
pub data Transport : Type 0 where
  udp tcp : Transport
  tls https quic : Text → Transport

pub record NameServerConfig : Type 0 where
  pub ip : IpAddr
  pub transport : Transport
  -- set, or left as the crate has it
  pub trust_negative_responses : Option Bool

pub record ResolverOpts : Type 0 where
  pub timeout_ms : ℕ
  pub attempts : ℕ
  pub recursion_desired : Bool
  pub validate : Bool
  pub root_anchors : Bool

pub record ResolverWrap : Type 0 where
  pub servers : List NameServerConfig
  pub opts : ResolverOpts
  pub dnssec_enabled : Bool

-- `SYSTEMD_RESOLVED_STUB`
abbrev pub systemd_resolved_stub : Text
systemd_resolved_stub = codes "127.0.0.53:53"

is_stub : Option Text → Bool
unfolding text_eq trim
is_stub none = false
is_stub (some ns) = text_eq (trim ns) (codes "127.0.0.53")

-- a line of resolv.conf that names the stub
unfoldable pub names_stub : Text → Bool
unfolding is_stub strip_prefix trim
names_stub line = is_stub (strip_prefix (codes "nameserver") (trim line))

in_resolv_conf : Option Text → Bool
unfolding names_stub lines
in_resolv_conf none = false
in_resolv_conf (some content) = any names_stub (lines content)

-- `detect_system_resolver`
unfoldable pub detect_system_resolver : Bool → Option Text → Option Text
unfolding in_resolv_conf
detect_system_resolver stub_exists resolv_conf =
    if stub_exists
    then some systemd_resolved_stub
    else if in_resolv_conf resolv_conf
    then some systemd_resolved_stub
    else none

first_piece : List Text → Text
first_piece [] = codes "1.1.1.1"
first_piece (p ∷ ps) = p

-- `extract_tls_host`
unfoldable pub extract_tls_host : List Text → Text
unfolding first_piece split
extract_tls_host [] = codes "1.1.1.1"
extract_tls_host (f ∷ fs) = first_piece (split b':' f)

-- the `match` on the protocol
unfoldable pub transport_of : Text → Text → Transport
unfolding text_eq
transport_of protocol tls_host =
    if text_eq protocol (codes "udp")
    then udp
    else if text_eq protocol (codes "tcp")
    then tcp
    else if text_eq protocol (codes "dot")
    then tls tls_host
    else if text_eq protocol (codes "doh")
    then https tls_host
    else if text_eq protocol (codes "doq")
    then quic tls_host
    else udp

-- the server of an address, whose port is left out
unfoldable pub server_at : Transport → Option Bool → IpAddr × ℕ → NameServerConfig
server_at transport trust (ip, port) = record {
  ip = ip;
  transport = transport;
  trust_negative_responses = trust;
}

-- the loop over the forwarders
unfoldable pub forwarder_servers : Transport → List Text → Option (List NameServerConfig)
unfolding parse_socket_addr server_at
forwarder_servers transport [] = some []
forwarder_servers transport (f ∷ fs) = do
  addr ← parse_socket_addr f
  rest ← forwarder_servers transport fs
  some (server_at transport none addr ∷ rest)

-- the fallback to the system's resolver, whose text is the constant above
unfoldable pub system_servers : Option Text → List NameServerConfig
unfolding parse_socket_addr server_at
system_servers none = []
system_servers (some sys_addr) = elim (parse_socket_addr sys_addr) [
  | none ↦ []
  | some addr ↦ server_at udp (some true) addr ∷ []
]

-- `from_config`
unfoldable pub from_config :
    (ResolverWrap → Bool) → Bool → Option Text → Config → Bool → Option ResolverWrap
unfolding extract_tls_host transport_of forwarder_servers detect_system_resolver system_servers
from_config build stub_exists resolv_conf cfg dnssec_enabled = do
  servers ←
      forwarder_servers (transport_of cfg.forward_protocol (extract_tls_host cfg.forwarders))
        cfg.forwarders
  let resolver : ResolverWrap = record {
    servers = servers ++ system_servers (detect_system_resolver stub_exists resolv_conf);
    opts = record {
      timeout_ms = cfg.timeout_ms;
      attempts = cfg.concurrency;
      recursion_desired = true;
      validate = dnssec_enabled;
      root_anchors = dnssec_enabled;
    };
    dnssec_enabled = dnssec_enabled;
  }
  if build resolver then some resolver else none
