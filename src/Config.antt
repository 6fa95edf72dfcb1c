-- ===== src/Config.antt =====
-- src/config/mod.rs: the checks of a configuration, and the names that it gives. Of the
-- configuration the model has the fields that they read.
pub mod Valid
pub mod Defaults
pub mod Tls
use heimdallr.Common.{
  ℕ, zero, suc, ◌+◌, Bool, true, false, not, ◌&&◌, ◌||◌, List, [], ◌∷◌, ◌++◌, Option, none, some,
  ltb, ◌==◌, if◌then◌else◌, any, map,
}
use heimdallr.Common.Text.{Text, codes, text_eq, starts_with, has_char, trim_end_matches}
use heimdallr.Common.Socket.{parse_socket_addr}
use heimdallr.Filter.{FilterConfig}

pub record NxProofConfig : Type 0 where
  pub kind : Text
  pub salt : Option Text
  pub iterations : Option ℕ
  pub opt_out : Option Bool

pub record ZoneConfig : Type 0 where
  pub name : Text
  pub kind : Text
  pub file : Option Text
  pub primaries : List Text
  pub dnssec_signing : Bool
  pub dnssec_algorithm : Text
  pub dnssec_key : Option Text
  pub nx_proof : Option NxProofConfig

pub record TlsConfig : Type 0 where
  pub cert : Option Text
  pub key : Option Text
  pub letsencrypt_dir : Text
  pub self_signed : Bool

pub record Config : Type 0 where
  pub dnssec_provider : Text
  pub forward_protocol : Text
  pub concurrency : ℕ
  pub timeout_ms : ℕ
  pub cache_size : ℕ
  pub listen : List Text
  pub listen_tls : List Text
  pub listen_quic : List Text
  pub listen_https : List Text
  pub api_listen : Text
  pub proxy_protocol : Text
  pub log_level : Text
  pub log_format : Text
  pub zones : List ZoneConfig
  pub zones_dir : Text
  pub host : Text
  pub hostadmin : Option Text
  pub tls : TlsConfig
  pub keys_dir : Text
  pub forwarders : List Text
  pub minimize : Bool
  pub max_iterations : ℕ
  pub ecs : Bool
  pub resolver_dns64_prefix : Option Text
  pub dns64_prefix : Option Text
  pub always_synthesize : Bool
  pub prefetch : ℕ
  pub persistent : Option Text
  pub persistent_max_age_days : ℕ
  pub validation : Bool
  pub proxy_enable : Bool
  pub proxy_allow : List Text
  pub filter : FilterConfig
  pub metrics_enable : Bool
  pub query_log : Option Text

pub data ConfigError : Type 0 where
  bad_provider bad_forward_protocol bad_concurrency bad_timeout bad_cache_size : ConfigError
  bad_listen_address bad_api_listen bad_proxy_protocol bad_log_level bad_log_format : ConfigError
  bad_kind no_file no_primaries bad_algorithm zones_dir_not_absolute : ConfigError

-- `match text { … => {}, other => bail!(…) }`
unfoldable pub one_of : List Text → Text → Bool
one_of words t = any (λ w. text_eq w t) words

-- whether `parse::<SocketAddr>()` succeeds
unfoldable pub is_socket_addr : Text → Bool
unfolding parse_socket_addr
is_socket_addr t = elim (parse_socket_addr t) [ none ↦ false | some address ↦ true ]

-- a check, and the checks behind it
unfoldable pub check : Bool → ConfigError → Option ConfigError → Option ConfigError
check true e rest = rest
check false e rest = some e

unfoldable pub check_all :
    (Text → Bool) → List Text → ConfigError → Option ConfigError → Option ConfigError
check_all test [] e rest = rest
check_all test (t ∷ ts) e rest = check (test t) e (check_all test ts e rest)

has_file : Option Text → Bool
has_file none = false
has_file (some f) = true

has_some : List Text → Bool
has_some [] = false
has_some (x ∷ xs) = true

abbrev pub zone_kinds : List Text
zone_kinds =
    codes "primary"
    ∷ codes "secondary"
    ∷ codes "stub"
    ∷ codes "conditional"
    ∷ codes "forwarder"
    ∷ []

abbrev pub algorithms : List Text
algorithms = codes "ecdsa-p256" ∷ codes "ecdsa-p384" ∷ codes "ed25519" ∷ codes "rsa-sha256" ∷ []

-- the checks of one zone
unfoldable pub check_zone : ZoneConfig → Option ConfigError → Option ConfigError
unfolding one_of has_file has_some
check_zone z rest = check (one_of zone_kinds z.kind) bad_kind (
    check (not (text_eq z.kind (codes "primary") && not (has_file z.file))) no_file (
      check (not (text_eq z.kind (codes "secondary") && not (has_some z.primaries))) no_primaries
        (check (not z.dnssec_signing || one_of algorithms z.dnssec_algorithm) bad_algorithm rest)))

unfoldable pub check_zones : List ZoneConfig → Option ConfigError → Option ConfigError
check_zones [] rest = rest
check_zones (z ∷ zs) rest = check_zone z (check_zones zs rest)

-- `Config::validate`: the first error, if there is one
unfoldable pub validate : Config → Option ConfigError
unfolding one_of
validate c = check (one_of (codes "ring" ∷ codes "botan" ∷ []) c.dnssec_provider) bad_provider (
    check
      (one_of (codes "udp" ∷ codes "tcp" ∷ codes "dot" ∷ codes "doh" ∷ codes "doq" ∷ [])
        c.forward_protocol)
      bad_forward_protocol
      (check (not (c.concurrency == 0)) bad_concurrency (
        check (not (c.timeout_ms == 0)) bad_timeout (
          check (not (c.cache_size == 0)) bad_cache_size (
            check_all is_socket_addr
              (c.listen ++ (c.listen_tls ++ (c.listen_quic ++ c.listen_https))) bad_listen_address
              (check (is_socket_addr c.api_listen) bad_api_listen (
                check (one_of (codes "v1" ∷ codes "v2" ∷ []) c.proxy_protocol) bad_proxy_protocol (
                  check
                    (one_of
                      (codes "trace"
                        ∷ codes "debug"
                        ∷ codes "info"
                        ∷ codes "warn"
                        ∷ codes "error"
                        ∷ [])
                      c.log_level)
                    bad_log_level
                    (check (one_of (codes "json" ∷ codes "text" ∷ []) c.log_format) bad_log_format (
                      check_zones c.zones (
                        check (starts_with (codes "/") c.zones_dir) zones_dir_not_absolute
                          none)))))))))))

-- `email.replace('@', ".")`
unfoldable pub replace_at : Text → Text
replace_at [] = []
replace_at (c ∷ s) = (if c == b'@' then b'.' else c) ∷ replace_at s

unfoldable pub default_admin : Option Text → Text
default_admin none = codes "hostadmin"
default_admin (some email) = email

-- `soa_rname`
unfoldable pub soa_rname : Config → Text
unfolding replace_at default_admin has_char
soa_rname c =
    let email = default_admin c.hostadmin in
    if has_char b'@' email then replace_at email else email ++ b'.' ∷ trim_end_matches b'.' c.host

-- `ns_name`
unfoldable pub ns_name : Text → Text
ns_name zone_name = codes "ns1." ++ trim_end_matches b'.' zone_name
