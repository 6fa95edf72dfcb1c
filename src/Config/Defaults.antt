-- ===== src/Config/Defaults.antt =====
-- The default configuration of src/config/mod.rs.
use heimdallr.Common.{ℕ, List, Option, true, false, ◌≡◌, refl, [], ◌∷◌, none, some}
use heimdallr.Common.Text.{Text, codes, text_eq, starts_with}
use heimdallr.Config.{Config, TlsConfig, validate, check, check_all, check_zones, is_socket_addr}
use heimdallr.Filter.{FilterConfig}

-- the defaults of single fields
abbrev pub default_host : Text
default_host = codes "localhost"

abbrev pub default_zones_dir : Text
default_zones_dir = codes "/etc/heimdallr/zones"

abbrev pub default_forwarders : List Text
default_forwarders = codes "1.1.1.1:53" ∷ codes "8.8.8.8:53" ∷ []

abbrev pub default_forward_protocol : Text
default_forward_protocol = codes "udp"

abbrev pub default_qmin_max_iterations : ℕ
default_qmin_max_iterations = 7

abbrev pub default_concurrency : ℕ
default_concurrency = 2

abbrev pub default_timeout_ms : ℕ
default_timeout_ms = 2000

abbrev pub default_cache_size : ℕ
default_cache_size = 50_000

abbrev pub default_prefetch : ℕ
default_prefetch = 2

abbrev pub default_persistent_max_age_days : ℕ
default_persistent_max_age_days = 7

abbrev pub default_provider : Text
default_provider = codes "ring"

abbrev pub default_sinkhole_v4 : Text
default_sinkhole_v4 = codes "0.0.0.0"

abbrev pub default_sinkhole_v6 : Text
default_sinkhole_v6 = codes "::"

abbrev pub default_cname_chain_limit : Option ℕ
default_cname_chain_limit = some 8

abbrev pub default_proxy_proto : Text
default_proxy_proto = codes "v2"

abbrev pub default_api_listen : Text
default_api_listen = codes "127.0.0.1:5380"

abbrev pub default_log_level : Text
default_log_level = codes "info"

abbrev pub default_log_format : Text
default_log_format = codes "text"

abbrev pub default_keys_dir : Text
default_keys_dir = codes "/var/lib/heimdallr/keys"

abbrev pub default_letsencrypt_dir : Text
default_letsencrypt_dir = codes "/etc/letsencrypt/live"

-- `FilterConfig::default`
abbrev pub default_filter : FilterConfig
default_filter = record {
  blocklists = [];
  allowlists = [];
  regex_blocklist = [];
  per_client = [];
  cname_cloaking = true;
  rebinding = true;
  cname_chain_limit = default_cname_chain_limit;
  sinkhole_v4 = default_sinkhole_v4;
  sinkhole_v6 = default_sinkhole_v6;
}

-- `TlsConfig::default`
abbrev pub default_tls : TlsConfig
default_tls = record {
  cert = none;
  key = none;
  letsencrypt_dir = default_letsencrypt_dir;
  self_signed = false;
}

-- `Config::default`
abbrev pub default_config : Config
default_config = record {
  dnssec_provider = default_provider;
  forward_protocol = default_forward_protocol;
  concurrency = default_concurrency;
  timeout_ms = default_timeout_ms;
  cache_size = default_cache_size;
  listen = codes "0.0.0.0:53" ∷ codes "[::]:53" ∷ [];
  listen_tls = [];
  listen_quic = [];
  listen_https = [];
  api_listen = default_api_listen;
  proxy_protocol = default_proxy_proto;
  log_level = default_log_level;
  log_format = default_log_format;
  zones = [];
  zones_dir = default_zones_dir;
  host = default_host;
  hostadmin = none;
  tls = default_tls;
  keys_dir = default_keys_dir;
  forwarders = default_forwarders;
  minimize = false;
  max_iterations = default_qmin_max_iterations;
  ecs = false;
  resolver_dns64_prefix = none;
  dns64_prefix = none;
  always_synthesize = false;
  prefetch = default_prefetch;
  persistent = none;
  persistent_max_age_days = default_persistent_max_age_days;
  validation = true;
  proxy_enable = false;
  proxy_allow = [];
  filter = default_filter;
  metrics_enable = true;
  query_log = none;
}

-- The default configuration passes the checks.
pub validate-default_config : validate default_config ≡ none
unfolding validate check check_all check_zones is_socket_addr text_eq starts_with
validate-default_config = refl
