-- ===== src/Tests/ConfigRuns.antt =====
-- src/config/mod.rs at concrete inputs.
use heimdallr.Common.{true, false, ◌≡◌, refl, [], ◌∷◌, none, some}
use heimdallr.Common.Text.{codes, text_eq, starts_with, has_char}
use heimdallr.Config.{
  Config, ZoneConfig, validate, check, check_all, check_zones, check_zone, is_socket_addr,
}
use heimdallr.Config.Defaults.{default_filter}
use heimdallr.Config.Valid.{IsValid, validate-IsValid}

abbrev zone : ZoneConfig
zone = record {
  name = codes "example.com";
  kind = codes "primary";
  file = some (codes "example.com.zone");
  primaries = [];
  dnssec_signing = true;
  dnssec_algorithm = codes "ed25519";
  dnssec_key = none;
  nx_proof = none;
}

abbrev pub config : Config
config = record {
  dnssec_provider = codes "ring";
  forward_protocol = codes "dot";
  concurrency = 8;
  timeout_ms = 2000;
  cache_size = 50_000;
  listen = codes "0.0.0.0:53" ∷ codes "[::]:53" ∷ [];
  listen_tls = [];
  listen_quic = [];
  listen_https = [];
  api_listen = codes "127.0.0.1:8053";
  proxy_protocol = codes "v2";
  log_level = codes "info";
  log_format = codes "json";
  zones = zone ∷ [];
  zones_dir = codes "/etc/heimdallr/zones";
  host = codes "ns.example.com.";
  hostadmin = some (codes "admin@example.com");
  tls = record {
    cert = none;
    key = none;
    letsencrypt_dir = codes "/etc/letsencrypt/live";
    self_signed = false;
  };
  keys_dir = codes "/var/lib/heimdallr/keys";
  forwarders = codes "1.1.1.1:853" ∷ codes "8.8.8.8:853" ∷ [];
  minimize = false;
  max_iterations = 7;
  ecs = false;
  resolver_dns64_prefix = none;
  dns64_prefix = some (codes "64:ff9b::/96");
  always_synthesize = false;
  prefetch = 2;
  persistent = some (codes "/var/cache/heimdallr.json");
  persistent_max_age_days = 7;
  validation = true;
  proxy_enable = false;
  proxy_allow = [];
  filter = default_filter;
  metrics_enable = true;
  query_log = none;
}

passes : validate config ≡ none
unfolding validate check check_all check_zones check_zone is_socket_addr text_eq starts_with
passes = refl

validate-IsValid_example : IsValid config
validate-IsValid_example = validate-IsValid config passes

abbrev catalog : ZoneConfig
catalog = record zone { kind = codes "catalog" }

host_clean : has_char b'@' config.host ≡ false
unfolding has_char
host_clean = refl
