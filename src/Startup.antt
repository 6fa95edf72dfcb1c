-- ===== src/Startup.antt =====
-- src/main.rs and src/core/dnssec/mod.rs: the configuration that the program runs with. The
-- reading of files and the decoding of TOML are parameters.
pub mod Safe
use heimdallr.Common.{
  ℕ, Bool, true, false, ◌≡◌, ◌≢◌, refl, arith, List, [], ◌∷◌, Option, none, some, Option-cases, inl,
  inr, if◌then◌else◌,
}
use heimdallr.Common.Text.{Text, codes, text_eq}
use heimdallr.Config.{Config, ConfigError, validate}
use heimdallr.Config.Defaults.{default_config}
use heimdallr.Filter.{unwrap_or}
use heimdallr.QueryLog.{QueryLogConfig, default_url}
use heimdallr.ZoneRecord.{◌>>=◌, bind_cases}

pub record Args : Type 0 where
  pub config : Option Text
  pub check_config : Bool
  pub listen : Option Text
  pub api_listen : Option Text
  pub log_level : Option Text

pub data DnssecProvider : Type 0 where
  ring botan : DnssecProvider

-- `provider_for`
unfoldable pub provider_for : Text → DnssecProvider
unfolding text_eq
provider_for name = if text_eq name (codes "botan") then botan else ring

-- `DnssecProvider::name`
unfoldable pub provider_name : DnssecProvider → Text
provider_name ring = codes "ring"
provider_name botan = codes "botan"

abbrev pub default_path : Text
default_path = codes "/etc/heimdallr/config.toml"

-- the configuration if it passes the checks
unfoldable pub checked : Config → Option Config
checked cfg = elim (validate cfg) [ none ↦ some cfg | some e ↦ none ]

-- the command line in place of the configuration
unfoldable pub with_listen : Option Text → Config → Config
with_listen none cfg = cfg
with_listen (some l) cfg = record cfg { listen = l ∷ [] }

unfoldable pub with_api_listen : Option Text → Config → Config
with_api_listen none cfg = cfg
with_api_listen (some a) cfg = record cfg { api_listen = a }

module _ (read_to_string : Text → Option Text) (from_toml : Text → Option Config)
    (exists : Text → Bool) where
  -- `Config::from_file`
  unfoldable pub from_file : Text → Option Config
  unfolding checked
  from_file path = do s ← read_to_string path; cfg ← from_toml s; checked cfg

  -- the file that is named, that of the system, or the defaults
  unfoldable pub base_config : Option Text → Option Config
  unfolding from_file
  base_config (some path) = from_file path
  base_config none = if exists default_path then from_file default_path else some default_config

  -- `load_config`
  unfoldable pub load_config : Args → Option Config
  unfolding base_config with_listen with_api_listen checked
  load_config args = do
    cfg ← base_config args.config
    checked (with_api_listen args.api_listen (with_listen args.listen cfg))

-- the filter of the log: that of the environment, or the level of the command line, or that of the
-- configuration
unfoldable pub env_filter : Option Text → Args → Config → Text
unfolding unwrap_or
env_filter env args cfg = unwrap_or (unwrap_or cfg.log_level args.log_level) env

-- the query log that `main` starts, if one is configured; its URL is the default one
unfoldable pub query_log_config : Config → Option QueryLogConfig
query_log_config cfg = elim cfg.query_log [
  | none ↦ none
  | some target ↦ some (record {
    postgres_url = some default_url;
    table = codes "dns_logs";
    buffer_size = 64;
    flush_interval_ms = 100;
  })
]
