-- ===== src/Tests/StartRuns.antt =====
-- src/net/mod.rs, src/core/resolver/mod.rs, src/core/log/query_log.rs and src/main.rs at concrete
-- inputs. A cache file is the list of its entries.
use mathlib.Core.Option
use heimdallr.Common.{
  ℕ, Bool, true, false, ◌≡◌, ◌≢◌, ◌⊎◌, refl, List, [], ◌∷◌, ◌++◌, map, Option, none, some,
}
use heimdallr.Common.Addr.{IpAddr, v4}
use heimdallr.Common.Socket.{parse_socket_addr}
use heimdallr.Common.Text.{Text, codes, text_eq, starts_with}
use heimdallr.Cache.{Cache, should_prefetch}
use heimdallr.Cache.Eviction.{fresh}
use heimdallr.Cache.Invariant.{IsValid as IsValidCache}
use heimdallr.Cache.Snapshot.{Saved, save_to_file, reloaded}
use heimdallr.Config.{Config, validate, check, check_all, check_zones, is_socket_addr}
use heimdallr.Config.Defaults.{default_config}
use heimdallr.Config.Tls.{Disk}
use heimdallr.Config.Valid.{IsValid}
use heimdallr.Filter.{unwrap_or}
use heimdallr.Forward.Service.{Authority, CacheKey, key_discrete}
use heimdallr.HashMap.{get}
use heimdallr.Net.{Result, ok, err, bad_address, Service, udp, tcp, Listener}
use heimdallr.Net.Persistent.{
  File, startup_cache, too_old, save_persistent_cache, startup_cache-save_persistent_cache,
}
use heimdallr.Net.Served.{Listens, start-Listens}
use heimdallr.Net.Start.{Certs, Running, start}
use heimdallr.QueryLog.{QueryEvent, QueryLogConfig, Database, Writer, row_of, spawned, receive, log}
use heimdallr.QueryLog.Delivery.{
  received, Reach, Runs, logged, ran, held, IsBounded, Reach-held, Reach-written,
}
use heimdallr.Resolver.{ResolverWrap, from_config}
use heimdallr.Resolver.Servers.{Reads, IsBuilt, from_config_cases}
use heimdallr.Startup.{Args, checked, base_config, load_config}
use heimdallr.Startup.Safe.{load_config-start}
use heimdallr.Tests.LoadRuns.{files, store, server}
use heimdallr.ZoneManager.{load_all, load_zones, new}

abbrev certs : Certs Text
certs = record {
  Certificate = Text;
  PrivateKey = Text;
  join = λ d p. d ++ p;
  generate = λ h. none;
  create_dir_all = λ d. false;
  can_write = λ p. false;
  pem_file = λ d p. none;
  key_file = λ d p. none;
  from_der = λ c k. none;
}

abbrev bind : Service → IpAddr × ℕ → Bool
bind s a = true

abbrev no_file : Text → Option (File (List (Saved CacheKey)))
no_file p = none

abbrev empty_disk : Disk
empty_disk p = none

-- without a system resolver
abbrev cfg : Config
cfg = record default_config { listen = codes "0.0.0.0:53" ∷ [] }

abbrev add_forwarder : ResolverWrap × Authority Text → List Text → List Text
add_forwarder f c = codes "." ∷ c

abbrev started : Result (Running Text (List Text))
started =
    start files store server add_forwarder (λ u. none) (λ p. none) (λ r. true) false none certs bind
      (λ s. s) (λ (s : List (Saved CacheKey)). some s) cfg no_file empty_disk 0

abbrev everywhere : IpAddr × ℕ
everywhere = (v4 (record { a = 0; b = 0; c = 0; d = 0 }), 53)

listeners_of : Result (Running Text (List Text)) → List Listener
listeners_of (ok r) = r.listeners
listeners_of (err e) = []

started_listeners :
    listeners_of started
    ≡ record { service = udp; address = everywhere }
      ∷ record { service = tcp; address = everywhere }
      ∷ []
unfolding listeners_of start load_all load_zones new from_config parse_socket_addr text_eq
started_listeners = refl

started_ok : (r : Running Text (List Text)) × (started ≡ ok r)
unfolding start load_all load_zones new from_config parse_socket_addr text_eq
started_ok = (_, refl)

start-Listens_example : Listens bind cfg started_ok.0.listeners
start-Listens_example =
    start-Listens files store server add_forwarder (λ u. none) (λ p. none) (λ r. true) false none
      certs bind (λ s. s) (λ (s : List (Saved CacheKey)). some s) cfg no_file empty_disk 0
      started_ok.0 started_ok.1

abbrev args : Args
args = record {
  config = none;
  check_config = false;
  listen = some (codes "0.0.0.0:53");
  api_listen = none;
  log_level = none;
}

loads : load_config (λ p. none) (λ s. none) (λ p. false) args ≡ some cfg
unfolding load_config checked validate check check_all check_zones is_socket_addr text_eq
    starts_with
loads = refl

load_config-start_example :
    IsValid cfg
    × ((base : Config) × (base_config (λ p. none) (λ s. none) (λ p. false) none ≡ some base)
        × (cfg.listen ≡ codes "0.0.0.0:53" ∷ [])
        × (cfg.api_listen ≡ base.api_listen))
    × (started ≢ err bad_address)
unfolding unwrap_or
load_config-start_example =
    load_config-start (λ p. none) (λ s. none) (λ p. false) files store server add_forwarder
      (λ u. none) (λ p. none) (λ r. true) false none certs bind (λ s. s)
      (λ (s : List (Saved CacheKey)). some s) args cfg no_file empty_disk 0 loads

from_config_cases_example :
    ((addrs : List (IpAddr × ℕ)) × (r : ResolverWrap) × (from_config (λ r. true) false none cfg true
        ≡ some r)
      × IsBuilt (λ r. true) false none cfg true addrs r)
    ⊎ (((addrs : List (IpAddr × ℕ)) → ¬ Reads cfg.forwarders addrs)
        × (from_config (λ r. true) false none cfg true ≡ none))
from_config_cases_example = from_config_cases (λ r. true) false none cfg true

-- a cache with one entry
abbrev key : CacheKey
key = record { qname = codes "example.org"; qtype = 1; client_subnet = none }

abbrev cache : Cache CacheKey
cache = record {
  config = record { size = 9; serve_stale = 30; prefetch = 2 };
  entries = (key, fresh (10 ∷ []) 100 0) ∷ [];
  access_order = key ∷ [];
  hits = 0;
  misses = 0;
}

abbrev cached_cfg : Config
cached_cfg = record cfg { persistent = some (codes "/c") }

abbrev saved : List (Saved CacheKey)
saved = save_to_file key_discrete (λ s. s) (λ (s : List (Saved CacheKey)). some s) cache

abbrev cache_files : Text → Option (File (List (Saved CacheKey)))
cache_files p = some (record { text = some saved; age = none })

abbrev restarted : Cache CacheKey
restarted =
    startup_cache key_discrete (λ s. s) (λ (s : List (Saved CacheKey)). some s) cached_cfg
      cache_files 7

young : too_old cached_cfg none ≡ false
unfolding too_old
young = refl

written :
    save_persistent_cache key_discrete
      (λ s. s)
      (λ (s : List (Saved CacheKey)). some s)
      cached_cfg
      (λ p. true)
      cache
    ≡ some (some (codes "/c", saved))
unfolding save_persistent_cache
written = refl

startup_cache-save_persistent_cache_example :
    IsValidCache key_discrete restarted
    × ((k : CacheKey)
        → get key_discrete k restarted.entries
          ≡ Option.map (reloaded key_discrete 7) (get key_discrete k cache.entries))
    × (restarted.config.size ≡ 100)
    × ((k : CacheKey) (later : ℕ) → should_prefetch key_discrete restarted k later ≡ false)
unfolding get
startup_cache-save_persistent_cache_example =
    startup_cache-save_persistent_cache key_discrete (λ s. s)
      (λ (s : List (Saved CacheKey)). some s) cached_cfg (λ p. true) cache (codes "/c") saved
      cache_files none 7 (refl, tt) refl refl written refl young

abbrev database : Database
database = record { connects = λ n. true; takes = λ r. true }

abbrev log_config : QueryLogConfig
log_config = record {
  postgres_url = none;
  table = codes "dns_logs";
  buffer_size = 64;
  flush_interval_ms = 100;
}

abbrev event : QueryEvent
event = record {
  ts = 0;
  qname = codes "example.org.";
  qtype = 1;
  client = codes "192.0.2.1";
  rcode = 0;
  answers = 2;
  latency_ms = 5;
  from_cache = false;
  blocked = false;
}

event_taken : (log event spawned).1 ≡ true
unfolding log spawned
event_taken = refl

abbrev after_event : Writer
after_event = receive database log_config (log event spawned).0.channel (log event spawned).0

-- the event was taken, and then moved to the buffer
event_reached : Reach database log_config ([] ++ event ∷ []) after_event
event_reached = ran (logged event Reach.start event_taken) (received (log event spawned).0)

Reach-held_example :
    (held database log_config (λ n. refl) (λ r. refl) after_event ≡ map row_of ([] ++ event ∷ []))
    × IsBounded database log_config after_event
Reach-held_example = Reach-held database log_config (λ n. refl) (λ r. refl) event_reached

Reach-written_example :
    (w : Writer) × Runs database log_config after_event w
    × (w.table ≡ map row_of ([] ++ event ∷ []))
Reach-written_example = Reach-written database log_config (λ n. refl) (λ r. refl) event_reached
