-- ===== src/Api/Serving.antt =====
-- `run` and `rec_options_update` of src/api/mod.rs: the routes of the HTTP interface, how it
-- listens, and the endpoint that writes the configuration to its file. Files, certificates and
-- sockets are arguments (`read_key` gives the first private key of a file); the accept loop is other
-- crates'.
use heimdallr.Common.{ℕ, Bool, List, [], ◌∷◌, Option, none, some, if◌then◌else◌}
use heimdallr.Common.Addr.{IpAddr}
use heimdallr.Common.Socket.{parse_socket_addr}
use heimdallr.Common.Text.{Text, codes}
use heimdallr.Config.{Config}
use heimdallr.Filter.{unwrap_or}
use heimdallr.Metrics.{MetricsRegistry}
use heimdallr.Metrics.Text.{serialize}
use heimdallr.ZoneRecord.{◌>>=◌}
use heimdallr.Api.{ApiState, metrics_enabled}

pub data Method : Type 0 where
  get post : Method

-- the handlers, by the names of their functions
pub data Endpoint : Type 0 where
  health filter_stats server_info list_zones zone_detail list_records create_record : Endpoint
  get_records delete_record rec_options_update metrics_handler : Endpoint

pub record Route : Type 0 where
  pub path : Text
  pub method : Method
  pub endpoint : Endpoint

abbrev route : Text → Method → Endpoint → Route
route path method endpoint = record { path = path; method = method; endpoint = endpoint }

-- the routes of `run`, in their order
unfoldable pub routes : Config → List Route
unfolding metrics_enabled
routes config =
    route (codes "/api/health") get health
    ∷ route (codes "/api/filter/stats") get filter_stats
    ∷ route (codes "/api/info") get server_info
    ∷ route (codes "/api/zones") get list_zones
    ∷ route (codes "/api/zones/{name}") get zone_detail
    ∷ route (codes "/api/zones/{name}/records") get list_records
    ∷ route (codes "/api/zones/{name}/records") post create_record
    ∷ route (codes "/api/zones/{name}/records/{rtype}") get get_records
    ∷ route (codes "/api/zones/{name}/records/{name}/{rtype}") get get_records
    ∷ route (codes "/api/zones/{name}/records/delete") post delete_record
    ∷ route (codes "/api/rec/options") post rec_options_update
    ∷ (if metrics_enabled config then route (codes "/metrics") get metrics_handler ∷ [] else [])

-- the content type and the body of the reply
unfoldable pub metrics_text : (ℕ → Text) → MetricsRegistry → Text × Text
unfolding serialize
metrics_text number_text m = (codes "text/plain; version=0.0.4", serialize number_text m)

module _ {Regex S : Type 0} (to_string : Config → Option S) (exists : Text → Bool) where
  -- `rec_options_update`: the path and the text of the file that is written, if one is. The path
  -- comes from the environment, and nothing from the payload.
  unfoldable pub options_written : Option Text → ApiState Regex → Option (Text × S)
  unfolding unwrap_or
  options_written config_path state =
      let path = unwrap_or (codes "/etc/heimdallr/config.toml") config_path in
      if exists path then to_string state.config >>= (λ toml_str. some (path, toml_str)) else none

pub data Listening (TlsConfig : Type 0) : Type 0 where
  encrypted : IpAddr × ℕ → TlsConfig → Listening TlsConfig
  plain : Text → Listening TlsConfig

module _ {Chain Key TlsConfig : Type 0} (read_certs : Text → Option Chain)
    (read_key : Text → Option Key) (with_single_cert : Chain → Key → Option TlsConfig)
    (bind : IpAddr × ℕ → Bool) (bind_text : Text → Bool) where
  -- with a certificate and a key
  listen_tls : Text → Text → Text → Option (Listening TlsConfig)
  unfolding parse_socket_addr
  listen_tls listen cert_path key_path = do
    certs ← read_certs cert_path
    key ← read_key key_path
    tls_config ← with_single_cert certs key
    addr ← parse_socket_addr listen
    if bind addr then some (encrypted addr tls_config) else none

  -- What `run` listens on: without both a certificate and a key it is not encrypted.
  unfoldable pub listening : Text → Option Text → Option Text → Option (Listening TlsConfig)
  unfolding listen_tls
  listening listen (some cert_path) (some key_path) = listen_tls listen cert_path key_path
  listening listen (some cert_path) none = if bind_text listen then some (plain listen) else none
  listening listen none tls_key = if bind_text listen then some (plain listen) else none
