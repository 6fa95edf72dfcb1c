-- ===== src/Api.antt =====
-- src/api/mod.rs: the handlers of the HTTP interface, on its shared state. A reply is its status
-- with what stands in its body; the text of an error is left out but for the zone's name. Routing,
-- TLS and JSON are other crates'.
pub mod Lookup
pub mod Serving
use heimdallr.Common.{
  ℕ, Bool, true, false, List, [], ◌∷◌, ◌++◌, map, Option, none, some, ◌==◌, if◌then◌else◌, length,
}
use heimdallr.Common.Text.{Text, codes, text_eq}
use heimdallr.Config.{Config, ZoneConfig}
use heimdallr.Filter.{Filter}
use heimdallr.Filter
use heimdallr.ZoneFile.{Files}
use heimdallr.ZoneRecord.{RecordCreate, RecordDelete, insert_record, delete_records}
use heimdallr.ZoneRecord.Listing.{
  RecordSummary, Zones, list_records, get_records, handlers_of, zone_of,
}

pub data Reply {ℓ} (A : Type ℓ) : Type ℓ where
  ok : A → Reply A
  not_found : Text → Reply A
  bad_request internal_server_error : Reply A

-- the `?` behind `find_zone`
infixl 5 ◌>>=◌
abbrev pub ◌>>=◌ {ℓ κ} : {A : Type ℓ} {B : Type κ} → Reply A → (A → Reply B) → Reply B
ok a >>= f = f a
not_found name >>= f = not_found name
bad_request >>= f = bad_request
internal_server_error >>= f = internal_server_error

pub record ZoneSummary : Type 0 where
  pub name : Text
  pub kind : Text
  pub file : Option Text
  pub primaries : List Text

pub record ApiState (Regex : Type 0) : Type 0 where
  pub config : Config
  pub zones : List ZoneSummary
  pub filter : Filter Regex

pub record ServerInfo : Type 0 where
  pub hostname : Text
  pub dns_listen : List Text
  pub api_listen : Text
  pub zones_loaded : ℕ
  pub dnssec_validation : Bool
  pub cache_size : ℕ
  pub log_level : Text

pub record FilterStats : Type 0 where
  pub cname_cloaking : Bool
  pub rebinding : Bool
  pub blocklist_entries : ℕ
  pub regex_patterns : ℕ

pub record RecordList : Type 0 where
  pub records : List RecordSummary
  pub total : ℕ

-- `metrics_enabled`
unfoldable pub metrics_enabled : Config → Bool
metrics_enabled config = config.metrics_enable

-- `ends_with('.')`
unfoldable pub ends_with_dot : Text → Bool
ends_with_dot [] = false
ends_with_dot (c ∷ []) = c == b'.'
ends_with_dot (c ∷ e ∷ s) = ends_with_dot (e ∷ s)

-- the name that is searched for
unfoldable pub search_name : Text → Text
unfolding ends_with_dot
search_name name = if ends_with_dot name then name else name ++ b'.' ∷ []

-- `iter().find(|z| z.name == search)`
unfoldable pub find_named {ℓ} : {A : Type ℓ} → (A → Text) → Text → List A → Option A
unfolding text_eq
find_named name_of search [] = none
find_named name_of search (z ∷ zones) =
    if text_eq (name_of z) search then some z else find_named name_of search zones

-- `ok_or_else`
unfoldable pub found_or_404 {ℓ} : {A : Type ℓ} → Text → Option A → Reply A
found_or_404 search none = not_found search
found_or_404 search (some z) = ok z

unfoldable pub summary_of : ZoneConfig → ZoneSummary
summary_of z = record { name = z.name; kind = z.kind; file = z.file; primaries = z.primaries }

module _ {Regex : Type 0} where
  -- the state of `Api::new`
  unfoldable pub new : (Text → Option Text) → (Text → Option Regex) → Config → ApiState Regex
  unfolding summary_of
  new fetch_text compile config = record {
    config = config;
    zones = map summary_of config.zones;
    filter = Filter.new fetch_text compile config.filter;
  }

  -- `find_zone`
  unfoldable pub find_zone : ApiState Regex → Text → Reply ZoneConfig
  unfolding search_name find_named found_or_404
  find_zone state name =
      let search = search_name name in
      found_or_404 search (find_named (λ (z : ZoneConfig). z.name) search state.config.zones)

  -- `zone_detail`
  unfoldable pub zone_detail : ApiState Regex → Text → Reply ZoneSummary
  unfolding search_name find_named found_or_404
  zone_detail state name =
      let search = search_name name in
      found_or_404 search (find_named (λ (z : ZoneSummary). z.name) search state.zones)

  -- `list_zones`: the zones and their number
  unfoldable pub list_zones : ApiState Regex → List ZoneSummary × ℕ
  list_zones state = (state.zones, length state.zones)

  -- `server_info`
  unfoldable pub server_info : ApiState Regex → ServerInfo
  server_info state = record {
    hostname = state.config.host;
    dns_listen = state.config.listen;
    api_listen = state.config.api_listen;
    zones_loaded = length state.zones;
    dnssec_validation = state.config.validation;
    cache_size = state.config.cache_size;
    log_level = state.config.log_level;
  }

  -- `filter_stats`
  unfoldable pub filter_stats : ApiState Regex → FilterStats
  filter_stats state = record {
    cname_cloaking = state.config.filter.cname_cloaking;
    rebinding = state.config.filter.rebinding;
    blocklist_entries = length state.filter.blocklist;
    regex_patterns = length state.config.filter.regex_blocklist;
  }

-- the list with its length, or the status of an error
listed : Reply RecordList → Option (List RecordSummary) → Reply RecordList
listed failed none = failed
listed failed (some records) = ok (record { records = records; total = length records })

-- the result, or the status of a bad request
or_bad_request : {A : Type 0} → Option A → Reply A
or_bad_request none = bad_request
or_bad_request (some a) = ok a

module _ {Name Handler Sshfp Svcb Regex : Type 0} (files : Files Name Handler)
    (zones : Zones Name Handler Sshfp Svcb) (default_rname : Text) where
  -- `list_records`
  unfoldable pub records_listed : ApiState Regex → Text → Reply RecordList
  unfolding find_zone listed list_records
  records_listed state zone_name = do
    z ← find_zone state zone_name
    listed internal_server_error (list_records files zones default_rname z state.config.zones_dir)

  -- `get_records`
  unfoldable pub records_got : ApiState Regex → Text → Text → Text → Reply RecordList
  unfolding find_zone listed get_records
  records_got state zone_name name rtype = do
    z ← find_zone state zone_name
    listed bad_request (get_records files zones default_rname z state.config.zones_dir name rtype)

  -- `create_record`: what is written to the zone's file
  unfoldable pub create_record : ApiState Regex → Text → RecordCreate → Reply Handler
  unfolding find_zone or_bad_request insert_record handlers_of
  create_record state zone_name create = do
    z ← find_zone state zone_name
    or_bad_request (
        insert_record (handlers_of files zones default_rname z state.config.zones_dir)
          (zone_of files zones default_rname z) create)

  -- `delete_record`: what the zone's file then holds, and the number of records removed
  unfoldable pub delete_record : ApiState Regex → Text → RecordDelete → Reply (Handler × ℕ)
  unfolding find_zone or_bad_request delete_records handlers_of
  delete_record state zone_name delete = do
    z ← find_zone state zone_name
    or_bad_request (
        delete_records (handlers_of files zones default_rname z state.config.zones_dir)
          (zone_of files zones default_rname z) delete)
