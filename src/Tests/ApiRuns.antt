-- ===== src/Tests/ApiRuns.antt =====
-- src/api/mod.rs, src/core/zone/record.rs and src/core/zone/notify.rs at concrete inputs. Names
-- are texts, and a zone has one record.
use mathlib.Core.Option
use heimdallr.Common.{ℕ, true, false, ◌≡◌, refl, List, [], ◌∷◌, map, Option, none, some}
use heimdallr.Common.Addr.{IpAddr, v4}
use heimdallr.Common.Socket.{parse_socket_addr}
use heimdallr.Common.Text.{Text, codes, text_eq}
use heimdallr.Api.{
  ApiState, new, not_found, search_name, find_zone, zone_detail, records_listed, records_got,
  create_record, delete_record, summary_of, ends_with_dot,
}
use heimdallr.Api.Lookup.{IsFirst, reply, find_zone-zone_detail, records_undotted}
use heimdallr.Config.{Config, ZoneConfig}
use heimdallr.Dns.{soa as type_soa}
use heimdallr.Dns.Records.{Record, other, record_type}
use heimdallr.Notify.Sending.{Sender, send_notify}
use heimdallr.Tests.ConfigRuns.{config}
use heimdallr.Tests.LoadRuns.{files}
use heimdallr.ZoneFile.{load_handler}
use heimdallr.ZoneRecord.{RecordCreate, RecordDelete, other_matching}
use heimdallr.ZoneRecord.Data.{Parsers}
use heimdallr.ZoneRecord.Listing.{
  RecordSet, Zones, list_records, get_records, parse_type, RecordSummary, summaries,
}
use heimdallr.ZoneRecord.Listing as Listing
use heimdallr.ZoneRecord.Listing.Selected.{all_records, records_at, get_records-list_records}

abbrev parsers : Parsers Text Text Text
parsers = record {
  from_ascii = λ t. some t;
  parse_sshfp = λ t. none;
  parse_svcb = λ t. none;
  parse_https = λ t. none;
  matching_from = λ n. other_matching;
  hex_decode = λ t. none;
}

abbrev sets_of : Option (Record Text) → List (RecordSet Text)
sets_of none = []
sets_of (some r) = record { name = r.name; rtype = record_type r.data_; records = r ∷ [] } ∷ []

abbrev zones : Zones Text (Option (Record Text)) Text Text
zones = record {
  sets = sets_of;
  lower = λ n. n;
  name_eq = text_eq;
  to_uppercase = λ t. t;
  type_of_number = λ n. type_soa;
  parsers = parsers;
  to_rdata = λ d. other type_soa;
  remove = λ n t h. none;
}

abbrev primary : ZoneConfig
primary = record {
  name = codes "example.org";
  kind = codes "primary";
  file = some (codes "/z");
  primaries = [];
  dnssec_signing = false;
  dnssec_algorithm = codes "ed25519";
  dnssec_key = none;
  nx_proof = none;
}

-- a zone that is configured without a dot
abbrev cfg : Config
cfg = record config { zones = primary ∷ [] }

abbrev state : ApiState Text
state = new (λ u. none) (λ p. none) cfg

find_zone-zone_detail_example :
    (o : Option ZoneConfig) × IsFirst
      (λ (z : ZoneConfig). z.name)
      (search_name (codes "example.org"))
      (primary ∷ [])
      o
    × (find_zone state (codes "example.org") ≡ reply (search_name (codes "example.org")) o)
    × (zone_detail state (codes "example.org")
        ≡ reply (search_name (codes "example.org")) (Option.map summary_of o))
    × (ends_with_dot (search_name (codes "example.org")) ≡ true)
    × (search_name (search_name (codes "example.org")) ≡ search_name (codes "example.org"))
find_zone-zone_detail_example =
    find_zone-zone_detail (λ u. none) (λ p. none) cfg (codes "example.org")

abbrev create : RecordCreate
create = record { name = codes "@"; record_type = codes "A"; data_ = codes "192.0.2.1"; ttl = none }

abbrev delete : RecordDelete
delete = record { name = codes "@"; record_type = codes "A" }

undotted : ends_with_dot primary.name ≡ false
unfolding ends_with_dot
undotted = refl

records_undotted_example :
    (records_listed files zones [] state (codes "example.org.")
      ≡ not_found (search_name (codes "example.org.")))
    × (records_got files zones [] state (codes "example.org.") (codes "@") (codes "A")
        ≡ not_found (search_name (codes "example.org.")))
    × (create_record files zones [] state (codes "example.org.") create
        ≡ not_found (search_name (codes "example.org.")))
    × (delete_record files zones [] state (codes "example.org.") delete
        ≡ not_found (search_name (codes "example.org.")))
records_undotted_example =
    records_undotted (λ u. none) (λ p. none) cfg files zones [] (codes "example.org.") (codes "@")
      (codes "A") create delete (undotted, tt)

zone_loads : (h : Option (Record Text)) × (load_handler files (codes "a.b.") primary [] ≡ some h)
unfolding load_handler
zone_loads = (_, refl)

soa_type : parse_type files zones [] (codes "SOA") ≡ some type_soa
unfolding parse_type text_eq
soa_type = refl

get_records-list_records_example :
    (list_records files zones (codes "a.b.") primary []
      ≡ some (
          map
            (Listing.summary_of files zones (codes "a.b."))
            (all_records files zones (codes "a.b.") (zones.sets zone_loads.0))))
    × (get_records files zones (codes "a.b.") primary [] (codes "example.org.") (codes "SOA")
        ≡ some (
            map (Listing.summary_of files zones (codes "a.b.")) (
              records_at files zones
                (codes "a.b.")
                (codes "example.org.")
                type_soa
                (all_records files zones (codes "a.b.") (zones.sets zone_loads.0)))))
unfolding load_handler zone_loads parse_type record_type
get_records-list_records_example =
    get_records-list_records files zones (codes "a.b.") primary [] (codes "example.org.")
      (codes "SOA") zone_loads.0 (codes "example.org.") type_soa zone_loads.1
      (((refl, refl), tt), tt) refl soa_type

-- the bytes of a message are the name of its query
abbrev sender : Sender Text
sender = record {
  from_ascii = λ t. some t;
  to_bytes = λ m. elim m.queries [ [] ↦ none | q ∷ queries ↦ some q.0 ];
  bind = true;
  send_to = λ bytes addr. true;
}

abbrev address : IpAddr × ℕ
address = (v4 (record { a = 192; b = 0; c = 2; d = 1 }), 53)

notify_sent :
    send_notify sender (codes "example.org.") (codes "192.0.2.1:53") 7 70000
    ≡ some (address, codes "example.org.")
unfolding send_notify parse_socket_addr
notify_sent = refl
