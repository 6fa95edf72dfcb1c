-- ===== src/Tests/ZoneRuns.antt =====
-- src/core/zone/secondary.rs, src/core/zone/catalog.rs and src/net/handler.rs at concrete inputs.
-- Names are texts.
use heimdallr.Common.{
  true, false, ◌≡◌, refl, List, [], ◌∷◌, ◌++◌, none, some, arith, if◌then◌else◌, ℕ_discrete,
}
use heimdallr.Common.Text.{Text, codes, text_eq, trim_end_matches}
use heimdallr.Catalog.{parse_member_zones}
use heimdallr.Catalog.Members.{parse_member_zones-append}
use heimdallr.Dns.Records.{Record, Soa, a, ptr, soa}
use heimdallr.Notify.{SecondaryZoneInfo, no_error, Request, handle_request}
use heimdallr.Notify.Matching.{Handled, handle_request-Handled}
use heimdallr.Tcp.{frame, read_exact}
use heimdallr.Transfer.{
  Message, Network, axfr_records_from_primary, axfr_from_primary, upsert_all, sync, received,
  read_responses, collect_all, collect, is_complete, nothing,
}
use heimdallr.Transfer.Whole.{count_soa, axfr_records_from_primary-frame}

-- equality of texts
abbrev text_discrete : Discrete Text
text_discrete = hlevel (ℕ_discrete)

abbrev authority_data : Soa Text
authority_data = record {
  mname = codes "ns1.example.org.";
  rname = codes "admin.example.org.";
  serial = 7;
  refresh = 3600;
  retry = 600;
  expire = 86400;
  minimum = 300;
}

abbrev start_record : Record Text
start_record = record { name = codes "example.org."; ttl = 3600; data_ = soa authority_data }

abbrev host : Record Text
host = record {
  name = codes "www.example.org.";
  ttl = 300;
  data_ = a (record { a = 192; b = 0; c = 2; d = 1 });
}

abbrev whole_zone : Message Text
whole_zone = record {
  queries = [];
  answers = start_record ∷ host ∷ start_record ∷ [];
  no_error = true;
  truncation = false;
}

-- the primary at `up` sends one message, which is followed by a byte more
abbrev network : Network Text (List (Record Text))
network = record {
  is_addr = λ t. true;
  from_ascii = λ t. some t;
  connect = λ t. if text_eq t (codes "up") then some (frame (9 ∷ []) ++ 1 ∷ []) else none;
  decode = λ b. some whole_zone;
  empty = λ n. [];
  upsert = λ r rs. r ∷ rs;
}

connected : network.connect (codes "up") ≡ some (frame (9 ∷ []) ++ 1 ∷ [])
unfolding text_eq
connected = refl

axfr_records_from_primary-frame_example :
    axfr_records_from_primary network (codes "example.org") (codes "up")
    ≡ some (start_record ∷ host ∷ [])
unfolding count_soa
axfr_records_from_primary-frame_example =
    axfr_records_from_primary-frame network (codes "example.org") (codes "up") (codes "example.org")
      (9 ∷ []) (1 ∷ []) whole_zone authority_data authority_data start_record start_record
      (host ∷ []) refl refl connected (omega arith, omega arith) refl refl refl refl refl refl refl

abbrev secondary : SecondaryZoneInfo
secondary = record { name = codes "example.org."; primaries = codes "down" ∷ codes "up" ∷ [] }

abbrev notify : Request Text
notify = record { is_notify = true; query = some (codes "example.org") }

handle_request-Handled_example :
    Handled
      (λ n. n)
      (λ c. true)
      (secondary ∷ [])
      (λ r. no_error)
      notify
      (handle_request (λ n. n) (λ c. true) (λ r. no_error) (secondary ∷ []) notify)
handle_request-Handled_example =
    handle_request-Handled (λ n. n) (λ c. true) (secondary ∷ []) (λ r. no_error) notify

synced : sync network (codes "example.org") secondary.primaries ≡ some (codes "up")
unfolding sync axfr_from_primary axfr_records_from_primary received read_responses read_exact frame
    text_eq collect_all collect is_complete nothing upsert_all
synced = refl

abbrev member : Record Text
member = record { name = codes "m1.zones.catalog."; ttl = 300; data_ = ptr (codes "example.com.") }

plain_label : trim_end_matches b'.' (codes "m1") ≡ codes "m1"
unfolding trim_end_matches
plain_label = refl

parse_member_zones-append_example :
    parse_member_zones text_discrete (λ n. n) (λ t. some t) (codes "catalog.") (host ∷ member ∷ [])
    ≡ parse_member_zones text_discrete (λ n. n) (λ t. some t) (codes "catalog.") (host ∷ [])
      ++ (codes "m1", codes "example.com.")
        ∷ parse_member_zones text_discrete (λ n. n) (λ t. some t) (codes "catalog.") []
parse_member_zones-append_example =
    parse_member_zones-append text_discrete (λ n. n) (λ t. some t) (codes "catalog.")
      (codes "example.com.") (codes "m1") member (host ∷ []) [] refl refl plain_label
