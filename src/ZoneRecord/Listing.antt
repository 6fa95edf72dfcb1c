-- ===== src/ZoneRecord/Listing.antt =====
-- src/core/zone/record.rs: the listing of records, and its editing on the files of a zone. A zone
-- handler is the DNS crate's: a list of record sets, each with the name in lower case and the type
-- that it is found by.
pub mod Selected
use heimdallr.Common.{
  ℕ, Bool, true, false, ◌&&◌, ◌≡◌, refl, sym, ap, ◌∙◌, arith, List, [], ◌∷◌, ◌++◌, map, Option,
  none, some, All, if◌then◌else◌, append_assoc, Bool-cases, inl, inr,
}
use mathlib.Core.Option
use heimdallr.Common.Text.{Text, codes}
use heimdallr.Config.{ZoneConfig}
use heimdallr.Dns.{RecordType, record_type_discrete}
use heimdallr.Dns.Records.{Record, RData, record_type}
use heimdallr.Filter.{unwrap_or}
use heimdallr.Forward.Lookup.{is_type}
use heimdallr.ZoneFile.{Files, load_handler, persist_zone, resolve_zone_path}
use heimdallr.ZoneRecord.Data.{Parsed, Parsers, parse_rdata}
use heimdallr.ZoneRecord.{
  parse_record_type, ◌>>=◌, Handlers, Zone, RecordCreate, RecordDelete, insert_record,
  delete_records,
}

pub record RecordSummary : Type 0 where
  pub name : Text
  pub record_type : Text
  pub ttl : ℕ
  pub data_ : Text

pub record RecordSet (Name : Type 0) : Type 0 where
  pub name : Name
  pub rtype : RecordType
  pub records : List (Record Name)

-- what is called of a handler besides the operations of `Files`
pub record Zones (Name Handler Sshfp Svcb : Type 0) : Type 0 where
  pub sets : Handler → List (RecordSet Name)
  -- `LowerName::from`
  pub lower : Name → Name
  pub name_eq : Name → Name → Bool
  pub to_uppercase : Text → Text
  pub type_of_number : ℕ → RecordType
  pub parsers : Parsers Name Sshfp Svcb
  -- data that were parsed, as the data of a record
  pub to_rdata : Parsed Name Sshfp Svcb → RData Name
  pub remove : Name → RecordType → Handler → Option (Handler × ℕ)

module _ {Name Handler Sshfp Svcb : Type 0} (files : Files Name Handler)
    (zones : Zones Name Handler Sshfp Svcb) (default_rname : Text) where
  unfoldable pub parse_type : Text → Option RecordType
  unfolding parse_record_type
  parse_type = parse_record_type zones.to_uppercase zones.type_of_number

  unfoldable pub parse_data : RecordType → Text → Option (RData Name)
  unfolding parse_rdata
  parse_data rtype t = Option.map zones.to_rdata (parse_rdata zones.parsers rtype t)

  unfoldable pub summary_of : Record Name → RecordSummary
  unfolding record_type
  summary_of r = record {
    name = files.to_utf8 r.name;
    record_type = files.type_text (record_type r.data_);
    ttl = r.ttl;
    data_ = files.data_text r.data_;
  }

  unfoldable pub summaries : List (RecordSet Name) → List RecordSummary
  unfolding summary_of
  summaries [] = []
  summaries (s ∷ sets) = map summary_of s.records ++ summaries sets

  -- `list_records`
  unfoldable pub list_records : ZoneConfig → Text → Option (List RecordSummary)
  unfolding load_handler summaries
  list_records z zones_dir = do
    handler ← load_handler files default_rname z zones_dir
    some (summaries (zones.sets handler))

  -- the sets of a name and a type
  unfoldable pub sets_at : Name → RecordType → List (RecordSet Name) → List (RecordSet Name)
  unfolding is_type
  sets_at search_name rtype [] = []
  sets_at search_name rtype (s ∷ sets) =
      let rest = sets_at search_name rtype sets in
      if zones.name_eq s.name search_name && is_type s.rtype rtype then s ∷ rest else rest

  -- `get_records`
  unfoldable pub get_records : ZoneConfig → Text → Text → Text → Option (List RecordSummary)
  unfolding load_handler sets_at summaries parse_type
  get_records z zones_dir name rtype_text = do
    handler ← load_handler files default_rname z zones_dir
    rtype ← parse_type rtype_text
    search_name ← files.from_ascii name
    some (summaries (sets_at (zones.lower search_name) rtype (zones.sets handler)))

  -- the editing of a zone as it is configured
  unfoldable pub handlers_of : ZoneConfig → Text → Handlers Handler Name (RData Name)
  unfolding load_handler persist_zone resolve_zone_path unwrap_or parse_type parse_data
  handlers_of z zones_dir = record {
    load = λ _. load_handler files default_rname z zones_dir;
    from_ascii = files.from_ascii;
    record_type = parse_type;
    rdata = parse_data;
    upsert = λ name ttl rdata handler.
        files.upsert (record { name = name; ttl = ttl; data_ = rdata }) handler;
    remove = λ name rtype handler. zones.remove (zones.lower name) rtype handler;
    persist = λ handler origin.
        persist_zone files handler (resolve_zone_path files (unwrap_or [] z.file) zones_dir) origin;
  }

  abbrev pub zone_of : ZoneConfig → Zone
  zone_of z = record { name = z.name; file = unwrap_or [] z.file }
