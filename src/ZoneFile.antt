-- ===== src/ZoneFile.antt =====
-- src/core/zone/file.rs, and the writing of a zone's file in src/core/zone/record.rs. The zone
-- handler, names and the text of record data are the DNS crate's, paths and files the standard
-- library's, hexadecimal decoding another crate's.
pub mod Patched
use heimdallr.Common.{
  ℕ, Bool, true, false, ◌||◌, List, [], ◌∷◌, ◌++◌, Option, none, some, if◌then◌else◌,
}
use heimdallr.Common.Text.{Text, codes, text_eq}
use heimdallr.Catalog.{strip_suffix}
use heimdallr.Config.{ZoneConfig, NxProofConfig}
use heimdallr.Dns.{RecordType, rrsig, nsec as type_nsec, nsec3 as type_nsec3, nsec3param, dnskey}
use heimdallr.Dns.Records.{RData, Record, Soa, soa, record_type}
use heimdallr.Filter.{unwrap_or}
use heimdallr.Forward.Lookup.{is_type}
use heimdallr.ZoneRecord.{◌>>=◌}

pub data NxProofKind : Type 0 where
  nsec : NxProofKind
  -- salt, iterations and opt-out, with SHA-1
  nsec3 : List ℕ → ℕ → Bool → NxProofKind

pub record Files (Name Handler : Type 0) : Type 0 where
  pub is_absolute : Text → Bool
  pub join : Text → Text → Text
  pub exists : Text → Bool
  pub from_ascii : Text → Option Name
  pub to_utf8 : Name → Text
  pub hex_decode : Text → Option (List ℕ)
  -- `FileZoneHandler::try_from_config`
  pub parse_file : Name → Text → Option NxProofKind → Option Handler
  -- the first record of the SOA set of a name, and the handler without that set
  pub first_soa : Name → Handler → Option (Record Name)
  pub remove_soa : Name → Handler → Handler
  pub upsert : Record Name → Handler → Handler
  -- the records of all sets, and the text of a type, a number and record data
  pub records : Handler → List (Record Name)
  pub type_text : RecordType → Text
  pub number_text : ℕ → Text
  pub data_text : RData Name → Text
  -- whether a file could be written, its directory made before
  pub write : Text → Text → Bool

module _ {Name : Type 0} where
  -- the SOA data of the handler's record set
  unfoldable pub old_soa : Option (Record Name) → Option (Soa Name)
  old_soa none = none
  old_soa (some r) = elim r.data_ [ soa s ↦ some s | _ ↦ none ]

  -- the SOA record with another mailbox
  unfoldable pub patched : Name → Name → Soa Name → Record Name
  patched origin new_rname s = record {
    name = origin;
    ttl = 86400;
    data_ = soa (record s { rname = new_rname });
  }

-- the types that signing makes
unfoldable pub is_generated : RecordType → Bool
unfolding is_type
is_generated t =
    is_type t rrsig
    || is_type t type_nsec
    || is_type t type_nsec3
    || is_type t nsec3param
    || is_type t dnskey

-- the name of a record as it is written
unfoldable pub short_name : Text → Text → Text
unfolding strip_suffix text_eq unwrap_or
short_name base name =
    if text_eq name base then codes "@" else unwrap_or name (strip_suffix (codes "." ++ base) name)

-- `join("\n")`
unfoldable pub join_lines : List Text → Text
join_lines [] = []
join_lines (l ∷ []) = l
join_lines (l ∷ m ∷ ls) = l ++ (codes "\n" ++ join_lines (m ∷ ls))

module _ {Name Handler : Type 0} (files : Files Name Handler) where
  -- `resolve_zone_path`, in both files
  unfoldable pub resolve_zone_path : Text → Text → Text
  resolve_zone_path file_path zones_dir =
      if files.is_absolute file_path then file_path else files.join zones_dir file_path

  salt_of : Option Text → List ℕ
  unfolding unwrap_or
  salt_of none = []
  salt_of (some s) = unwrap_or [] (files.hex_decode s)

  -- `ZoneConfig::nx_proof_kind`, which gives a kind whatever the configuration says
  unfoldable pub nx_proof_kind : ZoneConfig → Option NxProofKind
  unfolding text_eq unwrap_or salt_of
  nx_proof_kind z = elim z.nx_proof [
    | none ↦ some nsec
    | some cfg ↦
        if text_eq cfg.kind (codes "nsec3")
        then some
            (nsec3 (salt_of cfg.salt) (unwrap_or 0 cfg.iterations) (unwrap_or false cfg.opt_out))
        else some nsec
  ]

  unfoldable pub replace_soa : Name → Name → Handler → Option (Soa Name) → Handler
  unfolding patched
  replace_soa origin new_rname handler none = handler
  replace_soa origin new_rname handler (some s) =
      files.upsert (patched origin new_rname s) (files.remove_soa origin handler)

  -- `patch_soa_rname`
  unfoldable pub patch_soa_rname : Handler → Name → Text → Option Handler
  unfolding old_soa replace_soa
  patch_soa_rname handler origin rname_str = do
    new_rname ← files.from_ascii rname_str
    some (replace_soa origin new_rname handler (old_soa (files.first_soa origin handler)))

  -- `load_zone_file_with_proof`
  unfoldable pub load_zone_file_with_proof :
      Text → Text → Text → Option Text → Option NxProofKind → Option Handler
  unfolding resolve_zone_path patch_soa_rname
  load_zone_file_with_proof file_path zone_name zones_dir soa_rname_override nx =
      let path = resolve_zone_path file_path zones_dir in
      if files.exists path
      then (do
        origin ← files.from_ascii zone_name
        handler ← files.parse_file origin path nx
        elim soa_rname_override [
          | none ↦ some handler
          | some rname_str ↦ patch_soa_rname handler origin rname_str
        ])
      else none

  -- `load_zone_file`
  unfoldable pub load_zone_file : Text → Text → Text → Option Text → Option Handler
  unfolding load_zone_file_with_proof
  load_zone_file file_path zone_name zones_dir soa_rname_override =
      load_zone_file_with_proof file_path zone_name zones_dir soa_rname_override (some nsec)

  -- `load_handler` of record.rs, whose mailbox is that of the default configuration
  unfoldable pub load_handler : Text → ZoneConfig → Text → Option Handler
  unfolding load_zone_file_with_proof nx_proof_kind
  load_handler default_rname z zones_dir = do
    file_path ← z.file
    load_zone_file_with_proof file_path z.name zones_dir (some default_rname) (nx_proof_kind z)

  unfoldable pub line_of : Text → Record Name → Text
  unfolding short_name record_type
  line_of base r =
      short_name base (files.to_utf8 r.name)
      ++ (codes " "
          ++ (files.number_text r.ttl
              ++ (codes " IN "
                  ++ (files.type_text (record_type r.data_)
                      ++ (codes " " ++ files.data_text r.data_)))))

  unfoldable pub lines_of : Text → List (Record Name) → List Text
  unfolding is_generated line_of record_type
  lines_of base [] = []
  lines_of base (r ∷ records) =
      let rest = lines_of base records in
      if is_generated (record_type r.data_) then rest else line_of base r ∷ rest

  -- `persist_zone`: whether the file was written
  unfoldable pub persist_zone : Handler → Text → Name → Bool
  unfolding lines_of join_lines
  persist_zone handler zone_path origin =
      let base = files.to_utf8 origin in
      files.write zone_path (
        join_lines (
          (codes "$ORIGIN " ++ base)
          ∷ codes "$TTL 3600"
          ∷ []
          ∷ (lines_of base (files.records handler) ++ [] ∷ [])))
