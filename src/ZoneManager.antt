-- ===== src/ZoneManager.antt =====
-- src/core/zone/mod.rs: the loading of the configured zones, and the transfer of a catalog zone.
-- The catalog of the server, and the signing of a zone with a signer, are the DNS crate's. A
-- transfer that is spawned is one of `spawned`.
pub mod Loaded
use heimdallr.Common.{
  ℕ, Bool, true, false, ◌||◌, List, [], ◌∷◌, ◌++◌, Option, none, some, map, if◌then◌else◌,
}
use heimdallr.Common.Addr.{IpAddr}
use heimdallr.Common.Text.{Text, codes, text_eq}
use mathlib.Core.Option
use heimdallr.Catalog.{verify_version, parse_member_zones, parse_primaries}
use heimdallr.Config.{Config, ZoneConfig, soa_rname}
use heimdallr.Dns.Records.{Record}
use heimdallr.Keys.{KeyStore, resolve_key_path, load_signer}
use heimdallr.Notify.{SecondaryZoneInfo}
use heimdallr.Transfer.{Network, axfr_records_from_primary}
use heimdallr.ZoneFile.{Files, load_zone_file_with_proof, nx_proof_kind}
use heimdallr.ZoneRecord.{◌>>=◌}

pub data Sync : Type 0 where
  of_secondary of_catalog : Text → List Text → Sync

pub record ZoneManager (Catalog : Type 0) : Type 0 where
  pub catalog : Catalog
  pub secondaries : List SecondaryZoneInfo
  pub spawned : List Sync

-- what the loading calls besides files and keys
pub record Server (Name Handler Signer Catalog : Type 0) : Type 0 where
  pub empty : Catalog
  pub upsert : Name → Handler → Catalog → Catalog
  pub add_zone_signing_key : Signer → Handler → Option Handler
  pub secure_zone : Handler → Option Handler

module _ {Catalog : Type 0} where
  -- `load_secondary`
  unfoldable pub load_secondary : ZoneConfig → ZoneManager Catalog → ZoneManager Catalog
  load_secondary z m = record m {
    secondaries = m.secondaries ++ record { name = z.name; primaries = z.primaries } ∷ [];
    spawned = m.spawned ++ of_secondary z.name z.primaries ∷ [];
  }

  -- `load_catalog_zone`
  unfoldable pub load_catalog_zone : ZoneConfig → ZoneManager Catalog → ZoneManager Catalog
  load_catalog_zone z m = record m { spawned = m.spawned ++ of_catalog z.name z.primaries ∷ [] }

module _ {Name Handler Key Signer Catalog : Type 0} (files : Files Name Handler)
    (store : KeyStore Key Signer) (server : Server Name Handler Signer Catalog) (cfg : Config)
    (keys_dir : Text) where
  -- `ZoneManager::new`
  unfoldable pub new : ZoneManager Catalog
  new = record { catalog = server.empty; secondaries = []; spawned = [] }

  -- the zone with its signatures, if it is to be signed
  unfoldable pub sign : ZoneConfig → Handler → Option Handler
  unfolding resolve_key_path load_signer
  sign z handler =
      if z.dnssec_signing
      then (do
        key_path ← resolve_key_path store z.name z.dnssec_key z.dnssec_algorithm keys_dir
        signer ← load_signer store key_path z.name z.dnssec_algorithm
        keyed ← server.add_zone_signing_key signer handler
        server.secure_zone keyed)
      else some handler

  -- the origin and the zone that `load_primary` puts into the catalog
  unfoldable pub primary_zone : ZoneConfig → Option (Name × Handler)
  unfolding load_zone_file_with_proof nx_proof_kind soa_rname sign
  primary_zone z = do
    file_path ← z.file
    handler ←
        load_zone_file_with_proof files file_path z.name cfg.zones_dir (some (soa_rname cfg))
          (nx_proof_kind files z)
    origin ← files.from_ascii z.name
    signed ← sign z handler
    some (origin, signed)

  -- `load_primary`
  unfoldable pub load_primary : ZoneConfig → ZoneManager Catalog → Option (ZoneManager Catalog)
  unfolding primary_zone
  load_primary z m =
      Option.map (λ p. record m { catalog = server.upsert p.0 p.1 m.catalog }) (primary_zone z)

  -- one zone of `load_all`
  unfoldable pub load_zone : ZoneConfig → ZoneManager Catalog → Option (ZoneManager Catalog)
  unfolding load_primary load_secondary load_catalog_zone text_eq
  load_zone z m =
      if text_eq z.kind (codes "primary")
      then load_primary z m
      else if text_eq z.kind (codes "secondary")
      then some (load_secondary z m)
      else if text_eq z.kind (codes "catalog")
      then some (load_catalog_zone z m)
      else some m

  unfoldable pub load_zones : List ZoneConfig → ZoneManager Catalog → Option (ZoneManager Catalog)
  unfolding load_zone
  load_zones [] m = some m
  load_zones (z ∷ zones) m = do m' ← load_zone z m; load_zones zones m'

  -- `load_all`
  unfoldable pub load_all : Option (ZoneManager Catalog)
  unfolding load_zones new
  load_all = load_zones cfg.zones new

module _ {Name Authority : Type 0} (net : Network Name Authority) (name_discrete : Discrete Name)
    (to_string : Name → Text) where
  -- a member of a catalog: label, zone and primaries
  unfoldable pub member_primaries :
      Name → List (Record Name) → Text × Name → Text × Name × List IpAddr
  unfolding parse_primaries
  member_primaries origin records (uid, member_name) =
      (uid, member_name, parse_primaries name_discrete to_string net.from_ascii origin records uid)

  -- the loop over the primaries of a catalog zone: the members found
  unfoldable pub sync_members : Name → List Text → List (Text × Name × List IpAddr)
  unfolding axfr_records_from_primary verify_version parse_member_zones member_primaries
  sync_members origin [] = []
  sync_members origin (primary ∷ primaries) =
      elim (axfr_records_from_primary net (to_string origin) primary) [
        | none ↦ sync_members origin primaries
        | some records ↦
            if verify_version name_discrete to_string net.from_ascii origin records
            then map (member_primaries origin records)
                (parse_member_zones name_discrete to_string net.from_ascii origin records)
            else []
      ]

  -- the task of `load_catalog_zone`
  unfoldable pub catalog_task : Text → List Text → List (Text × Name × List IpAddr)
  unfolding sync_members
  catalog_task zone_name primaries = elim (net.from_ascii zone_name) [
    | none ↦ []
    | some origin ↦ sync_members origin primaries
  ]
