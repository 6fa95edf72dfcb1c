-- ===== src/Tests/LoadRuns.antt =====
-- src/core/zone/mod.rs, src/core/zone/file.rs and src/core/dnssec/keygen.rs at concrete inputs.
-- A zone is its start-of-authority record.
use heimdallr.Common.{
  true, false, ◌≡◌, ◌≢◌, refl, List, [], ◌∷◌, ◌++◌, Option, none, some, inr, arith,
}
use heimdallr.Common.Text.{Text, codes, text_eq}
use heimdallr.Config.{Config, ZoneConfig}
use heimdallr.Dns.Records.{Record, Soa, soa}
use heimdallr.Keys.{KeyStore}
use heimdallr.Tests.ConfigRuns.{config}
use heimdallr.ZoneFile.{Files, nsec, short_name, load_zone_file_with_proof, resolve_zone_path}
use heimdallr.ZoneFile.Patched.{
  first_soa-load_zone_file_with_proof, full_name, full_name-short_name,
}
use heimdallr.ZoneManager.{
  ZoneManager, Server, of_secondary, load_all, load_zones, load_zone, load_secondary, new,
}

abbrev pub authority_data : Soa Text
authority_data = record {
  mname = codes "ns1.example.org.";
  rname = codes "root.example.org.";
  serial = 7;
  refresh = 3600;
  retry = 600;
  expire = 86400;
  minimum = 300;
}

abbrev pub start_record : Record Text
start_record = record { name = codes "example.org."; ttl = 3600; data_ = soa authority_data }

abbrev pub files : Files Text (Option (Record Text))
files = record {
  is_absolute = λ p. true;
  join = λ d p. d ++ p;
  exists = λ p. true;
  from_ascii = λ t. some t;
  to_utf8 = λ n. n;
  hex_decode = λ t. none;
  parse_file = λ o p nx. some (some start_record);
  first_soa = λ o h. h;
  remove_soa = λ o h. none;
  upsert = λ r h. some r;
  records = λ h. [];
  type_text = λ t. [];
  number_text = λ n. [];
  data_text = λ d. [];
  write = λ p t. true;
}

resolved : files.exists (resolve_zone_path files (codes "/z") (codes "/zones")) ≡ true
resolved = refl

first_soa-load_zone_file_with_proof_example :
    (handler : Option (Record Text)) × (load_zone_file_with_proof files
        (codes "/z")
        (codes "example.org.")
        (codes "/zones")
        (some (codes "admin.example.org."))
        (some nsec)
      ≡ some handler)
    × (handler
        ≡ some (record {
          name = codes "example.org.";
          ttl = 86400;
          data_ = soa (record authority_data { rname = codes "admin.example.org." });
        }))
first_soa-load_zone_file_with_proof_example =
    first_soa-load_zone_file_with_proof files (λ o n s h. refl) (codes "/z") (codes "example.org.")
      (codes "/zones") (codes "admin.example.org.") (some nsec) (codes "example.org.")
      (codes "admin.example.org.") (some start_record) start_record authority_data resolved refl
      refl refl refl refl

not_at : codes "www" ≢ codes "@"
not_at h = ground (arith, h)

full_name-short_name_example :
    full_name (codes "example.org.") (short_name (codes "example.org.") (codes "www.example.org."))
    ≡ codes "www.example.org."
full_name-short_name_example =
    full_name-short_name (codes "example.org.") (codes "www.example.org.") (codes "www")
      (inr (refl, not_at))

abbrev pub store : KeyStore Text Text
store = record {
  join = λ d p. d ++ p;
  exists = λ p. true;
  create_dir_all = λ d. true;
  generate = λ a. none;
  write = λ p k. true;
  read_signer = λ p a z. none;
}

abbrev pub server : Server Text (Option (Record Text)) Text (List Text)
server = record {
  empty = [];
  upsert = λ n h c. n ∷ c;
  add_zone_signing_key = λ s h. some h;
  secure_zone = λ h. some h;
}

abbrev copied : ZoneConfig
copied = record {
  name = codes "example.net.";
  kind = codes "secondary";
  file = none;
  primaries = codes "192.0.2.1:53" ∷ [];
  dnssec_signing = false;
  dnssec_algorithm = codes "ed25519";
  dnssec_key = none;
  nx_proof = none;
}

abbrev cfg : Config
cfg = record config { zones = copied ∷ [] }

abbrev loaded : ZoneManager (List Text)
loaded = record {
  catalog = [];
  secondaries = record { name = codes "example.net."; primaries = codes "192.0.2.1:53" ∷ [] } ∷ [];
  spawned = of_secondary (codes "example.net.") (codes "192.0.2.1:53" ∷ []) ∷ [];
}

all_loaded : load_all files store server cfg (codes "/keys") ≡ some loaded
unfolding load_all load_zones load_zone load_secondary new text_eq
all_loaded = refl
