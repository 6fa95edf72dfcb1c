-- ===== src/Net/Start.antt =====
-- src/net/mod.rs: `build_catalog`, `build_cache_forwarder`, and `Net::run` up to the point where
-- it serves. The resolver that is built stands with the settings of the authority that asks it.
use heimdallr.Common.{ℕ, Bool, true, false, List, ◌++◌, Option, none, some, if◌then◌else◌}
use heimdallr.Common.Addr.{IpAddr}
use heimdallr.Common.Text.{Text}
use heimdallr.Cache.{Cache}
use heimdallr.Cache.Snapshot.{Saved}
use heimdallr.Config.{Config}
use heimdallr.Config.Tls.{Disk, resolve_cert_paths, generate_self_signed, load_tls_cert}
use heimdallr.Dns64.{Dns64Prefix, parse}
use heimdallr.Filter.{new as new_filter}
use heimdallr.Forward.Service.{Authority, CacheKey, key_discrete}
use heimdallr.Keys.{KeyStore}
use heimdallr.Net.{
  Result, ok, err, bad_zones, bad_forwarder, no_certificate, bad_certificate, ◌>>=◌, or_error,
  Service, Listener, plain_listeners, encrypted_listeners, has_tls_listeners,
}
use heimdallr.Net.Persistent.{File, startup_cache}
use heimdallr.Notify.{SecondaryZoneInfo}
use heimdallr.Resolver.{ResolverWrap, from_config}
use heimdallr.ZoneFile.{Files}
use heimdallr.ZoneManager.{ZoneManager, Server, load_all}

-- `and_then(Dns64Prefix::parse)`
parse_prefix : Option Text → Option Dns64Prefix
unfolding parse
parse_prefix none = none
parse_prefix (some t) = parse t

-- `or`
or_else : Option Text → Option Text → Option Text
or_else none other = other
or_else (some t) other = some t

-- the prefix of the section `dns64`, or that of the resolver if it has none
unfoldable pub prefix_of : Config → Option Dns64Prefix
unfolding parse_prefix or_else
prefix_of cfg = parse_prefix (or_else cfg.dns64_prefix cfg.resolver_dns64_prefix)

module _ {Regex : Type 0} (fetch_text : Text → Option Text) (compile : Text → Option Regex)
    (build : ResolverWrap → Bool) (stub_exists : Bool) (resolv_conf : Option Text) where
  -- `build_cache_forwarder`
  unfoldable pub build_cache_forwarder : Config → Result (ResolverWrap × Authority Regex)
  unfolding from_config prefix_of
  build_cache_forwarder cfg = do
    resolver ← or_error bad_forwarder (from_config build stub_exists resolv_conf cfg cfg.validation)
    ok (
      resolver,
      record {
        minimize = cfg.minimize;
        max_iterations = cfg.max_iterations;
        filter = new_filter fetch_text compile cfg.filter;
        dns64_prefix = prefix_of cfg;
        dns64_always_synthesize = cfg.always_synthesize;
        ecs = cfg.ecs;
      },
    )

-- what the making and the reading of certificates calls
pub record Certs (CertifiedKey : Type 0) : Type 1 where
  pub Certificate : Type 0
  pub PrivateKey : Type 0
  pub join : Text → Text → Text
  pub generate : Text → Option (Text × Text)
  pub create_dir_all : Text → Bool
  pub can_write : Text → Bool
  pub pem_file : Disk → Text → Option (List Certificate)
  pub key_file : Disk → Text → Option PrivateKey
  pub from_der : List Certificate → PrivateKey → Option CertifiedKey

module _ {CertifiedKey : Type 0} (certs : Certs CertifiedKey) where
  unfoldable pub load_pair : Disk → Text × Text → Result CertifiedKey
  unfolding load_tls_cert
  load_pair disk (cert_path, key_path) =
      or_error bad_certificate (
        load_tls_cert (certs.pem_file disk) (certs.key_file disk) certs.from_der cert_path key_path)

  -- the paths of a certificate that signs itself, and the files then
  unfoldable pub self_signed : Config → Disk → Option (Text × Text) × Disk
  unfolding generate_self_signed
  self_signed cfg disk =
      generate_self_signed certs.join certs.generate certs.create_dir_all certs.can_write disk
        cfg.host cfg.keys_dir

  -- the certificate of the encrypted listeners, and the files then
  unfoldable pub certificate : Config → Disk → Result (Option CertifiedKey) × Disk
  unfolding has_tls_listeners resolve_cert_paths load_pair self_signed
  certificate cfg disk =
      if has_tls_listeners cfg
      then elim (resolve_cert_paths certs.join disk cfg.tls.cert cfg.tls.key cfg.host
          cfg.tls.letsencrypt_dir) [
            | some paths ↦ (load_pair disk paths >>= λ key. ok (some key), disk)
            | none ↦
                if cfg.tls.self_signed
                then (
                  or_error no_certificate (self_signed cfg disk).0 >>= λ paths.
                      load_pair (self_signed cfg disk).1 paths >>= λ key. ok (some key),
                  (self_signed cfg disk).1,
                )
                else (err no_certificate, disk)
          ]
      else (ok none, disk)

pub record Running (Regex Catalog : Type 0) : Type 0 where
  pub cache : Cache CacheKey
  pub catalog : Catalog
  pub secondaries : List SecondaryZoneInfo
  pub resolver : ResolverWrap
  pub authority : Authority Regex
  pub listeners : List Listener

unfoldable pub is_some : {A : Type 0} → Option A → Bool
is_some none = false
is_some (some a) = true

module _ {Name Handler Key Signer Catalog Regex CertifiedKey S : Type 0}
    (files : Files Name Handler) (store : KeyStore Key Signer)
    (server : Server Name Handler Signer Catalog)
    (upsert_forwarder : ResolverWrap × Authority Regex → Catalog → Catalog)
    (fetch_text : Text → Option Text) (compile : Text → Option Regex) (build : ResolverWrap → Bool)
    (stub_exists : Bool) (resolv_conf : Option Text) (certs : Certs CertifiedKey)
    (bind : Service → IpAddr × ℕ → Bool) (encode : List (Saved CacheKey) → S)
    (decode : S → Option (List (Saved CacheKey))) where
  -- `build_catalog`: the zones, and the forwarder at the root
  unfoldable pub build_catalog :
      Config → Result (ZoneManager Catalog × ResolverWrap × Authority Regex)
  unfolding load_all build_cache_forwarder
  build_catalog cfg = do
    zones ← or_error bad_zones (load_all files store server cfg cfg.keys_dir)
    forwarder ← build_cache_forwarder fetch_text compile build stub_exists resolv_conf cfg
    ok (
      record zones { catalog = upsert_forwarder forwarder zones.catalog },
      forwarder.0,
      forwarder.1,
    )

  -- `Net::run` until it serves
  unfoldable pub start :
      Config → (Text → Option (File S)) → Disk → ℕ → Result (Running Regex Catalog)
  unfolding build_catalog plain_listeners encrypted_listeners certificate is_some startup_cache
  start cfg cache_files disk now = do
    (zones, resolver, authority) ← build_catalog cfg
    plain ← plain_listeners bind cfg
    certified ← (certificate certs cfg disk).0
    encrypted ← encrypted_listeners bind cfg (is_some certified)
    ok (record {
      cache = startup_cache key_discrete encode decode cfg cache_files now;
      catalog = zones.catalog;
      secondaries = zones.secondaries;
      resolver = resolver;
      authority = authority;
      listeners = plain ++ encrypted;
    })
