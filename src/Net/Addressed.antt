-- ===== src/Net/Addressed.antt =====
-- A start whose configuration passes the checks does not fail on the text of an address to listen on.
use heimdallr.Common.{ℕ, Bool, true, false, ◌≡◌, ◌≢◌, List, Option, none, if◌then◌else◌}
use heimdallr.Common.Addr.{IpAddr}
use heimdallr.Common.Text.{Text}
use heimdallr.Cache.Snapshot.{Saved}
use heimdallr.Config.{Config, validate}
use heimdallr.Config.Tls.{Disk}
use heimdallr.Config.Valid.{validate-IsValid}
use heimdallr.Forward.Service.{Authority, CacheKey}
use heimdallr.Keys.{KeyStore}
use heimdallr.Net.{
  err, bad_address, bad_zones, bad_forwarder, or_error, >>=-ne-err, or_error-ne, ok-ne, Service,
  udp, tcp, proxied, tls, https, quic, plain_listeners, encrypted_listeners,
}
use heimdallr.Net.Certified.{Addresses, All-append, certificate-ne}
use heimdallr.Net.Listening.{listen_all-ne}
use heimdallr.Net.Persistent.{File}
use heimdallr.Net.Start.{Certs, certificate, is_some, build_catalog, build_cache_forwarder, start}
use heimdallr.Resolver.{ResolverWrap, from_config}
use heimdallr.ZoneFile.{Files}
use heimdallr.ZoneManager.{Server, load_all}

module _ (bind : Service → IpAddr × ℕ → Bool) where
  plain-ne : (cfg : Config) → Addresses cfg.listen → plain_listeners bind cfg ≢ err bad_address
  unfolding plain_listeners
  plain-ne cfg good = >>=-ne-err _ _ bad_address (listen_all-ne bind udp cfg.listen good) λ us _.
      >>=-ne-err _ _ bad_address
        (listen_all-ne bind (if cfg.proxy_enable then proxied else tcp) cfg.listen good)
        (λ ts _ e. cc)

  encrypted-ne :
      (cfg : Config) (certified : Bool)
      → Addresses cfg.listen_tls
      → Addresses cfg.listen_https
      → Addresses cfg.listen_quic
      → encrypted_listeners bind cfg certified ≢ err bad_address
  unfolding encrypted_listeners
  encrypted-ne cfg false dot doh doq = λ e. cc
  encrypted-ne cfg true dot doh doq =
      >>=-ne-err _ _ bad_address (listen_all-ne bind tls cfg.listen_tls dot) λ _ _.
        >>=-ne-err _ _ bad_address (listen_all-ne bind https cfg.listen_https doh) λ _ _.
          >>=-ne-err _ _ bad_address (listen_all-ne bind quic cfg.listen_quic doq) (λ _ _ e. cc)

module _ {Name Handler Key Signer Catalog Regex CertifiedKey S : Type 0}
    (files : Files Name Handler) (store : KeyStore Key Signer)
    (server : Server Name Handler Signer Catalog)
    (upsert_forwarder : ResolverWrap × Authority Regex → Catalog → Catalog)
    (fetch_text : Text → Option Text) (compile : Text → Option Regex) (build : ResolverWrap → Bool)
    (stub_exists : Bool) (resolv_conf : Option Text) (certs : Certs CertifiedKey)
    (bind : Service → IpAddr × ℕ → Bool) (encode : List (Saved CacheKey) → S)
    (decode : S → Option (List (Saved CacheKey))) where
  build_catalog-ne :
      (cfg : Config)
      → build_catalog files store server upsert_forwarder fetch_text compile build stub_exists
          resolv_conf certs bind encode decode cfg
        ≢ err bad_address
  unfolding build_catalog build_cache_forwarder
  build_catalog-ne cfg =
      >>=-ne-err (or_error bad_zones (load_all files store server cfg cfg.keys_dir)) _ bad_address
        (or_error-ne bad_zones bad_address _ (λ e. cc))
        λ _ _.
          >>=-ne-err (build_cache_forwarder fetch_text compile build stub_exists resolv_conf cfg) _
            bad_address
            (>>=-ne-err
              (or_error bad_forwarder
                (from_config build stub_exists resolv_conf cfg cfg.validation))
              _ bad_address (or_error-ne bad_forwarder bad_address _ (λ e. cc))
              (λ _ _. ok-ne _ bad_address))
            (λ _ _. ok-ne _ bad_address)

  -- The start of a server whose configuration passes the checks does not fail on the text of an
  -- address to listen on: what it can fail on are zones, forwarders, sockets and certificates.
  pub start-ne-bad_address :
      (cfg : Config) (cache_files : Text → Option (File S)) (disk : Disk) (now : ℕ)
      → validate cfg ≡ none
      → start files store server upsert_forwarder fetch_text compile build stub_exists resolv_conf
          certs bind encode decode cfg cache_files disk now
        ≢ err bad_address
  unfolding start
  start-ne-bad_address cfg cache_files disk now passes =
      let v = validate-IsValid cfg passes in
      let (plain, encrypted) = All-append cfg.listen _ v.addresses in
      let (dot, rest) = All-append cfg.listen_tls _ encrypted in
      let (doq, doh) = All-append cfg.listen_quic cfg.listen_https rest in
      >>=-ne-err
        (build_catalog files store server upsert_forwarder fetch_text compile build stub_exists
          resolv_conf certs bind encode decode cfg)
        _ bad_address (build_catalog-ne cfg)
        λ built _.
          >>=-ne-err (plain_listeners bind cfg) _ bad_address (plain-ne bind cfg plain) λ _ _.
            >>=-ne-err (certificate certs cfg disk).0 _ bad_address (certificate-ne certs cfg disk)
              λ certified _.
                >>=-ne-err (encrypted_listeners bind cfg (is_some certified)) _ bad_address
                  (encrypted-ne bind cfg (is_some certified) dot doh doq)
                  (λ _ _. ok-ne _ bad_address)
