-- ===== src/Net/Served.antt =====
-- What a server that starts serves.
use heimdallr.Common.{
  ℕ, Bool, true, false, ◌≡◌, arith, List, [], ◌++◌, Option, Bool-cases, inl, inr, if◌then◌else◌,
}
use heimdallr.Common.Addr.{IpAddr}
use heimdallr.Common.Text.{Text}
use heimdallr.Cache.Snapshot.{Saved}
use heimdallr.Config.{Config}
use heimdallr.Config.Tls.{Disk}
use heimdallr.Forward.Service.{Authority, CacheKey}
use heimdallr.Keys.{KeyStore}
use heimdallr.Net.{
  ok, >>=-eq-ok, Service, udp, tcp, proxied, tls, https, quic, Listener, plain_listeners,
  encrypted_listeners, has_tls_listeners,
}
use heimdallr.Net.Certified.{no_tls, Reads-unique, certificate-some}
use heimdallr.Net.Listening.{at_all, AllBound, listen_all-ok}
use heimdallr.Net.Persistent.{File}
use heimdallr.Net.Start.{Certs, certificate, Running, is_some, build_catalog, start}
use heimdallr.Resolver.{ResolverWrap}
use heimdallr.Resolver.Servers.{Reads}
use heimdallr.ZoneFile.{Files}
use heimdallr.ZoneManager.{Server}

module _ (bind : Service → IpAddr × ℕ → Bool) where
  -- the addresses that are configured for each service, and that all of them could be bound
  pub record Listens (cfg : Config) (listeners : List Listener) : Type 0 where
    pub plain : List (IpAddr × ℕ)
    pub dot : List (IpAddr × ℕ)
    pub doh : List (IpAddr × ℕ)
    pub doq : List (IpAddr × ℕ)
    pub reads_plain : Reads cfg.listen plain
    pub reads_dot : Reads cfg.listen_tls dot
    pub reads_doh : Reads cfg.listen_https doh
    pub reads_doq : Reads cfg.listen_quic doq
    pub binds_udp : AllBound bind udp plain
    pub binds_tcp : AllBound bind (if cfg.proxy_enable then proxied else tcp) plain
    pub binds_dot : AllBound bind tls dot
    pub binds_doh : AllBound bind https doh
    pub binds_doq : AllBound bind quic doq
    pub all :
        listeners
        ≡ (at_all udp plain ++ at_all (if cfg.proxy_enable then proxied else tcp) plain)
          ++ (at_all tls dot ++ (at_all https doh ++ at_all quic doq))

  abbrev pub AreEncrypted : Config → List Listener → Type 0
  AreEncrypted cfg ls =
      (dot : List (IpAddr × ℕ)) × (doh : List (IpAddr × ℕ)) × (doq : List (IpAddr × ℕ)) × Reads
        cfg.listen_tls dot
      × Reads cfg.listen_https doh
      × Reads cfg.listen_quic doq
      × AllBound bind tls dot
      × AllBound bind https doh
      × AllBound bind quic doq
      × (ls ≡ at_all tls dot ++ (at_all https doh ++ at_all quic doq))

  encrypted-none :
      (cfg : Config) (ls : List Listener)
      → has_tls_listeners cfg ≡ false
      → encrypted_listeners bind cfg false ≡ ok ls
      → AreEncrypted cfg ls
  unfolding encrypted_listeners
  encrypted-none cfg ls none_wanted h =
      let (no_dot, no_doh, no_doq) = no_tls cfg none_wanted in
      ([], [], [], rw no_dot tt, rw no_doh tt, rw no_doq tt, tt, tt, tt, ground (arith, h))

  encrypted-some :
      (cfg : Config) (ls : List Listener)
      → encrypted_listeners bind cfg true ≡ ok ls
      → AreEncrypted cfg ls
  unfolding encrypted_listeners
  encrypted-some cfg ls h =
      let (dots, h_dot, h₁) = >>=-eq-ok _ _ h in
      let (dohs, h_doh, h₂) = >>=-eq-ok _ _ h₁ in
      let (doqs, h_doq, h₃) = >>=-eq-ok _ _ h₂ in
      let (dot, r_dot, b_dot, e_dot) = listen_all-ok bind tls cfg.listen_tls dots h_dot in
      let (doh, r_doh, b_doh, e_doh) = listen_all-ok bind https cfg.listen_https dohs h_doh in
      let (doq, r_doq, b_doq, e_doq) = listen_all-ok bind quic cfg.listen_quic doqs h_doq in
      (
        dot,
        doh,
        doq,
        r_dot,
        r_doh,
        r_doq,
        b_dot,
        b_doh,
        b_doq,
        ground (arith, h₃, e_dot, e_doh, e_doq),
      )

  abbrev pub ArePlain : Config → List Listener → Type 0
  ArePlain cfg ls =
      (addrs : List (IpAddr × ℕ)) × Reads cfg.listen addrs
      × AllBound bind udp addrs
      × AllBound bind (if cfg.proxy_enable then proxied else tcp) addrs
      × (ls ≡ at_all udp addrs ++ at_all (if cfg.proxy_enable then proxied else tcp) addrs)

  plain-ok :
      (cfg : Config) (ls : List Listener) → plain_listeners bind cfg ≡ ok ls → ArePlain cfg ls
  unfolding plain_listeners
  plain-ok cfg ls h =
      let (us, h_us, h₁) = >>=-eq-ok _ _ h in
      let (ts, h_ts, h₂) = >>=-eq-ok _ _ h₁ in
      let (ua, r_ua, b_ua, e_ua) = listen_all-ok bind udp cfg.listen us h_us in
      let service = if cfg.proxy_enable then proxied else tcp in
      let (ta, r_ta, b_ta, e_ta) = listen_all-ok bind service cfg.listen ts h_ts in
      let same : ua ≡ ta = Reads-unique cfg.listen ua ta r_ua r_ta in
      (ua, r_ua, b_ua, rw same b_ta, ground (arith, h₂, e_ua, e_ta, same))

module _ {CertifiedKey : Type 0} (certs : Certs CertifiedKey)
    (bind : Service → IpAddr × ℕ → Bool) where
  encrypted-ok :
      (cfg : Config) (disk : Disk) (certified : Option CertifiedKey) (ls : List Listener)
      → (certificate certs cfg disk).0 ≡ ok certified
      → encrypted_listeners bind cfg (is_some certified) ≡ ok ls
      → AreEncrypted bind cfg ls
  encrypted-ok cfg disk certified ls h_cert h = elim (Bool-cases (has_tls_listeners cfg)) [
    | inl wants ↦
        encrypted-some bind cfg ls
          (rw (certificate-some certs cfg disk certified wants h_cert) at h)
    | inr none_wanted ↦ elim (Bool-cases (is_some certified)) [
      | inl yes_cert ↦ encrypted-some bind cfg ls (rw yes_cert at h)
      | inr no_cert ↦ encrypted-none bind cfg ls none_wanted (rw no_cert at h)
    ]
  ]

module _ {Name Handler Key Signer Catalog Regex CertifiedKey S : Type 0}
    (files : Files Name Handler) (store : KeyStore Key Signer)
    (server : Server Name Handler Signer Catalog)
    (upsert_forwarder : ResolverWrap × Authority Regex → Catalog → Catalog)
    (fetch_text : Text → Option Text) (compile : Text → Option Regex) (build : ResolverWrap → Bool)
    (stub_exists : Bool) (resolv_conf : Option Text) (certs : Certs CertifiedKey)
    (bind : Service → IpAddr × ℕ → Bool) (encode : List (Saved CacheKey) → S)
    (decode : S → Option (List (Saved CacheKey))) where
  -- A server that starts listens on each configured address, and on no other: over UDP, and over
  -- TCP behind the PROXY protocol if that is on or else without it, on all plain addresses, then
  -- over TLS, HTTPS and QUIC on those configured for them; each could be bound.
  pub start-Listens :
      (cfg : Config) (cache_files : Text → Option (File S)) (disk : Disk) (now : ℕ)
      (r : Running Regex Catalog)
      → start files store server upsert_forwarder fetch_text compile build stub_exists resolv_conf
          certs bind encode decode cfg cache_files disk now
        ≡ ok r
      → Listens bind cfg r.listeners
  unfolding start
  start-Listens cfg cache_files disk now r h =
      let (built, _, h₁) =
        >>=-eq-ok
          (build_catalog files store server upsert_forwarder fetch_text compile build stub_exists
            resolv_conf certs bind encode decode cfg)
          _ h in
      let (plain, h_plain, h₂) = >>=-eq-ok (plain_listeners bind cfg) _ h₁ in
      let (certified, h_cert, h₃) = >>=-eq-ok (certificate certs cfg disk).0 _ h₂ in
      let (encrypted, h_enc, h₄) =
        >>=-eq-ok (encrypted_listeners bind cfg (is_some certified)) _ h₃ in
      let (pa, r_pa, b_udp, b_tcp, e_pa) = plain-ok bind cfg plain h_plain in
      let (dot, doh, doq, r_dot, r_doh, r_doq, b_dot, b_doh, b_doq, e_enc) =
        encrypted-ok certs bind cfg disk certified encrypted h_cert h_enc in
      record {
        plain = pa;
        dot = dot;
        doh = doh;
        doq = doq;
        reads_plain = r_pa;
        reads_dot = r_dot;
        reads_doh = r_doh;
        reads_doq = r_doq;
        binds_udp = b_udp;
        binds_tcp = b_tcp;
        binds_dot = b_dot;
        binds_doh = b_doh;
        binds_doq = b_doq;
        all = ground (arith, h₄, e_pa, e_enc);
      }
