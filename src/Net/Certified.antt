-- ===== src/Net/Certified.antt =====
-- The certificate of the encrypted listeners, and the addresses of a configuration.
use heimdallr.Common.{
  ℕ, true, false, ◌≡◌, ◌≢◌, refl, arith, List, [], ◌∷◌, ◌++◌, Option, some, All, Option-cases,
  Bool-cases, inl, inr,
}
use heimdallr.Common.Addr.{IpAddr}
use heimdallr.Common.Text.{Text}
use heimdallr.Config.{Config, is_socket_addr}
use heimdallr.Config.Tls.{Disk, resolve_cert_paths}
use heimdallr.Net.{
  Result, ok, err, bad_address, no_certificate, bad_certificate, ◌>>=◌, or_error, >>=-ne-err,
  or_error-ne, ok-ne, has_tls_listeners, is_empty,
}
use heimdallr.Net.Start.{Certs, certificate, load_pair, self_signed, is_some}
use heimdallr.Resolver.Servers.{Reads}

abbrev pub Addresses : List Text → Type 0
Addresses ts = All (λ t. is_socket_addr t ≡ true) ts

pub All-append : (xs ys : List Text) → Addresses (xs ++ ys) → Addresses xs × Addresses ys
All-append [] ys h = (tt, h)
All-append (x ∷ xs) ys h = let (hx, hy) = All-append xs ys h.1 in ((h.0, hx), hy)

is_empty-eq : (ts : List Text) → is_empty ts ≡ true → ts ≡ []
unfolding is_empty
is_empty-eq [] h = refl
is_empty-eq (t ∷ ts) h = cc

pub Reads-unique :
    (ts : List Text) (xs bs : List (IpAddr × ℕ)) → Reads ts xs → Reads ts bs → xs ≡ bs
Reads-unique [] [] [] ha hb = refl
Reads-unique (t ∷ ts) (a ∷ xs) (b ∷ bs) ha hb =
    ground (arith, ha.0, hb.0, Reads-unique ts xs bs ha.1 hb.1)
Reads-unique _ _ _ ha hb = absurd (ground (arith, ha, hb))

pub no_tls :
    (cfg : Config)
    → has_tls_listeners cfg ≡ false
    → (cfg.listen_tls ≡ []) × (cfg.listen_https ≡ []) × (cfg.listen_quic ≡ [])
unfolding has_tls_listeners
no_tls cfg h = (
  is_empty-eq cfg.listen_tls (ground arith),
  is_empty-eq cfg.listen_https (ground arith),
  is_empty-eq cfg.listen_quic (ground arith),
)

module _ {CertifiedKey : Type 0} (certs : Certs CertifiedKey) where
  then-some :
      (m : Result CertifiedKey) (o : Option CertifiedKey)
      → (m >>= λ key. ok (some key)) ≡ ok o
      → is_some o ≡ true
  unfolding is_some
  then-some (ok key) o h = ground (arith, h)
  then-some (err e) o h = cc

  paths_then-some :
      (m : Result (Text × Text)) (f : Text × Text → Result CertifiedKey) (o : Option CertifiedKey)
      → (m >>= λ paths. f paths >>= λ key. ok (some key)) ≡ ok o
      → is_some o ≡ true
  paths_then-some (ok paths) f o h = then-some (f paths) o h
  paths_then-some (err e) f o h = cc

  -- an encrypted listener that is configured gets a certificate
  pub certificate-some :
      (cfg : Config) (disk : Disk) (o : Option CertifiedKey)
      → has_tls_listeners cfg ≡ true
      → (certificate certs cfg disk).0 ≡ ok o
      → is_some o ≡ true
  unfolding certificate
  certificate-some cfg disk o wants h =
      elim (Option-cases (
        resolve_cert_paths certs.join disk cfg.tls.cert cfg.tls.key cfg.host
          cfg.tls.letsencrypt_dir)) [
            | inl absent ↦ elim (Bool-cases cfg.tls.self_signed) [
              | inl signs ↦
                  paths_then-some (or_error no_certificate (self_signed certs cfg disk).0)
                    (load_pair certs (self_signed certs cfg disk).1) o
                    (ground (arith, h, wants, absent, signs))
              | inr not_signs ↦ ground (arith, h, wants, absent, not_signs)
            ]
            | inr (paths, found) ↦
                then-some (load_pair certs disk paths) o (ground (arith, h, wants, found))
          ]

  load_pair-ne : (disk : Disk) (paths : Text × Text) → load_pair certs disk paths ≢ err bad_address
  unfolding load_pair
  load_pair-ne disk (cert, key) = or_error-ne bad_certificate bad_address _ (λ e. cc)

  then-ne :
      (m : Result CertifiedKey)
      → m ≢ err bad_address
      → (m >>= λ key. ok (some key)) ≢ err bad_address
  then-ne m hm = >>=-ne-err m _ bad_address hm (λ key _. ok-ne (some key) bad_address)

  paths_then-ne :
      (m : Result (Text × Text)) (disk : Disk)
      → m ≢ err bad_address
      → (m >>= λ paths. load_pair certs disk paths >>= λ key. ok (some key)) ≢ err bad_address
  paths_then-ne m disk hm =
      >>=-ne-err m _ bad_address hm
        (λ paths _. then-ne (load_pair certs disk paths) (load_pair-ne disk paths))

  pub certificate-ne :
      (cfg : Config) (disk : Disk) → (certificate certs cfg disk).0 ≢ err bad_address
  unfolding certificate
  certificate-ne cfg disk h = elim (Bool-cases (has_tls_listeners cfg)) [
    | inr unwanted ↦ ground (arith, h, unwanted)
    | inl wants ↦
        elim (Option-cases (
          resolve_cert_paths certs.join disk cfg.tls.cert cfg.tls.key cfg.host
            cfg.tls.letsencrypt_dir)) [
              | inr (paths, found) ↦
                  then-ne (load_pair certs disk paths) (load_pair-ne disk paths)
                    (ground (arith, h, wants, found))
              | inl absent ↦ elim (Bool-cases cfg.tls.self_signed) [
                | inr not_signs ↦ ground (arith, h, wants, absent, not_signs)
                | inl signs ↦
                    paths_then-ne (or_error no_certificate (self_signed certs cfg disk).0)
                      (self_signed certs cfg disk).1
                      (or_error-ne no_certificate bad_address (self_signed certs cfg disk).0
                        (λ e. cc))
                      (ground (arith, h, wants, absent, signs))
              ]
            ]
  ]
