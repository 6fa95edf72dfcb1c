-- ===== src/Config/Valid.antt =====
-- What a configuration that passes the checks is.
use heimdallr.Common.{
  ℕ, ◌<◌, Bool, true, false, ◌||◌, List, [], ◌∷◌, ◌++◌, Option, none, ap, ◌≡◌, ◌≢◌, refl, All,
  arith,
}
use heimdallr.Common.Text.{
  Text, codes, text_eq, text_eq_iff, starts_with, has_char, trim_end_matches,
}
use heimdallr.Config.{
  Config, ZoneConfig, ConfigError, check, check_all, check_zone, check_zones, validate, one_of,
  zone_kinds, algorithms, is_socket_addr, soa_rname, replace_at, default_admin,
}

check-none :
    (b : Bool) (e : ConfigError) (rest : Option ConfigError)
    → check b e rest ≡ none
    → (b ≡ true) × (rest ≡ none)
unfolding check
check-none true e rest h = (refl, h)
check-none false e rest h = ground (arith, h)

check_all-none :
    (test : Text → Bool) (ts : List Text) (e : ConfigError) (rest : Option ConfigError)
    → check_all test ts e rest ≡ none
    → All (λ t. test t ≡ true) ts × (rest ≡ none)
unfolding check_all
check_all-none test [] e rest h = (tt, h)
check_all-none test (t ∷ ts) e rest h =
    let (ok, later) = check-none (test t) e _ h in
    let (oks, last) = check_all-none test ts e rest later in ((ok, oks), last)

-- a zone that passes
pub record IsZone (z : ZoneConfig) : Type 0 where
  pub kind_known : one_of zone_kinds z.kind ≡ true
  pub primary_has_file : z.kind ≡ codes "primary" → z.file ≢ none
  pub secondary_has_primaries : z.kind ≡ codes "secondary" → z.primaries ≢ []
  pub algorithm_known : z.dnssec_signing ≡ true → one_of algorithms z.dnssec_algorithm ≡ true

check_zone-none :
    (z : ZoneConfig) (rest : Option ConfigError)
    → check_zone z rest ≡ none
    → IsZone z × (rest ≡ none)
unfolding check_zone
check_zone-none z rest h =
    let (known, h₁) = check-none _ _ _ h in
    let (file, h₂) = check-none _ _ _ h₁ in
    let (primaries, h₃) = check-none _ _ _ h₂ in
    let (algorithm, h₄) = check-none _ _ _ h₃ in
    (
      record {
        kind_known = known;
        primary_has_file =
            λ k e. ground (arith, file, (text_eq_iff z.kind (codes "primary")).1 k, e);
        secondary_has_primaries =
            λ k e. ground (arith, primaries, (text_eq_iff z.kind (codes "secondary")).1 k, e);
        algorithm_known = λ k. ground (arith, algorithm, k);
      },
      h₄,
    )

check_zones-none :
    (zs : List ZoneConfig) (rest : Option ConfigError)
    → check_zones zs rest ≡ none
    → All IsZone zs × (rest ≡ none)
unfolding check_zones
check_zones-none [] rest h = (tt, h)
check_zones-none (z ∷ zs) rest h =
    let (ok, later) = check_zone-none z _ h in
    let (oks, last) = check_zones-none zs rest later in ((ok, oks), last)

-- every address that the configuration listens on
abbrev pub listening : Config → List Text
listening c = c.listen ++ (c.listen_tls ++ (c.listen_quic ++ c.listen_https))

pub record IsValid (c : Config) : Type 0 where
  pub concurrent : 0 < c.concurrency
  pub timed : 0 < c.timeout_ms
  pub caching : 0 < c.cache_size
  pub addresses : All (λ t. is_socket_addr t ≡ true) (listening c)
  pub api_address : is_socket_addr c.api_listen ≡ true
  pub zones : All IsZone c.zones
  pub absolute : starts_with (codes "/") c.zones_dir ≡ true

-- A configuration that passes the checks has a cache size, a concurrency and a timeout above
-- zero, socket addresses to listen on and one for the API, an absolute zones directory, and only zones of the five
-- known kinds, of which a primary has a file, a secondary has primaries, and one that is signed
-- has a known algorithm.
pub validate-IsValid : (c : Config) → validate c ≡ none → IsValid c
unfolding validate
validate-IsValid c h =
    let (_, h₁) = check-none _ _ _ h in
    let (_, h₂) = check-none _ _ _ h₁ in
    let (concurrent, h₃) = check-none _ _ _ h₂ in
    let (timed, h₄) = check-none _ _ _ h₃ in
    let (caching, h₅) = check-none _ _ _ h₄ in
    let (addresses, h₆) = check_all-none is_socket_addr (listening c) _ _ h₅ in
    let (api, h₇) = check-none _ _ _ h₆ in
    let (_, h₈) = check-none _ _ _ h₇ in
    let (_, h₉) = check-none _ _ _ h₈ in
    let (_, ha) = check-none _ _ _ h₉ in
    let (zones, hb) = check_zones-none c.zones _ ha in
    let (absolute, _) = check-none _ _ _ hb in
    record {
      concurrent = ground (arith, concurrent);
      timed = ground (arith, timed);
      caching = ground (arith, caching);
      addresses = addresses;
      api_address = api;
      zones = zones;
      absolute = absolute;
    }

catalog_unknown : one_of zone_kinds (codes "catalog") ≡ false
unfolding one_of text_eq
catalog_unknown = refl

IsZone-at :
    (before after : List ZoneConfig) (z : ZoneConfig) → All IsZone (before ++ z ∷ after) → IsZone z
IsZone-at [] after z a = a.0
IsZone-at (y ∷ before) after z a = IsZone-at before after z a.1

-- A configuration with a zone of the kind `catalog`, at any place, never passes the checks.
pub validate_catalog :
    (c : Config) (before after : List ZoneConfig) (z : ZoneConfig)
    → c.zones ≡ before ++ z ∷ after
    → z.kind ≡ codes "catalog"
    → validate c ≢ none
validate_catalog c before after z e k h =
    let all : All IsZone (before ++ z ∷ after) = rw e at ((validate-IsValid c h).zones) in
    let known = (IsZone-at before after z all).kind_known in
    ground (arith, catalog_unknown, ap (one_of zone_kinds) k, known)

has_char-append : (x : ℕ) (s t : Text) → has_char x (s ++ t) ≡ (has_char x s || has_char x t)
unfolding has_char
has_char-append x [] t = refl
has_char-append x (c ∷ s) t = ground (arith, has_char-append x s t)

has_char-replace_at : (s : Text) → has_char b'@' (replace_at s) ≡ false
unfolding has_char replace_at
has_char-replace_at [] = refl
has_char-replace_at (c ∷ s) = ground (arith, has_char-replace_at s)

has_char-trim :
    (x c : ℕ) (s : Text) → has_char x s ≡ false → has_char x (trim_end_matches c s) ≡ false
unfolding has_char trim_end_matches
has_char-trim x c [] h = refl
has_char-trim x c (y ∷ s) h = ground (arith, has_char-trim x c s, h)

-- The mail name of a zone's SOA record holds no `@`, if the configured host name holds none.
pub has_char-soa_rname :
    (c : Config) → has_char b'@' c.host ≡ false → has_char b'@' (soa_rname c) ≡ false
unfolding soa_rname has_char
has_char-soa_rname c h =
    let email = default_admin c.hostadmin in
    ground (
      arith,
      has_char-replace_at email,
      has_char-append b'@' email (b'.' ∷ trim_end_matches b'.' c.host),
      has_char-trim b'@' b'.' c.host h,
    )
