-- ===== src/ZoneManager/Loaded.antt =====
-- What is loaded of a configuration.
use heimdallr.Common.{
  Bool, true, false, ◌||◌, ◌≡◌, ◌↔◌, refl, sym, ap, ◌∙◌, List, [], ◌∷◌, ◌++◌, none, some, arith,
  if◌then◌else◌, append_assoc, Option-cases, Bool-cases, inl, inr,
}
use heimdallr.Common.Text.{Text, codes, text_eq, text_eq_iff}
use heimdallr.Config.{Config, ZoneConfig, one_of, algorithms}
use heimdallr.Keys.{
  KeyStore, Algorithm, ecdsap256sha256, ecdsap384sha384, ed25519, rsasha256, algorithm_from_str,
}
use heimdallr.Notify.{SecondaryZoneInfo}
use heimdallr.ZoneFile.{Files}
use heimdallr.ZoneManager.{
  ZoneManager, Server, new, load_primary, load_zone, load_zones, load_all, load_secondary,
  load_catalog_zone, primary_zone,
}
use heimdallr.ZoneRecord.{bind_cases}

-- the secondary zones of a configuration
unfoldable pub secondary_zones : List ZoneConfig → List SecondaryZoneInfo
unfolding text_eq
secondary_zones [] = []
secondary_zones (z ∷ zones) =
    let rest = secondary_zones zones in
    if text_eq z.kind (codes "secondary")
    then record { name = z.name; primaries = z.primaries } ∷ rest
    else rest

append_nil : (xs : List SecondaryZoneInfo) → xs ++ [] ≡ xs
append_nil [] = refl
append_nil (x ∷ xs) = ap (λ t. x ∷ t) (append_nil xs)

secondary_zones-cons :
    (z : ZoneConfig) (zones : List ZoneConfig)
    → secondary_zones (z ∷ zones) ≡ secondary_zones (z ∷ []) ++ secondary_zones zones
unfolding secondary_zones
secondary_zones-cons z zones = ground arith

module _ {Name Handler Key Signer Catalog : Type 0} (files : Files Name Handler)
    (store : KeyStore Key Signer) (server : Server Name Handler Signer Catalog) (cfg : Config)
    (keys_dir : Text) where
  load_primary-secondaries :
      (z : ZoneConfig) (m m' : ZoneManager Catalog)
      → load_primary files store server cfg keys_dir z m ≡ some m'
      → m'.secondaries ≡ m.secondaries
  unfolding load_primary
  load_primary-secondaries z m m' e =
      elim (Option-cases (primary_zone files store server cfg keys_dir z)) [
        | inl failed ↦ ground (arith, e, failed)
        | inr (p, loaded) ↦ ground (arith, e, loaded)
      ]

  load_zone-secondaries :
      (z : ZoneConfig) (m m' : ZoneManager Catalog)
      → load_zone files store server cfg keys_dir z m ≡ some m'
      → m'.secondaries ≡ m.secondaries ++ secondary_zones (z ∷ [])
  unfolding text_eq load_zone secondary_zones load_secondary load_catalog_zone
  load_zone-secondaries z m m' e = elim (Bool-cases (text_eq z.kind (codes "primary"))) [
    | inl primary ↦
        let loaded : load_primary files store server cfg keys_dir z m ≡ some m' =
          ground (arith, e, primary) in
        let other : text_eq z.kind (codes "secondary") ≡ false =
          ap (λ k. text_eq k (codes "secondary"))
            ((text_eq_iff z.kind (codes "primary")).0 primary) in
        rw other (load_primary-secondaries z m m' loaded ∙ sym (append_nil m.secondaries))
    | inr rest ↦ elim (Bool-cases (text_eq z.kind (codes "secondary"))) [
      | inl secondary ↦ ground (arith, e, rest, secondary)
      | inr third ↦ ground (arith, e, rest, third, append_nil m.secondaries)
    ]
  ]

  load_zones-secondaries :
      (zones : List ZoneConfig) (m m' : ZoneManager Catalog)
      → load_zones files store server cfg keys_dir zones m ≡ some m'
      → m'.secondaries ≡ m.secondaries ++ secondary_zones zones
  unfolding load_zones secondary_zones
  load_zones-secondaries [] m m' e = ground (arith, e, append_nil m.secondaries)
  load_zones-secondaries (z ∷ zones) m m' e =
      let (m₁, one, rest) = bind_cases (load_zone files store server cfg keys_dir z m) _ m' e in
      load_zones-secondaries zones m₁ m' rest
      ∙ ap (λ t. t ++ secondary_zones zones) (load_zone-secondaries z m m₁ one)
      ∙ append_assoc m.secondaries (secondary_zones (z ∷ [])) (secondary_zones zones)
      ∙ ap (λ t. m.secondaries ++ t) (sym (secondary_zones-cons z zones))

  -- A configuration that is loaded without an error registers exactly its zones of the kind
  -- "secondary" for NOTIFY, in their order and with their primaries.
  pub load_all-secondary_zones :
      (m : ZoneManager Catalog)
      → load_all files store server cfg keys_dir ≡ some m
      → m.secondaries ≡ secondary_zones cfg.zones
  unfolding load_all new
  load_all-secondary_zones m e = load_zones-secondaries cfg.zones _ m e

four_tests :
    (p q r t : Bool) (w x y z : Algorithm)
    → ((p || (q || (r || (t || false)))) ≡ false) ↔ (
        (if p
          then some w
          else if q
          then some x
          else if r
          then some y
          else if t
          then some z
          else none)
        ≡ none)
four_tests true q r t w x y z = ground arith
four_tests false true r t w x y z = ground arith
four_tests false false true t w x y z = ground arith
four_tests false false false true w x y z = ground arith
four_tests false false false false w x y z = ground arith

-- The algorithms that `validate` refuses for a signed zone are exactly those that the key
-- generation does not know.
pub one_of-algorithm_from_str :
    (s : Text) → (one_of algorithms s ≡ false) ↔ (algorithm_from_str s ≡ none)
unfolding one_of algorithm_from_str
one_of-algorithm_from_str s =
    four_tests (text_eq (codes "ecdsa-p256") s) (text_eq (codes "ecdsa-p384") s)
      (text_eq (codes "ed25519") s) (text_eq (codes "rsa-sha256") s) ecdsap256sha256 ecdsap384sha384
      ed25519 rsasha256
