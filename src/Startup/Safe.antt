-- ===== src/Startup/Safe.antt =====
-- What the configuration that the program runs with is.
use heimdallr.Common.{
  ℕ, Bool, ◌≡◌, ◌≢◌, refl, arith, List, [], ◌∷◌, Option, none, some, Option-cases, inl, inr,
}
use heimdallr.Common.Addr.{IpAddr}
use heimdallr.Common.Text.{Text}
use heimdallr.Cache.Snapshot.{Saved}
use heimdallr.Config.{Config, validate}
use heimdallr.Config.Tls.{Disk}
use heimdallr.Config.Valid.{IsValid, validate-IsValid}
use heimdallr.Filter.{unwrap_or}
use heimdallr.Forward.Service.{Authority, CacheKey}
use heimdallr.Keys.{KeyStore}
use heimdallr.Net.{Service, err, bad_address}
use heimdallr.Net.Persistent.{File}
use heimdallr.Net.Addressed.{start-ne-bad_address}
use heimdallr.Net.Start.{Certs, start}
use heimdallr.Resolver.{ResolverWrap}
use heimdallr.Startup.{Args, checked, with_listen, with_api_listen, base_config, load_config}
use heimdallr.ZoneFile.{Files}
use heimdallr.ZoneManager.{Server}
use heimdallr.ZoneRecord.{bind_cases}

checked-some : (c cfg : Config) → checked c ≡ some cfg → (c ≡ cfg) × (validate cfg ≡ none)
unfolding checked
checked-some c cfg h = elim (Option-cases (validate c)) [
  | inr (e, bad) ↦ absurd (ground (arith, rw (bad, checked) at h))
  | inl good ↦
      let same : c ≡ cfg = ground (arith, rw (good, checked) at h) in (same, rw (← same) good)
]

-- the addresses that the command line gives
unwrap_or-with :
    (listen api : Option Text) (c : Config)
    → ((with_api_listen api (with_listen listen c)).listen
        ≡ (elim listen [ none ↦ c.listen | some l ↦ l ∷ [] ]))
      × ((with_api_listen api (with_listen listen c)).api_listen ≡ unwrap_or c.api_listen api)
unfolding with_api_listen with_listen unwrap_or
unwrap_or-with none none c = (refl, refl)
unwrap_or-with none (some a) c = (refl, refl)
unwrap_or-with (some l) none c = (refl, refl)
unwrap_or-with (some l) (some a) c = (refl, refl)

module _ (read_to_string : Text → Option Text) (from_toml : Text → Option Config)
    (exists : Text → Bool) {Name Handler Key Signer Catalog Regex CertifiedKey S : Type 0}
    (files : Files Name Handler) (store : KeyStore Key Signer)
    (server : Server Name Handler Signer Catalog)
    (upsert_forwarder : ResolverWrap × Authority Regex → Catalog → Catalog)
    (fetch_text : Text → Option Text) (compile : Text → Option Regex) (build : ResolverWrap → Bool)
    (stub_exists : Bool) (resolv_conf : Option Text) (certs : Certs CertifiedKey)
    (bind : Service → IpAddr × ℕ → Bool) (encode : List (Saved CacheKey) → S)
    (decode : S → Option (List (Saved CacheKey))) where
  -- A configuration that the program loads, from a file or by default, has the addresses of the
  -- command line in place of its own where they are given, and passes the checks with them; and
  -- the start of a server on it never fails because the text of an address to listen on is bad.
  pub load_config-start :
      (args : Args) (cfg : Config) (cache_files : Text → Option (File S)) (disk : Disk) (now : ℕ)
      → load_config read_to_string from_toml exists args ≡ some cfg
      → IsValid cfg
        × ((base : Config) × (base_config read_to_string from_toml exists args.config ≡ some base)
            × (cfg.listen ≡ (elim args.listen [ none ↦ base.listen | some l ↦ l ∷ [] ]))
            × (cfg.api_listen ≡ unwrap_or base.api_listen args.api_listen))
        × (start files store server upsert_forwarder fetch_text compile build stub_exists
              resolv_conf certs bind encode decode cfg cache_files disk now
            ≢ err bad_address)
  unfolding load_config
  load_config-start args cfg cache_files disk now h =
      let (base, loaded, h₁) = bind_cases _ _ _ h in
      let (same, passes) =
        checked-some (with_api_listen args.api_listen (with_listen args.listen base)) cfg h₁ in
      let (listens, api) = unwrap_or-with args.listen args.api_listen base in
      (
        validate-IsValid cfg passes,
        (base, loaded, rw (← same) listens, rw (← same) api),
        start-ne-bad_address files store server upsert_forwarder fetch_text compile build
            stub_exists resolv_conf certs bind encode decode cfg cache_files disk now passes,
      )
