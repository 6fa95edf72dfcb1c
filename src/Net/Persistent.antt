-- ===== src/Net/Persistent.antt =====
-- src/net/mod.rs: the cache file at the start and at the end of the server. A file is its text and
-- its age, where the system gives one; `decode` and `encode` are the JSON codec.
use mathlib.Core.Option
use heimdallr.Common.{
  ℕ, Bool, false, ◌≡◌, refl, max, arith, List, Option, none, some, ltb, if◌then◌else◌, length,
}
use heimdallr.Common.Text.{Text}
use heimdallr.Common.Words.{from_secs, mul64}
use heimdallr.HashMap.{get, IsMap}
use heimdallr.Cache.{Cache, CacheConfig, new, should_prefetch}
use heimdallr.Cache.Invariant.{IsValid}
use heimdallr.Cache.Snapshot.{
  Saved, LoadResult, loaded, snapshot, save_to_file, load_from_file, reloaded,
  load_from_file-save_to_file_config, length-snapshot,
}
use heimdallr.Config.{Config}

pub record File (S : Type 0) : Type 0 where
  pub text : Option S
  pub age : Option ℕ

-- what the loading ends with
pub data Restored (K : Type 0) : Type 0 where
  nothing : Restored K
  restored : Cache K → Restored K
  failed : Restored K

-- the cache that the configuration asks for; the window of stale answers is not configured
unfoldable pub runtime_config : Config → CacheConfig
runtime_config cfg = record {
  size = cfg.cache_size;
  serve_stale = from_secs 30;
  prefetch = cfg.prefetch;
}

-- `persistent_max_age_days * 86_400`, as a duration
unfoldable pub max_age : Config → ℕ
max_age cfg = from_secs (mul64 cfg.persistent_max_age_days 86_400)

-- the age check, which a file passes whose age is not known
unfoldable pub too_old : Config → Option ℕ → Bool
unfolding max_age
too_old cfg none = false
too_old cfg (some age) = ltb (max_age cfg) age

module _ {K S : Type 0} (dec : Discrete K) (encode : List (Saved K) → S)
    (decode : S → Option (List (Saved K))) where
  of_load : LoadResult K → Restored K
  of_load (loaded c) = restored c
  of_load _ = failed

  load_file : Config → ℕ → Option (File S) → Restored K
  unfolding too_old of_load load_from_file
  load_file cfg now none = nothing
  load_file cfg now (some file) =
      if too_old cfg file.age
      then nothing
      else of_load (load_from_file dec encode decode file.text now)

  -- `load_persistent_cache`
  unfoldable pub load_persistent_cache : Config → (Text → Option (File S)) → ℕ → Restored K
  unfolding load_file
  load_persistent_cache cfg files now = elim cfg.persistent [
    | none ↦ nothing
    | some path ↦ load_file cfg now (files path)
  ]

  -- the cache that the server starts with
  unfoldable pub startup_cache : Config → (Text → Option (File S)) → ℕ → Cache K
  unfolding load_persistent_cache new runtime_config
  startup_cache cfg files now = elim (load_persistent_cache cfg files now) [
    | restored c ↦ c
    | _ ↦ new (runtime_config cfg)
  ]

  -- `save_persistent_cache`: what is written to which file, or nothing. `made` says whether the
  -- directory of a path is there after its creation; an error is none.
  unfoldable pub save_persistent_cache :
      Config → (Text → Bool) → Cache K → Option (Option (Text × S))
  unfolding save_to_file
  save_persistent_cache cfg made c = elim cfg.persistent [
    | none ↦ some none
    | some path ↦ if made path then some (some (path, save_to_file dec encode decode c)) else none
  ]

  load_persistent_cache-restored :
      (cfg : Config) (files : Text → Option (File S)) (now : ℕ) (path : Text) (file : File S)
      (c : Cache K)
      → cfg.persistent ≡ some path
      → files path ≡ some file
      → too_old cfg file.age ≡ false
      → load_from_file dec encode decode file.text now ≡ loaded c
      → startup_cache cfg files now ≡ c
  unfolding startup_cache
  load_persistent_cache-restored cfg files now path file c at found young loads =
      rw (at, startup_cache) (rw (found, startup_cache) (rw (young, loads) refl))

  -- A server that ends with a cache, and can write its file, starts again with the cache of that
  -- file, if it is not too old and the decoder undoes the encoder on it. The cache is valid and
  -- has the same keys, with their bytes and hit counts and an age that starts anew. Its size is
  -- the number of its entries, or 100 if they are fewer, and it prefetches nothing, whatever the
  -- configuration says of both.
  pub startup_cache-save_persistent_cache :
      (cfg : Config) (made : Text → Bool) (c : Cache K) (path : Text) (text : S)
      (files : Text → Option (File S)) (age : Option ℕ) (now : ℕ)
      → IsMap dec c.entries
      → decode (encode (snapshot dec c.entries)) ≡ some (snapshot dec c.entries)
      → cfg.persistent ≡ some path
      → save_persistent_cache cfg made c ≡ some (some (path, text))
      → files path ≡ some (record { text = some text; age = age })
      → too_old cfg age ≡ false
      → IsValid dec (startup_cache cfg files now)
        × ((k : K)
            → get dec k (startup_cache cfg files now).entries
              ≡ Option.map (reloaded dec now) (get dec k c.entries))
        × ((startup_cache cfg files now).config.size ≡ max (length c.entries) 100)
        × ((k : K) (later : ℕ) → should_prefetch dec (startup_cache cfg files now) k later ≡ false)
  unfolding save_persistent_cache should_prefetch
  startup_cache-save_persistent_cache cfg made c path text files age now u inverse at saved found
        young =
      let (c', loads, v, config, gets) =
        load_from_file-save_to_file_config dec encode decode c now u inverse in
      let same : save_to_file dec encode decode c ≡ text = ground (arith, at, saved) in
      let starts : startup_cache cfg files now ≡ c' =
        load_persistent_cache-restored cfg files now path (record { text = some text; age = age })
          c' at found young (rw (← same) loads) in
      rw starts (
        v,
        gets,
        ground (arith, config, length-snapshot dec c.entries),
        λ k later. ground (arith, config),
      )
