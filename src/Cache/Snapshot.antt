-- ===== src/Cache/Snapshot.antt =====
-- `save_to_file` and `load_from_file`. The file's text and its JSON encoding are serde_json's:
-- the encoder and the decoder are parameters, and a file that cannot be read is `none`.
use mathlib.Core.Option
use heimdallr.Common.{
  ℕ, suc, ◌+◌, ◌≤◌, ◌<◌, max, ◌≡◌, refl, ap, ◌∙◌, List, [], ◌∷◌, ◌++◌, Option, none, some, ite,
  arith, length,
}
use heimdallr.Common.Words.{from_secs, as_secs}
use heimdallr.HashMap.{get, modify, IsMap, get-modify_self, get-modify_ne, length-modify}
use heimdallr.Cache.{Cache, CacheConfig, CacheEntry, new, insert, retain}
use heimdallr.Cache.Eviction.{fresh, insert_lem, survivors}
use heimdallr.Cache.Invariant.{IsValid, insert-IsValid, new-IsValid, Agrees-modify}
use heimdallr.Cache.Order.{length-retain-le, length-concat}

-- the tuple that is written for an entry: key, bytes, time to live in seconds, hit count
abbrev pub Saved : Type 0 → Type 0
Saved K = K × List ℕ × ℕ × ℕ

pub data LoadResult (K : Type 0) : Type 0 where
  loaded : Cache K → LoadResult K
  not_read invalid_data stuck : LoadResult K

module _ {K : Type 0} (dec : Discrete K) where
  unfoldable pub snapshot : List (K × CacheEntry) → List (Saved K)
  snapshot [] = []
  snapshot ((k, e) ∷ m) = (k, e.response_bytes, as_secs e.original_ttl, e.hit_count) ∷ snapshot m

  abbrev with_hits : ℕ → CacheEntry → CacheEntry
  with_hits n e = record e { hit_count = n }

  -- the loop of `load_from_file`
  unfoldable pub restore : ℕ → List (Saved K) → Cache K → Option (Cache K)
  restore now [] c = some c
  restore now ((k, b, ttl_sec, n) ∷ s) c = elim (insert dec c k b (from_secs ttl_sec) now) [
    | none ↦ none
    | some c' ↦ restore now s (record c' { entries = modify dec k (with_hits n) c'.entries })
  ]

  abbrev pub load_config : List (Saved K) → CacheConfig
  load_config s = record { size = max (length s) 100; serve_stale = from_secs 30; prefetch = 0 }

  module _ {S : Type 0} (encode : List (Saved K) → S) (decode : S → Option (List (Saved K))) where
    -- the text that `save_to_file` writes
    unfoldable pub save_to_file : Cache K → S
    save_to_file c = encode (snapshot c.entries)

    unfoldable pub load_from_file : Option S → ℕ → LoadResult K
    load_from_file none now = not_read
    load_from_file (some text) now = elim (decode text) [
      | none ↦ invalid_data
      | some s ↦ elim (restore now s (new (load_config s))) [ none ↦ stuck | some c ↦ loaded c ]
    ]

  -- what an entry is after it was saved and loaded
  abbrev pub reloaded : ℕ → CacheEntry → CacheEntry
  reloaded now e = record {
    response_bytes = e.response_bytes;
    inserted_at = now;
    original_ttl = from_secs (as_secs e.original_ttl);
    hit_count = e.hit_count;
    last_access = now;
  }

  pub length-snapshot : (m : List (K × CacheEntry)) → length (snapshot m) ≡ length m
  unfolding snapshot
  length-snapshot [] = refl
  length-snapshot ((k, e) ∷ m) = ap suc (length-snapshot m)

  -- An insertion with room to spare keeps every other entry.
  insert_fits :
      (c : Cache K) (k : K) (b : List ℕ) (ttl now : ℕ)
      → IsValid dec c
      → length c.entries < c.config.size
      → (c' : Cache K) × (insert dec c k b ttl now ≡ some c')
        × IsValid dec c'
        × (c'.config ≡ c.config)
        × (length c'.entries ≤ suc (length c.entries))
        × ((j : K)
            → get dec j c'.entries ≡ ite (dec k j) (some (fresh b ttl now)) (get dec j c.entries))
  insert_fits c k b ttl now v room =
      let (c₁, ends, order, gets) = insert_lem dec c k b ttl now v (omega arith) in
      let (c₂, ends₂, v₂, config) = insert-IsValid dec c k b ttl now v (omega arith) in
      let kept : survivors dec c ≡ c.access_order = ground arith in
      let order₂ : c₂.access_order ≡ retain dec k c.access_order ++ k ∷ [] =
        ground (arith, order, ends, ends₂, kept) in
      let same : c₂ ≡ c₁ = ground (arith, ends, ends₂) in
      (
        c₂,
        ends₂,
        v₂,
        config,
        omega (
          arith,
          v₂.agrees.lengths,
          ap length order₂,
          length-concat (retain dec k c.access_order) k,
          length-retain-le dec k c.access_order,
          v.agrees.lengths,
        ),
        λ j. rw same (gets j ∙ rw kept (ground (arith, v.agrees.same j))),
      )

  get-modify-ite :
      (m : List (K × CacheEntry)) (k j : K) (e : CacheEntry) (n : ℕ)
      → get dec k m ≡ some e
      → get dec j (modify dec k (with_hits n) m)
        ≡ ite (dec k j) (some (with_hits n e)) (get dec j m)
  get-modify-ite m k j e n found =
      ground (
        arith,
        get-modify_self dec k (with_hits n) m e found,
        get-modify_ne dec k j (with_hits n) m,
      )

  restore_lem :
      (m : List (K × CacheEntry)) (c : Cache K) (now : ℕ)
      → IsMap dec m
      → IsValid dec c
      → length c.entries + length m ≤ c.config.size
      → (c' : Cache K) × (restore now (snapshot m) c ≡ some c')
        × IsValid dec c'
        × (c'.config ≡ c.config)
        × ((j : K)
            → get dec j c'.entries ≡ (elim (get dec j m) [
              | none ↦ get dec j c.entries
              | some e ↦ some (reloaded now e)
            ]))
  unfolding restore snapshot get
  restore_lem [] c now u v fits = (c, refl, v, refl, λ j. refl)
  restore_lem ((k, e) ∷ m) c now u v fits =
      let ttl = from_secs (as_secs e.original_ttl) in
      let (c₁, ends, v₁, config, len, gets) =
        insert_fits c k e.response_bytes ttl now v (omega arith) in
      let found : get dec k c₁.entries ≡ some (fresh e.response_bytes ttl now) =
        gets k ∙ ground arith in
      let m₁ = modify dec k (with_hits e.hit_count) c₁.entries in
      let len₁ : length m₁ ≡ length c₁.entries = length-modify dec k _ c₁.entries in
      let (c', ends', v', config', gets') =
        restore_lem m (record c₁ { entries = m₁ }) now u.1
          (record {
            agrees = Agrees-modify dec c₁.entries c₁.access_order k _ v₁.agrees;
            bounded = omega (arith, len₁, v₁.bounded);
          })
          (omega (arith, len₁, len, ap (λ (d : CacheConfig). d.size) config, fits)) in
      (
        c',
        rw (ends, restore) ends',
        v',
        config' ∙ config,
        λ j.
            gets' j
            ∙ ground (arith, get-modify-ite c₁.entries k j _ e.hit_count found, gets j, u.0),
      )

  load_lem :
      {S : Type 0} (encode : List (Saved K) → S) (decode : S → Option (List (Saved K))) (text : S)
      (now : ℕ) {s : List (Saved K)} {c : Cache K}
      → decode text ≡ some s
      → restore now s (new (load_config s)) ≡ some c
      → load_from_file encode decode (some text) now ≡ loaded c
  unfolding load_from_file
  load_lem encode decode text now read ends = rw (read, load_from_file) (rw (ends, load_from_file))

  -- The same with the configuration, which is made from the file.
  pub load_from_file-save_to_file_config :
      {S : Type 0} (encode : List (Saved K) → S) (decode : S → Option (List (Saved K)))
      (c : Cache K) (now : ℕ)
      → IsMap dec c.entries
      → decode (encode (snapshot c.entries)) ≡ some (snapshot c.entries)
      → (c' : Cache K) × (load_from_file encode decode (some (save_to_file encode decode c)) now
          ≡ loaded c')
        × IsValid dec c'
        × (c'.config ≡ load_config (snapshot c.entries))
        × ((k : K) → get dec k c'.entries ≡ Option.map (reloaded now) (get dec k c.entries))
  unfolding save_to_file new get
  load_from_file-save_to_file_config encode decode c now u inverse =
      let config = load_config (snapshot c.entries) in
      let (c', ends, v, same, gets) =
        restore_lem c.entries (new config) now u (new-IsValid dec config)
          (omega (arith, length-snapshot c.entries)) in
      (
        c',
        load_lem encode decode (save_to_file encode decode c) now inverse ends,
        v,
        same,
        λ k. gets k ∙ ground arith,
      )

  -- Saving a cache whose map has no key twice and loading the text again gives, if the decoder
  -- undoes the encoder on that text, a valid cache with the same keys. Each entry keeps its bytes
  -- and its hit count, its time to live is cut to whole seconds, and its age starts anew.
  pub load_from_file-save_to_file :
      {S : Type 0} (encode : List (Saved K) → S) (decode : S → Option (List (Saved K)))
      (c : Cache K) (now : ℕ)
      → IsMap dec c.entries
      → decode (encode (snapshot c.entries)) ≡ some (snapshot c.entries)
      → (c' : Cache K) × (load_from_file encode decode (some (save_to_file encode decode c)) now
          ≡ loaded c')
        × IsValid dec c'
        × ((k : K) → get dec k c'.entries ≡ Option.map (reloaded now) (get dec k c.entries))
  load_from_file-save_to_file encode decode c now u inverse =
      let (c', loads, v, config, gets) =
        load_from_file-save_to_file_config encode decode c now u inverse in
      (c', loads, v, gets)
