-- ===== src/ZoneRecord/Listing/Selected.antt =====
-- The records that are asked for are those of the listing with their name and type.
use heimdallr.Common.{
  Bool, ◌&&◌, ◌≡◌, refl, ap, ◌∙◌, arith, List, [], ◌∷◌, ◌++◌, map, some, All, if◌then◌else◌,
  Bool-cases, inl, inr,
}
use mathlib.Core.List.{map-append}
use heimdallr.Common.Text.{Text}
use heimdallr.Config.{ZoneConfig}
use heimdallr.Dns.{RecordType}
use heimdallr.Dns.Records.{Record, record_type}
use heimdallr.Forward.Lookup.{is_type}
use heimdallr.ZoneFile.{Files, load_handler}
use heimdallr.ZoneRecord.Listing.{
  RecordSet, Zones, summary_of, summaries, sets_at, list_records, get_records, parse_type,
}

module _ {Name Handler Sshfp Svcb : Type 0} (files : Files Name Handler)
    (zones : Zones Name Handler Sshfp Svcb) (default_rname : Text) where
  -- the records of a name and a type, and whether a record is one
  abbrev pub matches : Name → RecordType → Record Name → Bool
  matches name rtype r =
      zones.name_eq (zones.lower r.name) name && is_type (record_type r.data_) rtype

  unfoldable pub records_at : Name → RecordType → List (Record Name) → List (Record Name)
  records_at name rtype [] = []
  records_at name rtype (r ∷ records) =
      let rest = records_at name rtype records in if matches name rtype r then r ∷ rest else rest

  -- the records of all sets
  unfoldable pub all_records : List (RecordSet Name) → List (Record Name)
  all_records [] = []
  all_records (s ∷ sets) = s.records ++ all_records sets

  -- every set holds records of its own name and type
  abbrev pub IsKeyed : List (RecordSet Name) → Type 0
  IsKeyed =
      All λ s. All (λ r. (zones.lower r.name ≡ s.name) × (record_type r.data_ ≡ s.rtype)) s.records

  records_at-append :
      (name : Name) (rtype : RecordType) (xs ys : List (Record Name))
      → records_at name rtype (xs ++ ys) ≡ records_at name rtype xs ++ records_at name rtype ys
  unfolding records_at
  records_at-append name rtype [] ys = refl
  records_at-append name rtype (x ∷ xs) ys = ground (arith, records_at-append name rtype xs ys)

  records_at-keyed :
      (name : Name) (rtype : RecordType) (set_name : Name) (set_type : RecordType)
      (rs : List (Record Name))
      → All (λ r. (zones.lower r.name ≡ set_name) × (record_type r.data_ ≡ set_type)) rs
      → records_at name rtype rs
        ≡ (if zones.name_eq set_name name && is_type set_type rtype then rs else [])
  unfolding records_at
  records_at-keyed name rtype n t [] h =
      elim (Bool-cases (zones.name_eq n name && is_type t rtype)) [
        | inl same ↦ rw same refl
        | inr other ↦ rw other refl
      ]
  records_at-keyed name rtype n t (r ∷ rs) h =
      rw (h.0.0, h.0.1, records_at-keyed name rtype n t rs h.1)
        (elim (Bool-cases (zones.name_eq n name && is_type t rtype)) [
          | inl same ↦ rw same refl
          | inr other ↦ rw other refl
        ])

  sets_at-records_at :
      (name : Name) (rtype : RecordType) (sets : List (RecordSet Name))
      → IsKeyed sets
      → all_records (sets_at files zones default_rname name rtype sets)
        ≡ records_at name rtype (all_records sets)
  unfolding sets_at all_records records_at
  sets_at-records_at name rtype [] h = refl
  sets_at-records_at name rtype (s ∷ sets) h =
      rw
        (
          records_at-append name rtype s.records (all_records sets),
          records_at-keyed name rtype s.name s.rtype s.records h.0,
        )
        (ground (arith, sets_at-records_at name rtype sets h.1))

  map-summaries :
      (sets : List (RecordSet Name))
      → summaries files zones default_rname sets
        ≡ map (summary_of files zones default_rname) (all_records sets)
  unfolding summaries all_records
  map-summaries [] = refl
  map-summaries (s ∷ sets) =
      rw map-append
        (ap (λ t. map (summary_of files zones default_rname) s.records ++ t) (map-summaries sets))

  -- In a zone that can be loaded, and whose record sets hold records of their own name and type
  -- only, the listing has a summary of every record of every set, in their order, and a query for a name and a type that can
  -- be read has exactly those of the records with this name (in lower case) and this type, in the
  -- order of the listing.
  pub get_records-list_records :
      (z : ZoneConfig) (zones_dir name rtype_text : Text) (handler : Handler) (search_name : Name)
      (rtype : RecordType)
      → load_handler files default_rname z zones_dir ≡ some handler
      → IsKeyed (zones.sets handler)
      → files.from_ascii name ≡ some search_name
      → parse_type files zones default_rname rtype_text ≡ some rtype
      → (list_records files zones default_rname z zones_dir
          ≡ some (map (summary_of files zones default_rname) (all_records (zones.sets handler))))
        × (get_records files zones default_rname z zones_dir name rtype_text
            ≡ some (
                map
                  (summary_of files zones default_rname)
                  (records_at (zones.lower search_name) rtype (all_records (zones.sets handler)))))
  unfolding list_records get_records
  get_records-list_records z zones_dir name rtype_text handler search_name rtype loads keyed named
        typed =
      (
        rw loads (ap some (map-summaries (zones.sets handler))),
        rw (loads, named, typed)
            (ap some (
              map-summaries _
              ∙ ap (map (summary_of files zones default_rname))
                  (sets_at-records_at (zones.lower search_name) rtype (zones.sets handler) keyed))),
      )
