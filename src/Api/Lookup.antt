-- ===== src/Api/Lookup.antt =====
-- Which zone a request finds.
use heimdallr.Common.{
  true, false, ◌≡◌, ◌≢◌, refl, ap, ◌∙◌, arith, List, [], ◌∷◌, ◌++◌, map, Option, none, some, All,
  Bool-cases, inl, inr,
}
use mathlib.Core.Option
use heimdallr.Common.Text.{Text, text_eq, text_eq_iff}
use heimdallr.Config.{Config, ZoneConfig}
use heimdallr.Api.{
  Reply, ok, not_found, ZoneSummary, ends_with_dot, search_name, find_named, found_or_404,
  summary_of, new, find_zone, zone_detail, records_listed, records_got, create_record,
  delete_record,
}
use heimdallr.ZoneFile.{Files}
use heimdallr.ZoneRecord.{RecordCreate, RecordDelete}
use heimdallr.ZoneRecord.Listing.{Zones}

ends_with_dot-append : (s : Text) → ends_with_dot (s ++ b'.' ∷ []) ≡ true
unfolding ends_with_dot
ends_with_dot-append [] = refl
ends_with_dot-append (c ∷ []) = refl
ends_with_dot-append (c ∷ e ∷ s) = ends_with_dot-append (e ∷ s)

ends_with_dot-search_name : (s : Text) → ends_with_dot (search_name s) ≡ true
unfolding search_name
ends_with_dot-search_name s = elim (Bool-cases (ends_with_dot s)) [
  | inl dot ↦ rw dot dot
  | inr no_dot ↦ rw no_dot (ends_with_dot-append s)
]

search_name-dotted : (s : Text) → ends_with_dot s ≡ true → search_name s ≡ s
unfolding search_name
search_name-dotted s h = rw h refl

-- the first element of a name, if there is one
pub data IsFirst {A : Type 0} (name_of : A → Text) (search : Text)
    : List A → Option A → Type 0 where
  first :
      (before after : List A) (z : A)
      → All (λ y. name_of y ≢ search) before
      → name_of z ≡ search
      → IsFirst name_of search (before ++ z ∷ after) (some z)
  absent :
      (zones : List A) → All (λ y. name_of y ≢ search) zones → IsFirst name_of search zones none

module _ {A : Type 0} (name_of : A → Text) (search : Text) where
  IsFirst-cons :
      {z : A} {zones : List A} {o : Option A}
      → name_of z ≢ search
      → IsFirst name_of search zones o
      → IsFirst name_of search (z ∷ zones) o
  IsFirst-cons {z} differs (first before after y bs e) = first (z ∷ before) after y (differs, bs) e
  IsFirst-cons {z} differs (absent ys bs) = absent (z ∷ ys) (differs, bs)

  find_named-IsFirst :
      (zones : List A) → IsFirst name_of search zones (find_named name_of search zones)
  unfolding find_named
  find_named-IsFirst [] = absent [] tt
  find_named-IsFirst (z ∷ zones) = elim (Bool-cases (text_eq (name_of z) search)) [
    | inl same ↦ rw same (first [] zones z tt ((text_eq_iff (name_of z) search).0 same))
    | inr other ↦
        let differs : name_of z ≢ search =
          λ e. ground (arith, other, (text_eq_iff (name_of z) search).1 e) in
        rw other (IsFirst-cons differs (find_named-IsFirst zones))
  ]

find_named-map :
    (search : Text) (zs : List ZoneConfig)
    → find_named (λ (z : ZoneSummary). z.name) search (map summary_of zs)
      ≡ Option.map summary_of (find_named (λ (z : ZoneConfig). z.name) search zs)
unfolding find_named summary_of
find_named-map search [] = refl
find_named-map search (z ∷ zs) = ground (arith, find_named-map search zs)

-- the reply that an option stands for
abbrev pub reply : {A : Type 0} → Text → Option A → Reply A
reply search none = not_found search
reply search (some a) = ok a

reply_eq : {A : Type 0} (search : Text) (o : Option A) → found_or_404 search o ≡ reply search o
unfolding found_or_404
reply_eq search none = refl
reply_eq search (some a) = refl

module _ {Regex : Type 0} (fetch_text : Text → Option Text) (compile : Text → Option Regex)
    (config : Config) where
  -- A request for a zone searches for the name with a dot at its end, whether it was given with
  -- one or not. On the state that a configuration makes, the record handlers find the first
  -- configured zone of that name, and the zone's page shows the summary of the same zone; without
  -- such a zone both reply that it is not found.
  pub find_zone-zone_detail :
      (name : Text)
      → (o : Option ZoneConfig) × IsFirst
          (λ (z : ZoneConfig). z.name)
          (search_name name)
          config.zones
          o
        × (find_zone (new fetch_text compile config) name ≡ reply (search_name name) o)
        × (zone_detail (new fetch_text compile config) name
            ≡ reply (search_name name) (Option.map summary_of o))
        × (ends_with_dot (search_name name) ≡ true)
        × (search_name (search_name name) ≡ search_name name)
  unfolding find_zone zone_detail new
  find_zone-zone_detail name =
      let search = search_name name in
      let found = find_named (λ (z : ZoneConfig). z.name) search config.zones in
      (
        found,
        find_named-IsFirst (λ (z : ZoneConfig). z.name) search config.zones,
        reply_eq search found,
        ap (found_or_404 search) (find_named-map search config.zones)
            ∙ reply_eq search (Option.map summary_of found),
        ends_with_dot-search_name name,
        search_name-dotted search (ends_with_dot-search_name name),
      )

  find_named-undotted :
      (search : Text) (zs : List ZoneConfig)
      → ends_with_dot search ≡ true
      → All (λ (z : ZoneConfig). ends_with_dot z.name ≡ false) zs
      → find_named (λ (z : ZoneConfig). z.name) search zs ≡ none
  unfolding find_named
  find_named-undotted search [] dot h = refl
  find_named-undotted search (z ∷ zs) dot h =
      let other : text_eq z.name search ≡ false = elim (Bool-cases (text_eq z.name search)) [
        | inr no_match ↦ no_match
        | inl same ↦ ground (arith, ap ends_with_dot ((text_eq_iff z.name search).0 same), dot, h.0)
      ] in
      rw other (find_named-undotted search zs dot h.1)

  find_zone-undotted :
      (name : Text)
      → All (λ (z : ZoneConfig). ends_with_dot z.name ≡ false) config.zones
      → find_zone (new fetch_text compile config) name ≡ not_found (search_name name)
  unfolding find_zone new
  find_zone-undotted name h =
      ap (found_or_404 (search_name name))
        (find_named-undotted (search_name name) config.zones (ends_with_dot-search_name name) h)
      ∙ reply_eq (search_name name) none

  module _ {Name Handler Sshfp Svcb : Type 0} (files : Files Name Handler)
      (zones : Zones Name Handler Sshfp Svcb) (default_rname : Text) where
    -- If no configured zone is written with a dot at the end of its name, no record can be listed,
    -- read, created or deleted: every request, with the zone's name as it is configured or with a
    -- dot behind it, is replied to as not found.
    pub records_undotted :
        (name rname rtype : Text) (create : RecordCreate) (delete : RecordDelete)
        → All (λ (z : ZoneConfig). ends_with_dot z.name ≡ false) config.zones
        → (records_listed files zones default_rname (new fetch_text compile config) name
            ≡ not_found (search_name name))
          × (records_got files zones default_rname (new fetch_text compile config) name rname rtype
              ≡ not_found (search_name name))
          × (create_record files zones default_rname (new fetch_text compile config) name create
              ≡ not_found (search_name name))
          × (delete_record files zones default_rname (new fetch_text compile config) name delete
              ≡ not_found (search_name name))
    unfolding records_listed records_got create_record delete_record
    records_undotted name rname rtype create delete h =
        let lost = find_zone-undotted name h in
        (rw lost refl, rw lost refl, rw lost refl, rw lost refl)
