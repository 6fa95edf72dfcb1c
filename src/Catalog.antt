-- ===== src/Catalog.antt =====
-- src/core/zone/catalog.rs: catalog zones. The printing and parsing of names are the DNS crate's.
pub mod Members
use heimdallr.Common.{
  ℕ, ◌-◌, Bool, true, false, ◌&&◌, List, [], ◌∷◌, ◌++◌, Option, none, some, ite, leb, if◌then◌else◌,
  length, take, drop, any,
}
use heimdallr.Common.Addr.{IpAddr, v4, v6}
use heimdallr.Common.Text.{Text, codes, text_eq, trim_end_matches}
use heimdallr.Dns.{ptr as type_ptr, txt as type_txt}
use heimdallr.Dns.Records.{Record, a, aaaa, ptr, txt, record_type}
use heimdallr.Forward.Lookup.{is_type}

-- `strip_suffix`
unfoldable pub strip_suffix : Text → Text → Option Text
unfolding text_eq
strip_suffix suffix s =
    let n = length s - length suffix in
    if leb (length suffix) (length s) && text_eq (drop n s) suffix then some (take n s) else none

module _ {Name : Type 0} (name_discrete : Discrete Name) (to_string : Name → Text)
    (from_ascii : Text → Option Name) where
  same_name : Name → Name → Bool
  same_name m n = ite (name_discrete m n) true false

  -- the record is the version record, with a string "2"
  unfoldable pub has_version : Name → Record Name → Bool
  unfolding is_type record_type same_name text_eq
  has_version version_name r =
      same_name r.name version_name
      && (is_type (record_type r.data_) type_txt
          && elim r.data_ [ txt strings ↦ any (λ t. text_eq t (codes "2")) strings | _ ↦ false ])

  -- `verify_version`
  unfoldable pub verify_version : Name → List (Record Name) → Bool
  unfolding has_version
  verify_version origin records = elim (from_ascii (codes "version." ++ to_string origin)) [
    | none ↦ false
    | some version_name ↦ any (has_version version_name) records
  ]

  -- the member that a record names: its unique label and the zone
  unfoldable pub member_of : Text → Record Name → Option (Text × Name)
  unfolding strip_suffix trim_end_matches
  member_of suffix r = elim r.data_ [
    | ptr target ↦ elim (strip_suffix suffix (to_string r.name)) [
      | none ↦ none
      | some prefix ↦ some (trim_end_matches b'.' prefix, target)
    ]
    | _ ↦ none
  ]

  unfoldable pub members_of : Text → List (Record Name) → List (Text × Name)
  unfolding member_of
  members_of suffix [] = []
  members_of suffix (r ∷ records) = elim (member_of suffix r) [
    | none ↦ members_of suffix records
    | some member ↦ member ∷ members_of suffix records
  ]

  -- `parse_member_zones`
  unfoldable pub parse_member_zones : Name → List (Record Name) → List (Text × Name)
  unfolding members_of
  parse_member_zones origin records = members_of (codes "zones." ++ to_string origin) records

  -- the address of a record of the name
  unfoldable pub primary_of : Name → Record Name → Option IpAddr
  unfolding same_name
  primary_of subdomain r =
      if same_name r.name subdomain
      then elim r.data_ [ a ip ↦ some (v4 ip) | aaaa ip ↦ some (v6 ip) | _ ↦ none ]
      else none

  unfoldable pub primaries_of : Name → List (Record Name) → List IpAddr
  unfolding primary_of
  primaries_of subdomain [] = []
  primaries_of subdomain (r ∷ records) = elim (primary_of subdomain r) [
    | none ↦ primaries_of subdomain records
    | some ip ↦ ip ∷ primaries_of subdomain records
  ]

  -- `parse_primaries`
  unfoldable pub parse_primaries : Name → List (Record Name) → Text → List IpAddr
  unfolding primaries_of
  parse_primaries origin records unique_id =
      elim (from_ascii (codes "primaries." ++ unique_id ++ codes ".zones." ++ to_string origin)) [
        | none ↦ []
        | some subdomain ↦ primaries_of subdomain records
      ]
