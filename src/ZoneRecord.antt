-- ===== src/ZoneRecord.antt =====
-- src/core/zone/record.rs: editing the records of a zone. The zone handler, names and record data
-- are the DNS crate's, hexadecimal decoding is another's: their operations are parameters, and so
-- are the full upper-case mapping of the standard library and the conversion of a type's number.
pub mod Editing
pub mod Data
pub mod Listing
use heimdallr.Common.{
  ◌≡◌, refl, arith, ℕ, Bool, true, false, not, ◌&&◌, ◌||◌, List, [], ◌∷◌, Option, none, some, ltb,
  ◌==◌, if◌then◌else◌, length,
}
use heimdallr.Common.Text.{Text, codes, text_eq, trim, split_whitespace, parse_uint}
use heimdallr.Dns.{
  RecordType, a, aaaa, cname, mx, ns, soa, txt, srv, ptr, tlsa, sshfp, https, svcb, caa, dnskey, ds,
  rrsig, nsec, nsec3, nsec3param, aname, any,
}

infixl 1 ◌>>=◌
abbrev pub ◌>>=◌ {ℓ} : {A B : Type ℓ} → Option A → (A → Option B) → Option B
none >>= f = none
some x >>= f = f x

-- a chain that gives a value, taken apart
pub bind_cases :
    {A B : Type 0} (o : Option A) (f : A → Option B) (b : B)
    → (o >>= f) ≡ some b
    → (a : A) × (o ≡ some a) × (f a ≡ some b)
bind_cases none f y e = ground (arith, e)
bind_cases (some x) f y e = (x, refl, e)

-- the table of `parse_record_type`
abbrev pub type_names : List (Text × RecordType)
type_names =
    (codes "A", a)
    ∷ (codes "AAAA", aaaa)
    ∷ (codes "CNAME", cname)
    ∷ (codes "MX", mx)
    ∷ (codes "NS", ns)
    ∷ (codes "SOA", soa)
    ∷ (codes "TXT", txt)
    ∷ (codes "SRV", srv)
    ∷ (codes "PTR", ptr)
    ∷ (codes "TLSA", tlsa)
    ∷ (codes "SSHFP", sshfp)
    ∷ (codes "HTTPS", https)
    ∷ (codes "SVCB", svcb)
    ∷ (codes "CAA", caa)
    ∷ (codes "DNSKEY", dnskey)
    ∷ (codes "DS", ds)
    ∷ (codes "RRSIG", rrsig)
    ∷ (codes "NSEC", nsec)
    ∷ (codes "NSEC3", nsec3)
    ∷ (codes "NSEC3PARAM", nsec3param)
    ∷ (codes "DNAME", aname)
    ∷ (codes "ANAME", cname)
    ∷ (codes "ANY", any)
    ∷ []

find_type : List (Text × RecordType) → Text → Option RecordType
find_type [] s = none
find_type ((name, rtype) ∷ table) s = if text_eq name s then some rtype else find_type table s

numbered : (ℕ → RecordType) → Option ℕ → Option RecordType
numbered type_of_number none = none
numbered type_of_number (some n) = some (type_of_number n)

-- `parse_record_type`
unfoldable pub parse_record_type : (Text → Text) → (ℕ → RecordType) → Text → Option RecordType
unfolding find_type numbered parse_uint
parse_record_type to_uppercase type_of_number s = elim (find_type type_names (to_uppercase s)) [
  | some rtype ↦ some rtype
  | none ↦ numbered type_of_number (parse_uint 65535 (to_uppercase s))
]

pub data Matching : Type 0 where
  sha256 sha512 other_matching : Matching

pub record Tlsa : Type 0 where
  pub cert_usage : ℕ
  pub selector : ℕ
  pub matching : ℕ
  pub cert_data : List ℕ

-- the length that a hash must have
unfoldable pub hash_fits : Matching → ℕ → Bool
hash_fits sha256 n = n == 32
hash_fits sha512 n = n == 64
hash_fits other_matching n = true

module _ (matching_from : ℕ → Matching) (hex_decode : Text → Option (List ℕ)) where
  unfoldable pub tlsa_fields : Option ℕ → Option ℕ → Option ℕ → Option (List ℕ) → Option Tlsa
  unfolding hash_fits
  tlsa_fields (some usage) (some selector) (some matching) (some cert_data) =
      if hash_fits (matching_from matching) (length cert_data)
      then some (record {
        cert_usage = usage;
        selector = selector;
        matching = matching;
        cert_data = cert_data;
      })
      else none
  tlsa_fields _ _ _ _ = none

  unfoldable pub tlsa_parts : List Text → Option Tlsa
  unfolding tlsa_fields parse_uint
  tlsa_parts (u ∷ s ∷ m ∷ d ∷ []) =
      tlsa_fields (parse_uint 255 u) (parse_uint 255 s) (parse_uint 255 m) (hex_decode (trim d))
  tlsa_parts _ = none

  -- `parse_tlsa_data`
  unfoldable pub parse_tlsa_data : Text → Option Tlsa
  unfolding tlsa_parts split_whitespace
  parse_tlsa_data data_ = tlsa_parts (split_whitespace data_)

-- the part of a zone's configuration that editing reads
pub record Zone : Type 0 where
  pub name : Text
  pub file : Text

pub record RecordCreate : Type 0 where
  pub name : Text
  pub record_type : Text
  pub data_ : Text
  pub ttl : Option ℕ

pub record RecordDelete : Type 0 where
  pub name : Text
  pub record_type : Text

-- what the editing calls of the DNS crate, and the zone's file. `persist` gives whether the
-- handler was written; `remove` the handler without a record set, and the records it had.
pub record Handlers (Handler Name RData : Type 0) : Type 0 where
  pub load : Zone → Option Handler
  pub from_ascii : Text → Option Name
  pub record_type : Text → Option RecordType
  pub rdata : RecordType → Text → Option RData
  pub upsert : Name → ℕ → RData → Handler → Handler
  pub remove : Name → RecordType → Handler → Option (Handler × ℕ)
  pub persist : Handler → Name → Bool

module _ {Handler Name RData : Type 0} (h : Handlers Handler Name RData) where
  -- the name of a record, of which an empty one stands for the zone where `empty` says so
  unfoldable pub record_name : Bool → Zone → Name → Text → Option Name
  record_name empty z origin t =
      if text_eq t (codes "@") || text_eq t z.name || (empty && text_eq t [])
      then some origin
      else h.from_ascii t

  default_ttl : Option ℕ → ℕ
  default_ttl none = 3600
  default_ttl (some ttl) = ttl

  -- `insert_record`: what is written to the zone's file, or `none` for an error
  unfoldable pub insert_record : Zone → RecordCreate → Option Handler
  unfolding record_name default_ttl
  insert_record z create = do
    handler ← h.load z
    rtype ← h.record_type create.record_type
    origin ← h.from_ascii z.name
    name ← record_name true z origin create.name
    rdata ← h.rdata rtype create.data_
    let handler' = h.upsert name (default_ttl create.ttl) rdata handler
    if h.persist handler' origin then some handler' else none

  removed : Handler → Name → Option (Handler × ℕ) → Option (Handler × ℕ)
  removed handler origin none = some (handler, 0)
  removed handler origin (some (handler', count)) =
      if count == 0
      then some (handler, 0)
      else if h.persist handler' origin
      then some (handler', count)
      else none

  -- `delete_records`: what the zone's file then holds, and the number of records removed
  unfoldable pub delete_records : Zone → RecordDelete → Option (Handler × ℕ)
  unfolding record_name removed
  delete_records z delete = do
    handler ← h.load z
    rtype ← h.record_type delete.record_type
    origin ← h.from_ascii z.name
    name ← record_name false z origin delete.name
    removed handler origin (h.remove name rtype handler)
