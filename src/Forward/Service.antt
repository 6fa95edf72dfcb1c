-- ===== src/Forward/Service.antt =====
-- src/core/resolver/forward.rs, with the key of src/core/cache/mod.rs: what the forwarding
-- authority works on. The upstream resolver answers its n-th lookup with `lookup n`; the wire
-- format and the operations on names are the DNS crate's.
use heimdallr.Common.{
  ℕ, ◌/◌, ◌%◌, ◌≡◌, Bool, List, ◌∷◌, Option, some, ℕ_discrete, map, if◌then◌else◌,
}
use heimdallr.Common.Text.{Text}
use heimdallr.Common.Addr.{IpAddr}
use heimdallr.Cache.{Cache}
use heimdallr.Dns.{RecordType}
use heimdallr.Dns.Records.{Record, RData}
use heimdallr.Dns64.{Dns64Prefix}
use heimdallr.Filter.{Filter}
use heimdallr.Metrics.{MetricsRegistry}
use heimdallr.Qmin.{NameApi, Lookup}

pub record CacheKey : Type 0 where
  pub qname : Text
  pub qtype : ℕ
  pub client_subnet : Option (IpAddr × ℕ)

-- the key's derived equality
abbrev pub key_discrete : Discrete CacheKey
key_discrete = hlevel (ℕ_discrete)

-- the codes of RFC 8914 that the source declares
abbrev pub stale_answer : ℕ
stale_answer = 3

abbrev pub cached_error : ℕ
cached_error = 13

-- `Ede::encode_info`, on the bytes of the extra text
unfoldable pub encode_info : ℕ → List ℕ → List ℕ
encode_info code extra = code / 256 % 256 ∷ code % 256 ∷ extra

-- a record as it is read, with its time to live
abbrev pub as_read :
    {Name : Type 0} → (Name → Name) → (RData Name → RData Name) → Record Name → Record Name
as_read name_of data_of r = record { name = name_of r.name; ttl = r.ttl; data_ = data_of r.data_ }

-- what the authority calls. `encode` is `Message::to_vec` of a message with these answers, and
-- `decode` the answers of `Message::from_vec`.
pub record Services (Name NetError : Type 0) : Type 0 where
  pub lookup : ℕ → Name → RecordType → Lookup (Record Name) NetError
  pub encode : List (Record Name) → Option (List ℕ)
  pub decode : List ℕ → Option (List (Record Name))
  pub names : NameApi Name
  pub name_discrete : Discrete Name
  pub to_utf8 : Name → Text
  pub from_ascii : Text → Option Name
  -- `set_fqdn(false)`
  pub relative : Name → Name
  pub type_number : RecordType → ℕ
  -- whether answers fit into a message, and what is left of them if not
  pub fits : List (Record Name) → Bool
  pub cut : List (Record Name) → List (Record Name)
  -- a name, and the names in a record's data, made fully qualified, which those that are read are
  pub qualified : Name → Name
  pub qualified_data : RData Name → RData Name
  -- what is written can be read
  pub decode-encode :
      (records : List (Record Name)) (bytes : List ℕ)
      → encode records ≡ some bytes
      → decode bytes
        ≡ some
            (map (as_read qualified qualified_data) (if fits records then records else cut records))

-- answers as the reader of a message with them has them: each with its time to live and fully
-- qualified names, if they fit
abbrev pub read_back :
    {Name NetError : Type 0} → Services Name NetError → List (Record Name) → List (Record Name)
read_back s records =
    map (as_read s.qualified s.qualified_data) (if s.fits records then records else s.cut records)

-- the settings of `CacheForwardAuthority`
pub record Authority (Regex : Type 0) : Type 0 where
  pub minimize : Bool
  pub max_iterations : ℕ
  pub filter : Filter Regex
  pub dns64_prefix : Option Dns64Prefix
  pub dns64_always_synthesize : Bool
  pub ecs : Bool

-- a prefetch that was spawned
pub record Task (Name : Type 0) : Type 0 where
  pub name : Name
  pub rtype : RecordType

-- the shared state: the cache, the global registry, the number of lookups that the upstream was
-- asked for, and the tasks spawned, the last first
pub record World (Name : Type 0) : Type 0 where
  pub cache : Cache CacheKey
  pub metrics : MetricsRegistry
  pub lookups : ℕ
  pub tasks : List (Task Name)

-- how a lookup ends
pub data Answer (Name NetError : Type 0) : Type 0 where
  answered : List (Record Name) → Answer Name NetError
  upstream_error : NetError → Answer Name NetError
  not_minimized chain_truncated no_address : Answer Name NetError
