-- ===== src/Dns/Records.antt =====
-- Records: an owner name, a time to live and data.
use heimdallr.Common.{ℕ, List, [], ◌∷◌, min}
use heimdallr.Common.Addr.{Ipv4Addr, Ipv6Addr}
use heimdallr.Dns.{
  RecordType, a as type_a, aaaa as type_aaaa, cname as type_cname, aname as type_aname,
  soa as type_soa, ptr as type_ptr, txt as type_txt,
}

pub record Soa (Name : Type 0) : Type 0 where
  pub mname : Name
  pub rname : Name
  pub serial : ℕ
  pub refresh : ℕ
  pub retry : ℕ
  pub expire : ℕ
  pub minimum : ℕ

pub data RData (Name : Type 0) : Type 0 where
  a : Ipv4Addr → RData Name
  aaaa : Ipv6Addr → RData Name
  cname aname : Name → RData Name
  soa : Soa Name → RData Name
  ptr : Name → RData Name
  -- the strings, as bytes
  txt : List (List ℕ) → RData Name
  other : RecordType → RData Name

pub record Record (Name : Type 0) : Type 0 where
  pub name : Name
  pub ttl : ℕ
  pub data_ : RData Name

-- `Record::record_type`, which is the type of the data
unfoldable pub record_type : {Name : Type 0} → RData Name → RecordType
record_type (a ip) = type_a
record_type (aaaa ip) = type_aaaa
record_type (cname n) = type_cname
record_type (aname n) = type_aname
record_type (soa s) = type_soa
record_type (ptr n) = type_ptr
record_type (txt strings) = type_txt
record_type (other t) = t

-- `iter().min().unwrap_or(d)`
unfoldable pub min_or : ℕ → List ℕ → ℕ
min_or d [] = d
min_or d (x ∷ []) = x
min_or d (x ∷ y ∷ xs) = min x (min_or d (y ∷ xs))
