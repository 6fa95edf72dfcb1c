-- ===== src/Dns.antt =====
-- The record types and records of the DNS crate, as far as the program tells them apart. A type
-- that the program does not name is `number`, data that it does not look into are `other`.
pub mod Records
use heimdallr.Common.{ℕ, ℕ_discrete}

pub data RecordType : Type 0 where
  a aaaa cname mx ns soa txt srv ptr tlsa sshfp https svcb caa dnskey : RecordType
  ds rrsig nsec nsec3 nsec3param aname any : RecordType
  number : ℕ → RecordType

-- the type's derived equality
abbrev pub record_type_discrete : Discrete RecordType
record_type_discrete = hlevel (ℕ_discrete)
