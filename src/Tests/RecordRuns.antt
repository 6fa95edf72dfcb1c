-- ===== src/Tests/RecordRuns.antt =====
-- src/core/zone/record.rs and the subnets of src/core/resolver/forward.rs at concrete inputs.
use heimdallr.Common.{
  ℕ, true, ◌≡◌, refl, List, [], ◌∷◌, Option, none, some, arith, ◌==◌, if◌then◌else◌,
}
use heimdallr.Common.Text.{Text, codes, split_whitespace, parse_uint}
use heimdallr.Common.Addr.{Ipv4Addr, IsIpv4}
use heimdallr.Dns.{a}
use heimdallr.ZoneRecord.{
  Matching, sha256, sha512, other_matching, Tlsa, parse_tlsa_data, Handlers, Zone, RecordCreate,
}
use heimdallr.Dns.{mx as type_mx}
use heimdallr.ZoneRecord.Data.{Parsers, Parsed, mx, parse_rdata, mx_of}
use heimdallr.ZoneRecord.Data.Typed.{IsTyped, parse_rdata-IsTyped}

abbrev client : Ipv4Addr
client = record { a = 192; b = 0; c = 2; d = 123 }

abbrev neighbour : Ipv4Addr
neighbour = record { a = 192; b = 0; c = 2; d = 7 }

client-IsIpv4 : IsIpv4 client
client-IsIpv4 = record {
  a_lt = omega arith;
  b_lt = omega arith;
  c_lt = omega arith;
  d_lt = omega arith;
}

neighbour-IsIpv4 : IsIpv4 neighbour
neighbour-IsIpv4 = record {
  a_lt = omega arith;
  b_lt = omega arith;
  c_lt = omega arith;
  d_lt = omega arith;
}

-- the parameters: matching type 1 is SHA-256, and any text decodes to two bytes
abbrev matching_from : ℕ → Matching
matching_from n = if n == 1 then sha256 else if n == 2 then sha512 else other_matching

abbrev hex_decode : Text → Option (List ℕ)
hex_decode t = some (0xab ∷ 0xcd ∷ [])

abbrev tlsa_text : Text
tlsa_text = codes "3 1 0 abcd"

abbrev full_data : Tlsa
full_data = record { cert_usage = 3; selector = 1; matching = 0; cert_data = 0xab ∷ 0xcd ∷ [] }

tlsa_parsed : parse_tlsa_data matching_from hex_decode tlsa_text ≡ some full_data
unfolding parse_tlsa_data
tlsa_parsed = refl

-- a handler is the list of its names
abbrev handlers : Handlers (List Text) Text Text
handlers = record {
  load = λ z. some [];
  from_ascii = λ t. some t;
  record_type = λ t. some a;
  rdata = λ rtype t. some t;
  upsert = λ name ttl rdata handler. name ∷ handler;
  remove = λ name rtype handler. none;
  persist = λ handler origin. true;
}

abbrev zone : Zone
zone = record { name = codes "example.com"; file = codes "example.com.zone" }

abbrev create : RecordCreate
create = record { name = codes "@"; record_type = codes "A"; data_ = codes "192.0.2.1"; ttl = none }

abbrev parsers : Parsers Text Text Text
parsers = record {
  from_ascii = λ t. some t;
  parse_sshfp = λ t. none;
  parse_svcb = λ t. none;
  parse_https = λ t. none;
  matching_from = matching_from;
  hex_decode = λ t. none;
}

abbrev exchange : Parsed Text Text Text
exchange = mx 10 (codes "mx.example.")

exchange_parsed : parse_rdata parsers type_mx (codes "10 mx.example.") ≡ some exchange
unfolding parse_rdata mx_of split_whitespace parse_uint
exchange_parsed = refl

parse_rdata-IsTyped_example : IsTyped type_mx exchange
parse_rdata-IsTyped_example =
    parse_rdata-IsTyped parsers type_mx (codes "10 mx.example.") exchange exchange_parsed
