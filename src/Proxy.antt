-- ===== src/Proxy.antt =====
-- src/net/proxy.rs: the PROXY protocol header, in its text and its binary version. A buffer is a
-- list of bytes, and an error is its kind, in the order in which the source reports them.
pub mod Accepts
pub mod Short
use heimdallr.Common.{
  ℕ, zero, suc, ◌+◌, ◌/◌, ◌%◌, ◌<◌, Bool, true, false, not, ◌&&◌, ◌||◌, List, [], ◌∷◌, ◌++◌, Option,
  none, some, leb, ltb, ◌==◌, if◌then◌else◌, length, take, drop, get_or,
}
use heimdallr.Common.Text.{Text, codes, text_eq, starts_with, split, parse_uint}
use heimdallr.Common.Addr.{
  Ipv4Addr, Ipv6Addr, IpAddr, v4, v6, unspecified_v4, u16_from_be, parse_ipv4,
}
use heimdallr.Common.Ipv6.{parse_ipv6}
use heimdallr.Common.Utf8.{from_utf8}

pub data ProxyVersion : Type 0 where
  version1 version2 : ProxyVersion

pub data ProxyCommand : Type 0 where
  proxy local : ProxyCommand

-- flow label and scope of an IPv6 socket address are zero throughout
pub record SocketAddr : Type 0 where
  pub ip : IpAddr
  pub port : ℕ

pub record ProxyInfo : Type 0 where
  pub version : ProxyVersion
  pub command : ProxyCommand
  pub source : SocketAddr

pub data ProxyError : Type 0 where
  missing_crlf not_utf8 header_too_short bad_field_count bad_ip bad_port : ProxyError
  unsupported_protocol unsupported_version unsupported_command : ProxyError
  address_too_short unsupported_family : ProxyError

-- `Result<Option<ProxyInfo>>`
pub data Parsed : Type 0 where
  failed : ProxyError → Parsed
  not_proxy : Parsed
  found : ProxyInfo → Parsed

abbrev pub v1_prefix : List ℕ
v1_prefix = codes "PROXY "

abbrev pub v2_signature : List ℕ
v2_signature =
    b'\r' ∷ b'\n' ∷ b'\r' ∷ b'\n' ∷ 0 ∷ b'\r' ∷ b'\n' ∷ b'Q' ∷ b'U' ∷ b'I' ∷ b'T' ∷ b'\n' ∷ []

-- `windows(2).position(|w| w == b"\r\n")`
unfoldable pub find_crlf : List ℕ → Option ℕ
find_crlf [] = none
find_crlf (x ∷ []) = none
find_crlf (x ∷ y ∷ s) =
    let rest : Option ℕ = elim (find_crlf (y ∷ s)) [ none ↦ none | some n ↦ some (suc n) ] in
    if (x == b'\r') && (y == b'\n') then some 0 else rest

-- address and port of the text version
v1_source : Option IpAddr → Option ℕ → Parsed
v1_source none port = failed bad_ip
v1_source (some ip) none = failed bad_port
v1_source (some ip) (some port) =
    found (record { version = version1; command = proxy; source = record { ip = ip; port = port } })

ip_of_v4 : Option Ipv4Addr → Option IpAddr
ip_of_v4 none = none
ip_of_v4 (some a) = some (v4 a)

ip_of_v6 : Option Ipv6Addr → Option IpAddr
ip_of_v6 none = none
ip_of_v6 (some a) = some (v6 a)

-- the fields behind the CRLF test
unfoldable pub v1_fields : List Text → Parsed
unfolding v1_source ip_of_v4 ip_of_v6 parse_ipv4 parse_ipv6 parse_uint
v1_fields parts =
    let proto = get_or parts 1 (codes "UNKNOWN") in
    let src = get_or parts 2 [] in
    let port = parse_uint 65535 (get_or parts 4 []) in
    if ltb (length parts) 2
    then failed header_too_short
    else if text_eq proto (codes "UNKNOWN")
    then not_proxy
    else if text_eq proto (codes "TCP4")
    then if ltb (length parts) 5
      then failed bad_field_count
      else v1_source (ip_of_v4 (parse_ipv4 src)) port
    else if text_eq proto (codes "TCP6")
    then if ltb (length parts) 5
      then failed bad_field_count
      else v1_source (ip_of_v6 (parse_ipv6 src)) port
    else failed unsupported_protocol

unfoldable pub v1_text : Option Text → Parsed
unfolding v1_fields
v1_text none = failed not_utf8
v1_text (some header) = v1_fields (split b' ' header)

-- `parse_v1`
unfoldable pub parse_v1 : List ℕ → Parsed
unfolding find_crlf v1_text from_utf8
parse_v1 buf = elim (find_crlf buf) [
  | none ↦ failed missing_crlf
  | some crlf_pos ↦ v1_text (from_utf8 (take crlf_pos buf))
]

byte : List ℕ → ℕ → ℕ
byte buf i = get_or buf i 0

found_v2 : ProxyCommand → IpAddr → ℕ → Parsed
found_v2 c ip port =
    found (record { version = version2; command = c; source = record { ip = ip; port = port } })

-- the address block, by family
unfoldable pub v2_address : ProxyCommand → ℕ → List ℕ → Parsed
unfolding byte found_v2
v2_address c family data_ =
    if family == 0x10
    then if ltb (length data_) 12
      then failed address_too_short
      else found_v2 c
          (v4 (record { a = byte data_ 0; b = byte data_ 1; c = byte data_ 2; d = byte data_ 3 }))
          (u16_from_be (byte data_ 8) (byte data_ 9))
    else if family == 0x20
    then if ltb (length data_) 36
      then failed address_too_short
      else found_v2 c (v6 (record { octets = take 16 data_ }))
          (u16_from_be (byte data_ 32) (byte data_ 33))
    else if family == 0
    then found_v2 c (v4 unspecified_v4) 0
    else if (family == 0x30) || (family == 0x31)
    then not_proxy
    else failed unsupported_family

unfoldable pub v2_body : ProxyCommand → List ℕ → Parsed
unfolding byte v2_address
v2_body c buf =
    let addr_len = u16_from_be (byte buf 14) (byte buf 15) in
    if ltb (length buf) (16 + addr_len)
    then failed header_too_short
    else v2_address c (byte buf 13) (take addr_len (drop 16 buf))

-- `parse_v2`
unfoldable pub parse_v2 : List ℕ → Parsed
unfolding byte v2_body
parse_v2 buf =
    if ltb (length buf) 16
    then failed header_too_short
    else if not (byte buf 12 / 16 % 16 == 2)
    then failed unsupported_version
    else if byte buf 12 % 16 == 0
    then v2_body proxy buf
    else if byte buf 12 % 16 == 1
    then v2_body local buf
    else failed unsupported_command

-- `parse_proxy_header`
unfoldable pub parse_proxy_header : List ℕ → Parsed
unfolding parse_v1 parse_v2
parse_proxy_header buf =
    if starts_with v2_signature buf
    then parse_v2 buf
    else if starts_with v1_prefix buf
    then parse_v1 buf
    else not_proxy
