-- ===== src/Proxy/Accepts.antt =====
-- What the binary header must be for its parser to take it.
use heimdallr.Common.{
  ℕ, zero, suc, ◌+◌, ◌/◌, ◌%◌, ◌≤◌, false, ◌≡◌, refl, sym, ap, ◌∙◌, ◌⊎◌, List, [], ◌∷◌, ◌++◌, ltb,
  length, take, drop, get_or, arith, length-append, length-take, length-drop,
}
use heimdallr.Common.Text.{starts_with}
use heimdallr.Common.Addr.{Ipv4Addr, IpAddr, v4, v6, unspecified_v4, u16_from_be}
use heimdallr.Proxy.{
  ProxyCommand, proxy, local, ProxyInfo, version2, Parsed, found, parse_v2, parse_proxy_header,
  v2_signature, v2_address, v2_body,
}

-- the low four bits of the version byte
abbrev pub command_bits : ProxyCommand → ℕ
command_bits proxy = 0
command_bits local = 1

-- a header of version two: command, family and address block
abbrev pub encode_v2 : ProxyCommand → ℕ → List ℕ → List ℕ
encode_v2 c family block =
    v2_signature
    ++ (0x20 + command_bits c) ∷ family ∷ (length block / 256) ∷ (length block % 256) ∷ block

take-append : (xs ys : List ℕ) → take (length xs) (xs ++ ys) ≡ xs
take-append [] ys = refl
take-append (x ∷ xs) ys = ap (λ t. x ∷ t) (take-append xs ys)

-- the header's length field
abbrev declared : List ℕ → ℕ
declared block = u16_from_be (length block / 256) (length block % 256)

declared-eq : (block : List ℕ) → declared block ≡ length block
declared-eq block = omega arith

fits : (block payload : List ℕ) → ltb (length (block ++ payload)) (length block) ≡ false
fits [] payload = ground arith
fits (x ∷ block) payload = ground (arith, fits block payload)

take-declared : (block payload : List ℕ) → take (declared block) (block ++ payload) ≡ block
take-declared block payload = rw (declared-eq block) (take-append block payload)

v2_body-encode_v2 :
    (c d : ProxyCommand) (family : ℕ) (block payload : List ℕ)
    → v2_body d (encode_v2 c family block ++ payload) ≡ v2_address d family block
unfolding v2_body
v2_body-encode_v2 c d family block payload =
    ground (arith, fits block payload, declared-eq block, take-declared block payload)

pub parse_proxy_header-encode_v2 :
    (c : ProxyCommand) (family : ℕ) (block payload : List ℕ)
    → parse_proxy_header (encode_v2 c family block ++ payload) ≡ v2_address c family block
unfolding parse_proxy_header starts_with
parse_proxy_header-encode_v2 proxy family block payload =
    ground (arith, v2_body-encode_v2 proxy proxy family block payload)
parse_proxy_header-encode_v2 local family block payload =
    ground (arith, v2_body-encode_v2 local local family block payload)

-- the address block of a family with sixteen octets for an address
abbrev pub tcp6_block : List ℕ → List ℕ → ℕ → ℕ → List ℕ
tcp6_block src dst sport dport =
    src ++ (dst ++ (sport / 256) ∷ (sport % 256) ∷ (dport / 256) ∷ (dport % 256) ∷ [])

abbrev pub tcp4_block : Ipv4Addr → Ipv4Addr → ℕ → ℕ → List ℕ
tcp4_block src dst sport dport =
    src.a
    ∷ src.b
    ∷ src.c
    ∷ src.d
    ∷ dst.a
    ∷ dst.b
    ∷ dst.c
    ∷ dst.d
    ∷ (sport / 256)
    ∷ (sport % 256)
    ∷ (dport / 256)
    ∷ (dport % 256)
    ∷ []

-- what the parser reports
abbrev pub reported : ProxyCommand → IpAddr → ℕ → Parsed
reported c ip port =
    found (record { version = version2; command = c; source = record { ip = ip; port = port } })

-- A version-two header of family 0x10 that is encoded from a command, two addresses and two
-- ports is read back as that command, the source address and the source port, whatever bytes
-- follow it.
pub parse_proxy_header-tcp4_block :
    (c : ProxyCommand) (src dst : Ipv4Addr) (sport dport : ℕ) (payload : List ℕ)
    → parse_proxy_header (encode_v2 c 0x10 (tcp4_block src dst sport dport) ++ payload)
      ≡ reported c (v4 src) sport
unfolding v2_address
parse_proxy_header-tcp4_block c src dst sport dport payload =
    parse_proxy_header-encode_v2 c 0x10 (tcp4_block src dst sport dport) payload
    ∙ ap (reported c (v4 src)) (omega arith)

get_or-append :
    (xs ys : List ℕ) (i j d : ℕ) → i ≡ length xs + j → get_or (xs ++ ys) i d ≡ get_or ys j d
get_or-append [] ys i j d h = ap (λ n. get_or ys n d) (omega (arith, h))
get_or-append (x ∷ xs) ys zero j d h = absurd (omega (arith, h))
get_or-append (x ∷ xs) ys (suc i) j d h = get_or-append xs ys i j d (omega (arith, h))

tcp6_length :
    (src dst : List ℕ) (sport dport : ℕ)
    → length src ≡ 16
    → length dst ≡ 16
    → length (tcp6_block src dst sport dport) ≡ 36
tcp6_length src dst sport dport hs hd =
    let ports = (sport / 256) ∷ (sport % 256) ∷ (dport / 256) ∷ (dport % 256) ∷ [] in
    omega (arith, length-append src (dst ++ ports), length-append dst ports, hs, hd)

tcp6_port :
    (src dst : List ℕ) (sport dport i : ℕ)
    → length src ≡ 16
    → length dst ≡ 16
    → get_or (tcp6_block src dst sport dport) (32 + i) 0
      ≡ get_or ((sport / 256) ∷ (sport % 256) ∷ (dport / 256) ∷ (dport % 256) ∷ []) i 0
tcp6_port src dst sport dport i hs hd =
    let ports = (sport / 256) ∷ (sport % 256) ∷ (dport / 256) ∷ (dport % 256) ∷ [] in
    get_or-append src (dst ++ ports) (32 + i) (16 + i) 0 (omega (arith, hs))
    ∙ get_or-append dst ports (16 + i) i 0 (omega (arith, hd))

-- A version-two header of family 0x20 that is encoded from a command, two addresses of sixteen
-- octets and two ports is read back as that command, the source address and the source port,
-- whatever bytes follow it.
pub parse_proxy_header-tcp6_block :
    (c : ProxyCommand) (src dst : List ℕ) (sport dport : ℕ) (payload : List ℕ)
    → length src ≡ 16
    → length dst ≡ 16
    → parse_proxy_header (encode_v2 c 0x20 (tcp6_block src dst sport dport) ++ payload)
      ≡ reported c (v6 (record { octets = src })) sport
unfolding v2_address
parse_proxy_header-tcp6_block c src dst sport dport payload hs hd =
    let block = tcp6_block src dst sport dport in
    let ports = dst ++ (sport / 256) ∷ (sport % 256) ∷ (dport / 256) ∷ (dport % 256) ∷ [] in
    let first : take 16 block ≡ src = sym (ap (λ n. take n block) hs) ∙ take-append src ports in
    parse_proxy_header-encode_v2 c 0x20 block payload
    ∙ ground (
      arith,
      tcp6_length src dst sport dport hs hd,
      first,
      tcp6_port src dst sport dport 0 hs hd,
      tcp6_port src dst sport dport 1 hs hd,
    )

-- the families whose headers carry a source address, with the length that each needs
abbrev pub IsAccepted : List ℕ → ProxyInfo → Type 0
IsAccepted buf info =
    (16 + u16_from_be (get_or buf 14 0) (get_or buf 15 0) ≤ length buf)
    × (((get_or buf 13 0 ≡ 0) × (info.source ≡ record { ip = v4 unspecified_v4; port = 0 }))
        ⊎ ((get_or buf 13 0 ≡ 0x10) × (28 ≤ length buf)
            ⊎ ((get_or buf 13 0 ≡ 0x20) × (52 ≤ length buf))))

v2_body-IsAccepted :
    (c : ProxyCommand) (buf : List ℕ) (info : ProxyInfo)
    → v2_body c buf ≡ found info
    → IsAccepted buf info
unfolding v2_body v2_address
v2_body-IsAccepted c buf info h = ground (
  arith,
  length-take (u16_from_be (get_or buf 14 0) (get_or buf 15 0)) (drop 16 buf),
  length-drop 16 buf,
)

-- A buffer that the binary parser takes holds the whole address block that it declares. Its
-- family is 0 with the unspecified address and port 0 as the source, or 0x10 with at least 28
-- bytes in the buffer, or 0x20 with at least 52; no other family gives a source.
pub parse_v2-IsAccepted :
    (buf : List ℕ) (info : ProxyInfo) → parse_v2 buf ≡ found info → IsAccepted buf info
unfolding parse_v2
parse_v2-IsAccepted buf info h =
    ground (arith, v2_body-IsAccepted proxy buf info, v2_body-IsAccepted local buf info)
