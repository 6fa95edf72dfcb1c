-- ===== src/Tests/NetRuns.antt =====
-- src/net/proxy.rs and src/net/tcp.rs at concrete inputs.
use heimdallr.Common.{ℕ, true, false, ◌≡◌, refl, ◌⊎◌, List, [], ◌∷◌, ◌++◌, Option, some, arith, All}
use heimdallr.Common.Text.{Text, starts_with}
use heimdallr.Common.Addr.{Ipv4Addr, IpAddr, v4, unspecified_v4}
use heimdallr.Proxy.{
  proxy, ProxyInfo, version2, SocketAddr, found, parse_v2, parse_proxy_header, v2_signature,
}
use heimdallr.Proxy.Accepts.{
  encode_v2, tcp4_block, reported, parse_proxy_header-tcp4_block, IsAccepted, parse_v2-IsAccepted,
}
use heimdallr.Tcp.{frames, resolve_src_addr, handle_connection}
use heimdallr.Tcp.Framing.{IsMessage, responses, handle_connection-frames}
use heimdallr.Tcp.Peek.{resolve_src_addr-peek}

abbrev client : Ipv4Addr
client = record { a = 192; b = 0; c = 2; d = 1 }

abbrev server : Ipv4Addr
server = record { a = 10; b = 0; c = 0; d = 1 }

abbrev peer : SocketAddr
peer = record { ip = v4 server; port = 4000 }

abbrev query : List ℕ
query = 7 ∷ 8 ∷ 9 ∷ []

abbrev queries : List (List ℕ)
queries = query ∷ (1 ∷ []) ∷ []

queries-IsMessage : All IsMessage queries
queries-IsMessage = ((omega arith, omega arith), ((omega arith, omega arith), tt))

-- the parameters: an address prints as nothing, and a query is its own answer
abbrev no_text : IpAddr → Text
no_text ip = []

abbrev echo : SocketAddr → List ℕ → Option (List (List ℕ))
echo source m = some (m ∷ [])

parse_proxy_header-tcp4_block_example :
    parse_proxy_header (encode_v2 proxy 0x10 (tcp4_block client server 12345 53) ++ query)
    ≡ reported proxy (v4 client) 12345
parse_proxy_header-tcp4_block_example =
    parse_proxy_header-tcp4_block proxy client server 12345 53 query

abbrev octets_1 : List ℕ
octets_1 = 1 ∷ 2 ∷ 3 ∷ 4 ∷ 5 ∷ 6 ∷ 7 ∷ 8 ∷ 9 ∷ 10 ∷ 11 ∷ 12 ∷ 13 ∷ 14 ∷ 15 ∷ 16 ∷ []

-- a header without an address
abbrev bare : List ℕ
bare = v2_signature ++ 0x20 ∷ 0 ∷ 0 ∷ 0 ∷ []

abbrev nobody : ProxyInfo
nobody = record {
  version = version2;
  command = proxy;
  source = record { ip = v4 unspecified_v4; port = 0 };
}

bare_parsed : parse_v2 bare ≡ found nobody
unfolding parse_v2
bare_parsed = refl

parse_v2-IsAccepted_example : IsAccepted bare nobody
parse_v2-IsAccepted_example = parse_v2-IsAccepted bare nobody bare_parsed

bare_found : parse_proxy_header bare ≡ found nobody
unfolding parse_proxy_header starts_with
bare_found = refl

no_header : resolve_src_addr no_text true [] peer 7 (frames queries) ≡ some (peer, frames queries)
unfolding resolve_src_addr frames parse_proxy_header starts_with
no_header = refl

resolve_src_addr-peek_example :
    ((peer ≡ peer) × (frames queries ≡ frames queries))
    ⊎ (peer ≡ record { ip = v4 unspecified_v4; port = 0 })
resolve_src_addr-peek_example =
    resolve_src_addr-peek no_text true [] peer peer 7 (frames queries) (frames queries) no_header

handle_connection-frames_example :
    handle_connection no_text echo false [] peer 7 (frames queries)
    ≡ some (frames (responses no_text echo peer queries))
handle_connection-frames_example =
    handle_connection-frames no_text echo [] peer 7 queries queries-IsMessage

-- a frame of two bytes, and one that is cut short
abbrev cut : List ℕ
cut = 0 ∷ 2 ∷ 65 ∷ 66 ∷ 0 ∷ 9 ∷ 67 ∷ []
