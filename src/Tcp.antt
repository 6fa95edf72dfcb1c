-- ===== src/Tcp.antt =====
-- src/net/tcp.rs: a TCP connection. The stream is the list of the bytes that are still to be
-- read, up to its end or to the timeout, so a read of more bytes than that fails. The query
-- handler is a parameter: it gives the encoded responses to a message, or `none` if the message
-- does not parse. So is the text form of an address. Writes are taken to succeed.
pub mod Framing
pub mod Peek
use heimdallr.Common.{
  ℕ, zero, suc, ◌+◌, ◌%◌, ◌/◌, ◌^◌, ◌<◌, Bool, true, false, ◌||◌, List, [], ◌∷◌, ◌++◌, Option, none,
  some, leb, ltb, ◌==◌, if◌then◌else◌, length, take, drop, get_or, any, min,
}
use heimdallr.Common.Text.{Text, text_eq}
use heimdallr.Common.Addr.{IpAddr, u16_from_be}
use heimdallr.Proxy.{
  ProxyVersion, version1, version2, ProxyInfo, SocketAddr, Parsed, failed, not_proxy, found,
  parse_proxy_header, find_crlf,
}

abbrev pub peek_size : ℕ
peek_size = 16

abbrev pub max_dns_message : ℕ
max_dns_message = 65535

-- `read_exact_timeout`: the bytes read and the stream behind them
unfoldable pub read_exact : ℕ → List ℕ → Option (List ℕ × List ℕ)
read_exact n stream = if leb n (length stream) then some (take n stream, drop n stream) else none

-- the length of the header in the peeked bytes
unfoldable pub header_len : ProxyVersion → List ℕ → ℕ
header_len version1 peeked = elim (find_crlf peeked) [ none ↦ 0 | some p ↦ p + 2 ]
header_len version2 peeked =
    if leb 16 (length peeked) then 16 + u16_from_be (get_or peeked 14 0) (get_or peeked 15 0) else 0

-- the stream without the header
unfoldable pub discard : ℕ → SocketAddr → List ℕ → Option (SocketAddr × List ℕ)
unfolding read_exact
discard zero source stream = some (source, stream)
discard (suc n) source stream = elim (read_exact (suc n) stream) [
  | none ↦ none
  | some (header, rest) ↦ some (source, rest)
]

-- `data.len() as u16` and the data
unfoldable pub frame : List ℕ → List ℕ
frame bytes = (length bytes / 256 % 256) ∷ (length bytes % 256) ∷ bytes

unfoldable pub frames : List (List ℕ) → List ℕ
unfolding frame
frames [] = []
frames (m ∷ ms) = frame m ++ frames ms

-- the loop of `handle_connection`: the messages it hands on, in order
unfoldable pub messages : ℕ → List ℕ → List (List ℕ)
unfolding read_exact
messages zero stream = []
messages (suc fuel) stream = elim (read_exact 2 stream) [
  | none ↦ []
  | some (len_bytes, rest) ↦
      let msg_len = u16_from_be (get_or len_bytes 0 0) (get_or len_bytes 1 0) in
      if (msg_len == 0) || ltb max_dns_message msg_len then [] else elim (read_exact msg_len rest) [
        | none ↦ []
        | some (msg_bytes, rest') ↦ msg_bytes ∷ messages fuel rest'
      ]
]

module _ (handle_request : SocketAddr → List ℕ → Option (List (List ℕ))) where
  -- `handle_dns_query`: what is written to the stream
  unfoldable pub handle_dns_query : SocketAddr → List ℕ → List ℕ
  unfolding frames
  handle_dns_query source msg_bytes = elim (handle_request source msg_bytes) [
    | none ↦ []
    | some responses ↦ frames responses
  ]

  unfoldable pub answer_all : SocketAddr → List (List ℕ) → List ℕ
  answer_all source [] = []
  answer_all source (m ∷ ms) = handle_dns_query source m ++ answer_all source ms

module _ (ip_to_string : IpAddr → Text) where
  allowed : List Text → SocketAddr → Bool
  allowed [] source = true
  allowed (a ∷ proxy_allow) source = any (λ t. text_eq t (ip_to_string source.ip)) (a ∷ proxy_allow)

  unfoldable pub take_source :
      List Text → SocketAddr → List ℕ → List ℕ → Parsed → Option (SocketAddr × List ℕ)
  unfolding allowed header_len discard
  take_source proxy_allow peer peeked stream (failed e) = none
  take_source proxy_allow peer peeked stream not_proxy = some (peer, stream)
  take_source proxy_allow peer peeked stream (found info) =
      if allowed proxy_allow info.source
      then discard (header_len info.version peeked) info.source stream
      else none

  -- `resolve_src_addr`, where `arrived` bytes have arrived when the stream is peeked: the source
  -- and the stream behind the header
  unfoldable pub resolve_src_addr :
      Bool → List Text → SocketAddr → ℕ → List ℕ → Option (SocketAddr × List ℕ)
  unfolding take_source
  resolve_src_addr proxy_enabled proxy_allow peer arrived stream =
      let peeked = take (min arrived peek_size) stream in
      if proxy_enabled
      then if ltb (length peeked) 6
        then some (peer, stream)
        else take_source proxy_allow peer peeked stream (parse_proxy_header peeked)
      else some (peer, stream)

  module _ (handle_request : SocketAddr → List ℕ → Option (List (List ℕ))) where
    -- `handle_connection`: all that is written, or `none` if the header is refused
    unfoldable pub handle_connection : Bool → List Text → SocketAddr → ℕ → List ℕ → Option (List ℕ)
    unfolding resolve_src_addr messages answer_all
    handle_connection proxy_enabled proxy_allow peer arrived stream =
        elim (resolve_src_addr proxy_enabled proxy_allow peer arrived stream) [
          | none ↦ none
          | some (source, rest) ↦
              some (answer_all handle_request source (messages (length rest) rest))
        ]
