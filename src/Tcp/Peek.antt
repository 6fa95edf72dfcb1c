-- ===== src/Tcp/Peek.antt =====
-- The sixteen bytes that are peeked from a connection.
use heimdallr.Common.{
  ℕ, zero, suc, Bool, true, false, ◌≡◌, refl, ◌∙◌, ◌⊎◌, inl, inr, List, some, ltb, length, take,
  min, arith, length-take, Bool-cases,
}
use heimdallr.Common.Text.{Text}
use heimdallr.Common.Addr.{IpAddr, v4, unspecified_v4}
use heimdallr.Proxy.{ProxyInfo, SocketAddr, Parsed, failed, not_proxy, found, parse_proxy_header}
use heimdallr.Proxy.Short.{parse_proxy_header-short}
use heimdallr.Tcp.{discard, header_len, take_source, resolve_src_addr, peek_size}

discard-source :
    (n : ℕ) (source src : SocketAddr) (s rest : List ℕ)
    → discard n source s ≡ some (src, rest)
    → src ≡ source
unfolding discard
discard-source zero source src s rest e = ground (arith, e)
discard-source (suc n) source src s rest e = ground (arith, e)

module _ (ip_to_string : IpAddr → Text) where
  take_source-cases :
      (allow : List Text) (peer src : SocketAddr) (peeked s rest : List ℕ) (p : Parsed)
      → take_source ip_to_string allow peer peeked s p ≡ some (src, rest)
      → ((src ≡ peer) × (rest ≡ s)) ⊎ ((info : ProxyInfo) × (p ≡ found info) × (src ≡ info.source))
  unfolding take_source
  take_source-cases allow peer src peeked s rest (failed x) e = ground (arith, e)
  take_source-cases allow peer src peeked s rest not_proxy e = ground (arith, e)
  take_source-cases allow peer src peeked s rest (found info) e = inr (
    info,
    refl,
    ground (arith, discard-source (header_len info.version peeked) info.source src s rest, e),
  )

  -- No client address comes through a PROXY header. Whatever a connection sends, with the PROXY
  -- protocol on, the source that its queries get is the peer's own, with no byte taken from the
  -- stream, or the unspecified address with port 0; or the connection is refused.
  pub resolve_src_addr-peek :
      (enabled : Bool) (allow : List Text) (peer src : SocketAddr) (arrived : ℕ) (s rest : List ℕ)
      → resolve_src_addr ip_to_string enabled allow peer arrived s ≡ some (src, rest)
      → ((src ≡ peer) × (rest ≡ s)) ⊎ (src ≡ record { ip = v4 unspecified_v4; port = 0 })
  unfolding resolve_src_addr
  resolve_src_addr-peek false allow peer src arrived s rest e = ground (arith, e)
  resolve_src_addr-peek true allow peer src arrived s rest e =
      let peeked = take (min arrived peek_size) s in
      elim (Bool-cases (ltb (length peeked) 6)) [
        | inl few ↦ ground (arith, few, e)
        | inr enough ↦
            elim (take_source-cases allow peer src peeked s rest (parse_proxy_header peeked)
              (ground (arith, enough, e))) [
                | inl own ↦ inl own
                | inr (info, parsed, same) ↦ inr (
                    same
                    ∙ parse_proxy_header-short peeked info
                        (omega (arith, length-take (min arrived peek_size) s)) parsed)
              ]
      ]
