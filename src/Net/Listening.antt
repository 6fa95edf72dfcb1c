-- ===== src/Net/Listening.antt =====
-- Which addresses a server that starts listens on.
use heimdallr.Common.{
  ℕ, Bool, true, ◌≡◌, ◌≢◌, arith, List, [], ◌∷◌, Option, none, some, map, All, Option-cases, inl,
  inr,
}
use heimdallr.Common.Addr.{IpAddr}
use heimdallr.Common.Socket.{parse_socket_addr}
use heimdallr.Common.Text.{Text}
use heimdallr.Config.{is_socket_addr}
use heimdallr.Net.{
  StartError, ok, err, bad_address, or_error, >>=-eq-ok, >>=-ne-err, Service, Listener, bound,
  listen_all,
}
use heimdallr.Resolver.Servers.{Reads}

-- a listener at each of the addresses, all for the same service
abbrev pub at_all : Service → List (IpAddr × ℕ) → List Listener
at_all service addrs = map (λ address. record { service = service; address = address }) addrs

or_error-ok :
    {A : Type 0} (e : StartError) (o : Option A) (a : A) → or_error e o ≡ ok a → o ≡ some a
or_error-ok e none a h = cc
or_error-ok e (some b) a h = ground (arith, h)

parse_socket_addr-some :
    (t : Text) → is_socket_addr t ≡ true → (addr : IpAddr × ℕ) × (parse_socket_addr t ≡ some addr)
unfolding is_socket_addr
parse_socket_addr-some t h = elim (Option-cases (parse_socket_addr t)) [
  | inl bad ↦ ground (arith, bad, h)
  | inr found ↦ found
]

module _ (bind : Service → IpAddr × ℕ → Bool) where
  bound-ok :
      (s : Service) (addr : IpAddr × ℕ) (l : Listener)
      → bound bind s addr ≡ ok l
      → (l ≡ record { service = s; address = addr }) × (bind s addr ≡ true)
  unfolding bound
  bound-ok s addr l h = ground (arith, h)

  bound-ne : (s : Service) (addr : IpAddr × ℕ) → bound bind s addr ≢ err bad_address
  unfolding bound
  bound-ne s addr = ground arith

  -- addresses that all can be bound
  abbrev pub AllBound : Service → List (IpAddr × ℕ) → Type 0
  AllBound s = All (λ addr. bind s addr ≡ true)

  pub listen_all-ok :
      (s : Service) (ts : List Text) (ls : List Listener)
      → listen_all bind s ts ≡ ok ls
      → (addrs : List (IpAddr × ℕ)) × Reads ts addrs × AllBound s addrs × (ls ≡ at_all s addrs)
  unfolding listen_all
  listen_all-ok s [] ls h = ([], tt, tt, ground (arith, h))
  listen_all-ok s (t ∷ ts) ls h =
      let (addr, parsed, h₁) = >>=-eq-ok _ _ h in
      let (l, bound_l, h₂) = >>=-eq-ok _ _ h₁ in
      let (rest, all, h₃) = >>=-eq-ok _ _ h₂ in
      let (addrs, reads, binds, same) = listen_all-ok s ts rest all in
      let (is_l, binds_l) = bound-ok s addr l bound_l in
      (
        addr ∷ addrs,
        (or_error-ok _ _ _ parsed, reads),
        (binds_l, binds),
        ground (arith, h₃, is_l, same),
      )

  pub listen_all-ne :
      (s : Service) (ts : List Text)
      → All (λ t. is_socket_addr t ≡ true) ts
      → listen_all bind s ts ≢ err bad_address
  unfolding listen_all
  listen_all-ne s [] h = λ e. cc
  listen_all-ne s (t ∷ ts) h =
      let (addr, parsed) = parse_socket_addr-some t h.0 in
      rw parsed (
        >>=-ne-err (bound bind s addr) _ bad_address (bound-ne s addr) λ l _.
          >>=-ne-err (listen_all bind s ts) _ bad_address (listen_all-ne s ts h.1) λ rest _ e. cc)
