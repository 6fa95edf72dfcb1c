-- ===== src/Net.antt =====
-- src/net/mod.rs: the start of the server. What is bound and registered are the listeners, in
-- their order; the sockets, the DNS crate's server and its catalog are parameters. The first error
-- ends the start.
pub mod Persistent
pub mod Start
pub mod Listening
pub mod Certified
pub mod Served
pub mod Addressed
use heimdallr.Common.{
  ◌≡◌, ◌≢◌, refl, ℕ, Bool, true, false, not, ◌&&◌, ◌||◌, List, [], ◌∷◌, ◌++◌, Option, none, some,
  if◌then◌else◌,
}
use heimdallr.Common.Addr.{IpAddr}
use heimdallr.Common.Socket.{parse_socket_addr}
use heimdallr.Common.Text.{Text, codes}
use heimdallr.Config.{Config}

pub data StartError : Type 0 where
  bad_zones bad_forwarder bad_address not_bound no_certificate bad_certificate : StartError

-- what a step of the start-up returns
pub data Result {ℓ} (T : Type ℓ) : Type ℓ where
  err : StartError → Result T
  ok : T → Result T

-- `ok_or`
abbrev pub or_error : {A : Type 0} → StartError → Option A → Result A
or_error e none = err e
or_error e (some a) = ok a

-- `?`
infixl 5 ◌>>=◌
abbrev pub ◌>>=◌ {ℓ κ} : {T : Type ℓ} {U : Type κ} → Result T → (T → Result U) → Result U
err reason >>= step = err reason
ok made >>= step = step made

-- a chain that succeeds, and one that fails, taken apart
module _ {ℓ κ} {T : Type ℓ} {U : Type κ} where
  pub >>=-eq-ok :
      (first : Result T) (step : T → Result U) {end : U}
      → (first >>= step) ≡ ok end
      → (made : T) × (first ≡ ok made) × (step made ≡ ok end)
  >>=-eq-ok (err reason) step done = cc
  >>=-eq-ok (ok made) step done = (made, refl, done)

-- The error `e` is ruled out in a chain if it is in its parts.
pub >>=-ne-err {ℓ κ} :
    {A : Type ℓ} {B : Type κ} (m : Result A) (f : A → Result B) (e : StartError)
    → m ≢ err e
    → ((a : A) → m ≡ ok a → f a ≢ err e)
    → (m >>= f) ≢ err e
>>=-ne-err (ok a) f e hm hf h = hf a refl h
>>=-ne-err (err e') f e hm hf h = hm (cc)

pub ok-ne {ℓ} : {A : Type ℓ} (a : A) (e : StartError) → ok a ≢ err e
ok-ne a e h = cc

pub or_error-ne : {A : Type 0} (e e' : StartError) (o : Option A) → e ≢ e' → or_error e o ≢ err e'
or_error-ne e e' none p h = p (cc)
or_error-ne e e' (some a) p h = cc

-- what a socket is bound for
pub data Service : Type 0 where
  udp tcp proxied tls https quic : Service

pub record Listener : Type 0 where
  pub service : Service
  pub address : IpAddr × ℕ

module _ (bind : Service → IpAddr × ℕ → Bool) where
  bound : Service → IpAddr × ℕ → Result Listener
  bound service address =
      if bind service address
      then ok (record { service = service; address = address })
      else err not_bound

  -- one loop over addresses
  unfoldable pub listen_all : Service → List Text → Result (List Listener)
  unfolding parse_socket_addr bound
  listen_all service [] = ok []
  listen_all service (addr ∷ addrs) = do
    sock_addr ← or_error bad_address (parse_socket_addr addr)
    listener ← bound service sock_addr
    rest ← listen_all service addrs
    ok (listener ∷ rest)

  -- the listeners of `Net::run` without encryption
  unfoldable pub plain_listeners : Config → Result (List Listener)
  unfolding listen_all
  plain_listeners cfg = do
    datagrams ← listen_all udp cfg.listen
    streams ← listen_all (if cfg.proxy_enable then proxied else tcp) cfg.listen
    ok (datagrams ++ streams)

  -- the encrypted listeners of `Net::run`, which are left out without a certificate
  unfoldable pub encrypted_listeners : Config → Bool → Result (List Listener)
  unfolding listen_all
  encrypted_listeners cfg false = ok []
  encrypted_listeners cfg true = do
    dot ← listen_all tls cfg.listen_tls
    doh ← listen_all https cfg.listen_https
    doq ← listen_all quic cfg.listen_quic
    ok (dot ++ (doh ++ doq))

is_empty : List Text → Bool
is_empty [] = true
is_empty (t ∷ ts) = false

-- whether an encrypted listener is configured
unfoldable pub has_tls_listeners : Config → Bool
unfolding is_empty
has_tls_listeners cfg =
    not (is_empty cfg.listen_tls)
    || not (is_empty cfg.listen_https)
    || not (is_empty cfg.listen_quic)
