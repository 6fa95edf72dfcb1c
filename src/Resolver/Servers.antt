-- ===== src/Resolver/Servers.antt =====
-- Which servers the resolver gets.
use heimdallr.Common.{
  ℕ, Bool, true, ◌≡◌, refl, ap, ◌⊎◌, arith, List, [], ◌∷◌, ◌++◌, Option, none, some, map,
  Option-cases, if◌then◌else◌, inl, inr,
}
use heimdallr.Common.Addr.{IpAddr}
use heimdallr.Common.Socket.{parse_socket_addr}
use heimdallr.Common.Text.{Text}
use heimdallr.Config.{Config}
use heimdallr.Resolver.{
  Transport, NameServerConfig, ResolverWrap, server_at, forwarder_servers, system_servers,
  detect_system_resolver, extract_tls_host, transport_of, from_config,
}
use heimdallr.Resolver.Asked.{IsHost, extract_tls_host-IsHost, Asks, transport_of-Asks, asked_by}
use heimdallr.Resolver.System.{IsSystem, system_servers-IsSystem}

-- the addresses that the texts of the forwarders stand for, one after the other
abbrev pub Reads : List Text → List (IpAddr × ℕ) → Type 0
Reads [] [] = Unit {0}
Reads (f ∷ fs) (addr ∷ addrs) = (parse_socket_addr f ≡ some addr) × Reads fs addrs
Reads _ _ = ⊥

forwarder_servers-Reads :
    (t : Transport) (fs : List Text) (addrs : List (IpAddr × ℕ))
    → Reads fs addrs
    → forwarder_servers t fs ≡ some (map (server_at t none) addrs)
unfolding forwarder_servers
forwarder_servers-Reads t [] [] h = refl
forwarder_servers-Reads t [] (addr ∷ addrs) h = absurd h
forwarder_servers-Reads t (f ∷ fs) [] h = absurd h
forwarder_servers-Reads t (f ∷ fs) (addr ∷ addrs) h =
    rw (h.0, forwarder_servers-Reads t fs addrs h.1) refl

Reads-forwarder_servers :
    (t : Transport) (fs : List Text) (servers : List NameServerConfig)
    → forwarder_servers t fs ≡ some servers
    → (addrs : List (IpAddr × ℕ)) × Reads fs addrs
unfolding forwarder_servers
Reads-forwarder_servers t [] servers h = ([], tt)
Reads-forwarder_servers t (f ∷ fs) servers h = elim (Option-cases (parse_socket_addr f)) [
  | inl bad ↦ absurd (ground (arith, bad, h))
  | inr (addr, good) ↦ elim (Option-cases (forwarder_servers t fs)) [
    | inl bad ↦ absurd (ground (arith, good, bad, h))
    | inr (rest, some_rest) ↦
        let (addrs, reads) = Reads-forwarder_servers t fs rest some_rest in
        (addr ∷ addrs, (good, reads))
  ]
]

map-server_at :
    (t : Transport) (addrs : List (IpAddr × ℕ))
    → map (server_at t none) addrs ≡ map (asked_by t none) addrs
unfolding server_at
map-server_at t [] = refl
map-server_at t (addr ∷ addrs) = ap (λ s. asked_by t none addr ∷ s) (map-server_at t addrs)

module _ (build : ResolverWrap → Bool) (stub_exists : Bool) (resolv_conf : Option Text)
    (cfg : Config) (dnssec : Bool) where
  -- what the resolver is built to be
  pub record IsBuilt (addrs : List (IpAddr × ℕ)) (r : ResolverWrap) : Type 0 where
    pub reads : Reads cfg.forwarders addrs
    pub host : Text
    pub is_host : IsHost cfg.forwarders host
    pub transport : Transport
    pub asks : Asks host cfg.forward_protocol transport
    pub system : List NameServerConfig
    pub is_system : IsSystem stub_exists resolv_conf system
    pub servers : r.servers ≡ map (asked_by transport none) addrs ++ system
    pub timeout : r.opts.timeout_ms ≡ cfg.timeout_ms
    pub attempts : r.opts.attempts ≡ cfg.concurrency
    pub recursive : r.opts.recursion_desired ≡ true
    pub validates : r.opts.validate ≡ dnssec
    pub anchored : r.opts.root_anchors ≡ dnssec

  from_config-IsBuilt :
      (addrs : List (IpAddr × ℕ))
      → Reads cfg.forwarders addrs
      → (r : ResolverWrap) × (from_config build stub_exists resolv_conf cfg dnssec
          ≡ (if build r then some r else none))
        × IsBuilt addrs r
  unfolding from_config
  from_config-IsBuilt addrs reads =
      let host = extract_tls_host cfg.forwarders in
      let t = transport_of cfg.forward_protocol host in
      let built = forwarder_servers-Reads t cfg.forwarders addrs reads in
      let system = system_servers (detect_system_resolver stub_exists resolv_conf) in
      rw built (
        _,
        refl,
        record {
          reads = reads;
          host = host;
          is_host = extract_tls_host-IsHost cfg.forwarders;
          transport = t;
          asks = transport_of-Asks host cfg.forward_protocol;
          system = system;
          is_system = system_servers-IsSystem stub_exists resolv_conf;
          servers = ap (λ s. s ++ system) (map-server_at t addrs);
          timeout = refl;
          attempts = refl;
          recursive = refl;
          validates = refl;
          anchored = refl;
        },
      )

  from_config_failed :
      forwarder_servers
          (transport_of cfg.forward_protocol (extract_tls_host cfg.forwarders))
          cfg.forwarders
        ≡ none
      → from_config build stub_exists resolv_conf cfg dnssec ≡ none
  unfolding from_config
  from_config_failed bad = rw bad refl

  -- Either each forwarder's text is a socket address, and then the resolver has a server for each,
  -- in their order, at its IP address (its port is dropped), all asked in the same way: as the
  -- configured protocol says, over UDP if that is none of the five, and with the part of the first
  -- text before its colon as the name in a certificate. Behind them is 127.0.0.53 over UDP,
  -- exactly if the stub file is there or a line of resolv.conf names it. The resolver has the
  -- configured timeout and attempts, asks for recursion, and validates, with the root anchors,
  -- exactly if that is asked for; and it is returned if the crate takes it, and there is no
  -- resolver if not. Or some text is not a socket address, and there is no resolver.
  pub from_config_cases :
      ((addrs : List (IpAddr × ℕ)) × (r : ResolverWrap) × (from_config build stub_exists resolv_conf
            cfg dnssec
          ≡ (if build r then some r else none))
        × IsBuilt addrs r)
      ⊎ (((addrs : List (IpAddr × ℕ)) → ¬ Reads cfg.forwarders addrs)
          × (from_config build stub_exists resolv_conf cfg dnssec ≡ none))
  from_config_cases =
      let t = transport_of cfg.forward_protocol (extract_tls_host cfg.forwarders) in
      elim (Option-cases (forwarder_servers t cfg.forwarders)) [
        | inl bad ↦ inr (
          λ addrs reads. ground (arith, bad, forwarder_servers-Reads t cfg.forwarders addrs reads),
          from_config_failed bad,
        )
        | inr (servers, good) ↦
            let (addrs, reads) = Reads-forwarder_servers t cfg.forwarders servers good in
            let (r, built, is) = from_config-IsBuilt addrs reads in inl (addrs, r, built, is)
      ]
