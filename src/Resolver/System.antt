-- ===== src/Resolver/System.antt =====
-- When the system's resolver stands behind the configured servers.
use heimdallr.Common.{
  Bool, true, false, ◌≡◌, refl, sym, ap, ◌∙◌, any, ◌⊎◌, arith, List, [], ◌∷◌, Option, none, some,
  Option-cases, inl, inr,
}
use heimdallr.Common.Addr.{v4}
use heimdallr.Common.Socket.{parse_socket_addr}
use heimdallr.Common.Text.{Text, codes, strip_prefix, trim, lines}
use heimdallr.Resolver.{
  udp, is_stub, names_stub, in_resolv_conf, systemd_resolved_stub, NameServerConfig, server_at,
  system_servers, detect_system_resolver,
}
use heimdallr.Resolver.Asked.{asked_by, text_cases}

-- 127.0.0.53, asked over UDP on port 53
abbrev pub stub_server : NameServerConfig
stub_server = asked_by udp (some true) (v4 (record { a = 127; b = 0; c = 0; d = 53 }), 53)

-- a line, without the blanks around it, says that this is the system's name server
abbrev pub NamesStub : Text → Type 0
NamesStub line =
    (ns : Text) × (strip_prefix (codes "nameserver") (trim line) ≡ some ns)
    × (trim ns ≡ codes "127.0.0.53")

abbrev pub SomeLine : List Text → Type 0
SomeLine [] = ⊥
SomeLine (line ∷ rest) = NamesStub line ⊎ SomeLine rest

names_stub-cases :
    (line : Text)
    → ((names_stub line ≡ true) × NamesStub line) ⊎ ((names_stub line ≡ false) × ¬ NamesStub line)
unfolding names_stub is_stub
names_stub-cases line = elim (Option-cases (strip_prefix (codes "nameserver") (trim line))) [
  | inl no_prefix ↦ inr (ground (arith, no_prefix), λ h. ground (arith, no_prefix, h.1))
  | inr (ns, cut) ↦ elim (text_cases (trim ns) (codes "127.0.0.53")) [
    | inl (found, e) ↦ inl (ground (arith, cut, found), (ns, cut, e))
    | inr (missing, ne) ↦ inr (
      ground (arith, cut, missing),
      λ h. let same : h.0 ≡ ns = ground (arith, h.1, cut) in ne (ap trim (sym same) ∙ h.2),
    )
  ]
]

SomeLine-cases :
    (ls : List Text)
    → ((any names_stub ls ≡ true) × SomeLine ls) ⊎ ((any names_stub ls ≡ false) × ¬ SomeLine ls)
SomeLine-cases [] = inr (refl, λ h. h)
SomeLine-cases (line ∷ ls) = elim (names_stub-cases line) [
  | inl (found, here) ↦ inl (ground (arith, found), inl here)
  | inr (missing, not_here) ↦ elim (SomeLine-cases ls) [
    | inl (found, later) ↦ inl (ground (arith, missing, found), inr later)
    | inr (none_of, not_later) ↦
        inr (
          ground (arith, missing, none_of),
          λ h. elim h [ inl x ↦ not_here x | inr x ↦ not_later x ],
        )
  ]
]

-- the system resolves by the stub
abbrev pub HasStub : Bool → Option Text → Type 0
HasStub true resolv_conf = Unit {0}
HasStub false none = ⊥
HasStub false (some content) = SomeLine (lines content)

-- the servers behind those that are configured
abbrev pub IsSystem : Bool → Option Text → List NameServerConfig → Type 0
IsSystem stub_exists resolv_conf servers =
    (HasStub stub_exists resolv_conf × (servers ≡ stub_server ∷ []))
    ⊎ ((¬ HasStub stub_exists resolv_conf) × (servers ≡ []))

system_servers-stub : system_servers (some systemd_resolved_stub) ≡ stub_server ∷ []
unfolding system_servers parse_socket_addr server_at
system_servers-stub = refl

pub system_servers-IsSystem :
    (stub_exists : Bool) (resolv_conf : Option Text)
    → IsSystem stub_exists resolv_conf
        (system_servers (detect_system_resolver stub_exists resolv_conf))
unfolding detect_system_resolver in_resolv_conf system_servers
system_servers-IsSystem true resolv_conf = inl (tt, system_servers-stub)
system_servers-IsSystem false none = inr (λ h. h, refl)
system_servers-IsSystem false (some content) = elim (SomeLine-cases (lines content)) [
  | inl (found, h) ↦ rw found (inl (h, system_servers-stub))
  | inr (missing, h) ↦ rw missing (inr (h, refl))
]
