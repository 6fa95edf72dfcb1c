-- ===== src/Resolver/Asked.antt =====
-- How the servers of the configuration are asked.
use heimdallr.Common.{
  ℕ, Bool, true, false, ◌≡◌, ◌≢◌, refl, ap, ◌==◌, Bool-cases, ◌⊎◌, arith, List, Option, [], ◌∷◌,
  ◌++◌, inl, inr,
}
use heimdallr.Common.Addr.{IpAddr}
use heimdallr.Common.Text.{Text, codes, text_eq, text_eq_iff, has_char, pieces, split}
use heimdallr.Resolver.{
  Transport, udp, tcp, tls, https, quic, NameServerConfig, extract_tls_host, transport_of,
}

-- The host in front of a colon, which is the whole text if that has none. It is taken from the
-- first text, and it is that of a public resolver if there is no text.
abbrev pub IsHost : List Text → Text → Type 0
IsHost [] host = host ≡ codes "1.1.1.1"
IsHost (f ∷ fs) host =
    (has_char b':' host ≡ false) × ((f ≡ host) ⊎ ((rest : Text) × (f ≡ host ++ b':' ∷ rest)))

pieces-before :
    (f : Text)
    → (has_char b':' (pieces (λ x. x == b':') f).0 ≡ false)
      × ((f ≡ (pieces (λ x. x == b':') f).0)
          ⊎ ((rest : Text) × (f ≡ (pieces (λ x. x == b':') f).0 ++ b':' ∷ rest)))
unfolding pieces has_char
pieces-before [] = (refl, inl refl)
pieces-before (x ∷ f) =
    let (no_colon, rest_of) = pieces-before f in
    elim (Bool-cases (x == b':')) [
      | inl colon ↦ rw (colon, has_char) (refl, inr (f, ground (arith, colon)))
      | inr other ↦
          rw (other, has_char)
            (
              ground (arith, other, no_colon),
              elim rest_of [
                | inl whole ↦ inl (ap (λ t. x ∷ t) whole)
                | inr (rest, cut) ↦ inr (rest, ap (λ t. x ∷ t) cut)
              ],
            )
    ]

pub extract_tls_host-IsHost : (fs : List Text) → IsHost fs (extract_tls_host fs)
unfolding extract_tls_host split
extract_tls_host-IsHost [] = refl
extract_tls_host-IsHost (f ∷ fs) = pieces-before f

-- how the configured protocol asks: any other text than these five is taken for UDP
pub data Asks (host protocol : Text) : Transport → Type 0 where
  by_udp : protocol ≡ codes "udp" → Asks host protocol udp
  by_tcp : protocol ≡ codes "tcp" → Asks host protocol tcp
  by_dot : protocol ≡ codes "dot" → Asks host protocol (tls host)
  by_doh : protocol ≡ codes "doh" → Asks host protocol (https host)
  by_doq : protocol ≡ codes "doq" → Asks host protocol (quic host)
  unknown :
      protocol ≢ codes "udp"
      → protocol ≢ codes "tcp"
      → protocol ≢ codes "dot"
      → protocol ≢ codes "doh"
      → protocol ≢ codes "doq"
      → Asks host protocol udp

pub text_cases : (s t : Text) → ((text_eq s t ≡ true) × (s ≡ t)) ⊎ ((text_eq s t ≡ false) × (s ≢ t))
text_cases s t =
    let (sound, complete) = text_eq_iff s t in
    elim (Bool-cases (text_eq s t)) [
      | inl same ↦ inl (same, sound same)
      | inr other ↦ inr (other, λ e. ground (arith, complete e, other))
    ]

pub transport_of-Asks : (host protocol : Text) → Asks host protocol (transport_of protocol host)
unfolding transport_of
transport_of-Asks host p = elim (text_cases p (codes "udp")) [
  | inl (h, e) ↦ rw h (by_udp e)
  | inr (h₁, n₁) ↦ elim (text_cases p (codes "tcp")) [
    | inl (h, e) ↦ rw (h₁, h) (by_tcp e)
    | inr (h₂, n₂) ↦ elim (text_cases p (codes "dot")) [
      | inl (h, e) ↦ rw (h₁, h₂, h) (by_dot e)
      | inr (h₃, n₃) ↦ elim (text_cases p (codes "doh")) [
        | inl (h, e) ↦ rw (h₁, h₂, h₃, h) (by_doh e)
        | inr (h₄, n₄) ↦ elim (text_cases p (codes "doq")) [
          | inl (h, e) ↦ rw (h₁, h₂, h₃, h₄, h) (by_doq e)
          | inr (h₅, n₅) ↦ rw (h₁, h₂, h₃, h₄, h₅) (unknown n₁ n₂ n₃ n₄ n₅)
        ]
      ]
    ]
  ]
]

-- the server of an address, which is asked as given
abbrev pub asked_by : Transport → Option Bool → IpAddr × ℕ → NameServerConfig
asked_by t trust addr = record { ip = addr.0; transport = t; trust_negative_responses = trust }
