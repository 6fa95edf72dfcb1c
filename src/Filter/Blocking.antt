-- ===== src/Filter/Blocking.antt =====
-- The verdict on a query name, by client, regular expressions and lists.
use heimdallr.Common.{
  Bool, true, false, ◌≡◌, refl, ap, ◌∙◌, ◌⊎◌, inl, inr, ◌↔◌, List, [], ◌∷◌, ◌++◌, none, some,
  if◌then◌else◌, any, arith, ite, Bool-cases,
}
use heimdallr.Common.Text.{Text}
use heimdallr.Common.Words.{add64}
use heimdallr.Common.Addr.{Ipv4Addr, IpAddr, v4}
use heimdallr.Metrics.{MetricsRegistry, MetricName, MetricName-discrete, blocked_total, read}
use heimdallr.Metrics.Counters.{HasCounter, read-increment}
use heimdallr.Blocklist.{blocked, normalize}
use heimdallr.Blocklist.Suffix.{IsListed, blocked_iff}
use heimdallr.Filter.{Filter, Ipv4Cidr, contains, first_match, client_rule, is_blocked}

-- none of the networks holds the address
abbrev pub NoneHolds : List (Ipv4Cidr × Bool) → Ipv4Addr → Type 0
NoneHolds [] ip = Unit
NoneHolds ((net, b) ∷ cs) ip = (contains net ip ≡ false) × NoneHolds cs ip

first_match-append :
    (before after : List (Ipv4Cidr × Bool)) (net : Ipv4Cidr) (b : Bool) (ip : Ipv4Addr)
    → NoneHolds before ip
    → contains net ip ≡ true
    → first_match (before ++ (net, b) ∷ after) ip ≡ some b
unfolding first_match
first_match-append [] after net b ip h k = rw k refl
first_match-append ((n, c) ∷ before) after net b ip h k =
    rw h.0 (first_match-append before after net b ip h.1 k)

module _ {Regex : Type 0} (is_match : Regex → Text → Bool) where
  -- The first network that holds an IPv4 client decides: its flag is the verdict on every name,
  -- whatever the lists and the expressions say, and nothing is counted.
  pub is_blocked-client :
      (f : Filter Regex) (before after : List (Ipv4Cidr × Bool)) (net : Ipv4Cidr) (b : Bool)
      → (ip : Ipv4Addr) (qname : Text) (m : MetricsRegistry)
      → f.per_client ≡ before ++ (net, b) ∷ after
      → NoneHolds before ip
      → contains net ip ≡ true
      → is_blocked is_match f qname (v4 ip) m ≡ (b, m)
  unfolding is_blocked
  is_blocked-client f before after net b ip qname m same h k =
      let e : first_match f.per_client ip ≡ some b =
        ap (λ cs. first_match cs ip) same ∙ first_match-append before after net b ip h k in
      rw (e, client_rule, is_blocked) refl

  -- For a client without a rule a name is blocked exactly if an expression matches it, or the
  -- name or a parent of it is on the block list and neither it nor a parent on the allow list.
  pub is_blocked_iff :
      (f : Filter Regex) (qname : Text) (client : IpAddr) (m : MetricsRegistry)
      → client_rule f.per_client client ≡ none
      → ((is_blocked is_match f qname client m).0 ≡ true) ↔ (
          (any (λ re. is_match re qname) f.regex_blocklist ≡ true)
          ⊎ (IsListed f.blocklist (normalize qname) × (¬ IsListed f.allowlist (normalize qname))))
  unfolding is_blocked
  is_blocked_iff f qname client m h =
      rw (h, is_blocked)
        (elim (Bool-cases (any (λ re. is_match re qname) f.regex_blocklist)) [
          | inl matched ↦ rw matched (λ _. inl refl, λ _. refl)
          | inr unmatched ↦ rw unmatched (
            λ e. inr ((blocked_iff f.blocklist f.allowlist qname).0 e),
            λ e. elim e [
              | inl e' ↦ cc
              | inr listed ↦ (blocked_iff f.blocklist f.allowlist qname).1 listed
            ],
          )
        ])

  -- A query adds one to `blocked_total` exactly if the client has no rule, no expression matches
  -- and the lists block the name; no other counter changes. So what an expression blocks is not
  -- counted.
  pub read-is_blocked :
      (f : Filter Regex) (qname : Text) (client : IpAddr) (m : MetricsRegistry) (j : MetricName)
      → HasCounter blocked_total m
      → read j (is_blocked is_match f qname client m).1 ≡ (elim (client_rule f.per_client client) [
        | some b ↦ read j m
        | none ↦
            if any (λ re. is_match re qname) f.regex_blocklist
            then read j m
            else if blocked f.blocklist f.allowlist qname
            then ite (MetricName-discrete blocked_total j) (add64 (read j m) 1) (read j m)
            else read j m
      ])
  unfolding is_blocked
  read-is_blocked f qname client m j has = ground (arith, read-increment blocked_total j 1 m has)
