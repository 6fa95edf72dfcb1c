-- ===== src/Tests/FilterRuns.antt =====
-- src/core/filter/ at concrete inputs. A regular expression is the text that it must equal.
use heimdallr.Common.{
  ℕ, ◌-◌, ◌/◌, ◌^◌, true, false, ◌≡◌, refl, ◌↔◌, ◌⊎◌, List, [], ◌∷◌, none, some, arith, any,
}
use heimdallr.Common.Text.{Text, codes, text_eq}
use heimdallr.Common.Addr.{Ipv4Addr, IsIpv4, v4, to_u32, unspecified_v4, unspecified_v6}
use heimdallr.Metrics.{new as registry}
use heimdallr.Blocklist.{blocked, normalize}
use heimdallr.Blocklist.Suffix.{IsListed, blocked_iff}
use heimdallr.Filter.{Filter, Ipv4Cidr, contains, from_str, ok, is_blocked, client_rule}
use heimdallr.Qmin.{Lookup, err}
use heimdallr.Udp.{Request, Response, handle_query, Answers, handle_query-is_blocked}
use heimdallr.Dns.{RecordType, txt}
use heimdallr.Dns.Records.{Record}
use heimdallr.Filter.Answers.{IsInner}
use heimdallr.Filter.Blocking.{is_blocked-client, is_blocked_iff}
use heimdallr.Filter.Cidr.{IsCidr, contains_iff}

abbrev addr : ℕ → ℕ → ℕ → ℕ → Ipv4Addr
addr w x y z = record { a = w; b = x; c = y; d = z }

abbrev lan : Ipv4Cidr
lan = record { addr = addr 10 0 0 0; prefix = 24 }

abbrev ads : List Text
ads = codes "ads.example.com" ∷ []

abbrev allow : List Text
allow = codes "good.ads.example.com" ∷ []

abbrev filter : Filter Text
filter = record {
  cname_chain_limit = 8;
  cname_cloaking = true;
  rebinding = true;
  blocklist = ads;
  allowlist = allow;
  per_client = (lan, false) ∷ [];
  sinkhole_v4 = unspecified_v4;
  sinkhole_v6 = unspecified_v6;
  regex_blocklist = codes "tracker" ∷ [];
}

lan_client : IsIpv4 (addr 10 0 0 5)
lan_client = record {
  a_lt = omega arith;
  b_lt = omega arith;
  c_lt = omega arith;
  d_lt = omega arith;
}

lan-IsCidr : IsCidr lan
lan-IsCidr = record {
  address = record {
    a_lt = omega arith;
    b_lt = omega arith;
    c_lt = omega arith;
    d_lt = omega arith;
  };
  prefix_le = omega arith;
}

-- `X.ADS.example.com.` is below an entry
blocked_iff_example : (blocked ads allow (codes "X.ADS.example.com.") ≡ true) ↔ (
    IsListed ads (normalize (codes "X.ADS.example.com."))
    × (¬ IsListed allow (normalize (codes "X.ADS.example.com."))))
blocked_iff_example = blocked_iff ads allow (codes "X.ADS.example.com.")

contains_iff_example :
    (contains lan (addr 10 0 0 5) ≡ true)
    ↔ (to_u32 (addr 10 0 0 0) / 2 ^ (32 - 24) ≡ to_u32 (addr 10 0 0 5) / 2 ^ (32 - 24))
contains_iff_example = contains_iff lan (addr 10 0 0 5) lan-IsCidr lan_client

parsed : from_str (codes "10.0.0.0/24") ≡ ok lan
unfolding from_str
parsed = refl

holds : contains lan (addr 10 0 0 5) ≡ true
unfolding contains
holds = refl

is_blocked-client_example :
    is_blocked text_eq filter (codes "ads.example.com") (v4 (addr 10 0 0 5)) registry
    ≡ (false, registry)
is_blocked-client_example =
    is_blocked-client text_eq filter [] [] lan false (addr 10 0 0 5) (codes "ads.example.com")
      registry refl tt holds

no_rule : client_rule filter.per_client (v4 (addr 203 0 113 1)) ≡ none
unfolding client_rule
no_rule = refl

is_blocked_iff_example :
    ((is_blocked text_eq filter (codes "x.ads.example.com") (v4 (addr 203 0 113 1)) registry).0
      ≡ true)
    ↔ ((any (λ re. text_eq re (codes "x.ads.example.com")) (codes "tracker" ∷ []) ≡ true)
        ⊎ (IsListed ads (normalize (codes "x.ads.example.com"))
            × (¬ IsListed allow (normalize (codes "x.ads.example.com")))))
is_blocked_iff_example =
    is_blocked_iff text_eq filter (codes "x.ads.example.com") (v4 (addr 203 0 113 1)) registry
      no_rule

inner : IsInner (to_u32 (addr 10 0 0 5))
inner = ground arith

abbrev question : Request
question = record { id = 7; queries = (codes "a.example", txt) ∷ [] }

-- an upstream that fails
abbrev no_answer : Text → RecordType → Lookup (Record Text) ℕ
no_answer n rtype = err 2

handle_query-is_blocked_example :
    (resp : Response Text) × (handle_query
        (λ b. some question)
        (λ t. some t)
        []
        no_answer
        text_eq
        filter
        []
        (v4 (addr 10 0 0 5))
        registry
      ≡ some
          (resp, (is_blocked text_eq filter (codes "a.example") (v4 (addr 10 0 0 5)) registry).1))
    × Answers
        (λ b. some question)
        (λ t. some t)
        []
        no_answer
        text_eq
        7
        (codes "a.example")
        txt
        (is_blocked text_eq filter (codes "a.example") (v4 (addr 10 0 0 5)) registry).0
        resp
handle_query-is_blocked_example =
    handle_query-is_blocked (λ b. some question) (λ t. some t) [] no_answer text_eq filter []
      (v4 (addr 10 0 0 5)) registry question (codes "a.example") txt [] refl refl
