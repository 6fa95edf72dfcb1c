-- ===== src/Udp.antt =====
-- src/net/udp.rs: `handle_query`. The decoding of a request, the name of a text, and the resolver
-- are the DNS crate's; the response is what is sent if it can be encoded and sent.
use heimdallr.Common.{
  ℕ, Bool, true, false, ◌≡◌, ◌↔◌, refl, ap, arith, List, [], ◌∷◌, Option, none, some,
}
use heimdallr.Common.Addr.{IpAddr}
use heimdallr.Common.Text.{Text, trim_end_matches}
use heimdallr.Dns.{RecordType}
use heimdallr.Dns.Records.{Record}
use heimdallr.Filter.{Filter, is_blocked}
use heimdallr.Filter.{unwrap_or}
use heimdallr.Metrics.{MetricsRegistry}
use heimdallr.Qmin.{Lookup, ok, err}

pub data ResponseCode : Type 0 where
  no_error form_err nx_domain serv_fail : ResponseCode

pub record Request : Type 0 where
  pub id : ℕ
  -- names as they print, and types
  pub queries : List (Text × RecordType)

pub record Response (Name : Type 0) : Type 0 where
  pub id : ℕ
  pub response_code : ResponseCode
  pub recursion_available : Bool
  pub queries : List (Name × RecordType)
  pub answers : List (Record Name)

module _ {Name NetError Regex : Type 0} (decode : List ℕ → Option Request)
    (from_utf8 : Text → Option Name) (root : Name)
    (lookup : Text → RecordType → Lookup (Record Name) NetError)
    (is_match : Regex → Text → Bool) where
  -- a response without a question
  unfoldable pub refusal : ℕ → ResponseCode → Response Name
  refusal id code = record {
    id = id;
    response_code = code;
    recursion_available = false;
    queries = [];
    answers = [];
  }

  -- the response to a question that is not blocked
  unfoldable pub resolved : ℕ → Text → RecordType → Lookup (Record Name) NetError → Response Name
  unfolding unwrap_or
  resolved id name qtype (ok records) = record {
    id = id;
    response_code = no_error;
    recursion_available = true;
    queries = (unwrap_or root (from_utf8 name), qtype) ∷ [];
    answers = records;
  }
  resolved id name qtype (err e) = record {
    id = id;
    response_code = serv_fail;
    recursion_available = true;
    queries = (unwrap_or root (from_utf8 name), qtype) ∷ [];
    answers = [];
  }

  -- the gate of the filter, and the lookup behind it
  unfoldable pub gated :
      ℕ → Text → RecordType → Bool × MetricsRegistry → Response Name × MetricsRegistry
  unfolding refusal resolved trim_end_matches
  gated id qname qtype (true, m) = (refusal id nx_domain, m)
  gated id qname qtype (false, m) =
      let name = trim_end_matches b'.' qname in (resolved id name qtype (lookup name qtype), m)

  -- `handle_query`: the response; `none` if the request does not parse
  unfoldable pub handle_query :
      Filter Regex → List ℕ → IpAddr → MetricsRegistry → Option (Response Name × MetricsRegistry)
  unfolding gated is_blocked
  handle_query f bytes client m = elim (decode bytes) [
    | none ↦ none
    | some req ↦ elim req.queries [
      | [] ↦ some (refusal req.id form_err, m)
      | q ∷ rest ↦ some (gated req.id q.0 q.1 (is_blocked is_match f q.0 client m))
    ]
  ]

  -- what a response says of the verdict that it was made for
  abbrev pub Answers : ℕ → Text → RecordType → Bool → Response Name → Type 0
  Answers id qname qtype blocked resp =
      (resp.id ≡ id)
      × ((resp.response_code ≡ nx_domain) ↔ (blocked ≡ true))
      × ((records : List (Record Name))
          → blocked ≡ false
          → lookup (trim_end_matches b'.' qname) qtype ≡ ok records
          → resp.answers ≡ records)

  resolved-Answers :
      (id : ℕ) (qname : Text) (qtype : RecordType)
      → Answers id qname qtype false (
          resolved id
            (trim_end_matches b'.' qname)
            qtype
            (lookup (trim_end_matches b'.' qname) qtype))
  unfolding resolved
  resolved-Answers id qname qtype = go (lookup (trim_end_matches b'.' qname) qtype) refl
    where
      go :
          (found : Lookup (Record Name) NetError)
          → lookup (trim_end_matches b'.' qname) qtype ≡ found
          → Answers id qname qtype false (resolved id (trim_end_matches b'.' qname) qtype found)
      go (ok records) same = ground (arith, same)
      go (err e) same = ground (arith, same)

  gated-Answers :
      (id : ℕ) (qname : Text) (qtype : RecordType) (verdict : Bool × MetricsRegistry)
      → Answers id qname qtype verdict.0 (gated id qname qtype verdict).0
        × ((gated id qname qtype verdict).1 ≡ verdict.1)
  unfolding gated refusal
  gated-Answers id qname qtype (true, m) = ground arith
  gated-Answers id qname qtype (false, m) = (resolved-Answers id qname qtype, refl)

  -- A request that parses and has a question gets a response with its identifier, whose code is
  -- NXDomain exactly if the filter blocks the name for the client; if it does not, and the
  -- resolver has an answer for the name without dots at its end, the response has its records.
  pub handle_query-is_blocked :
      (f : Filter Regex) (bytes : List ℕ) (client : IpAddr) (m : MetricsRegistry) (req : Request)
      (qname : Text) (qtype : RecordType) (rest : List (Text × RecordType))
      → decode bytes ≡ some req
      → req.queries ≡ (qname, qtype) ∷ rest
      → (resp : Response Name) × (handle_query f bytes client m
          ≡ some (resp, (is_blocked is_match f qname client m).1))
        × Answers req.id qname qtype (is_blocked is_match f qname client m).0 resp
  unfolding handle_query
  handle_query-is_blocked f bytes client m req qname qtype rest parsed asked =
      let verdict = is_blocked is_match f qname client m in
      let (answers, counted) = gated-Answers req.id qname qtype verdict in
      (
        (gated req.id qname qtype verdict).0,
        rw (parsed, asked, handle_query)
            (ap (λ x. some ((gated req.id qname qtype verdict).0, x)) counted),
        answers,
      )
