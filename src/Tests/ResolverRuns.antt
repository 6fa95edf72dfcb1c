-- ===== src/Tests/ResolverRuns.antt =====
-- src/core/resolver/ at concrete inputs. A name is the list of its labels.
use heimdallr.Common.{
  ℕ, ◌%◌, Bool, true, false, ◌≡◌, refl, inl, List, [], ◌∷◌, arith, length, if◌then◌else◌, ◌==◌,
}
use heimdallr.Common.Words.{add64}
use heimdallr.Common.Addr.{Ipv4Addr, Ipv6Addr}
use heimdallr.Metrics.{increment, read, new as registry, qmin_steps_total, dns64_synthesized_total}
use heimdallr.Metrics.Counters.{HasCounter-new}
use heimdallr.Dns64.{Dns64Prefix, synthesize_aaaa}
use heimdallr.Dns64.Embedding.{EmbedsEach, synthesize_aaaa_lem}
use heimdallr.Qmin.{
  NameApi, Lookup, ok, err, QnameMinResult, done, planned, resolve_with_minimization,
}
use heimdallr.Qmin.Answer.{
  LastAnswer, here, later, nothing, error, resolve_with_minimization-LastAnswer,
}

abbrev parent : List ℕ → List ℕ
parent [] = []
parent (l ∷ n) = n

abbrev is_empty : List ℕ → Bool
is_empty [] = true
is_empty (l ∷ n) = false

empty_len : (n : List ℕ) → is_empty n ≡ true → length n ≡ 0
empty_len [] h = refl
empty_len (l ∷ n) h = ground (arith, h)

abbrev names : NameApi (List ℕ)
names = record {
  num_labels = λ n. length n;
  base_name = parent;
  is_root = is_empty;
  root = [];
  is_root-num_labels = empty_len;
}

-- the full name and its parent have records, the root does not
abbrev answers : ℕ → List ℕ → Lookup ℕ ℕ
answers i [] = err 9
answers i (l ∷ n) = ok (l ∷ [])

abbrev www : List ℕ
www = 1 ∷ 2 ∷ []

plan : planned answers names 7 www ≡ www ∷ (2 ∷ []) ∷ [] ∷ []
unfolding planned
plan = refl

last : LastAnswer answers 0 (planned answers names 7 www) (2 ∷ []) (2 ∷ [])
last = rw plan (later (here refl (error 9 refl nothing)))

-- the answer for the parent, not the one for the name asked for
resolve_with_minimization-LastAnswer_example :
    resolve_with_minimization answers names 7 www registry ≡ (
      done (record {
        records = 2 ∷ [];
        final_qname = 2 ∷ [];
        steps = length (planned answers names 7 www) % 256;
        fell_back = false;
      }),
      increment qmin_steps_total (length (planned answers names 7 www) % 256) registry,
    )
resolve_with_minimization-LastAnswer_example =
    resolve_with_minimization-LastAnswer answers names 7 www registry (2 ∷ []) (2 ∷ [])
      (omega arith) last

abbrev result : QnameMinResult (List ℕ) ℕ
result = record { records = 2 ∷ []; final_qname = 2 ∷ []; steps = 3; fell_back = false }

resolved : (resolve_with_minimization answers names 7 www registry).0 ≡ done result
unfolding resolve_with_minimization
resolved = refl

abbrev doc : Ipv4Addr
doc = record { a = 192; b = 0; c = 2; d = 1 }

abbrev well_known : Ipv6Addr
well_known = record {
  octets = 0 ∷ 0x64 ∷ 0xff ∷ 0x9b ∷ 0 ∷ 0 ∷ 0 ∷ 0 ∷ 0 ∷ 0 ∷ 0 ∷ 0 ∷ 0 ∷ 0 ∷ 0 ∷ 0 ∷ [];
}

abbrev prefix : Dns64Prefix
prefix = record { addr = well_known; len = 96 }

synthesize_aaaa_lem_example :
    EmbedsEach prefix (doc ∷ doc ∷ []) (synthesize_aaaa (doc ∷ doc ∷ []) prefix registry).0
    × (read dns64_synthesized_total (synthesize_aaaa (doc ∷ doc ∷ []) prefix registry).1 ≡ (
        if 2 == 0
        then read dns64_synthesized_total registry
        else add64 (read dns64_synthesized_total registry) 2))
synthesize_aaaa_lem_example =
    synthesize_aaaa_lem (doc ∷ doc ∷ []) prefix registry (inl refl) refl
      (HasCounter-new dns64_synthesized_total)
