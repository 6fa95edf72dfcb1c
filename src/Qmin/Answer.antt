-- ===== src/Qmin/Answer.antt =====
-- Which lookup the result comes from.
use heimdallr.Common.{
  ℕ, suc, ◌%◌, ◌≡◌, refl, ◌⊎◌, inl, inr, ◌<◌, true, false, List, [], ◌∷◌, Option, none, some, ◌==◌,
  length, arith, Bool-cases,
}
use heimdallr.Metrics.{MetricsRegistry, increment, qmin_steps_total}
use heimdallr.Qmin.{
  NameApi, Lookup, ok, err, QnameMinResult, done, Progress, step, run, finish, fall_back, planned,
  resolve_with_minimization,
}

module _ {Name Record NetError : Type 0} (lookup : ℕ → Name → Lookup Record NetError) where
  -- no lookup of these names, made from number `i` on, gives records
  pub data NoAnswer : ℕ → List Name → Type 0 where
    nothing : {i : ℕ} → NoAnswer i []
    no_data :
        {i : ℕ} {n : Name} {ns : List Name}
        → lookup i n ≡ ok []
        → NoAnswer (suc i) ns
        → NoAnswer i (n ∷ ns)
    error :
        {i : ℕ} {n : Name} {ns : List Name} (e : NetError)
        → lookup i n ≡ err e
        → NoAnswer (suc i) ns
        → NoAnswer i (n ∷ ns)

  -- the last lookup of these names that gives records is that of `n`, and they are `rs`
  pub data LastAnswer : ℕ → List Name → Name → List Record → Type 0 where
    here :
        {i : ℕ} {n : Name} {ns : List Name} {r : Record} {rs : List Record}
        → lookup i n ≡ ok (r ∷ rs)
        → NoAnswer (suc i) ns
        → LastAnswer i (n ∷ ns) n (r ∷ rs)
    later :
        {i : ℕ} {n k : Name} {ns : List Name} {rs : List Record}
        → LastAnswer (suc i) ns k rs
        → LastAnswer i (n ∷ ns) k rs

  -- what a run from `p` to `q` has found
  abbrev Kept :
      ℕ → List Name → Progress Name Record NetError → Progress Name Record NetError → Type 0
  Kept i ns p q =
      (NoAnswer i ns × (q.last_records ≡ p.last_records) × (q.last_qname ≡ p.last_qname))
      ⊎ LastAnswer i ns q.last_qname q.last_records

  Kept-step :
      (i : ℕ) (n : Name) (ns : List Name) (p q : Progress Name Record NetError)
      → (answer : Lookup Record NetError) → lookup i n ≡ answer
      → Kept (suc i) ns (step n answer p) q
      → Kept i (n ∷ ns) p q
  unfolding step
  Kept-step i n ns p q (err e) h k = elim k [
    | inl (none_, records, name) ↦ inl (error e h none_, records, name)
    | inr last ↦ inr (later last)
  ]
  Kept-step i n ns p q (ok []) h k = elim k [
    | inl (none_, records, name) ↦ inl (no_data h none_, records, name)
    | inr last ↦ inr (later last)
  ]
  Kept-step i n ns p q (ok (r ∷ rs)) h k = elim k [
    | inl (none_, records, name) ↦ inr (rw (records, name) (here h none_))
    | inr last ↦ inr (later last)
  ]

  run-Kept :
      (i : ℕ) (ns : List Name) (p : Progress Name Record NetError) → Kept i ns p (run lookup i ns p)
  unfolding run
  run-Kept i [] p = inl (nothing, refl, refl)
  run-Kept i (n ∷ ns) p =
      Kept-step i n ns p (run lookup (suc i) ns (step n (lookup i n) p)) (lookup i n) refl
        (run-Kept (suc i) ns (step n (lookup i n) p))

  LastAnswer-nonempty : {i : ℕ} {ns : List Name} {n : Name} → LastAnswer i ns n [] → ⊥
  LastAnswer-nonempty (later last) = LastAnswer-nonempty last

  -- what a result says of the lookups that were made
  abbrev pub IsResult : List Name → Name → QnameMinResult Name Record → Type 0
  IsResult ns original r =
      ((r.fell_back ≡ false) × LastAnswer 0 ns r.final_qname r.records)
      ⊎ ((r.fell_back ≡ true)
          × NoAnswer 0 ns
          × (r.final_qname ≡ original)
          × (lookup (length ns) original ≡ ok r.records))

  fall_back-result :
      (original : Name) (steps : ℕ) (last : Option NetError) (answer : Lookup Record NetError)
      (m : MetricsRegistry)
      → (r : QnameMinResult Name Record)
      → (fall_back lookup original steps last answer m).0 ≡ done r
      → (r.fell_back ≡ true) × (r.final_qname ≡ original) × (answer ≡ ok r.records)
  unfolding fall_back
  fall_back-result original steps none (err e) m r h = ground (arith, h)
  fall_back-result original steps (some last) (err e) m r h = ground (arith, h)
  fall_back-result original steps last (ok records) m r h = ground (arith, h)

  finish-IsResult :
      (ns : List Name) (original : Name) (steps : ℕ) (p : Progress Name Record NetError)
      → (rs : List Record) (m : MetricsRegistry) (r : QnameMinResult Name Record)
      → (NoAnswer 0 ns × (rs ≡ [])) ⊎ LastAnswer 0 ns p.last_qname rs
      → (finish lookup original (length ns) steps p rs m).0 ≡ done r
      → IsResult ns original r
  unfolding finish
  finish-IsResult ns original steps p [] m r (inr last) h = absurd (LastAnswer-nonempty last)
  finish-IsResult ns original steps p [] m r (inl (none_, _)) h =
      let (fell, final, found) = fall_back-result original steps p.last_error _ m r h in
      inr (fell, none_, final, found)
  finish-IsResult ns original steps p (x ∷ rs) m r (inl (none_, e)) h = ground (arith, e)
  finish-IsResult ns original steps p (x ∷ rs) m r (inr last) h =
      let same : (r.fell_back ≡ false) × (r.final_qname ≡ p.last_qname) × (r.records ≡ x ∷ rs) =
        ground (arith, h) in
      inl (same.0, rw (same.1, same.2) last)

  run-NoAnswer :
      (i : ℕ) (ns : List Name) (p : Progress Name Record NetError)
      → NoAnswer i ns
      → ((run lookup i ns p).last_records ≡ p.last_records)
        × ((run lookup i ns p).last_qname ≡ p.last_qname)
  unfolding run step
  run-NoAnswer i [] p nothing = (refl, refl)
  run-NoAnswer i (n ∷ ns) p (no_data h rest) =
      rw (h, run, step) (run-NoAnswer (suc i) ns (record p { last_error = none }) rest)
  run-NoAnswer i (n ∷ ns) p (error e h rest) =
      rw (h, run, step) (run-NoAnswer (suc i) ns (record p { last_error = some e }) rest)

  run-LastAnswer :
      (i : ℕ) (ns : List Name) (p : Progress Name Record NetError) (n : Name) (rs : List Record)
      → LastAnswer i ns n rs
      → ((run lookup i ns p).last_records ≡ rs) × ((run lookup i ns p).last_qname ≡ n)
  unfolding run step
  run-LastAnswer i [] p n rs last = elim last [ ]
  run-LastAnswer i (k ∷ ns) p n rs (here h rest) =
      rw (h, run, step)
        (run-NoAnswer (suc i) ns (record { last_records = rs; last_qname = n; last_error = none })
          rest)
  run-LastAnswer i (k ∷ ns) p n rs (later last) =
      run-LastAnswer (suc i) ns (step k (lookup i k) p) n rs last

  module _ (api : NameApi Name) where
    -- A result is either the answer of the last of the planned lookups that gave any records, or,
    -- where none did, that of one further lookup of the full name; the flag `fell_back` tells
    -- which.
    pub resolve_with_minimization-IsResult :
        (max_iterations : ℕ) (original : Name) (m : MetricsRegistry)
        (r : QnameMinResult Name Record)
        → (resolve_with_minimization lookup api max_iterations original m).0 ≡ done r
        → IsResult (planned lookup api max_iterations original) original r
    unfolding resolve_with_minimization
    resolve_with_minimization-IsResult max_iterations original m r h =
        let ns = planned lookup api max_iterations original in
        let start : Progress Name Record NetError = record {
          last_records = [];
          last_qname = original;
          last_error = none;
        } in
        let p = run lookup 0 ns start in
        let k : (NoAnswer 0 ns × (p.last_records ≡ []))
            ⊎ LastAnswer 0 ns p.last_qname p.last_records =
          elim (run-Kept 0 ns start) [
            | inl (none_, records, _) ↦ inl (none_, records)
            | inr last ↦ inr last
          ] in
        elim (Bool-cases (api.num_labels original == 0)) [
          | inl empty ↦ ground (arith, rw (empty, resolve_with_minimization) at h)
          | inr some_ ↦
              finish-IsResult ns original _ p p.last_records _ r k
                (rw (some_, resolve_with_minimization) at h)
        ]

    -- For a name with labels, the last of the planned lookups that gives records is the result,
    -- with no fallback, and the steps (modulo 256) are counted.
    pub resolve_with_minimization-LastAnswer :
        (max_iterations : ℕ) (original : Name) (m : MetricsRegistry) (n : Name) (rs : List Record)
        → 0 < api.num_labels original
        → LastAnswer 0 (planned lookup api max_iterations original) n rs
        → resolve_with_minimization lookup api max_iterations original m ≡ (
          done (record {
            records = rs;
            final_qname = n;
            steps = length (planned lookup api max_iterations original) % 256;
            fell_back = false;
          }),
          increment qmin_steps_total (length (planned lookup api max_iterations original) % 256) m,
        )
    unfolding resolve_with_minimization finish
    resolve_with_minimization-LastAnswer max_iterations original m n [] pos last =
        absurd (LastAnswer-nonempty last)
    resolve_with_minimization-LastAnswer max_iterations original m n (x ∷ rs) pos last =
        let ns = planned lookup api max_iterations original in
        let start : Progress Name Record NetError = record {
          last_records = [];
          last_qname = original;
          last_error = none;
        } in
        let (records, name) = run-LastAnswer 0 ns start n (x ∷ rs) last in
        let some_ : (api.num_labels original == 0) ≡ false = ground (arith, pos) in
        rw (some_, records, name) refl
