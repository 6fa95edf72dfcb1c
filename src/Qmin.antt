-- ===== src/Qmin.antt =====
-- src/core/resolver/qname_min.rs: the lookups that a query is resolved with. Names are the DNS
-- crate's: their operations are the record `NameApi`. The resolver is a parameter that gives the
-- answer to the n-th lookup of a run, so it may answer the same name differently at two times.
pub mod Labels
pub mod Answer
use heimdallr.Common.{
  ℕ, zero, suc, ◌+◌, ◌-◌, ◌%◌, ◌≡◌, ◌≤◌, ◌<◌, Bool, true, false, not, List, [], ◌∷◌, ◌++◌, Option,
  none, some, leb, ltb, ◌==◌, if◌then◌else◌, length, take, min, max,
}
use heimdallr.Metrics.{MetricsRegistry, increment, qmin_steps_total}

-- what the code calls of `Name`
pub record NameApi (Name : Type 0) : Type 0 where
  pub num_labels : Name → ℕ
  pub base_name : Name → Name
  pub is_root : Name → Bool
  pub root : Name
  -- a root name has no labels
  pub is_root-num_labels : (n : Name) → is_root n ≡ true → num_labels n ≡ 0

-- a lookup's `Result<Vec<Record>, NetError>`
pub data Lookup (Record NetError : Type 0) : Type 0 where
  ok : List Record → Lookup Record NetError
  err : NetError → Lookup Record NetError

pub record QnameMinResult (Name Record : Type 0) : Type 0 where
  pub records : List Record
  pub final_qname : Name
  pub steps : ℕ
  pub fell_back : Bool

pub data Outcome (Name Record NetError : Type 0) : Type 0 where
  cannot_minimize : Outcome Name Record NetError
  failed : NetError → Outcome Name Record NetError
  done : QnameMinResult Name Record → Outcome Name Record NetError

module _ {Name : Type 0} (api : NameApi Name) where
  -- the loop of `peel_labels` from a name, with a round for each label
  unfoldable pub peel_loop : ℕ → Name → List Name
  peel_loop zero current = []
  peel_loop (suc fuel) current =
      let next = api.base_name current in
      let rest = peel_loop fuel next in
      if ltb 1 (api.num_labels current)
      then next ∷ rest
      else if api.is_root current
      then []
      else api.root ∷ []

  -- `peel_labels`
  unfoldable pub peel_labels : Name → List Name
  unfolding peel_loop
  peel_labels original = original ∷ peel_loop (suc (api.num_labels original)) original

-- the variables of the loop
pub record Progress (Name Record NetError : Type 0) : Type 0 where
  pub last_records : List Record
  pub last_qname : Name
  pub last_error : Option NetError

module _ {Name Record NetError : Type 0} where
  unfoldable pub keep_answer :
      Name → List Record → Progress Name Record NetError → Progress Name Record NetError
  keep_answer label [] p = record p { last_error = none }
  keep_answer label (r ∷ records) p = record {
    last_records = r ∷ records;
    last_qname = label;
    last_error = none;
  }

  unfoldable pub step :
      Name → Lookup Record NetError → Progress Name Record NetError → Progress Name Record NetError
  unfolding keep_answer
  step label (ok records) p = keep_answer label records p
  step label (err e) p = record p { last_error = some e }

module _ {Name Record NetError : Type 0} (lookup : ℕ → Name → Lookup Record NetError) where
  -- the loop over the labels, from the lookup with number `i` on
  unfoldable pub run : ℕ → List Name → Progress Name Record NetError → Progress Name Record NetError
  unfolding step
  run i [] p = p
  run i (label ∷ labels) p = run (suc i) labels (step label (lookup i label) p)

  -- the fallback, which is the lookup behind those of the loop
  unfoldable pub fall_back :
      Name
      → ℕ
      → Option NetError
      → Lookup Record NetError
      → MetricsRegistry
      → Outcome Name Record NetError × MetricsRegistry
  fall_back original steps_taken none (err e) m = (failed e, m)
  fall_back original steps_taken (some last) (err e) m = (failed last, m)
  fall_back original steps_taken last_error (ok records) m = (
    done (record {
      records = records;
      final_qname = original;
      steps = steps_taken;
      fell_back = true;
    }),
    increment qmin_steps_total 1 m,
  )

  unfoldable pub finish :
      Name
      → ℕ
      → ℕ
      → Progress Name Record NetError
      → List Record
      → MetricsRegistry
      → Outcome Name Record NetError × MetricsRegistry
  unfolding fall_back
  finish original taken steps_taken p [] m =
      fall_back original steps_taken p.last_error (lookup taken original) m
  finish original taken steps_taken p (r ∷ records) m = (
    done (record {
      records = r ∷ records;
      final_qname = p.last_qname;
      steps = steps_taken;
      fell_back = false;
    }),
    m,
  )

  -- the fallback's lookup, which is made if there is no answer
  unfoldable pub made_behind : List Record → ℕ
  made_behind [] = 1
  made_behind (r ∷ records) = 0

  module _ (api : NameApi Name) where
    -- the labels that are looked up, of which there are `max_iterations` at most
    unfoldable pub planned : ℕ → Name → List Name
    unfolding peel_labels
    planned max_iterations original =
        let labels = peel_labels api original in
        take (min (max max_iterations 1) (length labels)) labels

    -- the number of lookups that a run makes: one for each label, and one more if it falls back
    unfoldable pub lookups_made : ℕ → Name → ℕ
    unfolding planned run made_behind
    lookups_made max_iterations original =
        let labels = planned max_iterations original in
        let p =
          run 0 labels (record { last_records = []; last_qname = original; last_error = none }) in
        if api.num_labels original == 0 then 0 else length labels + made_behind p.last_records

    -- `resolve_with_minimization`; the number of steps is a `u8`
    unfoldable pub resolve_with_minimization :
        ℕ → Name → MetricsRegistry → Outcome Name Record NetError × MetricsRegistry
    unfolding planned run finish
    resolve_with_minimization max_iterations original m =
        let labels = planned max_iterations original in
        let p =
          run 0 labels (record { last_records = []; last_qname = original; last_error = none }) in
        let steps_taken = length labels % 256 in
        if api.num_labels original == 0
        then (cannot_minimize, m)
        else finish original (length labels) steps_taken p p.last_records
            (increment qmin_steps_total steps_taken m)
