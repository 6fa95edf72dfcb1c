-- ===== src/Metrics.antt =====
-- src/core/metrics/mod.rs: the registry of counters. `Arc<HashMap<…>>` is shared and each counter
-- is atomic, so an increment is one step on the registry; the registry is passed along.
pub mod Counters
pub mod Text
use heimdallr.Common.{ℕ, ◌+◌, List, [], ◌∷◌, none, some}
use heimdallr.Common.Words.{add64}
use heimdallr.HashMap.{get, insert, modify}

pub data MetricName : Type 0 where
  cache_hits_total cache_misses_total queries_total blocked_total : MetricName
  dns64_synthesized_total qmin_steps_total cname_chain_truncated_total : MetricName
  rebinding_detected_total : MetricName

unfoldable pub MetricName-discrete : Discrete MetricName
MetricName-discrete = hlevel

abbrev pub MetricsRegistry : Type 0
MetricsRegistry = List (MetricName × ℕ)

-- the array that `new` and `serialize` walk
abbrev pub names : List MetricName
names =
    cache_hits_total ∷ cache_misses_total ∷ queries_total ∷ blocked_total ∷ dns64_synthesized_total
    ∷ qmin_steps_total ∷ cname_chain_truncated_total ∷ rebinding_detected_total ∷ []

populate : List MetricName → MetricsRegistry → MetricsRegistry
populate [] m = m
populate (n ∷ ns) m = populate ns (insert MetricName-discrete n 0 m)

-- `new`
unfoldable pub new : MetricsRegistry
unfolding populate insert MetricName-discrete
new = populate names []

-- `increment`: a counter that is missing is skipped
unfoldable pub increment : MetricName → ℕ → MetricsRegistry → MetricsRegistry
increment name delta m = modify MetricName-discrete name (λ v. add64 v delta) m

-- `read`
unfoldable pub read : MetricName → MetricsRegistry → ℕ
read name m = elim (get MetricName-discrete name m) [ none ↦ 0 | some v ↦ v ]

-- `reset`
unfoldable pub reset : MetricsRegistry → MetricsRegistry
reset [] = []
reset ((n, v) ∷ m) = (n, 0) ∷ reset m
