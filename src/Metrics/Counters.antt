-- ===== src/Metrics/Counters.antt =====
-- Reading back what was counted.
use heimdallr.Common.{ℕ, ◌≡◌, ◌≢◌, refl, some, ite, arith}
use heimdallr.Common.Words.{add64}
use heimdallr.HashMap.{get, get-modify_self, get-modify_ne}
use heimdallr.Metrics.{
  MetricName, cache_hits_total, MetricName-discrete, MetricsRegistry, new, increment, read,
}

-- The registry has a counter of the name.
abbrev pub HasCounter : MetricName → MetricsRegistry → Type 0
HasCounter name m = (v : ℕ) × (get MetricName-discrete name m ≡ some v)

pub HasCounter-new : (name : MetricName) → HasCounter name new
unfolding new get
HasCounter-new cache_hits_total = (0, refl)
HasCounter-new _ = (0, refl)

increment_self :
    (name : MetricName) (delta : ℕ) (m : MetricsRegistry)
    → HasCounter name m
    → read name (increment name delta m) ≡ add64 (read name m) delta
unfolding read increment
increment_self name delta m (v, h) =
    ground (arith, get-modify_self MetricName-discrete name (λ v. add64 v delta) m v h)

increment_ne :
    (name j : MetricName) (delta : ℕ) (m : MetricsRegistry)
    → name ≢ j
    → read j (increment name delta m) ≡ read j m
unfolding read increment
increment_ne name j delta m p =
    ground (arith, get-modify_ne MetricName-discrete name j (λ v. add64 v delta) m p)

-- In a registry that has the counter, an increment adds its delta (modulo 2^64) to that counter,
-- and changes no other.
pub read-increment :
    (name j : MetricName) (delta : ℕ) (m : MetricsRegistry)
    → HasCounter name m
    → read j (increment name delta m)
      ≡ ite (MetricName-discrete name j) (add64 (read j m) delta) (read j m)
read-increment name j delta m h =
    ground (arith, increment_self name delta m h, increment_ne name j delta m)
