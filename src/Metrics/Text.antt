-- ===== src/Metrics/Text.antt =====
-- `serialize` of src/core/metrics/mod.rs: the text of the counters.
use heimdallr.Common.{ℕ, List, [], ◌∷◌, ◌++◌}
use heimdallr.Common.Text.{Text, codes}
use heimdallr.Metrics.{
  MetricName, cache_hits_total, cache_misses_total, queries_total, blocked_total,
  dns64_synthesized_total, qmin_steps_total, cname_chain_truncated_total, rebinding_detected_total,
  MetricsRegistry, names, read,
}

-- `label`
unfoldable pub label : MetricName → Text
label cache_hits_total = codes "cache_hits_total"
label cache_misses_total = codes "cache_misses_total"
label queries_total = codes "queries_total"
label blocked_total = codes "blocked_total"
label dns64_synthesized_total = codes "dns64_synthesized_total"
label qmin_steps_total = codes "qmin_steps_total"
label cname_chain_truncated_total = codes "cname_chain_truncated_total"
label rebinding_detected_total = codes "rebinding_detected_total"

-- `metric_type`
unfoldable pub metric_type : MetricName → Text
metric_type name = codes "counter"

-- `description`
unfoldable pub description : MetricName → Text
description cache_hits_total = codes "Total cache hits"
description cache_misses_total = codes "Total cache misses"
description queries_total = codes "Total queries (optional qtype label)"
description blocked_total = codes "Total blocked queries"
description dns64_synthesized_total = codes "Total synthesized AAAA from A"
description qmin_steps_total = codes "Total QNAME minimization steps"
description cname_chain_truncated_total = codes "Total truncated CNAME chains"
description rebinding_detected_total = codes "Total rebinding detections"

module _ (number_text : ℕ → Text) where
  -- the three lines of a counter
  unfoldable pub counter_text : MetricName → ℕ → Text
  unfolding label metric_type description
  counter_text name value =
      codes "# TYPE "
      ++ (label name
          ++ (codes " "
              ++ (metric_type name
                  ++ (codes "\n# HELP "
                      ++ (label name
                          ++ (codes " "
                              ++ (description name
                                  ++ (codes "\n"
                                      ++ (label name
                                          ++ (codes " "
                                              ++ (number_text value ++ codes "\n")))))))))))

  serialize_names : MetricsRegistry → List MetricName → Text
  unfolding counter_text read
  serialize_names m [] = []
  serialize_names m (name ∷ rest) = counter_text name (read name m) ++ serialize_names m rest

  -- `serialize`
  unfoldable pub serialize : MetricsRegistry → Text
  unfolding serialize_names
  serialize m = serialize_names m names
