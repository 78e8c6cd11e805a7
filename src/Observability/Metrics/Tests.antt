-- ===== src/Observability/Metrics/Tests.antt =====
-- sdks/typescript/src/observability/metrics.ts: metrics on concrete observations.
use neural_mesh_protocol.Prelude.{◌≡◌, refl, Option, none, some, [], ◌∷◌, decimal}
use neural_mesh_protocol.Prelude.Int.{pos, negsuc}
use neural_mesh_protocol.Prelude.Assoc.{lookup, insert}
use neural_mesh_protocol.Observability.Metrics.{
  MetricLabels, join_bar, labels_to_key, add_value, counter_inc, get_value, gauge_set, gauge_inc,
  gauge_dec, get_count, set_count, zero_counts, Histogram, insert_sorted, sort_bounds,
  create_histogram, count_buckets, observed, observe, reset_histogram,
}
use neural_mesh_protocol.Observability.Metrics.Registry.{
  registry_counter, registry_gauge, registry_histogram,
}
use neural_mesh_protocol.Observability.Metrics.Exposition.{
  escape_quotes, join_comma, format_labels, bucket_lines, entry_lines, histogram_to_prometheus,
}
use neural_mesh_protocol.Observability.Metrics.Buckets.{
  observe_all, Counts, observe_all-create_histogram,
}

metrics : Unit {0}
unfolding decimal lookup insert join_bar labels_to_key add_value counter_inc get_value gauge_set
    gauge_inc gauge_dec get_count set_count zero_counts insert_sorted sort_bounds create_histogram
    count_buckets observed observe reset_histogram registry_counter registry_gauge
    registry_histogram escape_quotes join_comma format_labels bucket_lines entry_lines
    histogram_to_prometheus observe_all
metrics = tt

-- labels in the order in which they are given
abbrev sort : MetricLabels → MetricLabels
sort labels = labels

abbrev tool : Option MetricLabels
tool = some (("tool", "\"a\"") ∷ [])

-- Two sets of labels with one key.
collision :
    labels_to_key sort (some (("a", "b|c:d") ∷ []))
    ≡ labels_to_key sort (some (("a", "b") ∷ ("c", "d") ∷ []))
unfolding metrics
collision = refl

gauges :
    (get_value sort tool
        (gauge_dec sort tool (pos 5) (record { name = "g"; help = "h"; values = [] })).values
      ≡ negsuc 4)
    × (counter_inc sort tool (negsuc 0) (record { name = "c"; help = "h"; values = [] }) ≡ none)
unfolding metrics
gauges = (refl, refl)

abbrev durations : Histogram
durations = record { name = "d"; help = "Time"; buckets = 5 ∷ 10 ∷ []; observations = [] }

lines :
    histogram_to_prometheus sort (observe sort tool 7 durations)
    ≡ "# HELP d Time" ∷ "# TYPE d histogram" ∷ "d_bucket{tool=\"\\\"a\\\"\",le=\"5\"} 0"
      ∷ "d_bucket{tool=\"\\\"a\\\"\",le=\"10\"} 1" ∷ "d_bucket{tool=\"\\\"a\\\"\",le=\"+Inf\"} 1"
      ∷ "d_sum{tool=\"\\\"a\\\"\"} 7" ∷ "d_count{tool=\"\\\"a\\\"\"} 1" ∷ []
unfolding metrics
lines = refl

-- A bound that is given twice counts each observation twice.
observe_all-create_histogram_example : Counts sort "tool:\"a\"" 10 3 25 6 (
    observe_all sort
      ((tool, 7) ∷ (none, 3) ∷ (tool, 8) ∷ (tool, 10) ∷ [])
      (create_histogram "d" "Time" (10 ∷ 5 ∷ 10 ∷ [])))
unfolding metrics
observe_all-create_histogram_example =
    observe_all-create_histogram sort "d" "Time" (10 ∷ 5 ∷ 10 ∷ [])
      ((tool, 7) ∷ (none, 3) ∷ (tool, 8) ∷ (tool, 10) ∷ []) "tool:\"a\"" 10
