-- ===== src/Observability/Metrics/Exposition.antt =====
-- sdks/typescript/src/observability/metrics.ts: the text of a histogram.
use Prim.Native.Char.{code}
use Prim.Native.String.{◌++◌}
use neural_mesh_protocol.Prelude.{
  ℕ, String, Option, none, some, List, [], ◌∷◌, map, ◌++◌ as ◌++ᴸ◌, ◌==◌, if◌then◌else◌, decimal,
}
use neural_mesh_protocol.Prelude.Assoc.{Assoc, insert}
use neural_mesh_protocol.Observability.Metrics.{MetricLabels, Observations, Histogram, get_count}

abbrev or_new_labels : Option MetricLabels → MetricLabels
or_new_labels none = []
or_new_labels (some labels) = labels

-- `String(v).replace(/"/g, '\\"')`
unfoldable pub escape_quotes : String → String
escape_quotes String.[] = String.[]
escape_quotes (String.◌∷◌ c s) =
    let rest = escape_quotes s in if code c == 34 then "\\\"" ++ rest else String.◌∷◌ c rest

abbrev format_label : String × String → String
format_label (k, v) = k ++ ("=\"" ++ (escape_quotes v ++ "\""))

unfoldable pub join_comma : List String → String
join_comma [] = ""
join_comma (t ∷ []) = t
join_comma (t ∷ u ∷ ts) = t ++ ("," ++ join_comma (u ∷ ts))

abbrev braced : List String → String
braced [] = ""
braced (t ∷ ts) = "{" ++ (join_comma (t ∷ ts) ++ "}")

module _ (sort : MetricLabels → MetricLabels) where
  -- `formatLabels`
  unfoldable pub format_labels : MetricLabels → String
  unfolding escape_quotes join_comma
  format_labels labels = braced (map format_label (sort labels))

  -- the lines of one entry of a histogram; the labels are those of the entry
  unfoldable pub bucket_lines : String → MetricLabels → List ℕ → Observations → List String
  unfolding format_labels
  bucket_lines name labels [] state =
      (name
        ++ ("_bucket"
            ++ (format_labels (insert "le" "+Inf" labels) ++ (" " ++ decimal state.count))))
      ∷ (name ++ ("_sum" ++ (format_labels labels ++ (" " ++ decimal state.sum))))
      ∷ (name ++ ("_count" ++ (format_labels labels ++ (" " ++ decimal state.count))))
      ∷ []
  bucket_lines name labels (bound ∷ bounds) state =
      (name
        ++ ("_bucket"
            ++ (format_labels (insert "le" (decimal bound) labels)
                ++ (" " ++ decimal (get_count bound state.bucket_counts)))))
      ∷ bucket_lines name labels bounds state

  unfoldable pub entry_lines : String → List ℕ → Assoc Observations → List String
  unfolding bucket_lines
  entry_lines name buckets [] = []
  entry_lines name buckets ((key, state) ∷ entries) =
      bucket_lines name (or_new_labels state.labels) buckets state
      ++ᴸ entry_lines name buckets entries

  abbrev observed_lines : Histogram → Assoc Observations → List String
  observed_lines h [] = (h.name ++ "_count 0") ∷ (h.name ++ "_sum 0") ∷ []
  observed_lines h ((key, state) ∷ entries) = entry_lines h.name h.buckets ((key, state) ∷ entries)

  -- `Histogram.toPrometheus`
  unfoldable pub histogram_to_prometheus : Histogram → List String
  unfolding entry_lines
  histogram_to_prometheus h =
      ("# HELP " ++ (h.name ++ (" " ++ h.help)))
      ∷ ("# TYPE " ++ (h.name ++ " histogram"))
      ∷ observed_lines h h.observations
