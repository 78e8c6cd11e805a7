-- ===== src/Observability/Metrics/Registry.antt =====
-- sdks/typescript/src/observability/metrics.ts: the registry of metrics.

use neural_mesh_protocol.Prelude.{ℕ, String, Option, none, some, List, [], ◌∷◌}
use neural_mesh_protocol.Prelude.Assoc.{Assoc, lookup, insert}
use neural_mesh_protocol.Observability.Metrics.{Counter, Gauge, Histogram, create_histogram}

-- the default of `buckets`
abbrev pub default_buckets : List ℕ
default_buckets = 5 ∷ 10 ∷ 25 ∷ 50 ∷ 100 ∷ 250 ∷ 500 ∷ 1000 ∷ 2500 ∷ 5000 ∷ 10000 ∷ []

-- `MetricsRegistry`
pub record MetricsRegistry : Type 0 where
  pub counters : Assoc Counter
  pub gauges : Assoc Gauge
  pub histograms : Assoc Histogram

abbrev pub or_new {ℓ} : {A : Type ℓ} → A → Option A → A
or_new new none = new
or_new new (some old) = old

-- `counter`, `gauge` and `histogram`: the metric of a name, which is made where there is none
unfoldable pub registry_counter : (name help : String) → MetricsRegistry → Counter × MetricsRegistry
registry_counter name help r =
    let c : Counter =
      or_new (record { name = name; help = help; values = [] }) (lookup name r.counters) in
    (c, record r { counters = insert name c r.counters })

unfoldable pub registry_gauge : (name help : String) → MetricsRegistry → Gauge × MetricsRegistry
registry_gauge name help r =
    let g : Gauge =
      or_new (record { name = name; help = help; values = [] }) (lookup name r.gauges) in
    (g, record r { gauges = insert name g r.gauges })

unfoldable pub registry_histogram :
    (name help : String) (buckets : Option (List ℕ)) → MetricsRegistry → Histogram × MetricsRegistry
unfolding create_histogram
registry_histogram name help buckets r =
    let h : Histogram =
      or_new (create_histogram name help (or_new default_buckets buckets))
        (lookup name r.histograms) in
    (h, record r { histograms = insert name h r.histograms })
