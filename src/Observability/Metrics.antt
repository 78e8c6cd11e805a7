-- ===== src/Observability/Metrics.antt =====
-- sdks/typescript/src/observability/metrics.ts: counters, gauges and histograms. Their values are
-- whole numbers here, and the bounds and the observations of a histogram are not negative.
pub mod Buckets
pub mod Registry
pub mod Exposition
mod Tests
use Prim.Native.Char.{code}
use Prim.Native.String
use Prim.Native.String.{◌++◌}
use neural_mesh_protocol.Prelude.{
  ℕ, zero, suc, ◌+◌, String, Bool, Option, none, some, List, [], ◌∷◌, map, ◌++◌ as ◌++ᴸ◌, leb, ◌==◌,
  if◌then◌else◌, decimal,
}
use neural_mesh_protocol.Prelude.Assoc.{Assoc, lookup, insert}
use neural_mesh_protocol.Prelude.Int.{ℤ, pos, negsuc, ◌+ℤ◌, neg}

-- `MetricLabels`; a number is given by its text.
abbrev pub MetricLabels : Type 0
MetricLabels = Assoc String

-- `key:value`
abbrev pub label_text : String × String → String
label_text (k, v) = k ++ (":" ++ v)

-- `join("|")`
unfoldable pub join_bar : List String → String
join_bar [] = ""
join_bar (t ∷ []) = t
join_bar (t ∷ u ∷ ts) = t ++ ("|" ++ join_bar (u ∷ ts))

-- `labelsToKey`; `sort` is the order of `localeCompare`.
unfoldable pub labels_to_key : (sort : MetricLabels → MetricLabels) → Option MetricLabels → String
unfolding join_bar
labels_to_key sort none = ""
labels_to_key sort (some labels) = join_bar (map label_text (sort labels))

pub record Entry : Type 0 where
  pub value : ℤ
  pub labels : Option MetricLabels

-- `this.values.get(key) || { value: 0, labels }`
abbrev pub current : Option MetricLabels → Option Entry → Entry
current labels none = record { value = pos 0; labels = labels }
current labels (some e) = e

abbrev value_or_zero : Option Entry → ℤ
value_or_zero none = pos 0
value_or_zero (some e) = e.value

-- `Counter` and `Gauge` have the same fields.
pub record Counter : Type 0 where
  pub name : String
  pub help : String
  pub values : Assoc Entry

pub record Gauge : Type 0 where
  pub name : String
  pub help : String
  pub values : Assoc Entry

abbrev or_zero : Option ℤ → ℤ
or_zero none = pos 0
or_zero (some z) = z

abbrev pub is_negative : ℤ → Bool
is_negative (pos n) = Bool.false
is_negative (negsuc n) = Bool.true

module _ (sort : MetricLabels → MetricLabels) where
  -- the entry of the labels, with a value added
  unfoldable pub add_value : Option MetricLabels → ℤ → Assoc Entry → Assoc Entry
  add_value labels value values =
      let key : String = labels_to_key sort labels in
      let old : Entry = current labels (lookup key values) in
      insert key (record old { value = old.value +ℤ value }) values

  -- `Counter.inc`, with `none` for the error on a negative increment
  unfoldable pub counter_inc : Option MetricLabels → ℤ → Counter → Option Counter
  unfolding add_value
  counter_inc labels value c =
      if is_negative value
      then none
      else some (record c { values = add_value labels value c.values })
      -- `get`, of a counter or a gauge

  unfoldable pub get_value : Option MetricLabels → Assoc Entry → ℤ
  get_value labels values = value_or_zero (lookup (labels_to_key sort labels) values)

  -- `Gauge.set`, with labels or with a value alone
  unfoldable pub gauge_set : Option MetricLabels → Option ℤ → Gauge → Gauge
  gauge_set none value g = record g {
    values = insert "" (record { value = or_zero value; labels = none }) g.values;
  }
  gauge_set (some labels) value g = record g {
    values =
        insert (labels_to_key sort (some labels))
          (record { value = or_zero value; labels = some labels }) g.values;
  }

  -- `Gauge.inc` and `Gauge.dec`
  unfoldable pub gauge_inc : Option MetricLabels → ℤ → Gauge → Gauge
  unfolding add_value
  gauge_inc labels value g = record g { values = add_value labels value g.values }

  unfoldable pub gauge_dec : Option MetricLabels → ℤ → Gauge → Gauge
  unfolding add_value
  gauge_dec labels value g = record g { values = add_value labels (neg value) g.values }

-- A bucket's bound with its count.
abbrev pub BucketCounts : Type 0
BucketCounts = List (ℕ × ℕ)

-- `bucketCounts.get(bound) || 0`
unfoldable pub get_count : ℕ → BucketCounts → ℕ
get_count bound [] = 0
get_count bound ((b, n) ∷ counts) =
    let rest = get_count bound counts in if b == bound then n else rest

-- `bucketCounts.set(bound, n)`
unfoldable pub set_count : ℕ → ℕ → BucketCounts → BucketCounts
set_count bound n [] = (bound, n) ∷ []
set_count bound n ((b, m) ∷ counts) =
    let rest = set_count bound n counts in if b == bound then (b, n) ∷ counts else (b, m) ∷ rest

-- `new Map(this.buckets.map((b) => [b, 0]))`, after the entries that are there
unfoldable pub zero_counts : List ℕ → BucketCounts → BucketCounts
unfolding set_count
zero_counts [] counts = counts
zero_counts (b ∷ bounds) counts = zero_counts bounds (set_count b 0 counts)

-- An entry of `observations`.
pub record Observations : Type 0 where
  pub count : ℕ
  pub sum : ℕ
  pub bucket_counts : BucketCounts
  pub labels : Option MetricLabels

pub record Histogram : Type 0 where
  pub name : String
  pub help : String
  pub buckets : List ℕ
  pub observations : Assoc Observations

-- `[...buckets].sort((a, b) => a - b)`
unfoldable pub insert_sorted : ℕ → List ℕ → List ℕ
insert_sorted n [] = n ∷ []
insert_sorted n (m ∷ ms) = let rest = insert_sorted n ms in if leb n m then n ∷ m ∷ ms else m ∷ rest

unfoldable pub sort_bounds : List ℕ → List ℕ
unfolding insert_sorted
sort_bounds [] = []
sort_bounds (n ∷ ns) = insert_sorted n (sort_bounds ns)

-- the constructor of `Histogram`
unfoldable pub create_histogram : (name help : String) (buckets : List ℕ) → Histogram
unfolding sort_bounds
create_histogram name help buckets = record {
  name = name;
  help = help;
  buckets = sort_bounds buckets;
  observations = [];
}

-- the loop over the bounds
unfoldable pub count_buckets : (val : ℕ) → List ℕ → BucketCounts → BucketCounts
unfolding get_count set_count
count_buckets val [] counts = counts
count_buckets val (bound ∷ bounds) counts =
    count_buckets val bounds
      (if leb val bound then set_count bound (get_count bound counts + 1) counts else counts)

-- the entry of an observation, which is new where there is none
abbrev pub state_of : List ℕ → Option MetricLabels → Option Observations → Observations
state_of buckets labels none = record {
  count = 0;
  sum = 0;
  bucket_counts = zero_counts buckets [];
  labels = labels;
}
state_of buckets labels (some state) = state

-- `state.count += 1; state.sum += val;` and the loop
unfoldable pub observed : List ℕ → ℕ → Observations → Observations
unfolding count_buckets
observed buckets val state = record state {
  count = state.count + 1;
  sum = state.sum + val;
  bucket_counts = count_buckets val buckets state.bucket_counts;
}

-- `Histogram.observe`; with labels, a value that is missing is 0
unfoldable pub observe :
    (sort : MetricLabels → MetricLabels) → Option MetricLabels → ℕ → Histogram → Histogram
unfolding observed zero_counts
observe sort labels val h =
    let key : String = labels_to_key sort labels in
    record h {
      observations =
          insert key
            (observed h.buckets val (state_of h.buckets labels (lookup key h.observations)))
            h.observations;
    }

-- The counts of the buckets, the number of the observations and their sum, for the labels of a key.
abbrev pub bucket_of : ℕ → Option Observations → ℕ
bucket_of bound none = 0
bucket_of bound (some state) = get_count bound state.bucket_counts

abbrev pub count_of : Option Observations → ℕ
count_of none = 0
count_of (some state) = state.count

abbrev pub sum_of : Option Observations → ℕ
sum_of none = 0
sum_of (some state) = state.sum

-- `Histogram.reset`
unfoldable pub reset_histogram : Histogram → Histogram
reset_histogram h = record h { observations = [] }
