-- ===== src/Observability/Metrics/Buckets.antt =====
-- sdks/typescript/src/observability/metrics.ts: what a histogram counts.
use native.Mathlib.Nat.{mul-add, mul-one, mul-zero}
use neural_mesh_protocol.Prelude.{
  ℕ, ◌+◌, ◌*◌, String, Bool, true, false, ◌&&◌, ◌≡◌, refl, sym, ap, ◌∙◌, Option, none, some, List,
  [], ◌∷◌, arith, leb, ◌==◌, ==_iff, str_eq, str_eq_iff, if◌then◌else◌, Bool-cases, inl, inr,
}
use neural_mesh_protocol.Prelude.Assoc.{lookup, lookup-insert}
use neural_mesh_protocol.Observability.Metrics.{
  MetricLabels, labels_to_key, BucketCounts, get_count, set_count, zero_counts, Observations,
  Histogram, insert_sorted, sort_bounds, create_histogram, count_buckets, state_of, observed,
  observe, bucket_of, count_of, sum_of,
}

-- How often does the bound stand in the list?
abbrev pub occurrences : ℕ → List ℕ → ℕ
occurrences bound [] = 0
occurrences bound (b ∷ bounds) = (if b == bound then 1 else 0) + occurrences bound bounds

get_count-set_count :
    (bound b n : ℕ) (counts : BucketCounts)
    → get_count bound (set_count b n counts) ≡ (if b == bound then n else get_count bound counts)
unfolding get_count set_count
get_count-set_count bound b n [] = refl
get_count-set_count bound b n ((c, m) ∷ counts) =
    ground (arith, get_count-set_count bound b n counts)

get_count-zero_counts :
    (bound : ℕ) (bounds : List ℕ) (counts : BucketCounts)
    → get_count bound counts ≡ 0
    → get_count bound (zero_counts bounds counts) ≡ 0
unfolding zero_counts
get_count-zero_counts bound [] counts h = h
get_count-zero_counts bound (b ∷ bounds) counts h =
    get_count-zero_counts bound bounds (set_count b 0 counts)
      (ground (arith, h, get_count-set_count bound b 0 counts))

same_bound :
    (b bound : ℕ) (counts : BucketCounts)
    → (b == bound) ≡ true
    → get_count b counts ≡ get_count bound counts
same_bound b bound counts same = ap (λ x. get_count x counts) ((==_iff b bound).0 same)

get_count-count_buckets :
    (bound val : ℕ) (bounds : List ℕ) (counts : BucketCounts)
    → get_count bound (count_buckets val bounds counts)
      ≡ get_count bound counts + (if leb val bound then occurrences bound bounds else 0)
unfolding count_buckets
get_count-count_buckets bound val [] counts = ground arith
get_count-count_buckets bound val (b ∷ bounds) counts = elim (Bool-cases (leb val b)) [
  | inl within ↦ ground (
    arith,
    within,
    get_count-count_buckets bound val bounds (set_count b (get_count b counts + 1) counts),
    get_count-set_count bound b (get_count b counts + 1) counts,
    same_bound b bound counts,
  )
  | inr above ↦ ground (arith, above, get_count-count_buckets bound val bounds counts)
]

occurrences-insert_sorted :
    (bound n : ℕ) (bounds : List ℕ)
    → occurrences bound (insert_sorted n bounds)
      ≡ (if n == bound then 1 else 0) + occurrences bound bounds
unfolding insert_sorted
occurrences-insert_sorted bound n [] = refl
occurrences-insert_sorted bound n (m ∷ ms) = ground (arith, occurrences-insert_sorted bound n ms)

occurrences-sort_bounds :
    (bound : ℕ) (bounds : List ℕ)
    → occurrences bound (sort_bounds bounds) ≡ occurrences bound bounds
unfolding sort_bounds
occurrences-sort_bounds bound [] = refl
occurrences-sort_bounds bound (b ∷ bounds) = omega (
  arith,
  occurrences-insert_sorted bound b (sort_bounds bounds),
  occurrences-sort_bounds bound bounds,
)

-- The counts of a new entry, or of the one that is there, after an observation.
observed-counts :
    (bound val : ℕ) (buckets : List ℕ) (labels : Option MetricLabels) (o : Option Observations)
    → (get_count bound (observed buckets val (state_of buckets labels o)).bucket_counts
        ≡ bucket_of bound o + (if leb val bound then occurrences bound buckets else 0))
      × ((observed buckets val (state_of buckets labels o)).count ≡ count_of o + 1)
      × ((observed buckets val (state_of buckets labels o)).sum ≡ sum_of o + val)
unfolding observed get_count
observed-counts bound val buckets labels none = (
  omega (
    arith,
    get_count-count_buckets bound val buckets (zero_counts buckets []),
    get_count-zero_counts bound buckets [] refl,
  ),
  refl,
  refl,
)
observed-counts bound val buckets labels (some state) =
    (get_count-count_buckets bound val buckets state.bucket_counts, refl, refl)

times_step : (k w : ℕ) (b : Bool) → k * ((if b then 1 else 0) + w) ≡ (if b then k else 0) + k * w
times_step k w true = mul-add k 1 w ∙ ap (λ n. n + k * w) (mul-one k)
times_step k w false = mul-add k 0 w ∙ ap (λ n. n + k * w) (mul-zero k)

module _ (sort : MetricLabels → MetricLabels) where
  -- A sequence of observations, each with its labels.
  unfoldable pub observe_all : List (Option MetricLabels × ℕ) → Histogram → Histogram
  observe_all [] h = h
  observe_all ((labels, val) ∷ rest) h = observe_all rest (observe sort labels val h)

  -- The observations under a key, those of them that are at most a bound, and their sum.
  abbrev pub number_of : String → List (Option MetricLabels × ℕ) → ℕ
  number_of key [] = 0
  number_of key ((labels, val) ∷ rest) =
      (if str_eq (labels_to_key sort labels) key then 1 else 0) + number_of key rest

  abbrev pub number_within : String → ℕ → List (Option MetricLabels × ℕ) → ℕ
  number_within key bound [] = 0
  number_within key bound ((labels, val) ∷ rest) =
      (if str_eq (labels_to_key sort labels) key && leb val bound then 1 else 0)
      + number_within key bound rest

  abbrev pub total_of : String → List (Option MetricLabels × ℕ) → ℕ
  total_of key [] = 0
  total_of key ((labels, val) ∷ rest) =
      (if str_eq (labels_to_key sort labels) key then val else 0) + total_of key rest

  observe-lookup :
      (key : String) (labels : Option MetricLabels) (val : ℕ) (h : Histogram)
      → lookup key (observe sort labels val h).observations ≡ (
          if str_eq (labels_to_key sort labels) key
          then some (observed h.buckets val (state_of h.buckets labels (lookup key h.observations)))
          else lookup key h.observations)
  unfolding observe
  observe-lookup key labels val h =
      let name : String = labels_to_key sort labels in
      let state : Option Observations → Observations =
        λ o. observed h.buckets val (state_of h.buckets labels o) in
      elim (Bool-cases (str_eq name key)) [
        | inl same ↦
            lookup-insert name key _ h.observations
            ∙ ap
                (λ b.
                  if b
                  then some (state (lookup name h.observations))
                  else lookup key h.observations)
                same
            ∙ ap (λ k. some (state (lookup k h.observations))) ((str_eq_iff name key).0 same)
            ∙ sym (
                ap
                  (λ b.
                    if b
                    then some (state (lookup key h.observations))
                    else lookup key h.observations)
                  same)
        | inr other ↦
            lookup-insert name key _ h.observations
            ∙ ap
                (λ b.
                  if b
                  then some (state (lookup name h.observations))
                  else lookup key h.observations)
                other
            ∙ sym (
                ap
                  (λ b.
                    if b
                    then some (state (lookup key h.observations))
                    else lookup key h.observations)
                  other)
      ]

  -- What a histogram knows of the observations under a key.
  abbrev pub Counts : String → ℕ → (count sum within : ℕ) → Histogram → Type 0
  Counts key bound count sum within h =
      (bucket_of bound (lookup key h.observations) ≡ within)
      × (count_of (lookup key h.observations) ≡ count)
      × (sum_of (lookup key h.observations) ≡ sum)

  observe-Counts :
      (key : String) (bound : ℕ) (labels : Option MetricLabels) (val : ℕ) (h : Histogram)
      → Counts key bound
          (count_of (lookup key h.observations)
            + (if str_eq (labels_to_key sort labels) key then 1 else 0))
          (sum_of (lookup key h.observations)
            + (if str_eq (labels_to_key sort labels) key then val else 0))
          (bucket_of bound (lookup key h.observations)
            + (if str_eq (labels_to_key sort labels) key && leb val bound
                then occurrences bound h.buckets
                else 0))
          (observe sort labels val h)
  observe-Counts key bound labels val h =
      let (bucket, count, sum) =
        observed-counts bound val h.buckets labels (lookup key h.observations) in
      elim (Bool-cases (str_eq (labels_to_key sort labels) key)) [
        | inl same ↦ rw (observe-lookup key labels val h, same) (bucket, count, sum)
        | inr other ↦
            rw (observe-lookup key labels val h, other) (omega arith, omega arith, omega arith)
      ]

  observe-buckets :
      (labels : Option MetricLabels) (val : ℕ) (h : Histogram)
      → (observe sort labels val h).buckets ≡ h.buckets
  unfolding observe
  observe-buckets labels val h = refl

  observe_all-Counts :
      (key : String) (bound : ℕ) (all : List (Option MetricLabels × ℕ)) (h : Histogram)
      → Counts key bound
          (count_of (lookup key h.observations) + number_of key all)
          (sum_of (lookup key h.observations) + total_of key all)
          (bucket_of bound (lookup key h.observations)
            + occurrences bound h.buckets * number_within key bound all)
          (observe_all all h)
  unfolding observe_all
  observe_all-Counts key bound [] h = (omega arith, omega arith, omega arith)
  observe_all-Counts key bound ((labels, val) ∷ rest) h =
      let (bucket, count, sum) = observe-Counts key bound labels val h in
      let (buckets, counts, sums) = observe_all-Counts key bound rest (observe sort labels val h) in
      (
        omega (
          arith,
          buckets,
          bucket,
          ap (λ bounds. occurrences bound bounds * number_within key bound rest)
              (observe-buckets labels val h),
          times_step (occurrences bound h.buckets) (number_within key bound rest)
              (str_eq (labels_to_key sort labels) key && leb val bound),
        ),
        omega (arith, counts, count),
        omega (arith, sums, sum),
      )

  -- After any observations, a new histogram has under a key, which stands for some labels: in the
  -- bucket of a bound the number of the observations that are at most the bound, as often as the
  -- bound was given; as its count the number of all its observations; and as its sum theirs.
  pub observe_all-create_histogram :
      (name help : String) (bounds : List ℕ) (all : List (Option MetricLabels × ℕ)) (key : String)
      (bound : ℕ)
      → Counts key bound
          (number_of key all)
          (total_of key all)
          (occurrences bound bounds * number_within key bound all)
          (observe_all all (create_histogram name help bounds))
  unfolding create_histogram lookup
  observe_all-create_histogram name help bounds all key bound =
      let (buckets, counts, sums) =
        observe_all-Counts key bound all (create_histogram name help bounds) in
      (
        omega (
          arith,
          buckets,
          ap (λ n. n * number_within key bound all) (occurrences-sort_bounds bound bounds),
        ),
        omega (arith, counts),
        omega (arith, sums),
      )
