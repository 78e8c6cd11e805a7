-- ===== src/Server/Aggregation.antt =====
-- sdks/typescript/src/server/index.ts: the aggregation-first policy on the output of a program
-- (`violatesAggregationFirstPolicy`).
pub mod Policy
mod Tests
use Prim.Native.Char.{Char, code}
use Prim.Native.String
use neural_mesh_protocol.Prelude.{
  ℕ, zero, suc, ◌+◌, String, Bool, true, false, not, ◌&&◌, ◌||◌, Option, none, some, List, [], ◌∷◌,
  any, all, ltb, leb, ◌==◌, length, if◌then◌else◌,
}
use neural_mesh_protocol.Prelude.Json.{
  weight, is_json_text, Json, null, boolean, number, string, array, object, Jsons, nil, cons,
  Entries, empty, entry, items, values,
}
use neural_mesh_protocol.Prelude.Trim.{text_size, trim}

-- `AggregationPolicy`, of which only these two fields are read here
pub record AggregationPolicy : Type 0 where
  pub max_output_rows : Option ℕ
  pub allow_primitive_arrays : Option Bool

abbrev rows_of : Option ℕ → ℕ
rows_of none = 10
rows_of (some n) = n

abbrev primitives_of : Option Bool → Bool
primitives_of none = true
primitives_of (some b) = b

abbrev pub max_rows : AggregationPolicy → ℕ
max_rows policy = rows_of policy.max_output_rows

abbrev pub allow_primitives : AggregationPolicy → Bool
allow_primitives policy = primitives_of policy.allow_primitive_arrays

-- `typeof v === "object" && v !== null`, of an array too
abbrev pub is_object : Json → Bool
is_object (array vs) = true
is_object (object es) = true
is_object _ = false

-- `recordsCount !== undefined && recordsCount > 0 && recordsCount < 10`
abbrev pub is_small_sample : Option ℕ → Bool
is_small_sample none = false
is_small_sample (some n) = ltb 0 n && ltb n 10

-- `parse` is `JSON.parse`, with `none` for a syntax error.
module _ (parse : String → Option Json) (policy : AggregationPolicy)
    (records_count : Option ℕ) where
  -- the value in a text that looks like an object or an array
  unfoldable pub parsed_text : String → Option Json
  parsed_text t = if is_json_text (trim t) then parse (trim t) else none

  abbrev pub on_parsed : (Json → Bool) → Option Json → Bool
  on_parsed self none = false
  on_parsed self (some v) = self v

  -- `input.length > 0 && input.every((item) => typeof item === "object" && item !== null)`
  abbrev pub is_table : List Json → Bool
  is_table vs = ltb 0 (length vs) && all is_object vs

  -- `input.length > 0 && input.every((item) => typeof item !== "object" || item === null)`
  abbrev pub is_primitive_list : List Json → Bool
  is_primitive_list vs = ltb 0 (length vs) && all (λ v. not (is_object v)) vs

  -- a small sample with more than three keys or with a value that is not primitive
  abbrev pub exposes_sample : List Json → Bool
  exposes_sample vs = is_small_sample records_count && (ltb 3 (length vs) || any is_object vs)

  -- The body of `violatesAggregationFirstPolicy`, with its recursive calls.
  unfoldable pub violation : (self : Json → Bool) → Json → Bool
  violation self (string t) = on_parsed self (parsed_text t)
  violation self (array vs) =
      if is_table (items vs)
      then (if ltb (max_rows policy) (length (items vs)) then true else any self (items vs))
      else if is_primitive_list (items vs)
      then not (allow_primitives policy)
      else any self (items vs)
  violation self (object es) =
      if exposes_sample (values es)
      then true
      else if ltb (max_rows policy) (length (values es))
      then true
      else any self (values es)
  violation self _ = false

  -- `violatesAggregationFirstPolicy` under a policy, to a depth of calls
  unfoldable pub violates : (depth : ℕ) → Json → Bool
  violates zero v = false
  violates (suc depth) v = violation (violates depth) v

  -- `violatesAggregationFirstPolicy`, under a policy
  unfoldable pub violates_aggregation_first_policy : Json → Bool
  violates_aggregation_first_policy v = violates (weight v) v
