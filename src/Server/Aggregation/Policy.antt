-- ===== src/Server/Aggregation/Policy.antt =====
-- sdks/typescript/src/server/index.ts: what an output that passes the aggregation-first policy can hold.
use neural_mesh_protocol.Prelude.{
  ℕ, ◌+◌, leb, ◌==◌, ◌∷◌, String, Bool, true, false, not, ◌&&◌, ◌||◌, Option, none, some, List, [],
  ltb, length, if◌then◌else◌,
}
use neural_mesh_protocol.Prelude.Trim.{trim}
use neural_mesh_protocol.Prelude.Json.{Json, string, array, object, items, values, is_json_text}
use neural_mesh_protocol.Prelude.Json.Walk.{parts_of}
use neural_mesh_protocol.Server.Aggregation.{AggregationPolicy}

-- How many values of the list are objects or arrays.
abbrev pub is_compound : Json → Bool
is_compound (object es) = true
is_compound (array vs) = true
is_compound _ = false

abbrev pub compounds : List Json → ℕ
compounds [] = 0
compounds (v ∷ vs) = (if is_compound v then 1 else 0) + compounds vs

-- What a policy and the size of the dataset say: at most 10 rows unless the policy sets another
-- limit, primitive values unless the policy forbids them, and 1 to 9 records are a small sample.
abbrev pub row_limit : AggregationPolicy → ℕ
row_limit policy = elim policy.max_output_rows [ none ↦ 10 | some n ↦ n ]

abbrev pub forbids_primitives : AggregationPolicy → Bool
forbids_primitives policy = elim policy.allow_primitive_arrays [
  | none ↦ false
  | some allowed ↦ not allowed
]

abbrev pub is_sample : Option ℕ → Bool
is_sample none = false
is_sample (some n) = leb 1 n && leb n 9

abbrev inspected : List Json → List Json
inspected vs = if compounds vs == 0 then [] else vs

module _ (parse : String → Option Json) (policy : AggregationPolicy)
    (records_count : Option ℕ) where
  -- The values that the check goes on to: those of an object, those of an array unless all are
  -- primitive, and the one in a text that looks like an object or an array.
  abbrev pub parts : Json → List Json
  parts (string t) = if is_json_text (trim t) then parts_of (parse (trim t)) else []
  parts (array vs) = if compounds (items vs) == 0 then [] else items vs
  parts (object es) = values es
  parts _ = []

  -- A value that breaks the policy, whatever its parts: an array of objects and arrays alone that is
  -- longer than the limit, one of primitive values alone where these are forbidden, an object with
  -- more entries than the limit, and, from a small sample, one with more than three entries or
  -- with an object or array in it.
  abbrev pub exposes : Json → Bool
  exposes (array vs) =
      ((compounds (items vs) == length (items vs)) && ltb (row_limit policy) (length (items vs)))
      || ((compounds (items vs) == 0) && (ltb 0 (length (items vs)) && forbids_primitives policy))
  exposes (object es) =
      (is_sample records_count && (ltb 3 (length (values es)) || ltb 0 (compounds (values es))))
      || ltb (row_limit policy) (length (values es))
  exposes _ = false
