-- ===== src/Server/Aggregation/Tests.antt =====
-- sdks/typescript/src/server/index.ts: the aggregation-first policy on concrete outputs.

use neural_mesh_protocol.Prelude.{
  ℕ, String, true, false, ◌≡◌, refl, Option, none, some, str_eq, if◌then◌else◌,
}
use neural_mesh_protocol.Prelude.Trim.{is_space, trim, trim_start, keep_char, trim_end}
use neural_mesh_protocol.Prelude.Json.{Json, number, string, array, object, nil, cons, empty, entry}
use neural_mesh_protocol.Server.Aggregation.{
  AggregationPolicy, parsed_text, violation, violates, violates_aggregation_first_policy,
}
use neural_mesh_protocol.Prelude.Json.{weight, is_json_text}

aggregation : Unit {0}
unfolding weight is_space trim trim_start keep_char trim_end is_json_text parsed_text violation
    violates violates_aggregation_first_policy
aggregation = tt

-- a parser that reads the empty array alone
abbrev parse : String → Option Json
parse t = if str_eq t "[]" then some (array nil) else none

abbrev weight_of : Option Json → ℕ
weight_of none = 0
weight_of (some v) = weight v

abbrev policy : AggregationPolicy
policy = record { max_output_rows = some 2; allow_primitive_arrays = none }

abbrev row : Json
row = object (entry "name" (string "Ann") empty)

-- Three rows are refused, also in a text with white space around it, if the text can be read.
outputs :
    (violates_aggregation_first_policy parse policy
        (some 100)
        (array (cons row (cons row (cons row nil))))
      ≡ true)
    × (violates_aggregation_first_policy parse policy (some 100) (array (cons row (cons row nil)))
        ≡ false)
    × (violates_aggregation_first_policy parse policy
          (some 5)
          (object (entry "rows" (array nil) empty))
        ≡ true)
    × (violates_aggregation_first_policy parse policy (some 100) (string " [] ") ≡ false)
unfolding aggregation
outputs = (refl, refl, refl, refl)

-- The same rows pass if a number stands before them, and as an array of texts.
mixed_rows_pass :
    (violates_aggregation_first_policy parse policy
        (some 100)
        (array (cons (number "0") (cons row (cons row (cons row nil)))))
      ≡ false)
    × (violates_aggregation_first_policy parse policy (some 100) (
          array (
            cons
              (string "{\"name\":\"Ann\"}")
              (cons (string "{\"name\":\"Bob\"}") (cons (string "{\"name\":\"Cid\"}") nil))))
        ≡ false)
unfolding aggregation
mixed_rows_pass = (refl, refl)
