-- ===== src/Security/Taint/Gates.antt =====
-- sdks/typescript/src/security/taint-analyzer.ts: the correlation guard and the min/max gate.
use Prim.Native.String
use neural_mesh_protocol.Prelude.{
  ℕ, ◌+◌, String, Bool, true, false, not, ◌&&◌, ◌||◌, Option, none, some, List, [], ◌∷◌, ◌++◌, any,
  leb, str_eq, if◌then◌else◌, decimal,
}
use neural_mesh_protocol.Prelude.Assoc.{Assoc, lookup, insert}
use neural_mesh_protocol.Security.Taint.Ast.{
  Node, null, identifier, member, call, function, spread, Nodes, elems, identifier_name, has_name,
  name_is, property_name, is_env_records_chain,
}
use neural_mesh_protocol.Security.Taint.Eval.{reduce_methods, is_callback}
use neural_mesh_protocol.Security.Taint.Passes.{TaintViolation, for_each}

abbrev pub push_field : Option String → List String → List String
push_field none fields = fields
push_field (some prop) fields =
    if not (str_eq prop "") && not (str_eq prop "length") then fields ++ prop ∷ [] else fields

-- The visitor of `extractFieldsFromBody`: `param.prop`, but not `length`.
unfoldable pub visit_field : (param : String) → Node → List String → List String
visit_field param (member (identifier x) p c) fields =
    if str_eq x param then push_field (property_name p c) fields else fields
visit_field param _ fields = fields

abbrev pub count_of : Option ℕ → ℕ
count_of none = 0
count_of (some n) = n

-- `fieldAggCounts.set(field, (fieldAggCounts.get(field) ?? 0) + 1)`
unfoldable pub count_field : String → Assoc ℕ → Assoc ℕ
count_field field counts = insert field (count_of (lookup field counts) + 1) counts

-- the record's parameter: the second, or the only one
abbrev pub record_parameter : Nodes → Option String
record_parameter Nodes.nil = none
record_parameter (Nodes.cons p Nodes.nil) = identifier_name p
record_parameter (Nodes.cons p (Nodes.cons q _)) = identifier_name q

-- the first argument's record parameter and body, if it is a callback
abbrev callback_record : Nodes → Option String
callback_record (Nodes.cons (function _ _ ps _) _) = record_parameter ps
callback_record _ = none

abbrev callback_body : Nodes → Node
callback_body (Nodes.cons (function _ _ _ body) _) = body
callback_body _ = null

-- the first entry that is counted twice, in the order of the map
unfoldable pub first_repeated : Assoc ℕ → Option (String × ℕ)
first_repeated [] = none
first_repeated ((field, n) ∷ counts) =
    let rest = first_repeated counts in if leb 2 n then some (field, n) else rest

unfoldable pub violation_of : String → TaintViolation
violation_of reason = record { reason = reason; line = none; operation = none }

abbrev pub correlation_violation : Option (String × ℕ) → Option TaintViolation
correlation_violation none = none
correlation_violation (some (field, n)) = some (
    violation_of (
      String.◌++◌ "Correlation guard: " (
        String.◌++◌ (decimal n) (
          String.◌++◌ " aggregations detected on field '" (
            String.◌++◌ field
              "'. Multiple correlated aggregations on the same field can enable differencing attacks. Use a single aggregation per numeric field, or increase dataset size above 50 records.")))))

module _ (visits : Node → List Node) where
  abbrev pub fields_of : Option String → Node → List String
  fields_of none body = []
  fields_of (some param) body = for_each (visit_field param) (visits body) []

  -- The `CallExpression` visitor of `detectCorrelatedAggregations`.
  unfoldable pub visit_reduction : Node → Assoc ℕ → Assoc ℕ
  visit_reduction (call (member o p c) args) counts =
      if has_name (property_name p c) reduce_methods && is_env_records_chain o && is_callback args
      then for_each count_field (fields_of (callback_record args) (callback_body args)) counts
      else counts
  visit_reduction _ counts = counts

  -- `detectCorrelatedAggregations`
  unfoldable pub detect_correlated_aggregations : Node → Option TaintViolation
  detect_correlated_aggregations ast =
      correlation_violation (first_repeated (for_each visit_reduction (visits ast) []))

-- `isRecordsMapCall`
abbrev pub is_records_map_call : Node → Bool
is_records_map_call (call (member o p c) _) =
    name_is (property_name p c) "map" && is_env_records_chain o
is_records_map_call _ = false

-- a spread of `env.records.map(…)`
abbrev pub is_spread_of_map : Node → Bool
is_spread_of_map (spread a) = is_records_map_call a
is_spread_of_map _ = false

min_max_reason : Option String → String
min_max_reason none = ""
min_max_reason (some method) = String.◌++◌ "Min/Max gate: Math." (
    String.◌++◌ method
      "() on individual records blocked for small datasets (n < 50). Use avg/stddev/count for privacy-safe aggregations.")

abbrev sort_reason : String
sort_reason =
    "Min/Max gate: .sort()[index] on individual records blocked for small datasets (n < 50). Use avg/stddev/count for privacy-safe aggregations."

-- The two visitors of `detectMinMaxExtraction`: the first violation stays.
unfoldable pub visit_min_max : Node → Option TaintViolation → Option TaintViolation
unfolding min_max_reason
visit_min_max n (some violation) = some violation
visit_min_max (call (member (identifier x) p c) args) none =
    if str_eq x "Math"
      && (name_is (property_name p c) "min" || name_is (property_name p c) "max")
      && any is_spread_of_map (elems args)
    then some (violation_of (min_max_reason (property_name p c)))
    else none
visit_min_max (member (call (member o p c) _) _ true) none =
    if (name_is (property_name p c) "sort" || name_is (property_name p c) "toSorted")
      && is_env_records_chain o
    then some (violation_of sort_reason)
    else none
visit_min_max _ none = none

-- `detectMinMaxExtraction`
unfoldable pub detect_min_max_extraction : (Node → List Node) → Node → Option TaintViolation
detect_min_max_extraction visits ast = for_each visit_min_max (visits ast) none
