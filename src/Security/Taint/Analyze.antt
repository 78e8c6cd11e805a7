-- ===== src/Security/Taint/Analyze.antt =====
-- sdks/typescript/src/security/taint-analyzer.ts: `analyze`, `classifyField` and `extractQueriedFields`.
use Prim.Native.String
use neural_mesh_protocol.Prelude.{
  ℕ, String, Bool, false, not, ◌&&◌, ◌||◌, Option, none, some, List, [], map, ltb, str_eq,
  if◌then◌else◌, to_lower_case, decimal, replace_first,
}
use neural_mesh_protocol.Prelude.Assoc.{has}
use neural_mesh_protocol.Security.Taint.Ast.{Node, member, identifier_name, has_name, property_name}
use neural_mesh_protocol.Security.Taint.Eval.{Names, add, is_indexed_record}
use neural_mesh_protocol.Security.Taint.Passes.{
  TaintViolation, for_each, record_bound_vars, tainted_vars, check_return_statements,
}
use neural_mesh_protocol.Security.Taint.Gates.{
  detect_correlated_aggregations, detect_min_max_extraction,
}

-- the threshold in the place of the "50 records" of a reason
unfoldable pub with_threshold : ℕ → TaintViolation → TaintViolation
with_threshold threshold v = record v {
  reason = replace_first v.reason "50 records" (String.◌++◌ (decimal threshold) " records");
}

-- `recordCount !== undefined && recordCount > 0 && recordCount < minMaxBlockThreshold`
abbrev pub is_small : Option ℕ → ℕ → Bool
is_small none threshold = false
is_small (some n) threshold = ltb 0 n && ltb n threshold

pub data FieldSensitivity : Type 0 where
  forbidden sensitive public : FieldSensitivity

pub record TaintAnalyzer : Type 0 where
  pub pii_fields : List String
  pub sensitive_keys : List String

-- the constructor
unfoldable pub create : (pii_fields sensitive_keys : List String) → TaintAnalyzer
create pii_fields sensitive_keys = record {
  pii_fields = map to_lower_case pii_fields;
  sensitive_keys = map to_lower_case sensitive_keys;
}

-- `classifyField`
unfoldable pub classify_field :
    TaintAnalyzer → (field : String) (policy_sensitive_keys : List String) → FieldSensitivity
classify_field a field policy_sensitive_keys =
    let lower = to_lower_case field in
    if has lower a.pii_fields
    then forbidden
    else if has lower a.sensitive_keys || has lower (map to_lower_case policy_sensitive_keys)
    then sensitive
    else public

unfoldable pub or_else_gate : Option TaintViolation → Option TaintViolation → Option TaintViolation
or_else_gate (some v) later = some v
or_else_gate none later = later

unfoldable pub map_violation :
    (TaintViolation → TaintViolation) → Option TaintViolation → Option TaintViolation
map_violation f none = none
map_violation f (some v) = some (f v)

-- `fields.add(propName)`, but for no name and for `length`
abbrev pub add_queried : Option String → Names → Names
add_queried none fields = fields
add_queried (some prop) fields =
    if not (str_eq prop "") && not (str_eq prop "length") then add prop fields else fields

-- `parse` is `acorn.parse`, with `none` for a syntax error.
module _ (parse : String → Option Node) (visits : Node → List Node) where
  -- `analyze`, of a parsed program
  unfoldable pub analyze_ast : TaintAnalyzer → Node → Option ℕ → ℕ → Option TaintViolation
  unfolding or_else_gate map_violation
  analyze_ast a ast record_count threshold =
      let records = record_bound_vars visits ast in
      let s = tainted_vars a.pii_fields visits ast records in
      or_else_gate (check_return_statements a.pii_fields visits ast records s) (
        if is_small record_count threshold
        then or_else_gate
            (map_violation (with_threshold threshold) (detect_correlated_aggregations visits ast))
            (map_violation (with_threshold threshold) (detect_min_max_extraction visits ast))
        else none)

  -- `analyze`: a syntax error is left to the sandbox
  unfoldable pub analyze : TaintAnalyzer → String → Option ℕ → ℕ → Option TaintViolation
  analyze a source_code record_count threshold =
      elim (parse
        (String.◌++◌ "function liop_analysis_wrapper(env) {\n" (String.◌++◌ source_code "\n}"))) [
          | none ↦ none
          | some ast ↦ analyze_ast a ast record_count threshold
        ]

  -- The visitor of `extractQueriedFields`.
  unfoldable pub visit_queried : Names → Node → Names → Names
  visit_queried records (member o p c) fields =
      if has_name (identifier_name o) records || is_indexed_record o
      then add_queried (property_name p c) fields
      else fields
  visit_queried records _ fields = fields

  -- the fields of a program, if it was parsed
  unfoldable pub queried_fields : Option Node → List String
  queried_fields none = []
  queried_fields (some ast) =
      for_each (visit_queried (record_bound_vars visits ast)) (visits ast) []

  -- `extractQueriedFields`
  unfoldable pub extract_queried_fields : TaintAnalyzer → String → List String
  unfolding queried_fields
  extract_queried_fields a source_code =
      queried_fields (parse (String.◌++◌ "function w(env) {\n" (String.◌++◌ source_code "\n}")))
