-- ===== src/Security/Taint/Passes.antt =====
-- sdks/typescript/src/security/taint-analyzer.ts: the passes that find record-bound variables, propagate taint through
-- assignments, and check the return statements.
use Prim.Native.String
use neural_mesh_protocol.Prelude.{
  ℕ, zero, suc, ◌-◌, String, true, not, ◌&&◌, Option, none, some, List, [], ◌∷◌, length, ◌==◌,
  if◌then◌else◌,
}
use neural_mesh_protocol.Prelude.Assoc.{has}
use neural_mesh_protocol.Security.Taint.Ast.{
  declaration, Node, identifier, member, call, function, object, property, return,
  variable_declaration, declarator, assignment, for_of, Nodes, elems, is_null, identifier_name,
  truthy, has_name, name_is, property_name, is_env_records, size,
}
use neural_mesh_protocol.Security.Taint.Eval.{
  Names, Eval, add, add_name, when, some_of, array_callback_methods, reduce_methods, param_name,
  is_callback, callback_taints, tainted,
}

pub record TaintViolation : Type 0 where
  pub reason : String
  pub line : Option ℕ
  pub operation : Option String

-- `for (const x of xs) …` and the visits of a walk, over a state.
abbrev pub for_each {ℓ κ} : {A : Type ℓ} {S : Type κ} → (A → S → S) → List A → S → S
for_each f [] s = s
for_each f (x ∷ xs) s = for_each f xs (f x s)

-- The parameters of the function that is the first argument.
abbrev first_params : Nodes → Nodes
first_params (Nodes.cons (function _ _ ps _) _) = ps
first_params _ = Nodes.nil

-- The two tests of the `CallExpression` visitor.
bind_params : (method : Option String) (params : Nodes) → Names → Names
bind_params method ps records =
    let first = if has_name method array_callback_methods then param_name ps 0 else none in
    let second = if has_name method reduce_methods then param_name ps 1 else none in
    add_name second (add_name first records)

bind_declared : Node → Names → Names
bind_declared (declarator id _) records = add_name (identifier_name id) records
bind_declared _ records = records

-- The first walk of `identifyRecordBoundVars`.
unfoldable pub visit_binding : Node → Names → Names
unfolding bind_params bind_declared
visit_binding (call (member o p c) args) records =
    if truthy (property_name p c) && is_env_records o && is_callback args
    then bind_params (property_name p c) (first_params args) records
    else records
visit_binding (for_of (variable_declaration ds) right _) records =
    if is_env_records right then for_each bind_declared (elems ds) records else records
visit_binding _ records = records

-- The second walk: `const r = env.records[N]`.
unfoldable pub visit_index : Node → Names → Names
visit_index (declarator (identifier x) (member o _ true)) records =
    if is_env_records o then add x records else records
visit_index _ records = records

-- the description of a property with this key
described : Node → String
described (identifier k) = String.◌++◌ "property '" (String.◌++◌ k "' contains PII-derived value")
described _ = "property 'unknown' contains PII-derived value"

method_result : Option String → Option String
method_result none = none
method_result (some m) =
    if truthy (some m)
    then some (String.◌++◌ "result of ." (String.◌++◌ m "() on PII data"))
    else none

-- `${operation ? `Operation: ${operation}. ` : ""}`
operation_text : Option String → String
operation_text none = ""
operation_text (some operation) =
    if truthy (some operation) then String.◌++◌ "Operation: " (String.◌++◌ operation ". ") else ""

-- the violation of a tainted return at a line; the wrapper function takes one line
unfoldable pub return_violation : (line : ℕ) → Option String → TaintViolation
unfolding operation_text
return_violation line operation = record {
  reason =
      String.◌++◌
        "PII side-channel detected: output contains values derived from restricted fields. "
        (String.◌++◌ (operation_text operation)
          "Use only non-PII fields (e.g., numeric/date columns) for aggregations.");
  line = if line == 0 then none else some (line - 1);
  operation = operation;
}

-- `identifyRecordBoundVars`, from the empty set
unfoldable pub record_bound_vars : (Node → List Node) → Node → Names
record_bound_vars visits ast =
    for_each visit_index (visits ast) (for_each visit_binding (visits ast) [])

module _ (pii : List String) (visits : Node → List Node) where
  -- `isExpressionTainted`: the depth is the size of the expression.
  unfoldable pub is_expression_tainted : Names → Node → Eval
  is_expression_tainted records n = tainted pii visits (size n) records n

  -- `if (…) taintedVars.add(name)`
  abbrev pub taint_if : Eval → Option String → Names → Names
  taint_if e x s = let (t, s') = e s in if t then add_name x s' else s'

  -- The visitors of `propagateTaint`.
  unfoldable pub visit_taint : Names → Node → Names → Names
  visit_taint records (declarator (identifier x) init) s =
      taint_if (when (not (is_null init)) (is_expression_tainted records init)) (some x) s
  visit_taint records (assignment (identifier x) right) s =
      taint_if (is_expression_tainted records right) (some x) s
  visit_taint records (function declaration (identifier f) params body) s =
      taint_if
        (callback_taints pii visits is_expression_tainted records declaration params body none)
        (some f) s
  visit_taint records (call (member (identifier x) p c) args) s =
      taint_if
        (when (name_is (property_name p c) "push")
          (some_of (is_expression_tainted records) (elems args)))
        (some x) s
  visit_taint records _ s = s

  -- One iteration over the tree.
  unfoldable pub taint_round : Node → Names → Names → Names
  taint_round ast records s = for_each (visit_taint records) (visits ast) s

  -- `for (let iteration = 0; iteration < rounds; …)`, left as soon as an iteration adds nothing
  unfoldable pub taint_rounds : ℕ → Node → Names → Names → Names
  taint_rounds zero ast records s = s
  taint_rounds (suc rounds) ast records s =
      let s' = taint_round ast records s in
      let rest = taint_rounds rounds ast records s' in if length s' == length s then s' else rest

  -- `propagateTaint`, from the empty set
  unfoldable pub tainted_vars : Node → Names → Names
  tainted_vars ast records = taint_rounds 3 ast records []

  -- the loop of `describeTaintSource` over the properties of an object
  describe_properties : Names → List Node → Names → Option String
  describe_properties records [] s = none
  describe_properties records (property key v ∷ ps) s =
      let (t, s') = is_expression_tainted records v s in
      let rest = describe_properties records ps s' in if t then some (described key) else rest
  describe_properties records (_ ∷ ps) s = describe_properties records ps s

  -- `describeTaintSource`
  unfoldable pub describe_taint_source : Names → Node → Names → Option String
  unfolding describe_properties described method_result
  describe_taint_source records (identifier x) s =
      if has x s then some (String.◌++◌ "variable '" (String.◌++◌ x "' is PII-derived")) else none
  describe_taint_source records (object ps) s = describe_properties records (elems ps) s
  describe_taint_source records (call (member o p c) args) s = method_result (property_name p c)
  describe_taint_source records _ s = none

  -- The `ReturnStatement` visitor: nothing more is evaluated once there is a violation.
  unfoldable pub visit_return :
      Names → Node → Option TaintViolation × Names → Option TaintViolation × Names
  visit_return records n (some v, s) = (some v, s)
  visit_return records (return line a) (none, s) =
      let (t, s') = when (not (is_null a)) (is_expression_tainted records a) s in
      (if t then some (return_violation line (describe_taint_source records a s')) else none, s')
  visit_return records _ (none, s) = (none, s)

  -- `checkReturnStatements`
  unfoldable pub check_return_statements : Node → Names → Names → Option TaintViolation
  check_return_statements ast records s = (for_each (visit_return records) (visits ast) (none, s)).0
