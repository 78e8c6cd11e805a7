-- ===== src/Security/Taint/Tests.antt =====
-- sdks/typescript/src/security/taint-analyzer.ts on small programs.
use neural_mesh_protocol.Prelude.{
  String, ◌≡◌, ◌≢◌, refl, arith, true, false, Option, none, some, [], ◌∷◌, to_lower_case, decimal,
  replace_first,
}
use neural_mesh_protocol.Prelude.Assoc.{lookup, insert}
use neural_mesh_protocol.Security.Taint.Ast.{
  arrow, declaration, Node, null, identifier, other_literal, member, call, function, block, binary,
  return, variable_declaration, declarator, other, Nodes, cons, nil, size, is_env_records_chain,
}
use neural_mesh_protocol.Security.Taint.Eval.{
  tainted, expression_tainted, call_tainted, method_call_tainted, member_tainted, callback_taints,
  visit_results, some_of, is_pii,
}
use neural_mesh_protocol.Security.Taint.Passes.{
  TaintViolation, visit_binding, visit_index, record_bound_vars, is_expression_tainted, visit_taint,
  taint_round, taint_rounds, tainted_vars, describe_taint_source, return_violation, visit_return,
  check_return_statements,
}
use neural_mesh_protocol.Security.Taint.Gates.{
  violation_of, visit_field, count_field, visit_reduction, first_repeated,
  detect_correlated_aggregations, visit_min_max, detect_min_max_extraction,
}
use neural_mesh_protocol.Security.Taint.Analyze.{
  TaintAnalyzer, create, analyze_ast, or_else_gate, map_violation, with_threshold,
  extract_queried_fields, visit_queried, classify_field,
}
use neural_mesh_protocol.Security.Taint.Walk.{post_order, post_order-IsWalk}
use neural_mesh_protocol.Security.Taint.Pure.{dirty}
use neural_mesh_protocol.Security.Taint.Refines.{tainted-eq-dirty}
use neural_mesh_protocol.Security.Taint.Depth.{tainted_mono, tainted-depth}
use neural_mesh_protocol.Security.Taint.Flows.{IsClosed, tainted_vars-IsClosed}

taint : Unit {0}
unfolding tainted expression_tainted call_tainted method_call_tainted member_tainted callback_taints
    visit_results some_of is_pii visit_binding visit_index record_bound_vars is_expression_tainted
    visit_taint taint_round taint_rounds tainted_vars describe_taint_source return_violation
    visit_return check_return_statements create analyze_ast or_else_gate map_violation violation_of
    visit_field count_field visit_reduction first_repeated detect_correlated_aggregations
    visit_min_max detect_min_max_extraction with_threshold extract_queried_fields visit_queried
    classify_field post_order size is_env_records_chain lookup insert to_lower_case decimal
    replace_first
taint = tt

abbrev analyzer : TaintAnalyzer
analyzer = record { pii_fields = "ssn" ∷ []; sensitive_keys = [] }

abbrev env_records : Node
env_records = member (identifier "env") (identifier "records") false

abbrev field : String → String → Node
field r f = member (identifier r) (identifier f) false

abbrev program : Nodes → Node
program body =
    function declaration (identifier "liop_analysis_wrapper") (cons (identifier "env") nil)
      (block body)

-- return env.records.map(r => r.f)
abbrev mapped : String → Node
mapped f = program (
    cons
      (return 2 (
        call (member env_records (identifier "map") false)
          (cons (function arrow null (cons (identifier "r") nil) (field "r" f)) nil)))
      nil)

abbrev parses : String → Option Node
parses source = none

abbrev run : Node → Option TaintViolation
run ast = analyze_ast parses post_order analyzer ast (some 100) 50

clean_map : run (mapped "age") ≡ none
unfolding taint
clean_map = refl

leaking_map :
    run (mapped "ssn")
    ≡ some (record {
      reason =
          "PII side-channel detected: output contains values derived from restricted fields. Operation: result of .map() on PII data. Use only non-PII fields (e.g., numeric/date columns) for aggregations.";
      line = some 1;
      operation = some "result of .map() on PII data";
    })
unfolding taint
leaking_map = refl

-- const x = env.records[0].ssn; return x
abbrev aliased : Node
aliased = program (
    cons
      (variable_declaration (
        cons
          (declarator (identifier "x")
            (member (member env_records other_literal true) (identifier "ssn") false))
          nil))
      (cons (return 3 (identifier "x")) nil))

alias_blocked : run aliased ≢ none
unfolding taint
alias_blocked h = cc h

-- The access behind an optional chain, `env.records[0]?.ssn`, is another type of node.
abbrev optional_chain : Node
optional_chain = program (
    cons
      (return 2 (
        other (cons (member (member env_records other_literal true) (identifier "ssn") false) nil)))
      nil)

optional_chain_passes : run optional_chain ≡ none
unfolding taint
optional_chain_passes = refl

-- env.records.reduce((s, r) => s + r.f + r.f, 0)
abbrev one_reduction : Node
one_reduction = program (
    cons
      (return 2 (
        call (member env_records (identifier "reduce") false) (
          cons
            (function arrow null (cons (identifier "s") (cons (identifier "r") nil))
              (binary (binary (identifier "s") (field "r" "age")) (field "r" "age")))
            nil)))
      nil)

one_reduction_blocked : analyze_ast parses post_order analyzer one_reduction (some 20) 50 ≢ none
unfolding taint
one_reduction_blocked h = cc h

tainted-eq-dirty_example :
    tainted ("ssn" ∷ []) post_order 5 ("r" ∷ []) (field "r" "SSN") []
    ≡ (dirty ("ssn" ∷ []) post_order 5 ("r" ∷ []) [] (field "r" "SSN"), [])
tainted-eq-dirty_example =
    tainted-eq-dirty ("ssn" ∷ []) post_order 5 ("r" ∷ []) (field "r" "SSN") []

tainted-depth_example :
    tainted ("ssn" ∷ []) post_order 30 [] aliased []
    ≡ tainted ("ssn" ∷ []) post_order 90 [] aliased []
unfolding size
tainted-depth_example =
    tainted-depth ("ssn" ∷ []) post_order post_order-IsWalk 30 90 [] [] aliased (omega arith)
      (omega arith)

more_sources : (tainted ("ssn" ∷ []) post_order 40 ("q" ∷ "r" ∷ []) (field "r" "ssn") []).0 ≡ true
unfolding taint
more_sources =
    tainted_mono ("ssn" ∷ []) post_order post_order-IsWalk 4 40 (field "r" "ssn") ("r" ∷ [])
      ("q" ∷ "r" ∷ []) [] [] (omega arith) (λ x t. ground (arith, t)) (λ x t. t) refl

tainted_vars-IsClosed_example :
    IsClosed
      ("ssn" ∷ [])
      post_order
      []
      (tainted_vars ("ssn" ∷ []) post_order aliased [])
      (post_order aliased)
unfolding taint
tainted_vars-IsClosed_example =
    tainted_vars-IsClosed ("ssn" ∷ []) post_order [] aliased (omega arith)
