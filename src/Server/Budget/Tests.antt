-- ===== src/Server/Budget/Tests.antt =====
-- sdks/typescript/src/server/index.ts: the query budget on concrete sessions.
use neural_mesh_protocol.Prelude.{
  ◌≤◌, String, ◌≡◌, ◌↔◌, refl, Option, none, some, [], ◌∷◌, arith, false, true, to_lower_case,
  decimal,
}
use neural_mesh_protocol.Prelude.Assoc.{lookup, insert, remove}
use neural_mesh_protocol.Security.Taint.Ast.{Node, identifier, other_literal, member, size}
use neural_mesh_protocol.Security.Taint.Passes.{record_bound_vars, visit_binding, visit_index}
use neural_mesh_protocol.Security.Taint.Gates.{count_field}
use neural_mesh_protocol.Security.Taint.Analyze.{
  TaintAnalyzer, classify_field, visit_queried, queried_fields, extract_queried_fields,
}
use neural_mesh_protocol.Security.Taint.Walk.{post_order}
use neural_mesh_protocol.Server.Budget.{
  LogicExecutionPolicy, FieldQueryBudget, limit_of, query_limit, first_exceeded, place, spend,
  apply_in_memory_budget, is_unsafe_key, is_unsafe_tool, enforce_query_budget, check_query_budget,
  reset_field_budget,
}
use neural_mesh_protocol.Server.Budget.Quota.{used}
use neural_mesh_protocol.Server.Budget.Session.{Query, session, session_quota}
use neural_mesh_protocol.Server.Budget.Verdict.{Fits, enforce_query_budget-eq-none_iff}
use neural_mesh_protocol.Server.Budget.Reset.{reset_field_budget-used}

budgets : Unit {0}
unfolding record_bound_vars visit_binding visit_index classify_field count_field visit_queried
    queried_fields extract_queried_fields post_order size query_limit first_exceeded place spend
    apply_in_memory_budget is_unsafe_key is_unsafe_tool enforce_query_budget check_query_budget
    reset_field_budget session lookup insert remove to_lower_case decimal
budgets = tt

abbrev analyzer : TaintAnalyzer
analyzer = record { pii_fields = "ssn" ∷ []; sensitive_keys = "salary" ∷ [] }

abbrev policy : LogicExecutionPolicy
policy = record { sensitive_keys = []; query_budget_per_field = none }

-- env.records[0].ssn
abbrev reads_ssn : Node
reads_ssn =
    member (member (member (identifier "env") (identifier "records") false) other_literal true)
      (identifier "ssn") false

abbrev parsed : String → Option Node
parsed source = some reads_ssn

abbrev query : Query
query = record { client_id = "alice"; tool_name = "stats"; logic = "env.records[0].ssn" }

-- the fourth query of a restricted field is refused, and a field of the second tier has eight
fourth_refused :
    (session parsed post_order analyzer policy "alice" "stats" "ssn"
      (query ∷ query ∷ query ∷ query ∷ [])
      []).0
    ≡ 3
unfolding budgets
fourth_refused = refl

limits_of_tiers :
    (limit_of analyzer policy "SSN" ≡ (3, "forbidden"))
    × (limit_of analyzer policy "salary" ≡ (8, "sensitive"))
    × (limit_of analyzer policy "age" ≡ (25, "public"))
unfolding budgets
limits_of_tiers = (refl, refl, refl)

session_quota_example :
    (used
        (session parsed post_order analyzer policy "alice" "stats" "ssn"
          (query ∷ query ∷ query ∷ query ∷ [])
          []).1
        "alice"
        "stats"
        "ssn"
      ≡ 3)
    × (3 ≤ 3)
unfolding budgets
session_quota_example =
    session_quota parsed post_order analyzer policy "alice" "stats" "ssn"
      (query ∷ query ∷ query ∷ query ∷ []) [] (omega arith)

enforce_query_budget-eq-none_iff_example :
    ((enforce_query_budget analyzer policy "alice" "stats" ("ssn" ∷ "age" ∷ []) []).0 ≡ none)
    ↔ Fits analyzer policy "alice" "stats" [] ("ssn" ∷ "age" ∷ [])
enforce_query_budget-eq-none_iff_example =
    enforce_query_budget-eq-none_iff analyzer policy "alice" "stats" [] ("ssn" ∷ "age" ∷ [])

abbrev spent : FieldQueryBudget
spent = ("alice", ("stats", ("ssn", 3) ∷ []) ∷ ("sums", ("ssn", 2) ∷ []) ∷ []) ∷ []

reset_field_budget-used_example :
    used (reset_field_budget "alice" (some "stats") spent) "alice" "stats" "ssn" ≡ 0
unfolding budgets
reset_field_budget-used_example =
    reset_field_budget-used "alice" (some "stats") "alice" "stats" "ssn" spent refl
