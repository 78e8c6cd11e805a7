-- ===== src/Server/Budget.antt =====
-- sdks/typescript/src/server/index.ts: the query budget of each client, tool and field (`applyInMemoryBudget`, its
-- callers in the preflight check and `resetFieldBudget`), without a budget file.
pub mod Quota
pub mod Session
pub mod Verdict
pub mod Reset
mod Tests
use Prim.Native.String
use neural_mesh_protocol.Prelude.{
  ℕ, ◌+◌, String, Bool, false, ◌||◌, Option, none, some, List, [], ◌∷◌, leb, str_eq, if◌then◌else◌,
  decimal,
}
use neural_mesh_protocol.Prelude.Assoc.{Assoc, lookup, insert, remove}
use neural_mesh_protocol.Security.Taint.Passes.{for_each}
use neural_mesh_protocol.Security.Taint.Gates.{count_of, count_field}
use neural_mesh_protocol.Security.Taint.Analyze.{
  TaintAnalyzer, FieldSensitivity, forbidden, sensitive, public, classify_field,
  extract_queried_fields,
}
use neural_mesh_protocol.Security.Taint.Ast.{Node}

-- `fieldQueryBudget`: by client, tool and field
abbrev pub FieldQueryBudget : Type 0
FieldQueryBudget = Assoc (Assoc (Assoc ℕ))

pub record LogicExecutionPolicy : Type 0 where
  pub sensitive_keys : List String
  pub query_budget_per_field : Option ℕ

-- a map that is created where there is none
abbrev pub or_empty {ℓ} : {V : Type ℓ} → Option (Assoc V) → Assoc V
or_empty none = []
or_empty (some m) = m

-- the limit of a field and its label
unfoldable pub query_limit : (query_budget_per_field : Option ℕ) → FieldSensitivity → ℕ × String
query_limit (some limit) sensitivity = (limit, "override")
query_limit none forbidden = (3, "forbidden")
query_limit none sensitive = (8, "sensitive")
query_limit none public = (25, "public")

-- the limit that the policy gives a field
abbrev pub limit_of : TaintAnalyzer → LogicExecutionPolicy → String → ℕ × String
limit_of a policy field =
    query_limit policy.query_budget_per_field (classify_field a field policy.sensitive_keys)

budget_error : String → ℕ × String → String
budget_error field (limit, label) =
    String.◌++◌ "Preflight policy rejected: Query budget exceeded for field '" (
      String.◌++◌ field (
        String.◌++◌ "' (max " (
          String.◌++◌ (decimal limit) (
            String.◌++◌ " per session for "
              (String.◌++◌ label " fields). Rotate PQC session to reset budget.")))))

-- the first loop: the error of the first field that has no query left
unfoldable pub first_exceeded : (String → ℕ × String) → Assoc ℕ → List String → Option String
unfolding budget_error
first_exceeded limits tool_budget [] = none
first_exceeded limits tool_budget (field ∷ fields) =
    let rest = first_exceeded limits tool_budget fields in
    if leb (limits field).0 (count_of (lookup field tool_budget))
    then some (budget_error field (limits field))
    else rest

-- the maps of a client and a tool
abbrev pub client_budget_of : String → FieldQueryBudget → Assoc (Assoc ℕ)
client_budget_of client_id budget = or_empty (lookup client_id budget)

abbrev pub tool_budget_of : String → String → FieldQueryBudget → Assoc ℕ
tool_budget_of client_id tool_name budget =
    or_empty (lookup tool_name (client_budget_of client_id budget))

-- the map of a client and a tool, in its place
unfoldable pub place : String → String → Assoc ℕ → FieldQueryBudget → FieldQueryBudget
place client_id tool_name tool_budget budget =
    insert client_id (insert tool_name tool_budget (client_budget_of client_id budget)) budget

-- the second loop, unless the first one returned; the maps are there in both cases
unfoldable pub spend :
    String
    → String
    → List String
    → FieldQueryBudget
    → Option String
    → Option String × FieldQueryBudget
spend client_id tool_name fields budget (some error) =
    (some error, place client_id tool_name (tool_budget_of client_id tool_name budget) budget)
spend client_id tool_name fields budget none = (
  none,
  place client_id tool_name
      (for_each count_field fields (tool_budget_of client_id tool_name budget)) budget,
)

-- `applyInMemoryBudget`
unfoldable pub apply_in_memory_budget :
    TaintAnalyzer
    → LogicExecutionPolicy
    → (client_id tool_name : String) (fields : List String) → FieldQueryBudget
    → Option String × FieldQueryBudget
unfolding spend
apply_in_memory_budget a policy client_id tool_name fields budget =
    spend client_id tool_name fields budget
      (first_exceeded (limit_of a policy) (tool_budget_of client_id tool_name budget) fields)

-- the names that are refused as keys
unfoldable pub is_unsafe_key : String → Bool
is_unsafe_key k = str_eq k "__proto__" || str_eq k "constructor" || str_eq k "prototype"

guard_error : String
guard_error = "Preflight policy rejected: invalid property key names (prototype pollution guard)."

-- the query budget part of the preflight check: with no field there is nothing to count
unfoldable pub enforce_query_budget :
    TaintAnalyzer
    → LogicExecutionPolicy
    → (client_id tool_name : String) (fields : List String) → FieldQueryBudget
    → Option String × FieldQueryBudget
unfolding guard_error
enforce_query_budget a policy client_id tool_name [] budget = (none, budget)
enforce_query_budget a policy client_id tool_name (field ∷ fields) budget =
    if is_unsafe_key client_id || is_unsafe_key tool_name
    then (some guard_error, budget)
    else apply_in_memory_budget a policy client_id tool_name (field ∷ fields) budget

-- the tool's map is deleted, if the client has one
remove_tool : String → String → FieldQueryBudget → FieldQueryBudget
remove_tool client_id tool_name budget =
    insert client_id (remove tool_name (client_budget_of client_id budget)) budget

reset_client : String → Option (Assoc (Assoc ℕ)) → String → FieldQueryBudget → FieldQueryBudget
reset_client client_id none tool_name budget = budget
reset_client client_id (some tools) tool_name budget = remove_tool client_id tool_name budget

reset_tool : String → Option String → FieldQueryBudget → FieldQueryBudget
reset_tool client_id none budget = remove client_id budget
reset_tool client_id (some tool_name) budget =
    if str_eq tool_name ""
    then remove client_id budget
    else reset_client client_id (lookup client_id budget) tool_name budget

unfoldable pub is_unsafe_tool : Option String → Bool
is_unsafe_tool none = false
is_unsafe_tool (some tool_name) = is_unsafe_key tool_name

-- `resetFieldBudget`
unfoldable pub reset_field_budget : String → Option String → FieldQueryBudget → FieldQueryBudget
unfolding reset_tool reset_client remove_tool is_unsafe_tool
reset_field_budget client_id tool_name budget =
    if is_unsafe_key client_id || is_unsafe_tool tool_name
    then budget
    else reset_tool client_id tool_name budget

-- The query budget part of the preflight check of a program. `parse` is `acorn.parse`, and `visits`
-- lists the nodes of a tree as `simple` visits them.
unfoldable pub check_query_budget :
    (parse : String → Option Node) (visits : Node → List Node)
    → TaintAnalyzer
    → LogicExecutionPolicy
    → (client_id tool_name logic : String) → FieldQueryBudget
    → Option String × FieldQueryBudget
check_query_budget parse visits a policy client_id tool_name logic budget =
    enforce_query_budget a policy client_id tool_name (extract_queried_fields parse visits a logic)
      budget
