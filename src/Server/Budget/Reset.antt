-- ===== src/Server/Budget/Reset.antt =====
-- sdks/typescript/src/server/index.ts: `resetFieldBudget` gives back the budget of one client or of one of its tools.
use neural_mesh_protocol.Prelude.{
  String, Bool, true, false, ◌&&◌, ◌||◌, ◌≡◌, Option, none, some, arith, str_eq, str_eq_iff,
  if◌then◌else◌, Bool-cases, Option-cases, inl, inr, ◌∙◌,
}
use neural_mesh_protocol.Prelude.Assoc.{lookup, insert, remove, lookup-insert, lookup-remove}
use neural_mesh_protocol.Server.Budget.{
  FieldQueryBudget, client_budget_of, is_unsafe_key, is_unsafe_tool, reset_field_budget,
}
use neural_mesh_protocol.Server.Budget.Quota.{used}

-- Does a reset of these names give back the queries of this client on this tool?
abbrev pub covers : String → Option String → (client' tool' : String) → Bool
covers client none client' tool' = str_eq client client'
covers client (some tool) client' tool' =
    str_eq client client' && (str_eq tool "" || str_eq tool tool')

used-remove :
    (client client' tool' field : String) (budget : FieldQueryBudget)
    → used (remove client budget) client' tool' field
      ≡ (if str_eq client client' then 0 else used budget client' tool' field)
unfolding lookup
used-remove client client' tool' field budget = ground (arith, lookup-remove client client' budget)

used-remove_tool :
    (client tool client' tool' field : String) (budget : FieldQueryBudget)
    → used (insert client (remove tool (client_budget_of client budget)) budget) client' tool' field
      ≡ (if str_eq client client' && str_eq tool tool' then 0 else used budget client' tool' field)
unfolding lookup
used-remove_tool client tool client' tool' field budget = ground (
  arith,
  lookup-remove tool tool' (client_budget_of client budget),
  lookup-insert client client' (remove tool (client_budget_of client budget)) budget,
  str_eq_iff client client',
  str_eq_iff tool tool',
)

used-unknown :
    (client client' tool' field : String) (budget : FieldQueryBudget)
    → lookup client budget ≡ none
    → str_eq client client' ≡ true
    → used budget client' tool' field ≡ 0
unfolding lookup
used-unknown client client' tool' field budget unknown same =
    ground (arith, str_eq_iff client client')

-- A reset with names that are not refused gives back all queries that it covers, and no others: a
-- tool's name, unless it is empty, limits it to that tool of the client.
pub reset_field_budget-used :
    (client : String) (tool : Option String) (client' tool' field : String)
    (budget : FieldQueryBudget)
    → (is_unsafe_key client || is_unsafe_tool tool) ≡ false
    → used (reset_field_budget client tool budget) client' tool' field
      ≡ (if covers client tool client' tool' then 0 else used budget client' tool' field)
unfolding reset_field_budget
reset_field_budget-used client none client' tool' field budget safe =
    rw safe (used-remove client client' tool' field budget)
reset_field_budget-used client (some tool) client' tool' field budget safe =
    elim (Bool-cases (str_eq tool "")) [
      | inl all_tools ↦
          rw (safe, all_tools) (used-remove client client' tool' field budget ∙ (ground arith))
      | inr named ↦ elim (Option-cases (lookup client budget)) [
        | inl unknown ↦
            rw (safe, named, unknown)
              (ground (arith, used-unknown client client' tool' field budget unknown))
        | inr (tools, known) ↦
            rw (safe, named, known) (used-remove_tool client tool client' tool' field budget)
      ]
    ]
