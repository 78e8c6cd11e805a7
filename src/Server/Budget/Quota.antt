-- ===== src/Server/Budget/Quota.antt =====
-- sdks/typescript/src/server/index.ts: what a session of queries can spend of the query budget.
use neural_mesh_protocol.Prelude.{
  ℕ, ◌+◌, ◌≤◌, ◌<◌, String, Bool, true, false, ◌&&◌, ◌≡◌, refl, Option, none, some, List, [], ◌∷◌,
  arith, str_eq, str_eq_iff, if◌then◌else◌,
}
use neural_mesh_protocol.Prelude.Assoc.{Assoc, has, lookup, insert, lookup-insert}
use neural_mesh_protocol.Security.Taint.Passes.{for_each}
use neural_mesh_protocol.Security.Taint.Gates.{count_of, count_field}
use neural_mesh_protocol.Security.Taint.Analyze.{TaintAnalyzer}
use neural_mesh_protocol.Server.Budget.{
  FieldQueryBudget, LogicExecutionPolicy, limit_of, first_exceeded, client_budget_of,
  tool_budget_of, place, spend, apply_in_memory_budget, enforce_query_budget,
}

-- the queries of a field that are spent
abbrev pub used : FieldQueryBudget → (client_id tool_name field : String) → ℕ
used budget client_id tool_name field =
    count_of (lookup field (tool_budget_of client_id tool_name budget))

abbrev pub is_none : Option String → Bool
is_none none = true
is_none (some e) = false

-- how often a name is in a list
abbrev pub times : String → List String → ℕ
times field [] = 0
times field (f ∷ fields) = (if str_eq f field then 1 else 0) + times field fields

-- a set of fields, as `extractQueriedFields` returns it
abbrev pub IsDistinct : List String → Type 0
IsDistinct [] = Unit
IsDistinct (f ∷ fields) = (has f fields ≡ false) × IsDistinct fields

pub times-eq-zero :
    (field : String) (fields : List String) → has field fields ≡ false → times field fields ≡ 0
times-eq-zero field [] h = refl
times-eq-zero field (f ∷ fields) h = ground (arith, times-eq-zero field fields)

pub times-le : (field : String) (fields : List String) → IsDistinct fields → times field fields ≤ 1
times-le field [] h = omega arith
times-le field (f ∷ fields) (new, h) =
    ground (arith, times-le field fields h, times-eq-zero field fields, str_eq_iff f field)

counted-for_each :
    (field : String) (fields : List String) (counts : Assoc ℕ)
    → count_of (lookup field (for_each count_field fields counts))
      ≡ count_of (lookup field counts) + times field fields
unfolding count_field
counted-for_each field [] counts = omega arith
counted-for_each field (f ∷ fields) counts = ground (
  arith,
  counted-for_each field fields (count_field f counts),
  lookup-insert f field (count_of (lookup f counts) + 1) counts,
  str_eq_iff f field,
)

used-place :
    (client tool client' tool' field : String) (tool_budget : Assoc ℕ) (budget : FieldQueryBudget)
    → used (place client tool tool_budget budget) client' tool' field ≡ (
        if str_eq client client' && str_eq tool tool'
        then count_of (lookup field tool_budget)
        else used budget client' tool' field)
unfolding place
used-place client tool client' tool' field tool_budget budget = ground (
  arith,
  lookup-insert client client' (insert tool tool_budget (client_budget_of client budget)) budget,
  lookup-insert tool tool' tool_budget (client_budget_of client budget),
  str_eq_iff client client',
  str_eq_iff tool tool',
)

first_exceeded-below :
    (limits : String → ℕ × String) (counts : Assoc ℕ) (fields : List String) (field : String)
    → first_exceeded limits counts fields ≡ none
    → has field fields ≡ true
    → count_of (lookup field counts) < (limits field).0
unfolding first_exceeded
first_exceeded-below limits counts [] field e h = absurd (ground arith)
first_exceeded-below limits counts (f ∷ fields) field e h =
    ground (arith, first_exceeded-below limits counts fields field, str_eq_iff f field)

spend-used :
    (client tool client' tool' field : String) (fields : List String) (budget : FieldQueryBudget)
    (verdict : Option String)
    → used (spend client tool fields budget verdict).1 client' tool' field
      ≡ used budget client' tool' field
        + (if is_none verdict && (str_eq client client' && str_eq tool tool')
            then times field fields
            else 0)
unfolding spend
spend-used client tool client' tool' field fields budget none = ground (
  arith,
  used-place client tool client' tool' field
      (for_each count_field fields (tool_budget_of client tool budget)) budget,
  counted-for_each field fields (tool_budget_of client tool budget),
  str_eq_iff client client',
  str_eq_iff tool tool',
)
spend-used client tool client' tool' field fields budget (some e) = ground (
  arith,
  used-place client tool client' tool' field (tool_budget_of client tool budget) budget,
  str_eq_iff client client',
  str_eq_iff tool tool',
)

pub spend-verdict :
    (client tool : String) (fields : List String) (budget : FieldQueryBudget)
    (verdict : Option String)
    → (spend client tool fields budget verdict).0 ≡ verdict
unfolding spend
spend-verdict client tool fields budget none = refl
spend-verdict client tool fields budget (some e) = refl

module _ (a : TaintAnalyzer) (policy : LogicExecutionPolicy) where
  -- Every query of a client on a tool is accounted for, and nobody else pays for it.
  pub enforce-used :
      (client tool client' tool' field : String) (fields : List String) (budget : FieldQueryBudget)
      → used (enforce_query_budget a policy client tool fields budget).1 client' tool' field
        ≡ used budget client' tool' field
          + (if is_none (enforce_query_budget a policy client tool fields budget).0
                && (str_eq client client' && str_eq tool tool')
              then times field fields
              else 0)
  unfolding enforce_query_budget apply_in_memory_budget
  enforce-used client tool client' tool' field [] budget = ground arith
  enforce-used client tool client' tool' field (f ∷ fields) budget =
      let verdict =
        first_exceeded (limit_of a policy) (tool_budget_of client tool budget) (f ∷ fields) in
      ground (
        arith,
        spend-used client tool client' tool' field (f ∷ fields) budget verdict,
        spend-verdict client tool (f ∷ fields) budget verdict,
      )

  -- A query that is let through finds every field that it reads below its limit.
  pub enforce-below :
      (client tool field : String) (fields : List String) (budget : FieldQueryBudget)
      → (enforce_query_budget a policy client tool fields budget).0 ≡ none
      → has field fields ≡ true
      → used budget client tool field < (limit_of a policy field).0
  unfolding enforce_query_budget apply_in_memory_budget
  enforce-below client tool field [] budget e h = absurd (ground arith)
  enforce-below client tool field (f ∷ fields) budget e h =
      let verdict =
        first_exceeded (limit_of a policy) (tool_budget_of client tool budget) (f ∷ fields) in
      ground (
        arith,
        spend-verdict client tool (f ∷ fields) budget verdict,
        first_exceeded-below (limit_of a policy) (tool_budget_of client tool budget) (f ∷ fields)
            field,
      )
