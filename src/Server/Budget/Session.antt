-- ===== src/Server/Budget/Session.antt =====
-- sdks/typescript/src/server/index.ts: sessions of queries against the budget.
use neural_mesh_protocol.Prelude.{
  ℕ, ◌+◌, ◌≤◌, String, Bool, true, false, ◌&&◌, ◌||◌, ◌≡◌, refl, Option, none, some, List, [], ◌∷◌,
  ◌++◌, arith, str_eq, str_eq_iff, if◌then◌else◌,
}
use neural_mesh_protocol.Prelude.Assoc.{has}
use neural_mesh_protocol.Security.Taint.Ast.{Node, identifier_name, has_name, property_name, member}
use neural_mesh_protocol.Security.Taint.Eval.{Names, add, is_indexed_record}
use neural_mesh_protocol.Security.Taint.Passes.{for_each, record_bound_vars}
use neural_mesh_protocol.Security.Taint.Analyze.{
  TaintAnalyzer, add_queried, visit_queried, extract_queried_fields, queried_fields,
}
use neural_mesh_protocol.Server.Budget.{
  FieldQueryBudget, LogicExecutionPolicy, limit_of, check_query_budget,
}
use neural_mesh_protocol.Server.Budget.Quota.{
  used, times, IsDistinct, times-le, times-eq-zero, is_none, enforce-used, enforce-below,
}

if_keeps : {A : Type 0} (P : A → Type 0) (b : Bool) (x y : A) → P x → P y → P (if b then x else y)
if_keeps P true x y h k = h
if_keeps P false x y h k = k

times_pos :
    (field : String) (fields : List String) → has field fields ≡ true → 1 ≤ times field fields
times_pos field [] h = absurd (ground arith)
times_pos field (f ∷ fields) h = ground (arith, times_pos field fields)

has-snoc :
    (x y : String) (xs : List String)
    → has x xs ≡ false
    → str_eq y x ≡ false
    → has x (xs ++ y ∷ []) ≡ false
has-snoc x y [] h e = ground arith
has-snoc x y (z ∷ xs) h e = ground (arith, has-snoc x y xs)

snoc-IsDistinct :
    (y : String) (xs : List String) → has y xs ≡ false → IsDistinct xs → IsDistinct (xs ++ y ∷ [])
snoc-IsDistinct y [] h d = (refl, tt)
snoc-IsDistinct y (x ∷ xs) h (new, d) =
    ground (arith, snoc-IsDistinct y xs, has-snoc x y xs, str_eq_iff x y, str_eq_iff y x)

add-IsDistinct : (y : String) (xs : List String) → IsDistinct xs → IsDistinct (add y xs)
add-IsDistinct y xs d = ground (arith, snoc-IsDistinct y xs)

add_queried-IsDistinct :
    (prop : Option String) (fields : List String)
    → IsDistinct fields
    → IsDistinct (add_queried prop fields)
add_queried-IsDistinct none fields d = d
add_queried-IsDistinct (some prop) fields d = ground (arith, add-IsDistinct prop fields)

visit_queried-IsDistinct :
    (parse : String → Option Node) (visits : Node → List Node) (records : Names) (n : Node)
    (fields : Names)
    → IsDistinct fields
    → IsDistinct (visit_queried parse visits records n fields)
unfolding visit_queried
visit_queried-IsDistinct parse visits records (member o p c) fields d =
    if_keeps IsDistinct (has_name (identifier_name o) records || is_indexed_record o)
      (add_queried (property_name p c) fields) fields
      (add_queried-IsDistinct (property_name p c) fields d) d
visit_queried-IsDistinct parse visits records _ fields d = d

for_each-IsDistinct :
    (parse : String → Option Node) (visits : Node → List Node) (records : Names) (ns : List Node)
    (fields : Names)
    → IsDistinct fields
    → IsDistinct (for_each (visit_queried parse visits records) ns fields)
for_each-IsDistinct parse visits records [] fields d = d
for_each-IsDistinct parse visits records (n ∷ ns) fields d =
    for_each-IsDistinct parse visits records ns (visit_queried parse visits records n fields)
      (visit_queried-IsDistinct parse visits records n fields d)

queried_fields-IsDistinct :
    (parse : String → Option Node) (visits : Node → List Node) (ast : Option Node)
    → IsDistinct (queried_fields parse visits ast)
unfolding queried_fields
queried_fields-IsDistinct parse visits none = tt
queried_fields-IsDistinct parse visits (some ast) =
    for_each-IsDistinct parse visits (record_bound_vars visits ast) (visits ast) [] tt

-- A program's fields are a set: each is counted once.
extract_queried_fields-IsDistinct :
    (parse : String → Option Node) (visits : Node → List Node) (a : TaintAnalyzer) (logic : String)
    → IsDistinct (extract_queried_fields parse visits a logic)
unfolding extract_queried_fields
extract_queried_fields-IsDistinct parse visits a logic = queried_fields-IsDistinct parse visits _

-- a query of a client's program on a tool
pub record Query : Type 0 where
  pub client_id : String
  pub tool_name : String
  pub logic : String

-- Is it a query of this client on this tool whose program reads the field?
abbrev pub reads : (client tool field : String) → (fields : List String) → Query → Bool
reads client tool field fields q =
    (str_eq q.client_id client && str_eq q.tool_name tool) && has field fields

module _ (parse : String → Option Node) (visits : Node → List Node) (a : TaintAnalyzer)
    (policy : LogicExecutionPolicy) where
  abbrev pub check_query : Query → FieldQueryBudget → Option String × FieldQueryBudget
  check_query q budget =
      check_query_budget parse visits a policy q.client_id q.tool_name q.logic budget

  module _ (client tool field : String) where
    -- A session: how many queries of the client on the tool that read the field are let through,
    -- and the budget after it.
    unfoldable pub session : List Query → FieldQueryBudget → ℕ × FieldQueryBudget
    session [] budget = (0, budget)
    session (q ∷ queries) budget =
        let (error, budget') = check_query q budget in
        let (n, budget'') = session queries budget' in
        (
          (if is_none error
                  && reads client tool field (extract_queried_fields parse visits a q.logic) q
                then 1
                else 0)
              + n,
          budget'',
        )

    check_query-used :
        (q : Query) (budget : FieldQueryBudget)
        → used (check_query q budget).1 client tool field
          ≡ used budget client tool field
            + (if is_none (check_query q budget).0
                  && reads client tool field (extract_queried_fields parse visits a q.logic) q
                then 1
                else 0)
    unfolding check_query_budget
    check_query-used q budget =
        let fields = extract_queried_fields parse visits a q.logic in
        ground (
          arith,
          enforce-used a policy q.client_id q.tool_name client tool field fields budget,
          times-le field fields (extract_queried_fields-IsDistinct parse visits a q.logic),
          times-eq-zero field fields,
          times_pos field fields,
        )

    check_query-bounded :
        (q : Query) (budget : FieldQueryBudget)
        → used budget client tool field ≤ (limit_of a policy field).0
        → used (check_query q budget).1 client tool field ≤ (limit_of a policy field).0
    unfolding check_query_budget
    check_query-bounded q budget h =
        let fields = extract_queried_fields parse visits a q.logic in
        ground (
          arith,
          check_query-used q budget,
          enforce-below a policy q.client_id q.tool_name field fields budget,
          str_eq_iff q.client_id client,
          str_eq_iff q.tool_name tool,
        )

    -- From a budget within the field's limit: over every session of queries, of whatever clients on
    -- whatever tools, the queries of one client on one tool that read a field and are let through
    -- are exactly those that the budget counts, and with those spent before they are never more
    -- than the field's limit.
    pub session_quota :
        (queries : List Query) (budget : FieldQueryBudget)
        → used budget client tool field ≤ (limit_of a policy field).0
        → (used (session queries budget).1 client tool field
            ≡ used budget client tool field + (session queries budget).0)
          × (used budget client tool field + (session queries budget).0
              ≤ (limit_of a policy field).0)
    unfolding session
    session_quota [] budget h = (omega arith, omega (arith, h))
    session_quota (q ∷ queries) budget h =
        let (counts, bound) =
          session_quota queries (check_query q budget).1 (check_query-bounded q budget h) in
        (
          omega (arith, counts, check_query-used q budget),
          omega (arith, bound, check_query-used q budget),
        )
