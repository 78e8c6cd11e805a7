-- ===== src/Security/Taint/Eval.antt =====
-- sdks/typescript/src/security/taint-analyzer.ts: `isExpressionTainted` and the functions that it calls. They read the
-- set of record-bound variables and pass on the set of tainted variables, which a call of `push`
-- may extend.
use neural_mesh_protocol.Prelude.{
  ℕ, zero, suc, String, Bool, true, false, not, ◌&&◌, ◌||◌, Option, none, some, List, [], ◌∷◌, ◌++◌,
  str_eq, if◌then◌else◌, to_lower_case,
}
use neural_mesh_protocol.Prelude.Assoc.{has}
use neural_mesh_protocol.Security.Taint.Ast.{
  FunctionKind, arrow, expression, Node, null, identifier, string_literal, member, call, function,
  binary, unary, conditional, object, property, array, template, spread, yield, return, Nodes,
  elems, is_null, is_block, is_identifier, identifier_name, truthy, has_name, name_is,
  property_name, is_env_records,
}

-- A set of names, in the order in which they were added.
abbrev pub Names : Type 0
Names = List String

-- `Set.prototype.add`
abbrev pub add : String → Names → Names
add x s = if has x s then s else s ++ x ∷ []

-- `add`, of a name if there is one
abbrev pub add_name : Option String → Names → Names
add_name none s = s
add_name (some x) s = add x s

-- An evaluation over the set of tainted variables.
abbrev pub Eval : Type 0
Eval = Names → Bool × Names

abbrev pub pure : Bool → Eval
pure b s = (b, s)

-- `a || b`
abbrev pub or_else : Eval → Eval → Eval
or_else a b s = let (x, s') = a s in if x then (true, s') else b s'

-- `b && e`
abbrev pub when : Bool → Eval → Eval
when b e = if b then e else pure false

-- `nodes.some(f)`
unfoldable pub some_of : (Node → Eval) → List Node → Eval
some_of f [] = pure false
some_of f (n ∷ ns) = or_else (f n) (some_of f ns)

abbrev pub propagating_methods : List String
propagating_methods =
    "charCodeAt" ∷ "codePointAt" ∷ "charAt" ∷ "at" ∷ "indexOf" ∷ "lastIndexOf" ∷ "search"
    ∷ "localeCompare" ∷ "startsWith" ∷ "endsWith" ∷ "includes" ∷ "substring" ∷ "slice" ∷ "substr"
    ∷ "split" ∷ "match" ∷ "matchAll" ∷ "replace" ∷ "replaceAll" ∷ "normalize" ∷ "toLowerCase"
    ∷ "toUpperCase" ∷ "trim" ∷ "trimStart" ∷ "trimEnd" ∷ "padStart" ∷ "padEnd" ∷ "repeat" ∷ []

abbrev pub array_callback_methods : List String
array_callback_methods =
    "map" ∷ "forEach" ∷ "filter" ∷ "find" ∷ "some" ∷ "every" ∷ "flatMap" ∷ "findIndex" ∷ []

abbrev pub reduce_methods : List String
reduce_methods = "reduce" ∷ "reduceRight" ∷ []

abbrev pub safe_globals : List String
safe_globals = "Math" ∷ "Number" ∷ "parseInt" ∷ "parseFloat" ∷ "isNaN" ∷ "isFinite" ∷ []

-- The name of the parameter at an index, if it is an identifier.
abbrev pub param_name : Nodes → ℕ → Option String
param_name Nodes.nil i = none
param_name (Nodes.cons p ps) zero = identifier_name p
param_name (Nodes.cons p ps) (suc i) = param_name ps i

-- `propName && this.piiFields.has(propName.toLowerCase())`
unfoldable pub is_pii : List String → Option String → Bool
is_pii pii none = false
is_pii pii (some p) = not (str_eq p "") && has (to_lower_case p) pii

-- `parentMember.computed && this.isEnvRecordsAccess(parentMember.object)`
abbrev pub is_indexed_record : Node → Bool
is_indexed_record (member o p computed) = computed && is_env_records o
is_indexed_record _ = false

-- a string literal as a computed property, with no test for ""
abbrev pub is_pii_literal : List String → (property : Node) (computed : Bool) → Bool
is_pii_literal pii (string_literal v) true = has (to_lower_case v) pii
is_pii_literal pii _ _ = false

-- The records in scope of a callback: its first parameter, or the second of a reduction.
abbrev pub record_param : Option String → ℕ
record_param method = if has_name method reduce_methods then 1 else 0

abbrev pub is_arrow : FunctionKind → Bool
is_arrow arrow = true
is_arrow _ = false

-- The callback of `env.records.method(callback)`, if the first argument is one.
abbrev pub is_callback : Nodes → Bool
is_callback (Nodes.cons (function arrow _ _ _) _) = true
is_callback (Nodes.cons (function expression _ _ _) _) = true
is_callback _ = false

-- `pii` are the lower-cased names of the restricted fields, and `visits n` the nodes in the order
-- in which `simple(n, visitors)` calls the visitors.
module _ (pii : List String) (visits : Node → List Node) where
  module _ (self : Names → Node → Eval) (records : Names) where
    -- `isMemberExprTainted`
    unfoldable pub member_tainted : (object property : Node) (computed : Bool) → Eval
    member_tainted o p c =
        if (has_name (identifier_name o) records || is_indexed_record o)
          && is_pii pii (property_name p c)
        then pure true
        else or_else (self records o)
            (pure (has_name (identifier_name o) records && is_pii_literal pii p c))

  -- One visit of a return or a yield: the flag is set and never cleared.
  abbrev pub visit_result : (Node → Eval) → Node → Eval
  visit_result f (return _ a) = when (not (is_null a)) (f a)
  visit_result f (yield a) = when (not (is_null a)) (f a)
  visit_result f _ = pure false

  unfoldable pub visit_results : (Node → Eval) → List Node → Bool → Eval
  visit_results f [] found s = (found, s)
  visit_results f (n ∷ ns) found s =
      let (x, s') = visit_result f n s in visit_results f ns (x || found) s'

  module _ (self : Names → Node → Eval) (records : Names) where
    -- `doesCallbackProduceTaint`: it works on copies of both sets.
    unfoldable pub callback_taints :
        (kind : FunctionKind) (params : Nodes) (body : Node) (method : Option String) → Eval
    callback_taints kind params body method s =
        let scoped = add_name (param_name params (record_param method)) records in
        if is_arrow kind && not (is_block body)
        then ((self scoped body s).0, s)
        else ((visit_results (self scoped) (visits body) false s).0, s)

    abbrev pub first_callback_taints : Nodes → Option String → Eval
    first_callback_taints (Nodes.cons (function k _ ps b) _) method = callback_taints k ps b method
    first_callback_taints _ method = pure false

    -- the receiving array of a `push` of a tainted value becomes tainted
    abbrev pub push_taints : Node → Option String → Nodes → Eval
    push_taints o method args s =
        let (x, s') =
          when (name_is method "push" && is_identifier o) (some_of (self records) (elems args)) s in
        (false, (if x then add_name (identifier_name o) s' else s'))

    unfoldable pub method_call_tainted :
        (object : Node) (method : Option String) (args : Nodes) → Eval
    method_call_tainted o method args =
        or_else (when (truthy method && has_name method propagating_methods) (self records o)) (
          if is_env_records o && is_callback args
          then first_callback_taints args method
          else or_else (self records o)
              (or_else (some_of (self records) (elems args)) (push_taints o method args)))

    -- `isCallExprTainted`
    unfoldable pub call_tainted : (callee : Node) (args : Nodes) → Eval
    call_tainted (member o p c) args = method_call_tainted o (property_name p c) args
    call_tainted (identifier x) args =
        or_else (λ s. (has x s, s))
          (when (not (has x safe_globals)) (some_of (self records) (elems args)))
    call_tainted _ args = pure false

    -- `prop.type === "Property" && …(prop.value)`
    abbrev pub property_tainted : Node → Eval
    property_tainted (property k v) = self records v
    property_tainted _ = pure false

    -- `el !== null && …(el)`
    abbrev pub element_tainted : Node → Eval
    element_tainted null = pure false
    element_tainted n = self records n

    -- The switch of `isExpressionTainted`.
    unfoldable pub expression_tainted : Node → Eval
    expression_tainted (identifier x) = λ s. (has x s, s)
    expression_tainted (member o p c) = member_tainted self records o p c
    expression_tainted (call f args) = call_tainted f args
    expression_tainted (yield a) = when (not (is_null a)) (self records a)
    expression_tainted (function arrow _ ps b) = callback_taints arrow ps b none
    expression_tainted (function expression _ ps b) = callback_taints expression ps b none
    expression_tainted (binary l r) = or_else (self records l) (self records r)
    expression_tainted (unary a) = self records a
    expression_tainted (conditional t c a) =
        or_else (self records t) (or_else (self records c) (self records a))
    expression_tainted (object ps) = some_of property_tainted (elems ps)
    expression_tainted (array es) = some_of element_tainted (elems es)
    expression_tainted (template es) = some_of (self records) (elems es)
    expression_tainted (spread a) = self records a
    expression_tainted _ = pure false

  -- `isExpressionTainted`, to a depth of calls.
  unfoldable pub tainted : ℕ → Names → Node → Eval
  tainted zero records n = pure false
  tainted (suc depth) records n = expression_tainted (tainted depth) records n
