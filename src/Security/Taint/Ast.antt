-- ===== src/Security/Taint/Ast.antt =====
-- sdks/typescript/src/security/taint-analyzer.ts: the ESTree nodes that the analyzer tells apart, and the syntactic
-- tests on them. `acorn` parses and `acorn-walk` visits: both are parameters of the analyzer.
use neural_mesh_protocol.Prelude.{
  ℕ, ◌+◌, String, Bool, true, false, not, ◌&&◌, ◌||◌, Option, none, some, List, [], ◌∷◌, str_eq,
}
use neural_mesh_protocol.Prelude.Assoc.{has}

pub data FunctionKind : Type 0 where
  arrow expression declaration : FunctionKind

-- `null` stands where ESTree has null: a hole of an array, a return without a value, a variable
-- without an initialiser, a function without a name. `other` is any type of node that the
-- analyzer does not name, with its children.
mutual
  pub data Node : Type 0 where
    null : Node
    identifier : (name : String) → Node
    string_literal : (value : String) → Node
    other_literal : Node
    member : (object property : Node) (computed : Bool) → Node
    call : (callee : Node) (arguments : Nodes) → Node
    function : (kind : FunctionKind) (id : Node) (params : Nodes) (body : Node) → Node
    block : (body : Nodes) → Node
    binary : (left right : Node) → Node
    unary : (argument : Node) → Node
    conditional : (test consequent alternate : Node) → Node
    object : (properties : Nodes) → Node
    property : (key value : Node) → Node
    array : (elements : Nodes) → Node
    template : (expressions : Nodes) → Node
    spread : (argument : Node) → Node
    yield : (argument : Node) → Node
    return : (line : ℕ) (argument : Node) → Node
    variable_declaration : (declarations : Nodes) → Node
    declarator : (id init : Node) → Node
    assignment : (left right : Node) → Node
    for_of : (left right body : Node) → Node
    other : (children : Nodes) → Node

  pub data Nodes : Type 0 where
    nil : Nodes
    cons : Node → Nodes → Nodes

abbrev pub elems : Nodes → List Node
elems nil = []
elems (cons n ns) = n ∷ elems ns

abbrev pub is_null : Node → Bool
is_null null = true
is_null _ = false

abbrev pub is_block : Node → Bool
is_block (block _) = true
is_block _ = false

abbrev pub is_identifier : Node → Bool
is_identifier (identifier _) = true
is_identifier _ = false

-- The name, if the node is an `Identifier`.
abbrev pub identifier_name : Node → Option String
identifier_name (identifier x) = some x
identifier_name _ = none

-- Truthiness of a name: neither null nor "".
abbrev pub truthy : Option String → Bool
truthy none = false
truthy (some s) = not (str_eq s "")

-- `new Set(…).has(name)`, false on null
abbrev pub has_name : Option String → List String → Bool
has_name none names = false
has_name (some x) names = has x names

-- `name === text`, false on null
abbrev pub name_is : Option String → String → Bool
name_is none text = false
name_is (some x) text = str_eq x text

-- `getPropertyName`, of a member expression with this property and this `computed`
abbrev pub property_name : (property : Node) (computed : Bool) → Option String
property_name (identifier x) false = some x
property_name (string_literal v) true = some v
property_name _ _ = none

-- `isEnvRecordsAccess`
abbrev pub is_env_records : Node → Bool
is_env_records (member o p c) =
    name_is (property_name p c) "records" && name_is (identifier_name o) "env"
is_env_records (identifier x) = str_eq x "records"
is_env_records _ = false

-- `isEnvRecordsChain`
unfoldable pub is_env_records_chain : Node → Bool
is_env_records_chain (call (member o p c) args) =
    (name_is (property_name p c) "slice"
      || name_is (property_name p c) "filter"
      || name_is (property_name p c) "toSorted")
    && is_env_records_chain o
is_env_records_chain n = is_env_records n

-- How many nodes a tree has.
unfoldable mutual
  pub size : Node → ℕ
  size null = 1
  size (identifier _) = 1
  size (string_literal _) = 1
  size other_literal = 1
  size (member o p _) = 1 + size o + size p
  size (call f args) = 1 + size f + size_all args
  size (function _ id params body) = 1 + size id + size_all params + size body
  size (block body) = 1 + size_all body
  size (binary l r) = 1 + size l + size r
  size (unary a) = 1 + size a
  size (conditional t c a) = 1 + size t + size c + size a
  size (object ps) = 1 + size_all ps
  size (property k v) = 1 + size k + size v
  size (array es) = 1 + size_all es
  size (template es) = 1 + size_all es
  size (spread a) = 1 + size a
  size (yield a) = 1 + size a
  size (return _ a) = 1 + size a
  size (variable_declaration ds) = 1 + size_all ds
  size (declarator id init) = 1 + size id + size init
  size (assignment l r) = 1 + size l + size r
  size (for_of l r b) = 1 + size l + size r + size b
  size (other ns) = 1 + size_all ns

  pub size_all : Nodes → ℕ
  size_all nil = 0
  size_all (cons n ns) = size n + size_all ns
