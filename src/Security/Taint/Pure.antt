-- ===== src/Security/Taint/Pure.antt =====
-- sdks/typescript/src/security/taint-analyzer.ts: a reference definition of the taint of an expression, as a predicate
-- of the two sets with no state. `Taint/Refines` proves the analyzer's evaluation equal to it.
use neural_mesh_protocol.Prelude.{
  ℕ, zero, suc, String, Bool, false, not, ◌&&◌, ◌||◌, Option, none, List, any, if◌then◌else◌,
}
use neural_mesh_protocol.Prelude.Assoc.{has}
use neural_mesh_protocol.Security.Taint.Ast.{
  FunctionKind, arrow, expression, Node, null, identifier, member, call, function, binary, unary,
  conditional, object, property, array, template, spread, yield, return, Nodes, elems, is_null,
  is_block, identifier_name, truthy, has_name, property_name, is_env_records,
}
use neural_mesh_protocol.Security.Taint.Eval.{
  Names, add_name, propagating_methods, safe_globals, param_name, is_pii, is_indexed_record,
  is_pii_literal, record_param, is_arrow, is_callback,
}

-- A restricted field of a record: `r.field`, `env.records[i].field` or `r["field"]`.
abbrev pub is_restricted : List String → Names → (object property : Node) (computed : Bool) → Bool
is_restricted pii records o p c =
    ((has_name (identifier_name o) records || is_indexed_record o)
      && is_pii pii (property_name p c))
    || (has_name (identifier_name o) records && is_pii_literal pii p c)

module _ (pii : List String) (visits : Node → List Node) where
  module _ (self : Names → Names → Node → Bool) where
    -- A return or a yield of a tainted value.
    abbrev pub result_dirty : Names → Names → Node → Bool
    result_dirty records s (return _ a) = not (is_null a) && self records s a
    result_dirty records s (yield a) = not (is_null a) && self records s a
    result_dirty records s _ = false

    abbrev pub callback_dirty :
        Names
        → Names
        → (kind : FunctionKind) (params : Nodes) (body : Node) (method : Option String) → Bool
    callback_dirty records s kind params body method =
        let scoped = add_name (param_name params (record_param method)) records in
        if is_arrow kind && not (is_block body)
        then self scoped s body
        else any (result_dirty scoped s) (visits body)

    abbrev pub first_callback_dirty : Names → Names → Nodes → Option String → Bool
    first_callback_dirty records s (Nodes.cons (function k _ ps b) _) method =
        callback_dirty records s k ps b method
    first_callback_dirty records s _ method = false

    abbrev pub method_call_dirty :
        Names → Names → (object : Node) (method : Option String) (args : Nodes) → Bool
    method_call_dirty records s o method args =
        (truthy method && has_name method propagating_methods && self records s o)
        || (if is_env_records o && is_callback args
            then first_callback_dirty records s args method
            else self records s o || any (self records s) (elems args))

    abbrev pub property_dirty : Names → Names → Node → Bool
    property_dirty records s (property k v) = self records s v
    property_dirty records s _ = false

    abbrev pub element_dirty : Names → Names → Node → Bool
    element_dirty records s null = false
    element_dirty records s n = self records s n

    unfoldable pub expression_dirty : Names → Names → Node → Bool
    expression_dirty records s (identifier x) = has x s
    expression_dirty records s (member o p c) = is_restricted pii records o p c || self records s o
    expression_dirty records s (call (member o p c) args) =
        method_call_dirty records s o (property_name p c) args
    expression_dirty records s (call (identifier x) args) =
        has x s || (not (has x safe_globals) && any (self records s) (elems args))
    expression_dirty records s (yield a) = not (is_null a) && self records s a
    expression_dirty records s (function arrow _ ps b) = callback_dirty records s arrow ps b none
    expression_dirty records s (function expression _ ps b) =
        callback_dirty records s expression ps b none
    expression_dirty records s (binary l r) = self records s l || self records s r
    expression_dirty records s (unary a) = self records s a
    expression_dirty records s (conditional t c a) =
        self records s t || (self records s c || self records s a)
    expression_dirty records s (object ps) = any (property_dirty records s) (elems ps)
    expression_dirty records s (array es) = any (element_dirty records s) (elems es)
    expression_dirty records s (template es) = any (self records s) (elems es)
    expression_dirty records s (spread a) = self records s a
    expression_dirty records s _ = false

  unfoldable pub dirty : ℕ → Names → Names → Node → Bool
  dirty zero records s n = false
  dirty (suc depth) records s n = expression_dirty (dirty depth) records s n
