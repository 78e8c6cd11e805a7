-- ===== src/Security/Taint/Refines.antt =====
-- sdks/typescript/src/security/taint-analyzer.ts: the evaluation and the reference definition.
use neural_mesh_protocol.Prelude.{
  ℕ, zero, suc, String, ◌≡◌, refl, ap, Bool, true, false, ◌||◌, ◌&&◌, if◌then◌else◌, Option, none,
  List, [], ◌∷◌, any, arith,
}
use neural_mesh_protocol.Security.Taint.Ast.{
  FunctionKind, arrow, expression, Node, null, identifier, member, call, function, binary, unary,
  conditional, object, property, array, template, spread, yield, return, Nodes, elems, truthy,
  has_name, is_env_records, property_name,
}
use neural_mesh_protocol.Security.Taint.Eval.{
  Names, Eval, or_else, when, propagating_methods, is_callback, push_taints, some_of, visit_result,
  visit_results, member_tainted, callback_taints, first_callback_taints, method_call_tainted,
  call_tainted, property_tainted, element_tainted, expression_tainted, tainted,
}
use neural_mesh_protocol.Security.Taint.Pure.{
  result_dirty, callback_dirty, first_callback_dirty, method_call_dirty, property_dirty,
  element_dirty, expression_dirty, is_restricted, dirty,
}

-- The evaluation is the predicate, and changes nothing.
abbrev pub Is : Eval → (Names → Bool) → Type 0
Is e b = (s : Names) → e s ≡ (b s, s)

or_rotate : (a b c : Bool) → (a || (b || c)) ≡ ((b || a) || c)
or_rotate a b c = ground arith

Is-or_else :
    {a b : Eval} {p q : Names → Bool} → Is a p → Is b q → Is (or_else a b) (λ s. p s || q s)
Is-or_else h k s = ground (arith, h s, k s)

Is-when : {e : Eval} {p : Names → Bool} (b : Bool) → Is e p → Is (when b e) (λ s. b && p s)
Is-when true h = h
Is-when false h = λ s. refl

Is-if :
    {d e : Eval} {p q : Names → Bool} (b : Bool)
    → Is d p
    → Is e q
    → Is (if b then d else e) (λ s. if b then p s else q s)
Is-if true h k = h
Is-if false h k = k

pub Is-some_of :
    (f : Node → Eval) (g : Names → Node → Bool) (ns : List Node)
    → ((n : Node) → Is (f n) (λ s. g s n))
    → Is (some_of f ns) (λ s. any (g s) ns)
unfolding some_of
Is-some_of f g [] k s = refl
Is-some_of f g (n ∷ ns) k s = ground (arith, k n s, Is-some_of f g ns k s)

module _ (pii : List String) (visits : Node → List Node) (self : Names → Node → Eval)
    (pred : Names → Names → Node → Bool)
    (k : (records : Names) (n : Node) → Is (self records n) (λ s. pred records s n)) where
  Is-result :
      (records : Names) (n : Node)
      → Is
          (visit_result pii visits (self records) n)
          (λ s. result_dirty pii visits pred records s n)
  Is-result records (return l a) s = ground (arith, k records a s)
  Is-result records (yield a) s = ground (arith, k records a s)
  Is-result records _ s = refl

  Is-results :
      (records : Names) (ns : List Node) (found : Bool)
      → Is
          (visit_results pii visits (self records) ns found)
          (λ s. any (result_dirty pii visits pred records s) ns || found)
  unfolding visit_results
  Is-results records [] found s = refl
  Is-results records (n ∷ ns) found s = rw (Is-result records n s) (
      rw (Is-results records ns (result_dirty pii visits pred records s n || found))
        (ap (λ b. (b, s)) (or_rotate (any (result_dirty pii visits pred records s) ns) _ found)))

  module _ (records : Names) where
    Is-member :
        (o p : Node) (c : Bool)
        → Is
            (member_tainted pii visits self records o p c)
            (λ s. is_restricted pii records o p c || pred records s o)
    unfolding member_tainted
    Is-member o p c s = ground (arith, k records o s)

    pub Is-callback :
        (kind : FunctionKind) (params : Nodes) (body : Node) (method : Option String)
        → Is
            (callback_taints pii visits self records kind params body method)
            (λ s. callback_dirty pii visits pred records s kind params body method)
    unfolding callback_taints
    Is-callback kind params body method s = grind (arith, k, Is-results)

    Is-first_callback :
        (args : Nodes) (method : Option String)
        → Is
            (first_callback_taints pii visits self records args method)
            (λ s. first_callback_dirty pii visits pred records s args method)
    Is-first_callback (Nodes.cons (function kind _ ps b) _) method = Is-callback kind ps b method
    Is-first_callback _ method = λ s. refl

    -- After clean arguments a `push` adds nothing.
    Is-args :
        (o : Node) (method : Option String) (args : Nodes)
        → Is
            (or_else
              (some_of (self records) (elems args))
              (push_taints pii visits self records o method args))
            (λ s. any (pred records s) (elems args))
    Is-args o method args s =
        ground (arith, Is-some_of (self records) (pred records) (elems args) (k records) s)

    Is-method_call :
        (o : Node) (method : Option String) (args : Nodes)
        → Is
            (method_call_tainted pii visits self records o method args)
            (λ s. method_call_dirty pii visits pred records s o method args)
    unfolding method_call_tainted
    Is-method_call o method args =
        Is-or_else {p = λ s. propagates && pred records s o} {q = λ s. rest s}
          (Is-when {p = λ s. pred records s o} propagates (k records o))
          (Is-if {p = λ s. callback s} {q = λ s. plain s} (is_env_records o && is_callback args)
            (Is-first_callback args method)
            (Is-or_else {p = λ s. pred records s o} {q = λ s. any (pred records s) (elems args)}
              (k records o) (Is-args o method args)))
      where
        propagates : Bool
        propagates = truthy method && has_name method propagating_methods

        callback : Names → Bool
        callback s = first_callback_dirty pii visits pred records s args method

        plain : Names → Bool
        plain s = pred records s o || any (pred records s) (elems args)

        rest : Names → Bool
        rest s = if is_env_records o && is_callback args then callback s else plain s

    Is-expression :
        (n : Node)
        → Is
            (expression_tainted pii visits self records n)
            (λ s. expression_dirty pii visits pred records s n)
    unfolding expression_tainted expression_dirty call_tainted
    Is-expression (identifier x) = λ s. refl
    Is-expression (member o p c) = Is-member o p c
    Is-expression (call (member o p c) args) = Is-method_call o (property_name p c) args
    Is-expression (call (identifier x) args) =
        λ s. ground (arith, Is-some_of (self records) (pred records) (elems args) (k records) s)
    Is-expression (yield a) = λ s. ground (arith, k records a s)
    Is-expression (function arrow _ ps b) = Is-callback arrow ps b none
    Is-expression (function expression _ ps b) = Is-callback expression ps b none
    Is-expression (binary l r) = λ s. ground (arith, k records l s, k records r s)
    Is-expression (unary a) = k records a
    Is-expression (conditional t c a) =
        λ s. ground (arith, k records t s, k records c s, k records a s)
    Is-expression (object ps) =
        Is-some_of (property_tainted pii visits self records)
          (property_dirty pii visits pred records) (elems ps)
          (elim [ property key v ↦ k records v | _ ↦ λ s. refl ])
    Is-expression (array es) =
        Is-some_of (element_tainted pii visits self records) (element_dirty pii visits pred records)
          (elems es) (elim [ null ↦ λ s. refl | n ↦ k records n ])
    Is-expression (template es) = Is-some_of (self records) (pred records) (elems es) (k records)
    Is-expression (spread a) = k records a
    Is-expression _ = λ s. refl

-- Evaluating an expression gives the value of the reference definition and leaves the set of
-- tainted variables as it was: the code that adds the receiver of a `push` adds nothing.
pub tainted-eq-dirty :
    (pii : List String) (visits : Node → List Node) (depth : ℕ) (records : Names) (n : Node)
    (s : Names)
    → tainted pii visits depth records n s ≡ (dirty pii visits depth records s n, s)
unfolding tainted dirty
tainted-eq-dirty pii visits zero records n s = refl
tainted-eq-dirty pii visits (suc depth) records n s =
    Is-expression pii visits (tainted pii visits depth) (dirty pii visits depth)
      (tainted-eq-dirty pii visits depth) records n s
