-- ===== src/Security/Taint/Monotone.antt =====
-- sdks/typescript/src/security/taint-analyzer.ts: the reference definition under more record-bound or tainted
-- variables and a greater depth.
use neural_mesh_protocol.Prelude.{
  ℕ, zero, suc, ◌≤◌, ◌<◌, String, ◌≡◌, Bool, not, ◌&&◌, Option, none, List, [], ◌∷◌, any, All,
  arith,
}
use neural_mesh_protocol.Security.Taint.Ast.{
  FunctionKind, arrow, expression, Node, null, identifier, member, call, function, binary, unary,
  conditional, object, property, array, template, spread, yield, return, Nodes, elems,
  property_name, size, size_all, is_block, is_env_records,
}
use neural_mesh_protocol.Security.Taint.Eval.{
  Names, add_name, param_name, record_param, is_arrow, is_callback,
}
use neural_mesh_protocol.Security.Taint.Pure.{
  result_dirty, callback_dirty, first_callback_dirty, method_call_dirty, property_dirty,
  element_dirty, expression_dirty, dirty,
}
use neural_mesh_protocol.Security.Taint.Inclusion.{
  ◌⇒◌, Sub, or_mono, and_mono, if_mono, any_mono, Sub-add_name, elems-le, size_pos, IsWalk,
  is_restricted-mono,
}

module _ (pii : List String) (visits : Node → List Node) (walk : IsWalk visits)
    (f g : Names → Names → Node → Bool) (b : ℕ)
    (below : (m : Node)
      → size m < b
      → (r r' s s' : Names) → Sub r r'
      → Sub s s'
      → f r s m ⇒ g r' s' m) where
  below-All :
      (r r' s s' : Names) (ns : List Node)
      → Sub r r'
      → Sub s s'
      → (c : ℕ) → c < b
      → All (λ n. size n ≤ c) ns
      → All (λ n. f r s n ⇒ g r' s' n) ns
  below-All r r' s s' [] i j c lt h = tt
  below-All r r' s s' (n ∷ ns) i j c lt (h, hs) =
      (below n (omega arith) r r' s s' i j, below-All r r' s s' ns i j c lt hs)

  module _ (s s' : Names) (j : Sub s s') where
    result-mono :
        (r r' : Names)
        → Sub r r'
        → (n : Node) → size n < b
        → result_dirty pii visits f r s n ⇒ result_dirty pii visits g r' s' n
    unfolding size
    result-mono r r' i (return l a) lt =
        and_mono _ _ _ _ (λ t. t) (below a (omega arith) r r' s s' i j)
    result-mono r r' i (yield a) lt =
        and_mono _ _ _ _ (λ t. t) (below a (omega arith) r r' s s' i j)
    result-mono r r' i _ lt = λ t. t

    result-mono-All :
        (r r' : Names)
        → Sub r r'
        → (ns : List Node) (c : ℕ) → c < b
        → All (λ n. size n ≤ c) ns
        → All (λ n. result_dirty pii visits f r s n ⇒ result_dirty pii visits g r' s' n) ns
    result-mono-All r r' i [] c lt h = tt
    result-mono-All r r' i (n ∷ ns) c lt (h, hs) =
        (result-mono r r' i n (omega arith), result-mono-All r r' i ns c lt hs)

    module _ (r r' : Names) (i : Sub r r') where
      self-mono : (n : Node) → size n < b → f r s n ⇒ g r' s' n
      self-mono n lt = below n lt r r' s s' i j

      any_self-mono :
          (ns : Nodes) → size_all ns < b → any (f r s) (elems ns) ⇒ any (g r' s') (elems ns)
      any_self-mono ns lt =
          any_mono (f r s) (g r' s') (elems ns)
            (below-All r r' s s' (elems ns) i j (size_all ns) lt (elems-le ns))

      callback-mono :
          (kind : FunctionKind) (ps : Nodes) (body : Node) (method : Option String)
          → size body < b
          → callback_dirty pii visits f r s kind ps body method
            ⇒ callback_dirty pii visits g r' s' kind ps body method
      callback-mono kind ps body method lt =
          let o = param_name ps (record_param method) in
          let k = Sub-add_name o r r' i in
          if_mono (is_arrow kind && not (is_block body))
            (below body lt (add_name o r) (add_name o r') s s' k j)
            (any_mono (result_dirty pii visits f (add_name o r) s)
              (result_dirty pii visits g (add_name o r') s') (visits body)
              (result-mono-All (add_name o r) (add_name o r') k (visits body) (size body) lt
                (walk body)))

      first_callback-mono :
          (args : Nodes) (method : Option String)
          → size_all args < b
          → first_callback_dirty pii visits f r s args method
            ⇒ first_callback_dirty pii visits g r' s' args method
      unfolding size
      first_callback-mono (Nodes.cons (function kind id ps body) ns) method lt =
          callback-mono kind ps body method (omega arith)
      first_callback-mono _ method lt = λ t. t

      method_call-mono :
          (o : Node) (method : Option String) (args : Nodes)
          → size o < b
          → size_all args < b
          → method_call_dirty pii visits f r s o method args
            ⇒ method_call_dirty pii visits g r' s' o method args
      method_call-mono o method args lo la t =
          or_mono _ _ _ _ (and_mono _ _ _ _ (λ u. u) (self-mono o lo))
            (if_mono (is_env_records o && is_callback args) (first_callback-mono args method la)
              (or_mono _ _ _ _ (self-mono o lo) (any_self-mono args la)))
            t

      property-mono :
          (n : Node)
          → size n < b
          → property_dirty pii visits f r s n ⇒ property_dirty pii visits g r' s' n
      unfolding size
      property-mono (property key v) lt = self-mono v (omega arith)
      property-mono _ lt = λ t. t

      element-mono :
          (n : Node)
          → size n < b
          → element_dirty pii visits f r s n ⇒ element_dirty pii visits g r' s' n
      element-mono null lt = λ t. t
      element-mono n lt = self-mono n lt

      -- The same for the items of a list of nodes.
      items-mono :
          (p q : Node → Bool)
          → ((n : Node) → size n < b → p n ⇒ q n)
          → (ns : List Node) (c : ℕ) → c < b
          → All (λ n. size n ≤ c) ns
          → any p ns ⇒ any q ns
      items-mono p q h [] c lt k = λ t. t
      items-mono p q h (n ∷ ns) c lt (k, ks) =
          or_mono (p n) (any p ns) (q n) (any q ns) (h n (omega arith))
            (items-mono p q h ns c lt ks)

      expression-mono :
          (n : Node)
          → size n ≤ b
          → expression_dirty pii visits f r s n ⇒ expression_dirty pii visits g r' s' n
      unfolding expression_dirty size
      expression-mono (identifier x) lt = j x
      expression-mono (member o p c) lt =
          or_mono _ _ _ _ (is_restricted-mono pii r r' o p c i) (self-mono o (omega arith))
      expression-mono (call (member o p c) args) lt =
          method_call-mono o (property_name p c) args (omega arith) (omega arith)
      expression-mono (call (identifier x) args) lt =
          or_mono _ _ _ _ (j x) (and_mono _ _ _ _ (λ t. t) (any_self-mono args (omega arith)))
      expression-mono (yield a) lt = and_mono _ _ _ _ (λ t. t) (self-mono a (omega arith))
      expression-mono (function arrow id ps body) lt =
          callback-mono arrow ps body none (omega arith)
      expression-mono (function expression id ps body) lt =
          callback-mono expression ps body none (omega arith)
      expression-mono (binary l r₁) lt =
          or_mono _ _ _ _ (self-mono l (omega arith)) (self-mono r₁ (omega arith))
      expression-mono (unary a) lt = self-mono a (omega arith)
      expression-mono (conditional t c a) lt =
          or_mono _ _ _ _ (self-mono t (omega arith))
            (or_mono _ _ _ _ (self-mono c (omega arith)) (self-mono a (omega arith)))
      expression-mono (object ps) lt =
          items-mono (property_dirty pii visits f r s) (property_dirty pii visits g r' s')
            property-mono (elems ps) (size_all ps) (omega arith) (elems-le ps)
      expression-mono (array es) lt =
          items-mono (element_dirty pii visits f r s) (element_dirty pii visits g r' s')
            element-mono (elems es) (size_all es) (omega arith) (elems-le es)
      expression-mono (template es) lt = any_self-mono es (omega arith)
      expression-mono (spread a) lt = self-mono a (omega arith)
      expression-mono _ lt = λ t. t

module _ (pii : List String) (visits : Node → List Node) (walk : IsWalk visits) where
  -- With enough depth on the right, whatever the depth on the left.
  pub dirty-mono :
      (d e : ℕ) (n : Node)
      → size n ≤ e
      → (r r' s s' : Names) → Sub r r'
      → Sub s s'
      → dirty pii visits d r s n ⇒ dirty pii visits e r' s' n
  unfolding dirty
  dirty-mono zero e n le r r' s s' i j = λ t. cc
  dirty-mono (suc d) zero n le r r' s s' i j = absurd (omega (arith, size_pos n))
  dirty-mono (suc d) (suc e) n le r r' s s' i j =
      expression-mono pii visits walk (dirty pii visits d) (dirty pii visits e) (suc e)
        (λ m lt. dirty-mono d e m (omega arith)) s s' j r r' i n le

  true_ext : (a b : Bool) → (a ⇒ b) → (b ⇒ a) → a ≡ b
  true_ext a b h k = ground (arith, h, k)

  -- The depth of calls makes no difference once it reaches the size of the expression.
  pub dirty-depth :
      (d e : ℕ) (r s : Names) (n : Node)
      → size n ≤ d
      → size n ≤ e
      → dirty pii visits d r s n ≡ dirty pii visits e r s n
  dirty-depth d e r s n hd he =
      true_ext _ _ (dirty-mono d e n he r r s s (λ x t. t) (λ x t. t))
        (dirty-mono e d n hd r r s s (λ x t. t) (λ x t. t))
