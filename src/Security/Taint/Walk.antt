-- ===== src/Security/Taint/Walk.antt =====
-- A concrete walk for the examples: children first, then the node, as `acorn-walk` documents the
-- order of `simple`.
use neural_mesh_protocol.Prelude.{ℕ, zero, suc, ◌≤◌, List, [], ◌∷◌, ◌++◌, All, arith}
use neural_mesh_protocol.Security.Taint.Ast.{
  Node, member, call, function, block, binary, unary, conditional, object, property, array,
  template, spread, yield, return, variable_declaration, declarator, assignment, for_of, other,
  Nodes, elems, size, size_all,
}
use neural_mesh_protocol.Security.Taint.Inclusion.{IsWalk, All-le_trans, elems-le}

children : Node → List Node
children (member o p _) = o ∷ p ∷ []
children (call f args) = f ∷ elems args
children (function _ id params body) = id ∷ elems params ++ body ∷ []
children (block body) = elems body
children (binary l r) = l ∷ r ∷ []
children (unary a) = a ∷ []
children (conditional t c a) = t ∷ c ∷ a ∷ []
children (object ps) = elems ps
children (property k v) = k ∷ v ∷ []
children (array es) = elems es
children (template es) = elems es
children (spread a) = a ∷ []
children (yield a) = a ∷ []
children (return _ a) = a ∷ []
children (variable_declaration ds) = elems ds
children (declarator id init) = id ∷ init ∷ []
children (assignment l r) = l ∷ r ∷ []
children (for_of l r b) = l ∷ r ∷ b ∷ []
children (other ns) = elems ns
children _ = []

walk_list : (Node → List Node) → List Node → List Node
walk_list f [] = []
walk_list f (n ∷ ns) = f n ++ walk_list f ns

walk_to : ℕ → Node → List Node
walk_to zero n = n ∷ []
walk_to (suc depth) n = walk_list (walk_to depth) (children n) ++ n ∷ []

unfoldable pub post_order : Node → List Node
unfolding walk_to walk_list children
post_order n = walk_to (size n) n

abbrev IsBelow : ℕ → List Node → Type 0
IsBelow b ns = All (λ n. size n ≤ b) ns

IsBelow-append : (b : ℕ) (ns ms : List Node) → IsBelow b ns → IsBelow b ms → IsBelow b (ns ++ ms)
IsBelow-append b [] ms h k = k
IsBelow-append b (n ∷ ns) ms (h, hs) k = (h, IsBelow-append b ns ms hs k)

weaken : (ns : Nodes) (b : ℕ) → size_all ns ≤ b → IsBelow b (elems ns)
weaken ns b le = All-le_trans (elems ns) le (elems-le ns)

children-IsBelow : (n : Node) → IsBelow (size n) (children n)
unfolding children size
children-IsBelow (member o p _) = omega arith
children-IsBelow (call f args) = (omega arith, weaken args _ (omega arith))
children-IsBelow (function _ id params body) = (
  omega arith,
  IsBelow-append _ (elems params) (body ∷ []) (weaken params _ (omega arith)) (omega arith),
)
children-IsBelow (block body) = weaken body _ (omega arith)
children-IsBelow (binary l r) = omega arith
children-IsBelow (unary a) = omega arith
children-IsBelow (conditional t c a) = omega arith
children-IsBelow (object ps) = weaken ps _ (omega arith)
children-IsBelow (property k v) = omega arith
children-IsBelow (array es) = weaken es _ (omega arith)
children-IsBelow (template es) = weaken es _ (omega arith)
children-IsBelow (spread a) = omega arith
children-IsBelow (yield a) = omega arith
children-IsBelow (return _ a) = omega arith
children-IsBelow (variable_declaration ds) = weaken ds _ (omega arith)
children-IsBelow (declarator id init) = omega arith
children-IsBelow (assignment l r) = omega arith
children-IsBelow (for_of l r b) = omega arith
children-IsBelow (other ns) = weaken ns _ (omega arith)
children-IsBelow _ = tt

walk_list-IsBelow :
    (f : Node → List Node) (b : ℕ) (ns : List Node)
    → ((n : Node) → IsBelow (size n) (f n))
    → IsBelow b ns
    → IsBelow b (walk_list f ns)
unfolding walk_list
walk_list-IsBelow f b [] h k = tt
walk_list-IsBelow f b (n ∷ ns) h (k, ks) =
    IsBelow-append b (f n) (walk_list f ns) (All-le_trans (f n) k (h n))
      (walk_list-IsBelow f b ns h ks)

walk_to-IsBelow : (depth : ℕ) (n : Node) → IsBelow (size n) (walk_to depth n)
unfolding walk_to
walk_to-IsBelow zero n = omega arith
walk_to-IsBelow (suc depth) n =
    IsBelow-append (size n) (walk_list (walk_to depth) (children n)) (n ∷ [])
      (walk_list-IsBelow (walk_to depth) (size n) (children n) (walk_to-IsBelow depth)
        (children-IsBelow n))
      (omega arith)

pub post_order-IsWalk : IsWalk post_order
unfolding post_order
post_order-IsWalk n = walk_to-IsBelow (size n) n
