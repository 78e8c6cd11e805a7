-- ===== src/Security/Taint/Depth.antt =====
-- sdks/typescript/src/security/taint-analyzer.ts: `isExpressionTainted` under more variables and a greater depth.
use neural_mesh_protocol.Prelude.{ℕ, String, ◌≤◌, ◌≡◌, List, ap, true, sym, ◌∙◌}
use neural_mesh_protocol.Security.Taint.Ast.{Node, size}
use neural_mesh_protocol.Security.Taint.Eval.{Names, tainted}
use neural_mesh_protocol.Security.Taint.Refines.{tainted-eq-dirty}
use neural_mesh_protocol.Security.Taint.Monotone.{dirty-mono, dirty-depth}
use neural_mesh_protocol.Security.Taint.Inclusion.{IsWalk, Sub}

module _ (pii : List String) (visits : Node → List Node) (walk : IsWalk visits) where
  -- For a walk that visits only parts of the tree: what is tainted stays tainted when there are more
  -- record-bound or tainted variables and the depth of calls is at least the size of the
  -- expression.
  pub tainted_mono :
      (d e : ℕ) (n : Node) (r r' s s' : Names)
      → size n ≤ e
      → Sub r r'
      → Sub s s'
      → (tainted pii visits d r n s).0 ≡ true
      → (tainted pii visits e r' n s').0 ≡ true
  tainted_mono d e n r r' s s' le i j h =
      ap (λ x. x.0) (tainted-eq-dirty pii visits e r' n s')
      ∙ dirty-mono pii visits walk d e n le r r' s s' i j
          (sym (ap (λ x. x.0) (tainted-eq-dirty pii visits d r n s)) ∙ h)

  -- For a walk that visits only parts of the tree: the depth of calls makes no difference once it
  -- reaches the size of the expression.
  pub tainted-depth :
      (d e : ℕ) (r s : Names) (n : Node)
      → size n ≤ d
      → size n ≤ e
      → tainted pii visits d r n s ≡ tainted pii visits e r n s
  tainted-depth d e r s n hd he =
      tainted-eq-dirty pii visits d r n s
      ∙ ap (λ b. (b, s)) (dirty-depth pii visits walk d e r s n hd he)
      ∙ sym (tainted-eq-dirty pii visits e r n s)
