-- ===== src/Security/Taint/Flows.antt =====
-- sdks/typescript/src/security/taint-analyzer.ts: the propagation of taint through assignments.
use neural_mesh_protocol.Prelude.{
  ℕ, zero, suc, ◌+◌, ◌≤◌, ◌<◌, String, ◌≡◌, refl, sym, ap, subst, ◌⊎◌, inl, inr, Bool, true, false,
  not, ◌&&◌, Option, none, some, List, [], ◌∷◌, length, length-append, ◌==◌, any, All, arith,
  Bool-cases, if◌then◌else◌,
}
use neural_mesh_protocol.Prelude.Assoc.{has}
use neural_mesh_protocol.Security.Taint.Ast.{
  declaration, Node, identifier, member, call, function, declarator, assignment, elems, is_null,
  name_is, property_name, size,
}
use neural_mesh_protocol.Security.Taint.Eval.{Names, Eval, add_name, when}
use neural_mesh_protocol.Security.Taint.Pure.{callback_dirty}
use neural_mesh_protocol.Security.Taint.Refines.{Is, Is-callback, Is-some_of, tainted-eq-dirty}
use neural_mesh_protocol.Security.Taint.Passes.{
  for_each, is_expression_tainted, taint_if, visit_taint, taint_round, taint_rounds, tainted_vars,
}
use neural_mesh_protocol.Security.Taint.Analysis.{is_dirty}

-- Each of these names is in the set.
abbrev pub Holds : Option String → Names → Type 0
Holds none s = Unit
Holds (some x) s = has x s ≡ true

module _ (pii : List String) (visits : Node → List Node) (records : Names) where
  -- The variable that a node taints, where `s` are the tainted variables so far.
  abbrev pub flow : Names → Node → Option String
  flow s (declarator (identifier x) init) =
      if not (is_null init) && is_dirty pii visits records s init then some x else none
  flow s (assignment (identifier x) right) =
      if is_dirty pii visits records s right then some x else none
  flow s (function declaration (identifier f) ps body) =
      if callback_dirty pii visits (is_dirty pii visits) records s declaration ps body none
      then some f
      else none
  flow s (call (member (identifier x) p c) args) =
      if name_is (property_name p c) "push" && any (is_dirty pii visits records s) (elems args)
      then some x
      else none
  flow s _ = none

  taint_if-eq :
      (e : Eval) (b : Names → Bool) (x : String) (s : Names)
      → Is e b
      → taint_if pii visits e (some x) s ≡ add_name (if b s then some x else none) s
  taint_if-eq e b x s h = ground (arith, h s)

  Is-tainted :
      (r : Names) (n : Node)
      → Is (is_expression_tainted pii visits r n) (λ s. is_dirty pii visits r s n)
  unfolding is_expression_tainted
  Is-tainted r n s = tainted-eq-dirty pii visits (size n) r n s

  Is-when : {e : Eval} {p : Names → Bool} (b : Bool) → Is e p → Is (when b e) (λ s. b && p s)
  Is-when true h = h
  Is-when false h = λ s. refl

  -- A visit adds the variable that the node taints.
  pub visit_taint-eq-flow :
      (n : Node) (s : Names) → visit_taint pii visits records n s ≡ add_name (flow s n) s
  unfolding visit_taint
  visit_taint-eq-flow (declarator (identifier x) init) s =
      taint_if-eq _ (λ t. not (is_null init) && is_dirty pii visits records t init) x s
        (Is-when {p = λ t. is_dirty pii visits records t init} _ (Is-tainted records init))
  visit_taint-eq-flow (assignment (identifier x) right) s =
      taint_if-eq _ (λ t. is_dirty pii visits records t right) x s (Is-tainted records right)
  visit_taint-eq-flow (function declaration (identifier f) ps body) s =
      taint_if-eq _
        (λ t. callback_dirty pii visits (is_dirty pii visits) records t declaration ps body none) f
        s
        (Is-callback pii visits (is_expression_tainted pii visits) (is_dirty pii visits) Is-tainted
          records declaration ps body none)
  visit_taint-eq-flow (call (member (identifier x) p c) args) s =
      taint_if-eq _
        (λ t.
          name_is (property_name p c) "push" && any (is_dirty pii visits records t) (elems args))
        x s
        (Is-when {p = λ t. any (is_dirty pii visits records t) (elems args)} _ (
          Is-some_of (is_expression_tainted pii visits records) (is_dirty pii visits records)
            (elems args) (Is-tainted records)))
  visit_taint-eq-flow _ s = refl

  add_name-cases :
      (o : Option String) (s : Names)
      → (Holds o s × (add_name o s ≡ s)) ⊎ (length (add_name o s) ≡ length s + 1)
  add_name-cases none s = inl (tt, refl)
  add_name-cases (some x) s = elim (Bool-cases (has x s)) [
    | inl old ↦ inl (old, rw old refl)
    | inr new ↦ inr (rw new (length-append s (x ∷ [])))
  ]

  -- Every flow out of a node ends in the set.
  abbrev pub IsClosed : Names → List Node → Type 0
  IsClosed s ns = All (λ n. Holds (flow s n) s) ns

  abbrev walk : List Node → Names → Names
  walk ns s = for_each (visit_taint pii visits records) ns s

  -- A walk over the nodes changes nothing, all flows being recorded, or adds a variable.
  abbrev pub Walked : List Node → Names → Names → Type 0
  Walked ns s t = ((t ≡ s) × IsClosed s ns) ⊎ (length s + 1 ≤ length t)

  Walked-length : (ns : List Node) (s t : Names) → Walked ns s t → length s ≤ length t
  Walked-length ns s t (inl (e, _)) = rw e (omega arith)
  Walked-length ns s t (inr more) = omega arith

  Walked-cons :
      (n : Node) (ns : List Node) (s : Names)
      → ((t : Names) → Walked ns t (walk ns t))
      → (Holds (flow s n) s × (add_name (flow s n) s ≡ s))
        ⊎ (length (add_name (flow s n) s) ≡ length s + 1)
      → Walked (n ∷ ns) s (walk ns (add_name (flow s n) s))
  Walked-cons n ns s ih (inr longer) =
      let t = add_name (flow s n) s in
      inr (omega (arith, longer, Walked-length ns t (walk ns t) (ih t)))
  Walked-cons n ns s ih (inl (held, same)) =
      subst (λ t. Walked (n ∷ ns) s (walk ns t)) (sym same) (rest (ih s))
    where
      rest : Walked ns s (walk ns s) → Walked (n ∷ ns) s (walk ns s)
      rest (inl (e, closed)) = inl (e, (held, closed))
      rest (inr more) = inr more

  walk-cases : (ns : List Node) (s : Names) → Walked ns s (walk ns s)
  walk-cases [] s = inl (refl, tt)
  walk-cases (n ∷ ns) s =
      subst (λ t. Walked (n ∷ ns) s (walk ns t)) (sym (visit_taint-eq-flow n s))
        (Walked-cons n ns s (walk-cases ns) (add_name-cases (flow s n) s))

  Rounds : ℕ → Node → Names → Names → Type 0
  Rounds k ast s t = IsClosed t (visits ast) ⊎ (length s + k ≤ length t)

  Rounds-cases :
      (k : ℕ) (ast : Node) (s : Names) → Rounds k ast s (taint_rounds pii visits k ast records s)
  unfolding Rounds taint_rounds taint_round
  Rounds-cases zero ast s = inr (omega arith)
  Rounds-cases (suc k) ast s =
      next (walk-cases (visits ast) s) (Bool-cases (length (walk (visits ast) s) == length s))
        (Rounds-cases k ast (walk (visits ast) s))
    where
      t : Names
      t = walk (visits ast) s

      last : Names
      last = taint_rounds pii visits k ast records t

      next :
          Walked (visits ast) s t
          → ((length t == length s) ≡ true) ⊎ ((length t == length s) ≡ false)
          → Rounds k ast t last
          → Rounds (suc k) ast s (if length t == length s then t else last)
      next (inl (e, closed)) (inl same) ih = rw same (inl (rw e closed))
      next (inl (e, closed)) (inr other) ih =
          absurd (ground (arith, ap (λ (x : Names). length x) e))
      next (inr more) (inl same) ih = absurd (ground arith)
      next (inr more) (inr other) (inl closed) = rw other (inl closed)
      next (inr more) (inr other) (inr longer) = rw other (inr (omega arith))

  -- Unless it holds three variables or more, the set of tainted variables is closed: a variable
  -- that is declared or assigned with a tainted value, an array that a tainted value is pushed to
  -- and a function that returns one are all in it.
  pub tainted_vars-IsClosed :
      (ast : Node)
      → length (tainted_vars pii visits ast records) < 3
      → IsClosed (tainted_vars pii visits ast records) (visits ast)
  unfolding tainted_vars Rounds
  tainted_vars-IsClosed ast few = elim (Rounds-cases 3 ast []) [
    | inl closed ↦ closed
    | inr many ↦ absurd (omega arith)
  ]
