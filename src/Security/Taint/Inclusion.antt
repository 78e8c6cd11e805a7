-- ===== src/Security/Taint/Inclusion.antt =====
-- sdks/typescript/src/security/taint-analyzer.ts: sets of names with more members, and walks within a tree.
use neural_mesh_protocol.Prelude.{
  ℕ, ◌≤◌, ◌<◌, String, ◌≡◌, Bool, true, false, ◌&&◌, ◌||◌, Option, none, some, List, [], ◌∷◌, ◌++◌,
  any, All, arith, str_eq, str_eq_iff, if◌then◌else◌,
}
use neural_mesh_protocol.Prelude.Assoc.{has}
use neural_mesh_protocol.Security.Taint.Ast.{
  Node, null, Nodes, elems, size, size_all, identifier_name, has_name,
}
use neural_mesh_protocol.Security.Taint.Eval.{Names, add, add_name}
use neural_mesh_protocol.Security.Taint.Pure.{is_restricted}

-- Implication between tests, and inclusion of sets of names.
infix 3 ◌⇒◌
abbrev pub ◌⇒◌ : Bool → Bool → Type 0
a ⇒ b = a ≡ true → b ≡ true

abbrev pub Sub : Names → Names → Type 0
Sub s t = (x : String) → has x s ⇒ has x t

pub or_mono : (a b c d : Bool) → (a ⇒ c) → (b ⇒ d) → (a || b) ⇒ (c || d)
or_mono a b c d h k t = ground (arith, h, k)

pub and_mono : (a b c d : Bool) → (a ⇒ c) → (b ⇒ d) → (a && b) ⇒ (c && d)
and_mono a b c d h k t = ground (arith, h, k)

pub if_mono :
    (c : Bool) {x y x' y' : Bool}
    → (x ⇒ x')
    → (y ⇒ y')
    → (if c then x else y) ⇒ (if c then x' else y')
if_mono true h k = h
if_mono false h k = k

pub any_mono : (f g : Node → Bool) (ns : List Node) → All (λ n. f n ⇒ g n) ns → any f ns ⇒ any g ns
any_mono f g [] h t = t
any_mono f g (n ∷ ns) (h, hs) t = or_mono (f n) (any f ns) (g n) (any g ns) h (any_mono f g ns hs) t

has-add : (x y : String) (s : Names) → has x (s ++ y ∷ []) ≡ (has x s || str_eq y x)
has-add x y [] = ground arith
has-add x y (z ∷ s) = ground (arith, has-add x y s)

pub Sub-add : (y : String) (s t : Names) → Sub s t → Sub (add y s) (add y t)
Sub-add y s t h x m = ground (arith, h x, h y, has-add x y s, has-add x y t, str_eq_iff y x)

pub Sub-add_name : (o : Option String) (s t : Names) → Sub s t → Sub (add_name o s) (add_name o t)
Sub-add_name none s t h = h
Sub-add_name (some y) s t h = Sub-add y s t h

pub Sub-add_new : (y : String) (s : Names) → Sub s (add y s)
Sub-add_new y s x m = ground (arith, has-add x y s)

pub All-le_trans :
    {b c : ℕ} (ns : List Node) → b ≤ c → All (λ n. size n ≤ b) ns → All (λ n. size n ≤ c) ns
All-le_trans [] le h = tt
All-le_trans (n ∷ ns) le (h, hs) = (omega arith, All-le_trans ns le hs)

pub elems-le : (ns : Nodes) → All (λ n. size n ≤ size_all ns) (elems ns)
unfolding size
elems-le Nodes.nil = tt
elems-le (Nodes.cons n ns) = (omega arith, All-le_trans (elems ns) (omega arith) (elems-le ns))

pub size_pos : (n : Node) → 0 < size n
unfolding size
size_pos null = omega arith
size_pos _ = omega arith

-- The visited nodes are part of the tree that is walked.
abbrev pub IsWalk : (Node → List Node) → Type 0
IsWalk visits = (n : Node) → All (λ m. size m ≤ size n) (visits n)

has_name-mono : (o : Option String) (r r' : Names) → Sub r r' → has_name o r ⇒ has_name o r'
has_name-mono none r r' h t = t
has_name-mono (some x) r r' h t = h x t

pub is_restricted-mono :
    (pii : List String) (r r' : Names) (o p : Node) (c : Bool)
    → Sub r r'
    → is_restricted pii r o p c ⇒ is_restricted pii r' o p c
is_restricted-mono pii r r' o p c h t = ground (arith, has_name-mono (identifier_name o) r r' h)
