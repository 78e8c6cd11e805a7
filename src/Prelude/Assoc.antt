-- ===== src/Prelude/Assoc.antt =====
-- A string-keyed `Map`: an association list in insertion order, as JavaScript iterates it.
use Prim.Native.String.{String}
use mathlib.Core.Path.{◌≡◌, refl, subst}
use mathlib.Core.Logic.{inl, inr}
use mathlib.Core.Bool.{Bool, false, ◌||◌}
use mathlib.Core.Option.{Option, none, some}
use mathlib.Core.List.{List, [], ◌∷◌, ◌++◌}
use native.Mathlib.Omega.{arith}
use text.Mathlib.Text.{◌==◌}
use text.Mathlib.TextEquality.{eq_iff}
use neural_mesh_protocol.Prelude.Tests.{if◌then◌else◌, Bool-cases}
use neural_mesh_protocol.Prelude.Lists.{All}

abbrev pub Assoc {ℓ} : Type ℓ → Type ℓ
Assoc V = List (String × V)

-- `Set.prototype.has` on a set of strings, kept as the list of its members
abbrev pub has : String → List String → Bool
has k [] = false
has k (j ∷ js) = j == k || has k js

-- To prove a statement of every text, prove it at each key and at the texts that are no key.
pub by_keys {ℓ} :
    (P : String → Type ℓ) (keys : List String)
    → All P keys
    → ((k : String) → has k keys ≡ false → P k)
    → (k : String) → P k
by_keys P [] at_keys elsewhere k = elsewhere k refl
by_keys P (j ∷ js) (at_j, at_js) elsewhere k = elim (Bool-cases (j == k)) [
  | inl same ↦ subst P ((eq_iff j k).0 same) at_j
  | inr other ↦
      by_keys (λ i. (j == i) ≡ false → P i) js (All_const P j js at_js)
        (λ i none_of_js not_j. elsewhere i (rw not_j none_of_js)) k other
]
  where
    All_const :
        (Q : String → Type ℓ) (i : String) (ks : List String)
        → All Q ks
        → All (λ x. (i == x) ≡ false → Q x) ks
    All_const Q i [] h = tt
    All_const Q i (x ∷ ks) (q, h) = ((λ _. q), All_const Q i ks h)

module _ {ℓ} {V : Type ℓ} where
  -- `Map.prototype.get`
  unfoldable pub lookup : String → Assoc V → Option V
  lookup k [] = none
  lookup k ((j, v) ∷ m) = if j == k then some v else lookup k m

  -- `Map.prototype.set`: an old key keeps its place
  unfoldable pub insert : String → V → Assoc V → Assoc V
  insert k v [] = (k, v) ∷ []
  insert k v ((j, w) ∷ m) = if j == k then (k, v) ∷ m else (j, w) ∷ insert k v m

  -- `Map.prototype.delete`
  unfoldable pub remove : String → Assoc V → Assoc V
  remove k [] = []
  remove k ((j, v) ∷ m) = let rest = remove k m in if j == k then rest else (j, v) ∷ rest

  pub lookup-insert :
      (key wanted : String) (value : V) (entries : Assoc V)
      → lookup wanted (insert key value entries)
        ≡ (if key == wanted then some value else lookup wanted entries)
  unfolding lookup insert
  lookup-insert key wanted value [] = refl
  lookup-insert key wanted value ((first, old) ∷ entries) = ground (
    arith,
    lookup-insert key wanted value entries,
    eq_iff first wanted,
    eq_iff first key,
    eq_iff key wanted,
  )

  pub lookup-remove :
      (k j : String) (m : Assoc V) → lookup j (remove k m) ≡ (if k == j then none else lookup j m)
  unfolding lookup remove
  lookup-remove k j [] = ground arith
  lookup-remove k j ((i, v) ∷ m) =
      ground (arith, lookup-remove k j m, eq_iff i k, eq_iff i j, eq_iff k j)

module _ {ℓ} {V : Type ℓ} where
  abbrev pub keys : Assoc V → List String
  keys [] = []
  keys ((k, v) ∷ m) = k ∷ keys m

  pub lookup-eq-none : (k : String) (m : Assoc V) → has k (keys m) ≡ false → lookup k m ≡ none
  unfolding lookup
  lookup-eq-none k [] h = refl
  lookup-eq-none k ((j, v) ∷ m) h = ground (arith, lookup-eq-none k m)

module _ {ℓ} {V : Type ℓ} where
  -- A `Map` holds a key once.
  abbrev pub IsUnique : Assoc V → Type 0
  IsUnique [] = Unit
  IsUnique ((k, v) ∷ m) = (has k (keys m) ≡ false) × IsUnique m

  has-insert :
      (k j : String) (v : V) (m : Assoc V)
      → has j (keys m) ≡ false
      → (k == j) ≡ false
      → has j (keys (insert k v m)) ≡ false
  unfolding insert
  has-insert k j v [] h ne = ground arith
  has-insert k j v ((i, w) ∷ m) h ne = ground (arith, has-insert k j v m)

  pub insert-IsUnique : (k : String) (v : V) (m : Assoc V) → IsUnique m → IsUnique (insert k v m)
  unfolding insert
  insert-IsUnique k v [] h = (refl, tt)
  insert-IsUnique k v ((i, w) ∷ m) h =
      ground (arith, insert-IsUnique k v m, has-insert k i v m, eq_iff i k, eq_iff k i)

  has-remove :
      (k j : String) (m : Assoc V) → has j (keys m) ≡ false → has j (keys (remove k m)) ≡ false
  unfolding remove
  has-remove k j [] h = refl
  has-remove k j ((i, v) ∷ m) h = ground (arith, has-remove k j m)

  pub remove-IsUnique : (k : String) (m : Assoc V) → IsUnique m → IsUnique (remove k m)
  unfolding remove
  remove-IsUnique k [] h = tt
  remove-IsUnique k ((i, v) ∷ m) h = ground (arith, remove-IsUnique k m, has-remove k i m)

  -- Keep the entries whose value passes a test.
  unfoldable pub filter_values : (V → Bool) → Assoc V → Assoc V
  filter_values p [] = []
  filter_values p ((k, v) ∷ m) = let rest = filter_values p m in if p v then (k, v) ∷ rest else rest

  has-filter_values :
      (p : V → Bool) (k : String) (m : Assoc V)
      → has k (keys m) ≡ false
      → has k (keys (filter_values p m)) ≡ false
  unfolding filter_values
  has-filter_values p k [] h = refl
  has-filter_values p k ((j, v) ∷ m) h = ground (arith, has-filter_values p k m)

  pub filter_values-IsUnique :
      (p : V → Bool) (m : Assoc V) → IsUnique m → IsUnique (filter_values p m)
  unfolding filter_values
  filter_values-IsUnique p [] h = tt
  filter_values-IsUnique p ((k, v) ∷ m) h =
      ground (arith, filter_values-IsUnique p m, has-filter_values p k m)

  abbrev pub keep : (V → Bool) → Option V → Option V
  keep p none = none
  keep p (some v) = if p v then some v else none

  pub lookup-filter_values :
      (p : V → Bool) (k : String) (m : Assoc V)
      → IsUnique m
      → lookup k (filter_values p m) ≡ keep p (lookup k m)
  unfolding lookup filter_values
  lookup-filter_values p k [] h = refl
  lookup-filter_values p k ((j, v) ∷ m) h = ground (
    arith,
    eq_iff j k,
    lookup-filter_values p k m,
    lookup-eq-none k (filter_values p m),
    has-filter_values p k m,
  )

pub has-append :
    (k : String) (xs ys : List String)
    → has k (xs ++ ys) ≡ false
    → (has k xs ≡ false) × (has k ys ≡ false)
has-append k [] ys h = (refl, h)
has-append k (x ∷ xs) ys h = ground (arith, has-append k xs ys)

pub ruleset map_laws = (lookup-insert, lookup-remove)
