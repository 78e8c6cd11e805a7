-- ===== src/Prelude/Json/Walk.antt =====
-- Checks that walk through a value, and also through the values in its texts.
use neural_mesh_protocol.Prelude.{
  ℕ, zero, suc, ◌<◌, ◌≤◌, String, Bool, true, false, ◌||◌, ◌≡◌, ◌↔◌, refl, ap, Option, none, some,
  List, [], ◌∷◌, arith, any, get_elem?, if◌then◌else◌,
}
use neural_mesh_protocol.Prelude.Trim.{text_size}
use neural_mesh_protocol.Prelude.Json.{
  Json, null, boolean, number, string, array, object, Jsons, Entries, empty, entry, items, values,
  weight, weight_items, weight_values,
}

any-index :
    (f : Json → Bool) (vs : List Json) (i : ℕ) (u : Json)
    → any f vs ≡ false
    → get_elem? vs i ≡ some u
    → f u ≡ false
any-index f [] i u h e = absurd (cc e)
any-index f (v ∷ vs) zero u h e = ground (arith, h, e)
any-index f (v ∷ vs) (suc i) u h e = any-index f vs i u (ground (arith, h)) e

any-eq-false :
    (f : Json → Bool) (vs : List Json)
    → ((i : ℕ) (u : Json) → get_elem? vs i ≡ some u → f u ≡ false)
    → any f vs ≡ false
any-eq-false f [] h = refl
any-eq-false f (v ∷ vs) h = ground (arith, h 0 v refl, any-eq-false f vs (λ i u e. h (suc i) u e))

abbrev value_of : Json → Option Json → Json
value_of v none = v
value_of v (some u) = u

pub some_eq : (v u : Json) → some v ≡ some u → v ≡ u
some_eq v u e = ap (value_of v) e

pub items-le :
    (vs : Jsons) (i : ℕ) (u : Json) → get_elem? (items vs) i ≡ some u → weight u ≤ weight_items vs
unfolding weight
items-le Jsons.nil i u e = absurd (cc e)
items-le (Jsons.cons v vs) zero u e = omega (arith, ap weight (some_eq v u e))
items-le (Jsons.cons v vs) (suc i) u e = omega (arith, items-le vs i u e)

pub values-le :
    (es : Entries) (i : ℕ) (u : Json)
    → get_elem? (values es) i ≡ some u
    → weight u ≤ weight_values es
unfolding weight
values-le empty i u e = absurd (cc e)
values-le (entry k v es) zero u e = omega (arith, ap weight (some_eq v u e))
values-le (entry k v es) (suc i) u e = omega (arith, values-le es i u e)

pub weight_pos : (v : Json) → 1 ≤ weight v
unfolding weight
weight_pos (string t) = omega arith
weight_pos (array vs) = omega arith
weight_pos (object es) = omega arith
weight_pos null = omega arith
weight_pos (boolean b) = omega arith
weight_pos (number t) = omega arith

pub if_some :
    (b : Bool) (o : Option Json) (u : Json) → (if b then o else none) ≡ some u → o ≡ some u
if_some true o u e = e
if_some false o u e = absurd (cc e)

abbrev pub parts_of : Option Json → List Json
parts_of none = []
parts_of (some v) = v ∷ []

pub parts_of-some :
    (o : Option Json) (i : ℕ) (u : Json) → get_elem? (parts_of o) i ≡ some u → o ≡ some u
parts_of-some none i u e = absurd (cc e)
parts_of-some (some v) zero u e = e
parts_of-some (some v) (suc i) u e = absurd (cc e)

-- The one part of a text that is parsed if a test holds.
pub text_index :
    (b : Bool) (o : Option Json) (i : ℕ) (u : Json)
    → get_elem? (if b then parts_of o else []) i ≡ some u
    → o ≡ some u
text_index true o i u e = parts_of-some o i u e
text_index false o i u e = absurd (cc e)

-- The parser takes at least one character for each part of a value.
abbrev pub IsParser : (String → Option Json) → Type 0
IsParser parse = (t : String) (v : Json) → parse t ≡ some v → weight v ≤ text_size t

module _ (parts : Json → List Json) where
  -- A value and all that the check goes on to from it.
  pub data Reaches : Json → Json → Type 0 where
    here : (v : Json) → Reaches v v
    inner : (v u w : Json) (i : ℕ) → get_elem? (parts v) i ≡ some u → Reaches u w → Reaches v w

module _ (parts : Json → List Json) (exposes : Json → Bool) (fails : ℕ → Json → Bool)
    (fails-parts : (depth : ℕ) (v : Json)
      → fails (suc depth) v ≡ (exposes v || any (fails depth) (parts v)))
    (parts-lt : (v : Json) (i : ℕ) (u : Json)
      → get_elem? (parts v) i ≡ some u
      → weight u < weight v) where
  sound :
      (depth : ℕ) (v : Json)
      → weight v ≤ depth
      → fails depth v ≡ false
      → (w : Json) → Reaches parts v w
      → exposes w ≡ false
  sound zero v le h w r = absurd (omega (arith, weight_pos v))
  sound (suc depth) v le h _ (here _) = ground (arith, h, fails-parts depth v)
  sound (suc depth) v le h w (inner _ u _ i e r) =
      let clean : any (fails depth) (parts v) ≡ false = ground (arith, h, fails-parts depth v) in
      sound depth u (omega (arith, parts-lt v i u e, le))
        (any-index (fails depth) (parts v) i u clean e) w r

  complete :
      (depth : ℕ) (v : Json)
      → weight v ≤ depth
      → ((w : Json) → Reaches parts v w → exposes w ≡ false)
      → fails depth v ≡ false
  complete zero v le h = absurd (omega (arith, weight_pos v))
  complete (suc depth) v le h =
      let clean = any-eq-false (fails depth) (parts v) (λ i u e.
        complete depth u (omega (arith, parts-lt v i u e, le)) (λ w r. h w (inner v u w i e r))) in
      ground (arith, fails-parts depth v, h v (here v), clean)

  -- A check to the depth of the value fails exactly if it reaches a value that fails by itself.
  pub fails-eq-false_iff :
      (v : Json)
      → (fails (weight v) v ≡ false) ↔ ((w : Json) → Reaches parts v w → exposes w ≡ false)
  fails-eq-false_iff v = (sound (weight v) v (omega arith), complete (weight v) v (omega arith))
