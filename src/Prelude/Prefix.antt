-- ===== src/Prelude/Prefix.antt =====
-- The text after a prefix: `startsWith`, followed by `slice`.
use Prim.Native.Char.{code}
use Prim.Native.String.{String, ◌++◌}
use mathlib.Core.Path.{◌≡◌, sym, ap, ◌∙◌}
use mathlib.Core.Logic.{inl, inr}
use mathlib.Core.Option.{Option, none, some}
use native.Mathlib.Omega.{arith}
use text.Mathlib.TextEquality.{Char-path}
use text.Mathlib.TextLemmas.{nil-append, cons-append}
use neural_mesh_protocol.Prelude.Tests.{◌==◌, if◌then◌else◌, Bool-cases}

-- the text after a prefix
unfoldable pub strip_prefix : (prefix text : String) → Option String
strip_prefix String.[] text = some text
strip_prefix (String.◌∷◌ p prefix) String.[] = none
strip_prefix (String.◌∷◌ p prefix) (String.◌∷◌ c text) =
    let rest = strip_prefix prefix text in if code p == code c then rest else none

pub strip_prefix-append : (p t : String) → strip_prefix p (p ++ t) ≡ some t
unfolding strip_prefix
strip_prefix-append String.[] t = ap some (nil-append t)
strip_prefix-append (String.◌∷◌ c p) t =
    ap (strip_prefix (String.◌∷◌ c p)) (cons-append c p t) ∙ ground (arith, strip_prefix-append p t)

pub strip_prefix_sound : (p t r : String) → strip_prefix p t ≡ some r → t ≡ p ++ r
unfolding strip_prefix
strip_prefix_sound String.[] t r h = cc (h, nil-append r)
strip_prefix_sound (String.◌∷◌ c p) String.[] r h = absurd (cc h)
strip_prefix_sound (String.◌∷◌ c p) (String.◌∷◌ d t) r h = elim (Bool-cases (code c == code d)) [
  | inl same ↦
      ap (λ x. String.◌∷◌ x t) (Char-path d c (ground (arith, same)))
      ∙ ap (String.◌∷◌ c) (strip_prefix_sound p t r (ground (arith, h, same)))
      ∙ sym (cons-append c p r)
  | inr other ↦ absurd (ground (arith, h, other))
]
