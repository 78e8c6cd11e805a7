-- ===== src/Prelude/Split.antt =====
-- `split`, `pop` and `join` with a separator of one character, `endsWith`, and `slice(-n)`.
use Prim.Native.Nat.{ℕ}
use Prim.Native.Char.{Char, code}
use Prim.Native.String.{String, ◌++◌}
use mathlib.Core.Path.{◌≡◌, refl, sym, ap, ◌∙◌}
use mathlib.Core.Logic.{inl, inr}
use mathlib.Core.Bool.{Bool, true, false, ◌||◌}
use mathlib.Core.Option.{Option, none, some}
use mathlib.Core.List.{List, [], ◌∷◌}
use mathlib.Core.List
use native.Mathlib.Omega.{arith}
use text.Mathlib.Text.{◌==◌}
use text.Mathlib.TextEquality.{Char-path}
use text.Mathlib.TextPositions.{eq_refl}
use text.Mathlib.TextLemmas.{nil-append, cons-append}
use neural_mesh_protocol.Prelude.Tests.{
  leb, ◌==◌ as same_number, ==_iff as same_number_iff, if◌then◌else◌, Bool-cases,
}
use neural_mesh_protocol.Prelude.Trim.{text_size}

-- The parts of a text: `split` gives one part at least.
abbrev Parts : Type 0
Parts = String × List String

abbrev split_step : Bool → Char → Parts → Parts
split_step true c (part, parts) = ("", part ∷ parts)
split_step false c (part, parts) = (String.◌∷◌ c part, parts)

-- `text.split(separator)`
unfoldable pub split : (separator : ℕ) → String → Parts
split separator String.[] = ("", [])
split separator (String.◌∷◌ c s) = split_step (same_number (code c) separator) c (split separator s)

-- `parts.join(separator)`
unfoldable pub join : (separator : String) → String → List String → String
join separator part [] = part
join separator part (next ∷ parts) = part ++ (separator ++ join separator next parts)

-- what `parts.pop()` returns, and what it leaves, after a first part
unfoldable pub last_part : String → List String → String
last_part part [] = part
last_part part (next ∷ parts) = last_part next parts

unfoldable pub but_last : String → List String → List String
but_last part [] = []
but_last part (next ∷ parts) = part ∷ but_last next parts

unfoldable pub has_char : ℕ → String → Bool
has_char separator String.[] = false
has_char separator (String.◌∷◌ c s) = same_number (code c) separator || has_char separator s

-- `text.endsWith(suffix)`
unfoldable pub ends_with : (text suffix : String) → Bool
ends_with String.[] suffix = "" == suffix
ends_with (String.◌∷◌ c s) suffix = String.◌∷◌ c s == suffix || ends_with s suffix

-- `text.slice(-n)`
unfoldable pub last_chars : ℕ → String → String
last_chars n String.[] = ""
last_chars n (String.◌∷◌ c s) =
    let rest = last_chars n s in if leb (text_size (String.◌∷◌ c s)) n then String.◌∷◌ c s else rest

ends_with-last_chars : (n : ℕ) (s : String) → ends_with s (last_chars n s) ≡ true
unfolding ends_with last_chars
ends_with-last_chars n String.[] = refl
ends_with-last_chars n (String.◌∷◌ c s) = elim (Bool-cases (leb (text_size (String.◌∷◌ c s)) n)) [
  | inl short ↦ rw short (ground (arith, eq_refl (String.◌∷◌ c s)))
  | inr long ↦ rw long (ground (arith, ends_with-last_chars n s))
]

pub has_char-last_chars :
    (separator n : ℕ) (s : String)
    → has_char separator s ≡ false
    → has_char separator (last_chars n s) ≡ false
unfolding has_char last_chars
has_char-last_chars separator n String.[] h = refl
has_char-last_chars separator n (String.◌∷◌ c s) h =
    elim (Bool-cases (leb (text_size (String.◌∷◌ c s)) n)) [
      | inl short ↦ rw short h
      | inr long ↦ rw long (ground (arith, has_char-last_chars separator n s))
    ]

ends_with_self : (s : String) → ends_with s s ≡ true
unfolding ends_with
ends_with_self String.[] = refl
ends_with_self (String.◌∷◌ c s) = ground (arith, eq_refl (String.◌∷◌ c s))

pub ends_with-append : (s suffix : String) → ends_with (s ++ suffix) suffix ≡ true
unfolding ends_with
ends_with-append String.[] suffix =
    ap (λ t. ends_with t suffix) (nil-append suffix) ∙ ends_with_self suffix
ends_with-append (String.◌∷◌ c s) suffix =
    ap (λ t. ends_with t suffix) (cons-append c s suffix)
    ∙ ground (arith, ends_with-append s suffix)

split-no_separator :
    (separator : ℕ) (s : String) → has_char separator s ≡ false → split separator s ≡ (s, [])
unfolding split has_char
split-no_separator separator String.[] h = refl
split-no_separator separator (String.◌∷◌ c s) h =
    elim (Bool-cases (same_number (code c) separator)) [
      | inl hit ↦ absurd (ground (arith, h, hit))
      | inr miss ↦
          rw miss
            (ap (split_step false c) (split-no_separator separator s (ground (arith, h, miss))))
    ]

-- a part more at the end
abbrev add_part : Parts → String → Parts
add_part (part, parts) s = (part, List.◌++◌ parts (s ∷ []))

split_step-add_part :
    (hit : Bool) (c : Char) (parts : Parts) (s : String)
    → split_step hit c (add_part parts s) ≡ add_part (split_step hit c parts) s
split_step-add_part true c parts s = refl
split_step-add_part false c parts s = refl

-- A text after a separator is the last part, if the separator does not occur in it.
split-append :
    (separator : Char) (t s : String)
    → has_char (code separator) s ≡ false
    → split (code separator) (t ++ String.◌∷◌ separator s) ≡ add_part (split (code separator) t) s
unfolding split
split-append separator String.[] s h =
    ap (split (code separator)) (nil-append (String.◌∷◌ separator s))
    ∙ ap (λ b. split_step b separator (split (code separator) s))
        ((same_number_iff (code separator) (code separator)).1 refl)
    ∙ ap (split_step true separator) (split-no_separator (code separator) s h)
split-append separator (String.◌∷◌ c t) s h =
    ap (split (code separator)) (cons-append c t (String.◌∷◌ separator s))
    ∙ ap (split_step (same_number (code c) (code separator)) c) (split-append separator t s h)
    ∙ split_step-add_part _ c (split (code separator) t) s

abbrev join_parts : String → Parts → String
join_parts separator (part, parts) = join separator part parts

join-cons :
    (c : Char) (separator part : String) (parts : List String)
    → join separator (String.◌∷◌ c part) parts ≡ String.◌∷◌ c (join separator part parts)
unfolding join
join-cons c separator part [] = refl
join-cons c separator part (next ∷ parts) =
    cons-append c part (separator ++ join separator next parts)

join-split_step :
    (hit : Bool) (separator c : Char) (parts : Parts)
    → (hit ≡ true → c ≡ separator)
    → join_parts (String.◌∷◌ separator "") (split_step hit c parts)
      ≡ String.◌∷◌ c (join_parts (String.◌∷◌ separator "") parts)
unfolding join
join-split_step true separator c (part, parts) h =
    nil-append (String.◌∷◌ separator "" ++ join (String.◌∷◌ separator "") part parts)
    ∙ cons-append separator "" (join (String.◌∷◌ separator "") part parts)
    ∙ ap (String.◌∷◌ separator) (nil-append (join (String.◌∷◌ separator "") part parts))
    ∙ ap (λ x. String.◌∷◌ x (join (String.◌∷◌ separator "") part parts)) (sym (h refl))
join-split_step false separator c (part, parts) h = join-cons c (String.◌∷◌ separator "") part parts

join-split :
    (separator : Char) (t : String)
    → join_parts (String.◌∷◌ separator "") (split (code separator) t) ≡ t
unfolding split join
join-split separator String.[] = refl
join-split separator (String.◌∷◌ c t) =
    join-split_step (same_number (code c) (code separator)) separator c (split (code separator) t)
      (λ h. Char-path c separator (ground (arith, h)))
    ∙ ap (String.◌∷◌ c) (join-split separator t)

last_part-append :
    (part : String) (parts : List String) (s : String)
    → last_part part (List.◌++◌ parts (s ∷ [])) ≡ s
unfolding last_part
last_part-append part [] s = refl
last_part-append part (next ∷ parts) s = last_part-append next parts s

but_last-append :
    (part : String) (parts : List String) (s : String)
    → but_last part (List.◌++◌ parts (s ∷ [])) ≡ part ∷ parts
unfolding but_last
but_last-append part [] s = refl
but_last-append part (next ∷ parts) s = ap (λ l. part ∷ l) (but_last-append next parts s)

-- The last of several parts, and the others joined again.
unfoldable pub cut_last : (separator : String) → Parts → Option (String × String)
cut_last separator (part, []) = none
cut_last separator (part, next ∷ parts) =
    some (last_part next parts, join separator part (but_last next parts))

cut_last-add_part :
    (separator : String) (parts : Parts) (s : String)
    → cut_last separator (add_part parts s) ≡ some (s, join_parts separator parts)
unfolding cut_last last_part but_last
cut_last-add_part separator (part, []) s = refl
cut_last-add_part separator (part, next ∷ parts) s =
    ap (λ l. some (l, join separator part (but_last next (List.◌++◌ parts (s ∷ [])))))
      (last_part-append next parts s)
    ∙ ap (λ l. some (s, join separator part l)) (but_last-append next parts s)

-- A text without the separator, after the separator, is cut off again.
pub cut_last-append :
    (separator : Char) (t s : String)
    → has_char (code separator) s ≡ false
    → cut_last (String.◌∷◌ separator "") (split (code separator) (t ++ String.◌∷◌ separator s))
      ≡ some (s, t)
cut_last-append separator t s h =
    ap (cut_last (String.◌∷◌ separator "")) (split-append separator t s h)
    ∙ cut_last-add_part (String.◌∷◌ separator "") (split (code separator) t) s
    ∙ ap (λ x. some (s, x)) (join-split separator t)
