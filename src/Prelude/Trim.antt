-- ===== src/Prelude/Trim.antt =====
-- `String.prototype.trim` and the splitting of a text.
use Prim.Native.Nat.{ℕ, suc, ◌≤◌}
use Prim.Native.Char.{Char, code}
use Prim.Native.String.{String, ◌++◌}
use mathlib.Core.Path.{◌≡◌, refl, ap, ◌∙◌}
use text.Mathlib.TextLemmas.{cons-append}
use mathlib.Core.Bool.{Bool, false, ◌&&◌, ◌||◌}
use mathlib.Core.Logic.{inl, inr}
use native.Mathlib.Omega.{arith}
use neural_mesh_protocol.Prelude.Tests.{leb, ◌==◌, if◌then◌else◌, Bool-cases}

abbrev pub text_size : String → ℕ
text_size String.[] = 0
text_size (String.◌∷◌ c s) = suc (text_size s)

-- the white space that `trim` removes
unfoldable pub is_space : ℕ → Bool
is_space c =
    (leb 9 c && leb c 13)
    || c == 32
    || c == 160
    || c == 5760
    || (leb 8192 c && leb c 8202)
    || c == 8232
    || c == 8233
    || c == 8239
    || c == 8287
    || c == 12288
    || c == 65279

unfoldable pub trim_start : String → String
trim_start String.[] = String.[]
trim_start (String.◌∷◌ c s) =
    let rest = trim_start s in if is_space (code c) then rest else String.◌∷◌ c s

unfoldable pub keep_char : Char → String → String
keep_char c String.[] = if is_space (code c) then String.[] else String.◌∷◌ c String.[]
keep_char c (String.◌∷◌ d s) = String.◌∷◌ c (String.◌∷◌ d s)

unfoldable pub trim_end : String → String
unfolding keep_char
trim_end String.[] = String.[]
trim_end (String.◌∷◌ c s) = keep_char c (trim_end s)

-- `String.prototype.trim`
unfoldable pub trim : String → String
unfolding trim_start trim_end
trim s = trim_end (trim_start s)

-- `text.split(separator)[0]`, for a separator of one character
unfoldable pub split_first : (separator : ℕ) → String → String
split_first separator String.[] = String.[]
split_first separator (String.◌∷◌ c s) =
    let rest = split_first separator s in
    if code c == separator then String.[] else String.◌∷◌ c rest

keep_char-le : (c : Char) (s : String) → text_size (keep_char c s) ≤ suc (text_size s)
unfolding keep_char
keep_char-le c String.[] = elim (Bool-cases (is_space (code c))) [
  | inl space ↦ rw space (omega arith)
  | inr other ↦ rw other (omega arith)
]
keep_char-le c (String.◌∷◌ d s) = omega arith

trim_start-le : (s : String) → text_size (trim_start s) ≤ text_size s
unfolding trim_start
trim_start-le String.[] = omega arith
trim_start-le (String.◌∷◌ c s) = ground (arith, trim_start-le s)

trim_end-le : (s : String) → text_size (trim_end s) ≤ text_size s
unfolding trim_end
trim_end-le String.[] = omega arith
trim_end-le (String.◌∷◌ c s) = omega (arith, trim_end-le s, keep_char-le c (trim_end s))

pub trim-le : (s : String) → text_size (trim s) ≤ text_size s
unfolding trim
trim-le s = omega (arith, trim_end-le (trim_start s), trim_start-le s)

keep_char-start :
    (c : Char) (s : String) → is_space (code c) ≡ false → trim_start (keep_char c s) ≡ keep_char c s
unfolding keep_char trim_start
keep_char-start c String.[] h = ground (arith, h)
keep_char-start c (String.◌∷◌ d s) h = ground (arith, h)

trim_start-trim : (s : String) → trim_start (trim_end (trim_start s)) ≡ trim_end (trim_start s)
unfolding trim_start trim_end
trim_start-trim String.[] = refl
trim_start-trim (String.◌∷◌ c s) = elim (Bool-cases (is_space (code c))) [
  | inl space ↦ rw space (trim_start-trim s)
  | inr other ↦ rw other (keep_char-start c (trim_end s) other)
]

trim_end-keep_char :
    (c : Char) (s : String) → trim_end s ≡ s → trim_end (keep_char c s) ≡ keep_char c s
unfolding keep_char trim_end
trim_end-keep_char c String.[] h = elim (Bool-cases (is_space (code c))) [
  | inl space ↦ rw space refl
  | inr other ↦ rw other (ground (arith, other))
]
trim_end-keep_char c (String.◌∷◌ d s) h = ap (keep_char c) h

trim_end-trim_end : (s : String) → trim_end (trim_end s) ≡ trim_end s
unfolding trim_end
trim_end-trim_end String.[] = refl
trim_end-trim_end (String.◌∷◌ c s) = trim_end-keep_char c (trim_end s) (trim_end-trim_end s)

-- A text without white space around it stays as it is.
pub trim-trim : (s : String) → trim (trim s) ≡ trim s
unfolding trim
trim-trim s = ap trim_end (trim_start-trim s) ∙ trim_end-trim_end (trim_start s)

trim_end-newline : (s : String) → trim_end (s ++ "\n") ≡ trim_end s
unfolding trim_end keep_char is_space
trim_end-newline String.[] = refl
trim_end-newline (String.◌∷◌ c s) =
    ap trim_end (cons-append c s "\n") ∙ ap (keep_char c) (trim_end-newline s)

-- A line feed at the end of a text is trimmed away.
pub trim-newline : (s : String) → trim (s ++ "\n") ≡ trim s
unfolding trim trim_start is_space
trim-newline String.[] = trim_end-newline String.[]
trim-newline (String.◌∷◌ c s) = elim (Bool-cases (is_space (code c))) [
  | inl space ↦ ap trim (cons-append c s "\n") ∙ rw space (trim-newline s)
  | inr other ↦ ap trim (cons-append c s "\n") ∙ rw other (ap (keep_char c) (trim_end-newline s))
]
