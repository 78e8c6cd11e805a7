-- ===== src/Prelude/Text.antt =====
-- ASCII text: `toLowerCase` on the letters A to Z.
use Prim.Native.Nat.{ℕ, zero, suc, ◌+◌, ◌-◌, ◌/◌, ◌%◌}
use Prim.Native.Char.{Char, code}
use Prim.Native.String.{String, [], ◌∷◌, ◌++◌, char_at, slice, len}
use text.Mathlib.Text.{find?}
use mathlib.Core.Option.{none, some}
use mathlib.Core.Path.{◌≡◌, refl}
use mathlib.Core.Bool.{Bool, true, false, ◌&&◌}
use neural_mesh_protocol.Prelude.Tests.{leb, ltb, if◌then◌else◌}

lower_char : Char → Char
lower_char c =
    if leb b'A' (code c) && leb (code c) b'Z'
    then char_at "abcdefghijklmnopqrstuvwxyz" (code c - 65)
    else c

unfoldable pub to_lower_case : String → String
unfolding lower_char
to_lower_case [] = []
to_lower_case (c ∷ s) = lower_char c ∷ to_lower_case s

unfoldable pub upper_char : Char → Char
upper_char c =
    if leb b'a' (code c) && leb (code c) b'z'
    then char_at "ABCDEFGHIJKLMNOPQRSTUVWXYZ" (code c - 97)
    else c

unfoldable pub to_upper_case : String → String
unfolding upper_char
to_upper_case [] = []
to_upper_case (c ∷ s) = upper_char c ∷ to_upper_case s

lower_test : to_lower_case "AccountHolder_Z" ≡ "accountholder_z"
unfolding to_lower_case
lower_test = refl

-- One decimal digit.
digit : ℕ → String
digit d = slice "0123456789" d (d + 1)

decimal_from : ℕ → ℕ → String
decimal_from zero n = ""
decimal_from (suc fuel) n =
    let rest = decimal_from fuel (n / 10) in if ltb n 10 then digit n else rest ++ digit (n % 10)

-- A number in a template string; `n` has at most n + 1 digits.
unfoldable pub decimal : ℕ → String
unfolding decimal_from digit
decimal n = decimal_from (n + 1) n

-- `text.replace(pattern, replacement)`, of the first occurrence
unfoldable pub replace_first : (text pattern replacement : String) → String
replace_first text pattern replacement = elim (find? text pattern) [
  | none ↦ text
  | some i ↦ slice text 0 i ++ replacement ++ slice text (i + len pattern) (len text)
]

text_tests :
    (decimal 1205 ≡ "1205")
    × (replace_first "a\nbc b" "b" "xy" ≡ "a\nxyc b")
    × (replace_first "abc" "d" "x" ≡ "abc")
unfolding decimal replace_first
text_tests = (refl, refl, refl)

-- `text.includes(part)`
unfoldable pub includes : (text part : String) → Bool
includes text part = elim (find? text part) [ none ↦ false | some i ↦ true ]
