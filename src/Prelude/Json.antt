-- ===== src/Prelude/Json.antt =====
-- JSON values.
pub mod Walk
pub mod Members
use Prim.Native.Nat.{ℕ, suc, ◌+◌}
use Prim.Native.Char.{Char, code}
use Prim.Native.String
use Prim.Native.String.{String}
use mathlib.Core.Bool.{Bool, true, false, not}
use mathlib.Core.Option.{Option, none, some}
use mathlib.Core.List.{List, [], ◌∷◌}
use text.Mathlib.Text.{◌==◌}
use mathlib.Core.Bool.{◌&&◌, ◌||◌}
use neural_mesh_protocol.Prelude.Trim.{text_size}
use neural_mesh_protocol.Prelude.Tests.{if◌then◌else◌, ◌==◌ as same_number}

-- A JSON value; a number is given by its text, as `String` prints it.
mutual
  pub data Json : Type 0 where
    null : Json
    boolean : Bool → Json
    number : String → Json
    string : String → Json
    array : Jsons → Json
    object : Entries → Json

  pub data Jsons : Type 0 where
    nil : Jsons
    cons : Json → Jsons → Jsons

  pub data Entries : Type 0 where
    empty : Entries
    entry : (key : String) → Json → Entries → Entries

abbrev pub items : Jsons → List Json
items Jsons.nil = []
items (Jsons.cons v vs) = v ∷ items vs

-- `Object.values`
abbrev pub values : Entries → List Json
values empty = []
values (entry k v es) = v ∷ values es

-- The size of a value as it is nested: a text counts its characters.
unfoldable mutual
  pub weight : Json → ℕ
  weight (string t) = suc (text_size t)
  weight (array vs) = suc (weight_items vs)
  weight (object es) = suc (weight_values es)
  weight _ = 1

  pub weight_items : Jsons → ℕ
  weight_items Jsons.nil = 0
  weight_items (Jsons.cons v vs) = weight v + weight_items vs

  pub weight_values : Entries → ℕ
  weight_values empty = 0
  weight_values (entry k v es) = weight v + weight_values es

starts_with : ℕ → String → Bool
starts_with b String.[] = false
starts_with b (String.◌∷◌ c s) = same_number (code c) b

ends_with : ℕ → String → Bool
ends_with b String.[] = false
ends_with b (String.◌∷◌ c String.[]) = same_number (code c) b
ends_with b (String.◌∷◌ c (String.◌∷◌ d s)) = ends_with b (String.◌∷◌ d s)

-- `{…}` or `[…]`
unfoldable pub is_json_text : String → Bool
unfolding starts_with ends_with
is_json_text s =
    (starts_with b'{' s && ends_with b'}' s) || (starts_with b'[' s && ends_with b']' s)

-- `object[key]`, for a key that is not inherited
unfoldable pub member_of : String → Entries → Option Json
member_of key empty = none
member_of key (entry k v es) = if k == key then some v else member_of key es

-- `value.key` where `value` is not `null`; an array or a text has no such key
abbrev pub member : String → Json → Option Json
member key (object es) = member_of key es
member key _ = none

-- the truthiness of a value
abbrev pub is_truthy : Json → Bool
is_truthy null = false
is_truthy (boolean b) = b
is_truthy (number t) = not (t == "0")
is_truthy (string t) = not (t == "")
is_truthy _ = true

abbrev pub is_truthy_member : Option Json → Bool
is_truthy_member none = false
is_truthy_member (some v) = is_truthy v
