-- ===== src/Prelude/Json/Members.antt =====
-- The members of a JSON object: assignment, `delete` and the spread of a value.
use Prim.Native.Nat.{ℕ, suc}
use Prim.Native.String.{String}
use mathlib.Core.Path.{◌≡◌, refl}
use mathlib.Core.Option.{none, some}
use native.Mathlib.Omega.{arith}
use text.Mathlib.Text.{◌==◌}
use text.Mathlib.TextEquality.{eq_iff}
use neural_mesh_protocol.Prelude.Tests.{if◌then◌else◌}
use neural_mesh_protocol.Prelude.Text.{decimal}
use neural_mesh_protocol.Prelude.Json.{Json, Jsons, nil, cons, Entries, empty, entry, member_of}

-- `object[key] = value`
unfoldable pub set_member : (key : String) → Json → Entries → Entries
set_member key value empty = entry key value empty
set_member key value (entry k v es) =
    if k == key then entry k value es else entry k v (set_member key value es)

-- `delete object[key]`
unfoldable pub remove_member : (key : String) → Entries → Entries
remove_member key empty = empty
remove_member key (entry k v es) =
    let rest = remove_member key es in if k == key then rest else entry k v rest

-- `{ ...first, ...second }`
unfoldable pub spread : (first second : Entries) → Entries
spread first empty = first
spread first (entry k v es) = spread (set_member k v first) es

-- `{ ...items }` of an array: its indices are the keys
unfoldable pub index_members : (from : ℕ) → Jsons → Entries
index_members from nil = empty
index_members from (cons v vs) = entry (decimal from) v (index_members (suc from) vs)

pub member_of-remove_member :
    (key wanted : String) (es : Entries)
    → member_of wanted (remove_member key es)
      ≡ (if key == wanted then none else member_of wanted es)
unfolding member_of remove_member
member_of-remove_member key wanted empty = ground arith
member_of-remove_member key wanted (entry k v es) =
    ground (
      arith,
      member_of-remove_member key wanted es,
      eq_iff k key,
      eq_iff k wanted,
      eq_iff key wanted,
    )

member_of-set_member :
    (key wanted : String) (value : Json) (es : Entries)
    → member_of wanted (set_member key value es)
      ≡ (if key == wanted then some value else member_of wanted es)
unfolding member_of set_member
member_of-set_member key wanted value empty = refl
member_of-set_member key wanted value (entry k v es) = ground (
  arith,
  member_of-set_member key wanted value es,
  eq_iff k key,
  eq_iff k wanted,
  eq_iff key wanted,
)
