-- ===== src/Prelude/Bytes.antt =====
-- Byte buffers: a byte is a number below 256.
use Prim.Native.Nat.{ℕ, ◌+◌, ◌*◌, ◌/◌, ◌%◌, ◌<◌}
use mathlib.Core.Path.{◌≡◌, refl}
use mathlib.Core.Bool.{Bool, true, false, ◌&&◌}
use mathlib.Core.Logic.{◌↔◌}
use mathlib.Core.List.{List, [], ◌∷◌, ◌++◌}
use mathlib.Core.Option.{Option, none, some}
use native.Mathlib.Omega.{arith}
use neural_mesh_protocol.Prelude.Tests.{◌==◌}
use neural_mesh_protocol.Prelude.Lists.{get_elem?}

abbrev pub Bytes : Type 0
Bytes = List ℕ

abbrev byte_of : Option ℕ → ℕ
byte_of none = 0
byte_of (some b) = b

-- The byte at an index that is in range.
abbrev pub byte_at : Bytes → ℕ → ℕ
byte_at buffer i = byte_of (get_elem? buffer i)

-- The four bytes of a number, the highest first; of a larger number, its lowest 32 bits.
abbrev pub uint32_be : ℕ → Bytes
uint32_be n = n / 16777216 % 256 ∷ n / 65536 % 256 ∷ n / 256 % 256 ∷ n % 256 ∷ []

-- The number in the four bytes at an index that is in range.
abbrev pub read_uint32_be : Bytes → ℕ → ℕ
read_uint32_be buffer i =
    byte_at buffer i * 16777216
    + byte_at buffer (i + 1) * 65536
    + byte_at buffer (i + 2) * 256
    + byte_at buffer (i + 3)

pub read_uint32_be-uint32_be :
    (n flag : ℕ) (rest : Bytes) → n < 4294967296 → read_uint32_be (flag ∷ uint32_be n ++ rest) 1 ≡ n
read_uint32_be-uint32_be n flag rest lt = omega arith

-- `writeUInt16BE`, of a number below 2 ^ 16
abbrev pub uint16_be : ℕ → Bytes
uint16_be n = n / 256 % 256 ∷ n % 256 ∷ []

-- `readUInt16BE`
abbrev pub read_uint16_be : Bytes → ℕ → ℕ
read_uint16_be buffer i = byte_at buffer i * 256 + byte_at buffer (i + 1)

-- Two buffers with the same bytes.
abbrev pub bytes_eq : Bytes → Bytes → Bool
bytes_eq [] [] = true
bytes_eq [] (b ∷ bs) = false
bytes_eq (a ∷ rest) [] = false
bytes_eq (a ∷ rest) (b ∷ bs) = a == b && bytes_eq rest bs

pub bytes_eq_iff : (a b : Bytes) → (bytes_eq a b ≡ true) ↔ (a ≡ b)
bytes_eq_iff [] [] = ((λ _. refl), λ _. refl)
bytes_eq_iff [] (b ∷ bs) = ((λ h. absurd (cc h)), λ h. absurd (cc h))
bytes_eq_iff (a ∷ rest) [] = ((λ h. absurd (cc h)), λ h. absurd (cc h))
bytes_eq_iff (a ∷ rest) (b ∷ bs) = ground (arith, bytes_eq_iff rest bs)
