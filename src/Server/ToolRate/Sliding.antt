-- ===== src/Server/ToolRate/Sliding.antt =====
-- Counting the calls of a sliding window.
use neural_mesh_protocol.Prelude.{
  ℕ, ◌+◌, ◌≤◌, Bool, true, ◌≡◌, refl, List, [], ◌∷◌, ◌++◌, arith, length, if◌then◌else◌,
}
use neural_mesh_protocol.Server.ToolRate.{is_active, active_calls}

-- The calls that are active later on are among those that are active now.
pub length-active_calls :
    (window now later : ℕ) (times : List ℕ)
    → now ≤ later
    → length (active_calls window later (active_calls window now times))
      ≡ length (active_calls window later times)
length-active_calls window now later [] le = refl
length-active_calls window now later (t ∷ times) le =
    ground (arith, length-active_calls window now later times)

pub length-active_calls-snoc :
    (window n now : ℕ) (times : List ℕ)
    → length (active_calls window n (times ++ now ∷ []))
      ≡ length (active_calls window n times) + (if is_active window n now then 1 else 0)
length-active_calls-snoc window n now [] = ground arith
length-active_calls-snoc window n now (t ∷ times) =
    ground (arith, length-active_calls-snoc window n now times)

module _ {ℓ} {A : Type ℓ} where
  -- how many elements pass a test
  abbrev pub count : (A → Bool) → List A → ℕ
  count p [] = 0
  count p (x ∷ xs) = (if p x then 1 else 0) + count p xs

  pub count-le :
      (p q : A → Bool)
      → ((x : A) → p x ≡ true → q x ≡ true)
      → (xs : List A) → count p xs ≤ count q xs
  count-le p q h [] = omega arith
  count-le p q h (x ∷ xs) = ground (arith, h x, count-le p q h xs)
