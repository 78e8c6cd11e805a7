-- ===== src/Security/Taint/Repeats.antt =====
-- sdks/typescript/src/security/taint-analyzer.ts: when the count of the correlation guard reaches two.
use neural_mesh_protocol.Prelude.{
  ℕ, ◌+◌, ◌≤◌, String, ◌≡◌, refl, ap, ◌∙◌, ◌↔◌, none, List, [], ◌∷◌, arith, Bool-cases, inl, inr,
  if◌then◌else◌, str_eq, str_eq_iff, str_eq_refl,
}
use neural_mesh_protocol.Prelude.Assoc.{Assoc, lookup, insert, lookup-insert}
use neural_mesh_protocol.Security.Taint.Passes.{for_each}
use neural_mesh_protocol.Security.Taint.Gates.{count_of, count_field, first_repeated}

-- How often a field is in the list.
abbrev pub times : String → List String → ℕ
times field [] = 0
times field (f ∷ fs) = (if str_eq f field then 1 else 0) + times field fs

-- What the map counts of a field.
abbrev pub held : String → Assoc ℕ → ℕ
held f counts = count_of (lookup f counts)

head-repeated :
    (g : String) (n : ℕ) (counts : Assoc ℕ)
    → (first_repeated ((g, n) ∷ counts) ≡ none) ↔ ((n ≤ 1) × (first_repeated counts ≡ none))
unfolding first_repeated
head-repeated g n counts = ground arith

held-head :
    (f g : String) (n : ℕ) (counts : Assoc ℕ)
    → held f ((g, n) ∷ counts) ≡ (if str_eq g f then n else held f counts)
unfolding lookup
held-head f g n counts = ground arith

insert-repeated :
    (f : String) (k : ℕ) (counts : Assoc ℕ)
    → held f counts ≡ k
    → (first_repeated (insert f (k + 1) counts) ≡ none) ↔ ((first_repeated counts ≡ none) × (k ≡ 0))
unfolding insert
insert-repeated f k [] is_held =
    let (to, from) = head-repeated f (k + 1) [] in
    (
      (λ h. let (small, rest) = to h in (rest, omega (arith, small))),
      λ (h, zero). from (omega (arith, zero), h),
    )
insert-repeated f k ((g, n) ∷ counts) is_held = elim (Bool-cases (str_eq g f)) [
  | inl same ↦
      let (to, from) = head-repeated f (k + 1) counts in
      let (to_old, from_old) = head-repeated g n counts in
      let known : n ≡ k = ground (arith, same, held-head f g n counts, is_held) in
      rw same (
        (λ h.
            let (small, rest) = to h in
            (from_old (omega (arith, small, known), rest), omega (arith, small))),
        λ (h, zero). let (small, rest) = to_old h in from (omega (arith, zero), rest),
      )
  | inr other ↦
      let (to, from) = head-repeated g n (insert f (k + 1) counts) in
      let (to_old, from_old) = head-repeated g n counts in
      let (to_rest, from_rest) =
        insert-repeated f k counts (ground (arith, other, held-head f g n counts, is_held)) in
      rw other (
        (λ h.
            let (small, rest) = to h in
            let (old, zero) = to_rest rest in (from_old (small, old), zero)),
        λ (h, zero). let (small, old) = to_old h in from (small, from_rest (old, zero)),
      )
]

held-count_field :
    (f g : String) (counts : Assoc ℕ)
    → held g (count_field f counts) ≡ (if str_eq f g then 1 else 0) + held g counts
unfolding count_field
held-count_field f g counts = elim (Bool-cases (str_eq f g)) [
  | inl same ↦
      ap count_of (lookup-insert f g (held f counts + 1) counts)
      ∙ rw same (
          let same_text = (str_eq_iff f g).0 same in
          omega (arith, ap (λ x. held x counts) same_text))
  | inr other ↦ ap count_of (lookup-insert f g (held f counts + 1) counts) ∙ rw other (omega arith)
]

-- The fields of the list, counted after those of the map, are each counted once.
abbrev pub Single : List String → Assoc ℕ → Type 0
Single fs counts = (g : String) → 1 ≤ times g fs → held g counts + times g fs ≤ 1

Single-cons :
    (f : String) (fs : List String) (counts : Assoc ℕ)
    → ((held f counts ≡ 0) × Single fs (count_field f counts)) ↔ Single (f ∷ fs) counts
Single-cons f fs counts = (
  (λ (zero, single). λ g some_g. elim (Bool-cases (str_eq f g)) [
    | inl same ↦
        let at = ap (λ x. held x counts) ((str_eq_iff f g).0 same) in
        ground (arith, same, at, zero, single g, held-count_field f g counts)
    | inr other ↦ ground (arith, other, some_g, single g, held-count_field f g counts)
  ]),
  λ single. (
    ground (arith, single f, str_eq_refl f),
    λ g some_g. ground (arith, some_g, single g, held-count_field f g counts),
  ),
)

pub counted-once :
    (fs : List String) (counts : Assoc ℕ)
    → (first_repeated (for_each count_field fs counts) ≡ none)
      ↔ ((first_repeated counts ≡ none) × Single fs counts)
unfolding count_field
counted-once [] counts = ((λ h. (h, λ g e. absurd (omega (arith, e)))), λ (h, _). h)
counted-once (f ∷ fs) counts =
    let (to, from) = counted-once fs (count_field f counts) in
    let (one, both) = insert-repeated f (held f counts) counts refl in
    let (join, split) = Single-cons f fs counts in
    (
      (λ h. let (rest, single) = to h in let (old, zero) = one rest in (old, join (zero, single))),
      λ (old, single). let (zero, rest) = split single in from (both (old, zero), rest),
    )
