-- ===== src/Server/Pii/Validators/Luhn.antt =====
-- sdks/typescript/src/server/pii.ts: the errors that the Luhn check finds.
use Prim.Native.Char.{Char, code}
use Prim.Native.String.{◌++◌ as append}
use text.Mathlib.TextEquality.{Char-path}
use text.Mathlib.TextLemmas.{nil-append, cons-append}
use neural_mesh_protocol.Prelude.{
  ℕ, ◌+◌, ◌-◌, ◌%◌, ◌≤◌, String, Bool, true, not, ◌||◌, List, [], ◌∷◌, ◌++◌, ◌≡◌, ◌⊎◌, inl, inr,
  refl, ap, sym, ◌∙◌, arith, length, ltb, if◌then◌else◌, Bool-cases,
}
use neural_mesh_protocol.Server.Pii.Validators.{
  is_digit, digits_of, luhn_digit, luhn_state, is_luhn_number, is_luhn_valid,
}

digits_of-append : (s t : String) → digits_of (append s t) ≡ digits_of s ++ digits_of t
unfolding digits_of
digits_of-append String.[] t = ap digits_of (nil-append t)
digits_of-append (String.◌∷◌ c s) t =
    ap digits_of (cons-append c s t) ∙ ground (arith, digits_of-append s t)

-- Two ends in the place of each other: the sums differ by the difference of theirs.
luhn_state-append :
    (digits xs ys : List ℕ)
    → (luhn_state xs).1 ≡ (luhn_state ys).1
    → ((luhn_state (digits ++ xs)).0 + (luhn_state ys).0
        ≡ (luhn_state (digits ++ ys)).0 + (luhn_state xs).0)
      × ((luhn_state (digits ++ xs)).1 ≡ (luhn_state (digits ++ ys)).1)
unfolding luhn_state
luhn_state-append [] xs ys h = (omega arith, h)
luhn_state-append (d ∷ digits) xs ys h =
    let (sums, same) = luhn_state-append digits xs ys h in
    (omega (arith, sums, ap (λ b. luhn_digit b d) same), ap not same)

luhn_digit-injective :
    (is_even : Bool) (c d a b : ℕ)
    → c ≤ 9
    → d ≤ 9
    → a % 10 ≡ 0
    → b % 10 ≡ 0
    → a + luhn_digit is_even d ≡ b + luhn_digit is_even c
    → c ≡ d
unfolding luhn_digit
luhn_digit-injective is_even c d a b hc hd ha hb e = ground (arith, e)

luhn_digit_swap :
    (is_even : Bool) (c d a b : ℕ)
    → c ≤ 9
    → d ≤ 9
    → a % 10 ≡ 0
    → b % 10 ≡ 0
    → a + (luhn_digit is_even c + luhn_digit (not is_even) d)
      ≡ b + (luhn_digit is_even d + luhn_digit (not is_even) c)
    → (c ≡ d) ⊎ (((c ≡ 0) × (d ≡ 9)) ⊎ ((c ≡ 9) × (d ≡ 0)))
unfolding luhn_digit
luhn_digit_swap is_even c d a b hc hd ha hb e = ground (arith, e)

is_luhn_number-sum :
    (digits : List ℕ) → is_luhn_number digits ≡ true → (luhn_state digits).0 % 10 ≡ 0
is_luhn_number-sum digits valid =
    elim (Bool-cases (ltb (length digits) 13 || ltb 19 (length digits))) [
      | inl bad ↦ absurd (ground (arith, valid, bad))
      | inr good ↦ ground (arith, valid, good)
    ]

digits_of-cons :
    (before after : String) (c : Char)
    → is_digit (code c) ≡ true
    → digits_of (append before (String.◌∷◌ c after))
      ≡ digits_of before ++ (code c - 48) ∷ digits_of after
unfolding digits_of
digits_of-cons before after c digit =
    digits_of-append before (String.◌∷◌ c after)
    ∙ ap (λ b. digits_of before ++ (if b then (code c - 48) ∷ digits_of after else digits_of after))
        digit

digits_of-pair :
    (before after : String) (c d : Char)
    → is_digit (code c) ≡ true
    → is_digit (code d) ≡ true
    → digits_of (append before (String.◌∷◌ c (String.◌∷◌ d after)))
      ≡ digits_of before ++ (code c - 48) ∷ (code d - 48) ∷ digits_of after
unfolding digits_of
digits_of-pair before after c d digit_c digit_d =
    digits_of-cons before (String.◌∷◌ d after) c digit_c
    ∙ ap
        (λ b.
          digits_of before
          ++ (code c - 48) ∷ (if b then (code d - 48) ∷ digits_of after else digits_of after))
        digit_d

valid-sum :
    (text : String) (digits : List ℕ)
    → digits_of text ≡ digits
    → is_luhn_valid text ≡ true
    → (luhn_state digits).0 % 10 ≡ 0
unfolding is_luhn_valid
valid-sum text digits same valid = is_luhn_number-sum digits (ap is_luhn_number (sym same) ∙ valid)

-- The Luhn check finds every error in one digit: of two numbers that differ in one digit, at most
-- one is valid.
pub single_error_detected :
    (before after : String) (c d : Char)
    → is_digit (code c) ≡ true
    → is_digit (code d) ≡ true
    → is_luhn_valid (append before (String.◌∷◌ c after)) ≡ true
    → is_luhn_valid (append before (String.◌∷◌ d after)) ≡ true
    → c ≡ d
unfolding luhn_state
single_error_detected before after c d digit_c digit_d valid_c valid_d =
    let rest : List ℕ = digits_of after in
    let sums =
      luhn_state-append (digits_of before) ((code c - 48) ∷ rest) ((code d - 48) ∷ rest) refl in
    let same : code c - 48 ≡ code d - 48 =
      luhn_digit-injective (luhn_state rest).1 (code c - 48) (code d - 48) _ _
        (ground (arith, digit_c)) (ground (arith, digit_d))
        (valid-sum _ _ (digits_of-cons before after c digit_c) valid_c)
        (valid-sum _ _ (digits_of-cons before after d digit_d) valid_d) (omega (arith, sums.0)) in
    Char-path c d (ground (arith, same, digit_c, digit_d))

-- It finds every transposition of two adjacent digits but that of 0 and 9.
pub transposition_detected :
    (before after : String) (c d : Char)
    → is_digit (code c) ≡ true
    → is_digit (code d) ≡ true
    → is_luhn_valid (append before (String.◌∷◌ c (String.◌∷◌ d after))) ≡ true
    → is_luhn_valid (append before (String.◌∷◌ d (String.◌∷◌ c after))) ≡ true
    → (c ≡ d) ⊎ (((code c ≡ b'0') × (code d ≡ b'9')) ⊎ ((code c ≡ b'9') × (code d ≡ b'0')))
unfolding luhn_state
transposition_detected before after c d digit_c digit_d valid_c valid_d =
    let m : ℕ = code c - 48 in
    let n : ℕ = code d - 48 in
    let rest : List ℕ = digits_of after in
    let sums = luhn_state-append (digits_of before) (m ∷ n ∷ rest) (n ∷ m ∷ rest) refl in
    elim (luhn_digit_swap (luhn_state rest).1 m n _ _ (ground (arith, digit_c))
      (ground (arith, digit_d))
      (valid-sum _ _ (digits_of-pair before after c d digit_c digit_d) valid_c)
      (valid-sum _ _ (digits_of-pair before after d c digit_d digit_c) valid_d)
      (omega (arith, sums.0))) [
        | inl same ↦ inl (Char-path c d (ground (arith, same, digit_c, digit_d)))
        | inr (inl (zero_c, nine_d)) ↦
            inr (inl (ground (arith, zero_c, digit_c), ground (arith, nine_d, digit_d)))
        | inr (inr (nine_c, zero_d)) ↦
            inr (inr (ground (arith, nine_c, digit_c), ground (arith, zero_d, digit_d)))
      ]
