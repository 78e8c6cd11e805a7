-- ===== src/Server/Pii/Validators.antt =====
-- sdks/typescript/src/server/pii.ts: the validators of the patterns.
pub mod Luhn
use Prim.Native.Char.{Char, code}
use Prim.Native.String
use neural_mesh_protocol.Prelude.{
  ℕ, ◌+◌, ◌-◌, ◌*◌, ◌%◌, String, Bool, true, false, not, ◌&&◌, ◌||◌, Option, none, some, List, [],
  ◌∷◌, ◌++◌, all, length, take, drop, ltb, leb, ◌==◌, str_eq, if◌then◌else◌,
}
use neural_mesh_protocol.Prelude.Assoc.{has}
use neural_mesh_protocol.Prelude.Bytes.{bytes_eq}
use neural_mesh_protocol.Prelude.Trim.{is_space}
use neural_mesh_protocol.Server.Pii.Keys.{upper_code}

-- `\d`
abbrev pub is_digit : ℕ → Bool
is_digit c = leb 48 c && leb c 57

-- `text.replace(/\D/g, "")`, as the numbers of its digits
unfoldable pub digits_of : String → List ℕ
digits_of String.[] = []
digits_of (String.◌∷◌ c s) =
    let rest = digits_of s in if is_digit (code c) then (code c - 48) ∷ rest else rest

-- the body of the loop of `isLuhnValid`
unfoldable pub luhn_digit : (is_even : Bool) → ℕ → ℕ
luhn_digit is_even digit =
    if is_even then (if ltb 9 (digit * 2) then digit * 2 - 9 else digit * 2) else digit

abbrev pub luhn_step : ℕ → ℕ × Bool → ℕ × Bool
luhn_step digit (sum, is_even) = (sum + luhn_digit is_even digit, not is_even)

-- the loop, which starts at the end: `sum` and `isEven`
unfoldable pub luhn_state : List ℕ → ℕ × Bool
luhn_state [] = (0, false)
luhn_state (digit ∷ digits) = luhn_step digit (luhn_state digits)

abbrev pub is_luhn_number : List ℕ → Bool
is_luhn_number digits =
    if ltb (length digits) 13 || ltb 19 (length digits)
    then false
    else (luhn_state digits).0 % 10 == 0

-- `isLuhnValid`
unfoldable pub is_luhn_valid : String → Bool
unfolding luhn_state digits_of
is_luhn_valid card_number = is_luhn_number (digits_of card_number)

-- `parseInt` of digits
unfoldable pub number_from : ℕ → List ℕ → ℕ
number_from n [] = n
number_from n (d ∷ digits) = number_from (n * 10 + d) digits

abbrev pub all_same : List ℕ → Bool
all_same [] = false
all_same (d ∷ []) = false
all_same (d ∷ e ∷ digits) = all (λ x. x == d) (e ∷ digits)

abbrev pub is_ssn_number : List ℕ → Bool
is_ssn_number digits =
    let area : ℕ = number_from 0 (take 3 digits) in
    let group : ℕ = number_from 0 (take 2 (drop 3 digits)) in
    let serial : ℕ = number_from 0 (take 4 (drop 5 digits)) in
    if not (length digits == 9)
    then false
    else if area == 0 || area == 666 || leb 900 area
    then false
    else if group == 0
    then false
    else if serial == 0
    then false
    else if all_same digits || bytes_eq digits (1 ∷ 2 ∷ 3 ∷ 4 ∷ 5 ∷ 6 ∷ 7 ∷ 8 ∷ 9 ∷ [])
    then false
    else true

-- the validator of SSN
unfoldable pub is_ssn_valid : String → Bool
unfolding digits_of number_from
is_ssn_valid match = is_ssn_number (digits_of match)

abbrev pub is_phone_number : List ℕ → Bool
is_phone_number digits =
    if ltb (length digits) 7 || ltb 15 (length digits)
    then false
    else if all_same digits
    then false
    else if bytes_eq digits (1 ∷ 2 ∷ 3 ∷ 4 ∷ 5 ∷ 6 ∷ 7 ∷ 8 ∷ 9 ∷ 0 ∷ [])
    then false
    else true

-- the validator of PHONE
unfoldable pub is_phone_valid : String → Bool
unfolding digits_of
is_phone_valid match = is_phone_number (digits_of match)

-- `match.split(".")`, each part as its digits; a match of the pattern has no other characters
unfoldable pub ip_parts : (part : List ℕ) → String → List (List ℕ)
ip_parts part String.[] = part ∷ []
ip_parts part (String.◌∷◌ c s) =
    let next = ip_parts [] s in
    let longer = ip_parts (part ++ (code c - 48) ∷ []) s in
    if code c == 46 then part ∷ next else longer

-- the validator of IP_ADDRESS
unfoldable pub is_ip_valid : String → Bool
unfolding ip_parts number_from
is_ip_valid match =
    if has match ("127.0.0.1" ∷ "0.0.0.0" ∷ "255.255.255.255" ∷ [])
    then false
    else all (λ part. leb (number_from 0 part) 255) (ip_parts [] match)

-- `endsWith`
unfoldable pub ends_with_text : (suffix text : String) → Bool
ends_with_text suffix String.[] = str_eq String.[] suffix
ends_with_text suffix (String.◌∷◌ c s) = str_eq (String.◌∷◌ c s) suffix || ends_with_text suffix s

-- the validator of EMAIL
unfoldable pub is_email_valid : String → Bool
unfolding ends_with_text
is_email_valid match =
    not (ends_with_text "@example.com" match) && not (ends_with_text "@test.com" match)

-- `iban.replace(/\s+/g, "").toUpperCase()`, as codes
unfoldable pub iban_codes : String → List ℕ
iban_codes String.[] = []
iban_codes (String.◌∷◌ c s) =
    let rest = iban_codes s in if is_space (code c) then rest else upper_code (code c) ∷ rest

abbrev pub is_capital : ℕ → Bool
is_capital c = leb 65 c && leb c 90

-- `/^[A-Z]{2}[0-9]{2}[A-Z0-9]{1,30}$/`
unfoldable pub is_iban_form : List ℕ → Bool
is_iban_form (a ∷ b ∷ c ∷ d ∷ rest) =
    is_capital a
    && is_capital b
    && is_digit c
    && is_digit d
    && ltb 0 (length rest)
    && leb (length rest) 30
    && all (λ x. is_capital x || is_digit x) rest
is_iban_form _ = false

-- the number whose digits are those of `numericString`, after some
unfoldable pub iban_number : ℕ → List ℕ → ℕ
iban_number n [] = n
iban_number n (c ∷ codes) =
    iban_number (if is_capital c then n * 100 + (c - 55) else n * 10 + (c - 48)) codes

abbrev pub is_iban_code : List ℕ → Bool
is_iban_code codes =
    if not (is_iban_form codes)
    then false
    else iban_number 0 (drop 4 codes ++ take 4 codes) % 97 == 1

-- `isIbanValid`
unfoldable pub is_iban_valid : String → Bool
unfolding iban_codes is_iban_form iban_number
is_iban_valid iban = is_iban_code (iban_codes iban)
