-- ===== src/Server/Pii/Tests.antt =====
-- sdks/typescript/src/server/pii.ts: the scan and the validators on concrete texts.
use Prim.Native.Char.{code}
use Prim.Native.String.{char_at}
use neural_mesh_protocol.Prelude.{
  ℕ, String, Bool, true, false, ◌≡◌, ◌↔◌, ◌⊎◌, refl, sym, ap, Option, none, some, [], ◌∷◌, arith,
  str_eq, str_eq_iff, includes, to_lower_case, if◌then◌else◌,
}
use neural_mesh_protocol.Prelude.Trim.{text_size, is_space, trim, trim_start, trim_end, keep_char}
use neural_mesh_protocol.Prelude.Json.{
  Json, number, string, array, object, nil, cons, empty, entry, weight, is_json_text,
}
use neural_mesh_protocol.Prelude.Json.Walk.{IsParser, Reaches}
use neural_mesh_protocol.Server.Pii.Keys.{
  set_of, key_rules_of, strip_either_case, strip_exact, strip_capital, matches_here, matches_from,
  boundary_test, check_short, check_long, check_key_fuzzy,
}
use neural_mesh_protocol.Server.Pii.{
  text_rule, pattern_definition, any_match, check_rule, check_string, PiiScanner, check_person,
  deep_parsed, scan_items, check_key, scan_entries, scan_value, scan_to, scan,
}
use neural_mesh_protocol.Server.Pii.Scan.{parts, exposes, scan-eq-none_iff}
use neural_mesh_protocol.Server.Pii.Validators.{
  digits_of, luhn_digit, luhn_state, is_luhn_valid, number_from, is_ssn_valid, is_phone_valid,
  ip_parts, is_ip_valid, ends_with_text, is_email_valid, iban_codes, is_iban_form, iban_number,
  is_iban_valid,
}
use neural_mesh_protocol.Server.Pii.Validators.Luhn.{single_error_detected, transposition_detected}

pii : Unit {0}
unfolding includes to_lower_case is_space trim trim_start trim_end keep_char weight is_json_text
    set_of key_rules_of strip_either_case strip_exact strip_capital matches_here matches_from
    check_short check_long check_key_fuzzy any_match check_rule check_string check_person
    deep_parsed scan_items check_key scan_entries scan_value scan_to scan digits_of luhn_digit
    luhn_state is_luhn_valid number_from is_ssn_valid is_phone_valid ip_parts is_ip_valid
    ends_with_text is_email_valid iban_codes is_iban_form iban_number is_iban_valid
pii = tt

validators :
    (is_luhn_valid "4111 1111 1111 1111" ≡ true)
    × (is_luhn_valid "4111 1111 1111 1112" ≡ false)
    × (is_iban_valid "GB82 WEST 1234 5698 7654 32" ≡ true)
    × (is_iban_valid "GB82 WEST 1234 5698 7654 23" ≡ false)
    × (is_ssn_valid "219-09-9999" ≡ true)
    × (is_ssn_valid "666-09-9999" ≡ false)
    × (is_phone_valid "(555) 555-5555" ≡ false)
    × (is_ip_valid "10.0.256.1" ≡ false)
    × (is_ip_valid "10.0.25.1" ≡ true)
    × (is_email_valid "a@example.com" ≡ false)
unfolding pii
validators = (refl, refl, refl, refl, refl, refl, refl, refl, refl, refl)

boundaries :
    (boundary_test "id" "patientId" ≡ true)
    × (boundary_test "id" "RECORD_ID" ≡ true)
    × (boundary_test "id" "grid" ≡ false)
    × (boundary_test "id" "valid_ages" ≡ false)
    × (boundary_test "id" "ID" ≡ true)
unfolding pii
boundaries = (refl, refl, refl, refl, refl)

single_error_detected_example : char_at "1" 0 ≡ char_at "1" 0
unfolding pii
single_error_detected_example =
    single_error_detected "411111111111" "111" (char_at "1" 0) (char_at "1" 0) refl refl refl refl

-- The transposition of 0 and 9 is not found.
zero_and_nine :
    (char_at "0" 0 ≡ char_at "9" 0)
    ⊎ (((code (char_at "0" 0) ≡ b'0') × (code (char_at "9" 0) ≡ b'9'))
        ⊎ ((code (char_at "0" 0) ≡ b'9') × (code (char_at "9" 0) ≡ b'0')))
unfolding pii
zero_and_nine =
    transposition_detected "4111111111" "003" (char_at "0" 0) (char_at "9" 0) refl refl refl refl

-- a parser that reads one text
abbrev parse : String → Option Json
parse t = if str_eq t "[\"x\"]" then some (array (cons (string "x") nil)) else none

abbrev weight_of : Option Json → ℕ
weight_of none = 0
weight_of (some v) = weight v

parse_one :
    (b : Bool) (v : Json)
    → (if b then some (array (cons (string "x") nil)) else none) ≡ some v
    → (b ≡ true) × (weight v ≡ 3)
unfolding weight
parse_one true v e = (refl, sym (ap weight_of e))
parse_one false v e = absurd (cc e)

parse-IsParser : IsParser parse
parse-IsParser t v e =
    let (same, three) = parse_one (str_eq t "[\"x\"]") v e in
    omega (arith, three, ap (λ s. text_size s) ((str_eq_iff t "[\"x\"]").0 same))

abbrev scanner : PiiScanner
scanner = record {
  patterns =
      text_rule "Secret" ∷ pattern_definition "SSN" true (λ t. t ∷ []) (some is_ssn_valid) ∷ [];
  key_rules = key_rules_of ("Name" ∷ "id" ∷ []);
  ner_scanner = none;
}

abbrev clean : Json
clean = object (entry "total" (number "3") (entry "grid" (string " [\"x\"] ") empty))

scans :
    (scan parse scanner clean ≡ none)
    × (scan parse scanner (object (entry "userId" (number "3") empty))
        ≡ some "Forbidden Key (fuzzy): userId matches boundary pattern \"id\"")
    × (scan parse scanner (object (entry "firstName" (number "3") empty))
        ≡ some "Forbidden Key (fuzzy): firstName contains restricted token \"name\"")
    × (scan parse scanner (array (cons (string "219-09-9999") nil)) ≡ some "SSN")
unfolding pii
scans = (refl, refl, refl, refl)

scan-eq-none_iff_example :
    (scan parse scanner clean ≡ none)
    ↔ ((w : Json) → Reaches (parts parse scanner) clean w → exposes parse scanner w ≡ false)
scan-eq-none_iff_example = scan-eq-none_iff parse scanner parse-IsParser clean
