-- ===== src/Server/Pii/Refused.antt =====
-- sdks/typescript/src/server/pii.ts: which keys and texts are refused by themselves.
use Prim.Native.Char.{Char}
use Prim.Native.String.{◌++◌, char_at}
use text.Mathlib.TextLemmas.{cons-append}
use neural_mesh_protocol.Prelude.{
  String, Bool, true, false, not, ◌||◌, ◌&&◌, if◌then◌else◌, includes, to_lower_case, ◌≡◌, refl, ap,
  sym, ◌∙◌, Option, none, some, List, [], ◌∷◌, arith, any, str_eq, str_eq_iff, Bool-cases, inl, inr,
}
use neural_mesh_protocol.Server.Pii.Keys.{
  KeyRules, or_violation, key_safelist, boundary_test, check_short, check_long, check_key_fuzzy,
}
use neural_mesh_protocol.Prelude.Assoc.{has}
use neural_mesh_protocol.Server.Pii.{
  PiiRule, text_rule, pattern_rule, text_definition, pattern_definition, is_accepted, any_match,
  check_rule, check_string, person_of, check_person, check_key,
}

-- A violation that counts: its text is not empty.
abbrev pub is_violation : Option String → Bool
is_violation none = false
is_violation (some v) = not (str_eq v "")

pub is_violation-or_violation :
    (a b : Option String) → is_violation (or_violation a b) ≡ (is_violation a || is_violation b)
is_violation-or_violation none b = refl
is_violation-or_violation (some v) b = ground arith

-- What is refused of a key: it is forbidden, or it is not in the safelist and a short token stands
-- between its word boundaries or a long one anywhere in it. The lower-case key is compared.
abbrev pub key_refused : KeyRules → String → Bool
key_refused rules key =
    has (to_lower_case key) rules.forbidden_keys_set
    || (not (has (to_lower_case key) key_safelist)
        && (any (λ token. boundary_test token key) rules.short_tokens
            || any (λ token. includes (to_lower_case key) token) rules.long_forbidden_tokens))

-- A text that begins with a character is not empty.
pub begun : (c : Char) (s t : String) → str_eq ((String.◌∷◌ c s) ++ t) "" ≡ false
begun c s t = elim (Bool-cases (str_eq ((String.◌∷◌ c s) ++ t) "")) [
  | inl blank ↦
      absurd (cc (sym (cons-append c s t) ∙ (str_eq_iff ((String.◌∷◌ c s) ++ t) "").0 blank))
  | inr given ↦ given
]

check_short-any :
    (tokens : List String) (key : String)
    → is_violation (check_short tokens key) ≡ any (λ token. boundary_test token key) tokens
unfolding check_short
check_short-any [] key = refl
check_short-any (token ∷ tokens) key =
    let named =
      begun (char_at "F" 0) "orbidden Key (fuzzy): "
        (key ++ (" matches boundary pattern \"" ++ (token ++ "\""))) in
    elim (Bool-cases (boundary_test token key)) [
      | inl found ↦ rw found (ap not named)
      | inr other ↦ rw other (check_short-any tokens key)
    ]

check_long-any :
    (tokens : List String) (key : String)
    → is_violation (check_long tokens key)
      ≡ any (λ token. includes (to_lower_case key) token) tokens
unfolding check_long
check_long-any [] key = refl
check_long-any (token ∷ tokens) key =
    let named =
      begun (char_at "F" 0) "orbidden Key (fuzzy): "
        (key ++ (" contains restricted token \"" ++ (token ++ "\""))) in
    elim (Bool-cases (includes (to_lower_case key) token)) [
      | inl found ↦ rw found (ap not named)
      | inr other ↦ rw other (check_long-any tokens key)
    ]

pub check_key-refused :
    (rules : KeyRules) (key : String) → is_violation (check_key rules key) ≡ key_refused rules key
unfolding check_key check_key_fuzzy
check_key-refused rules key =
    let short = check_short rules.short_tokens key in
    let long = check_long rules.long_forbidden_tokens key in
    elim (Bool-cases (has (to_lower_case key) rules.forbidden_keys_set)) [
      | inl forbidden ↦ rw forbidden (ap not (begun (char_at "F" 0) "orbidden Key: " key))
      | inr free ↦ rw free (elim (Bool-cases (has (to_lower_case key) key_safelist)) [
        | inl safe ↦ rw safe refl
        | inr unsafe ↦ rw unsafe (
            is_violation-or_violation short long
            ∙ ap (λ b. b || is_violation long) (check_short-any rules.short_tokens key)
            ∙ ap (λ b. any (λ token. boundary_test token key) rules.short_tokens || b)
                (check_long-any rules.long_forbidden_tokens key))
      ])
    ]

-- What a rule finds in a text: a text or a regular expression, and of a definition a match that
-- its validator accepts, if it has one. A pattern that is not global is tried at its first match.
abbrev pub accepts : Option (String → Bool) → String → Bool
accepts none match = true
accepts (some validator) match = validator match

abbrev pub first_accepted : Option (String → Bool) → List String → Bool
first_accepted validator [] = false
first_accepted validator (match ∷ _) = accepts validator match

abbrev pub finds : PiiRule → String → Bool
finds (text_rule rule) text = includes (to_lower_case text) (to_lower_case rule)
finds (pattern_rule source test) text = test text
finds (text_definition name pattern validator) text =
    includes (to_lower_case text) (to_lower_case pattern) && accepts validator pattern
finds (pattern_definition name true matches validator) text =
    any (λ match. accepts validator match) (matches text)
finds (pattern_definition name false matches validator) text =
    first_accepted validator (matches text)

-- How a rule is named in a violation.
abbrev pub rule_label : PiiRule → String
rule_label (text_rule rule) = rule
rule_label (pattern_rule source test) = source
rule_label (text_definition name pattern validator) = name
rule_label (pattern_definition name is_global matches validator) = name

-- Of the rules that find something, the first has a label that is not empty.
abbrev pub text_refused : List PiiRule → String → Bool
text_refused [] text = false
text_refused (rule ∷ rules) text =
    if finds rule text then not (str_eq (rule_label rule) "") else text_refused rules text

abbrev pub names_person : Option (String → Option String) → String → Bool
names_person none text = false
names_person (some find) text = elim (find text) [ none ↦ false | some person ↦ true ]

is_accepted-eq :
    (validator : Option (String → Bool)) (m : String)
    → is_accepted validator m ≡ accepts validator m
is_accepted-eq none m = refl
is_accepted-eq (some f) m = refl

any_match-global :
    (validator : Option (String → Bool)) (ms : List String)
    → any_match true validator ms ≡ any (λ match. accepts validator match) ms
unfolding any_match
any_match-global validator [] = refl
any_match-global validator (m ∷ ms) =
    ground (arith, is_accepted-eq validator m, any_match-global validator ms)

any_match-first :
    (validator : Option (String → Bool)) (ms : List String)
    → any_match false validator ms ≡ first_accepted validator ms
unfolding any_match
any_match-first validator [] = refl
any_match-first validator (m ∷ ms) = ground (arith, is_accepted-eq validator m)

abbrev label_if : Bool → String → Option String
label_if b name = if b then some name else none

check_rule-finds :
    (rule : PiiRule) (text : String)
    → check_rule text rule ≡ label_if (finds rule text) (rule_label rule)
unfolding check_rule
check_rule-finds (text_rule rule) text = refl
check_rule-finds (pattern_rule source test) text = refl
check_rule-finds (text_definition name pattern validator) text =
    ground (arith, is_accepted-eq validator pattern)
check_rule-finds (pattern_definition name true matches validator) text =
    ap (λ b. label_if b name) (any_match-global validator (matches text))
check_rule-finds (pattern_definition name false matches validator) text =
    ap (λ b. label_if b name) (any_match-first validator (matches text))

pub check_string-refused :
    (rules : List PiiRule) (text : String)
    → is_violation (check_string rules text) ≡ text_refused rules text
unfolding check_string
check_string-refused [] text = refl
check_string-refused (rule ∷ rules) text =
    rw (check_rule-finds rule text) (elim (Bool-cases (finds rule text)) [
      | inl found ↦ rw found refl
      | inr other ↦ rw other (check_string-refused rules text)
    ])

person_of-some :
    (o : Option String) → is_violation (person_of o) ≡ elim o [ none ↦ false | some person ↦ true ]
person_of-some none = refl
person_of-some (some p) =
    ap not (begun (char_at "P" 0) "II Entity Detected: person name \"" (p ++ "\""))

pub check_person-names :
    (ner : Option (String → Option String)) (text : String)
    → is_violation (check_person ner text) ≡ names_person ner text
unfolding check_person
check_person-names none text = refl
check_person-names (some find) text = person_of-some (find text)
