-- ===== src/Server/Pii.antt =====
-- sdks/typescript/src/server/pii.ts: the scan for personal data. A regular expression is given by
-- its matches; the NER scanner by the first person that it finds.
pub mod Keys
pub mod Refused
pub mod Scan
pub mod Validators
mod Tests
use Prim.Native.String.{◌++◌}
use neural_mesh_protocol.Prelude.{
  ℕ, zero, suc, String, Bool, true, false, Option, none, some, List, [], ◌∷◌, includes,
  to_lower_case, if◌then◌else◌,
}
use neural_mesh_protocol.Prelude.Assoc.{has}
use neural_mesh_protocol.Prelude.Json.{
  Json, null, boolean, number, string, array, object, Jsons, nil, cons, Entries, empty, entry,
  items, weight, is_json_text,
}
use neural_mesh_protocol.Prelude.Trim.{trim}
use neural_mesh_protocol.Server.Pii.Keys.{KeyRules, check_key_fuzzy, or_violation}

-- `PiiRule`: a text, a regular expression, or a definition with either and a validator.
pub data PiiRule : Type 0 where
  text_rule : (text : String) → PiiRule
  pattern_rule : (source : String) (test : String → Bool) → PiiRule
  text_definition : (name pattern : String) (validator : Option (String → Bool)) → PiiRule
  pattern_definition :
      (name : String) (is_global : Bool) (matches : String → List String)
      (validator : Option (String → Bool))
      → PiiRule

-- `!def.validator || def.validator(match)`
abbrev pub is_accepted : Option (String → Bool) → String → Bool
is_accepted none match = true
is_accepted (some validator) match = validator match

-- the loop over the matches, which a pattern that is not global leaves after the first
unfoldable pub any_match : (is_global : Bool) → Option (String → Bool) → List String → Bool
any_match is_global validator [] = false
any_match is_global validator (match ∷ matches) =
    let rest = any_match is_global validator matches in
    if is_accepted validator match then true else if is_global then rest else false

-- one rule on a text
unfoldable pub check_rule : String → PiiRule → Option String
unfolding any_match
check_rule text (text_rule rule) =
    if includes (to_lower_case text) (to_lower_case rule) then some rule else none
check_rule text (pattern_rule source test) = if test text then some source else none
check_rule text (text_definition name pattern validator) =
    if includes (to_lower_case text) (to_lower_case pattern)
    then (if is_accepted validator pattern then some name else none)
    else none
check_rule text (pattern_definition name is_global matches validator) =
    if any_match is_global validator (matches text) then some name else none

abbrev first_name : Option String → Option String → Option String
first_name none other = other
first_name (some name) other = some name

-- `checkString`
unfoldable pub check_string : List PiiRule → String → Option String
check_string [] text = none
check_string (rule ∷ rules) text =
    let rest = check_string rules text in first_name (check_rule text rule) rest

pub record PiiScanner : Type 0 where
  pub patterns : List PiiRule
  pub key_rules : KeyRules
  -- the text of the first person that the NER scanner finds, if there is a scanner
  pub ner_scanner : Option (String → Option String)

abbrev person_of : Option String → Option String
person_of none = none
person_of (some person) = some ("PII Entity Detected: person name \"" ++ (person ++ "\""))

-- the NER layer
unfoldable pub check_person : Option (String → Option String) → String → Option String
check_person none text = none
check_person (some scan) text = person_of (scan text)

-- `JSON.parse` of a text that looks like an object or an array
unfoldable pub deep_parsed : (String → Option Json) → String → Option Json
deep_parsed parse text = if is_json_text (trim text) then parse (trim text) else none

abbrev pub scan_parsed : (Json → Option String) → Option Json → Option String
scan_parsed self none = none
scan_parsed self (some v) = self v

unfoldable pub scan_items : (Json → Option String) → List Json → Option String
scan_items self [] = none
scan_items self (v ∷ vs) = let rest = scan_items self vs in or_violation (self v) rest

-- the two layers for keys
unfoldable pub check_key : KeyRules → String → Option String
check_key rules key =
    if has (to_lower_case key) rules.forbidden_keys_set
    then some ("Forbidden Key: " ++ key)
    else check_key_fuzzy rules key

unfoldable pub scan_entries : KeyRules → (Json → Option String) → Entries → Option String
unfolding check_key
scan_entries rules self empty = none
scan_entries rules self (entry key v es) =
    let rest = scan_entries rules self es in
    or_violation (check_key rules key) (or_violation (self v) rest)

-- `parse` is `JSON.parse`, with `none` for a syntax error.
module _ (parse : String → Option Json) (scanner : PiiScanner) where
  -- The body of `scan`, with its recursive calls.
  unfoldable pub scan_value : (self : Json → Option String) → Json → Option String
  unfolding deep_parsed check_string check_person scan_items scan_entries
  scan_value self (string text) =
      or_violation (scan_parsed self (deep_parsed parse text))
        (or_violation (check_string scanner.patterns text) (check_person scanner.ner_scanner text))
  scan_value self (array vs) = scan_items self (items vs)
  scan_value self (object es) = scan_entries scanner.key_rules self es
  scan_value self _ = none

  -- `scan`, to a depth of calls
  unfoldable pub scan_to : (depth : ℕ) → Json → Option String
  scan_to zero v = none
  scan_to (suc depth) v = scan_value (scan_to depth) v

  -- `scan`, of a value in which no object occurs twice
  unfoldable pub scan : Json → Option String
  scan input = scan_to (weight input) input
