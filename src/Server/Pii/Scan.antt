-- ===== src/Server/Pii/Scan.antt =====
-- sdks/typescript/src/server/pii.ts: what a value that passes the scan can hold.

use Prim.Native.String.{◌++◌, char_at}
use neural_mesh_protocol.Prelude.{
  ℕ, zero, suc, ◌<◌, String, Bool, false, not, ◌||◌, if◌then◌else◌, ◌≡◌, ◌↔◌, refl, ap, sym, ◌∙◌,
  Option, none, some, List, [], ◌∷◌, arith, any, get_elem?, Bool-cases, inl, inr,
}
use neural_mesh_protocol.Prelude.Trim.{trim, trim-le}
use neural_mesh_protocol.Prelude.Json.{
  Json, null, boolean, number, string, array, object, Entries, empty, entry, items, values, weight,
  is_json_text,
}
use neural_mesh_protocol.Prelude.Json.Walk.{
  items-le, values-le, parts_of, text_index, IsParser, Reaches, fails-eq-false_iff,
}
use neural_mesh_protocol.Server.Pii.Refused.{
  is_violation, is_violation-or_violation, key_refused, check_key-refused, text_refused,
  check_string-refused, names_person, check_person-names, begun,
}
use neural_mesh_protocol.Server.Pii.Keys.{KeyRules, or_violation}
use neural_mesh_protocol.Server.Pii.{
  check_string, PiiScanner, person_of, check_person, deep_parsed, scan_parsed, scan_items,
  check_key, scan_entries, scan_value, scan_to, scan,
}

-- No violation has an empty text.
abbrev IsTidy : Option String → Type 0
IsTidy o = is_violation o ≡ false → o ≡ none

or_violation-IsTidy : (a b : Option String) → IsTidy b → IsTidy (or_violation a b)
or_violation-IsTidy none b h e = h e
or_violation-IsTidy (some v) b h e = ground (arith, e, h)

person_of-IsTidy : (o : Option String) → IsTidy (person_of o)
person_of-IsTidy none e = refl
person_of-IsTidy (some p) e =
    let named = begun (char_at "P" 0) "II Entity Detected: person name \"" (p ++ "\"") in
    absurd (cc (sym e ∙ ap not named))

check_person-IsTidy :
    (ner : Option (String → Option String)) (t : String) → IsTidy (check_person ner t)
unfolding check_person
check_person-IsTidy none t e = refl
check_person-IsTidy (some f) t e = person_of-IsTidy (f t) e

scan_items-IsTidy : (self : Json → Option String) (vs : List Json) → IsTidy (scan_items self vs)
unfolding scan_items
scan_items-IsTidy self [] e = refl
scan_items-IsTidy self (v ∷ vs) e =
    or_violation-IsTidy (self v) (scan_items self vs) (scan_items-IsTidy self vs) e

scan_entries-IsTidy :
    (rules : KeyRules) (self : Json → Option String) (es : Entries)
    → IsTidy (scan_entries rules self es)
unfolding scan_entries
scan_entries-IsTidy rules self empty e = refl
scan_entries-IsTidy rules self (entry k v es) e =
    or_violation-IsTidy (check_key rules k) (or_violation (self v) (scan_entries rules self es))
      (or_violation-IsTidy (self v) (scan_entries rules self es)
        (scan_entries-IsTidy rules self es))
      e

scan_items-any :
    (self : Json → Option String) (vs : List Json)
    → is_violation (scan_items self vs) ≡ any (λ v. is_violation (self v)) vs
unfolding scan_items
scan_items-any self [] = refl
scan_items-any self (v ∷ vs) =
    ground (arith, is_violation-or_violation (self v) (scan_items self vs), scan_items-any self vs)

-- Is a key of the object refused?
abbrev pub has_refused_key : KeyRules → Entries → Bool
has_refused_key rules empty = false
has_refused_key rules (entry key v es) = key_refused rules key || has_refused_key rules es

or_swap : (a b c d : Bool) → (a || (b || (c || d))) ≡ ((a || c) || (b || d))
or_swap a b c d = ground arith

scan_entries-any :
    (rules : KeyRules) (self : Json → Option String) (es : Entries)
    → is_violation (scan_entries rules self es)
      ≡ (has_refused_key rules es || any (λ v. is_violation (self v)) (values es))
unfolding scan_entries
scan_entries-any rules self empty = refl
scan_entries-any rules self (entry k v es) =
    let rest : Option String = scan_entries rules self es in
    let key : Bool = key_refused rules k in
    is_violation-or_violation (check_key rules k) (or_violation (self v) rest)
    ∙ ap (λ b. b || is_violation (or_violation (self v) rest)) (check_key-refused rules k)
    ∙ ap (λ b. key || b) (is_violation-or_violation (self v) rest)
    ∙ ap (λ b. key || (is_violation (self v) || b)) (scan_entries-any rules self es)
    ∙ or_swap key (is_violation (self v)) (has_refused_key rules es) _

module _ (parse : String → Option Json) (scanner : PiiScanner) where
  -- The values that the scan goes on to: those of an object or an array, and the one in a text that
  -- looks like an object or an array.
  abbrev pub parts : Json → List Json
  parts (string t) = if is_json_text (trim t) then parts_of (parse (trim t)) else []
  parts (array vs) = items vs
  parts (object es) = values es
  parts _ = []

  -- A value that is refused, whatever its parts: a text in which a rule or the NER scanner finds
  -- something, or an object with a key that is refused.
  abbrev pub exposes : Json → Bool
  exposes (string t) = text_refused scanner.patterns t || names_person scanner.ner_scanner t
  exposes (object es) = has_refused_key scanner.key_rules es
  exposes _ = false

  scan_parsed-any :
      (self : Json → Option String) (o : Option Json)
      → is_violation (scan_parsed self o) ≡ any (λ v. is_violation (self v)) (parts_of o)
  scan_parsed-any self none = refl
  scan_parsed-any self (some v) = ground arith

  text_part :
      (self : Json → Option String) (t : String)
      → is_violation (scan_parsed self (deep_parsed parse t))
        ≡ any (λ v. is_violation (self v)) (parts (string t))
  unfolding deep_parsed
  text_part self t = elim (Bool-cases (is_json_text (trim t))) [
    | inl looks ↦ rw looks (scan_parsed-any self (parse (trim t)))
    | inr plain ↦ rw plain refl
  ]

  scan_value-parts :
      (self : Json → Option String) (v : Json)
      → is_violation (scan_value parse scanner self v)
        ≡ (exposes v || any (λ u. is_violation (self u)) (parts v))
  unfolding scan_value
  scan_value-parts self null = refl
  scan_value-parts self (boolean b) = refl
  scan_value-parts self (number t) = refl
  scan_value-parts self (string t) =
      let rest =
        or_violation (check_string scanner.patterns t) (check_person scanner.ner_scanner t) in
      ground (
        arith,
        is_violation-or_violation (scan_parsed self (deep_parsed parse t)) rest,
        is_violation-or_violation (check_string scanner.patterns t)
            (check_person scanner.ner_scanner t),
        text_part self t,
        check_string-refused scanner.patterns t,
        check_person-names scanner.ner_scanner t,
      )
  scan_value-parts self (array vs) = scan_items-any self (items vs)
  scan_value-parts self (object es) = scan_entries-any scanner.key_rules self es

  scan_value-IsTidy :
      (self : Json → Option String) (v : Json) → IsTidy (scan_value parse scanner self v)
  unfolding scan_value
  scan_value-IsTidy self null e = refl
  scan_value-IsTidy self (boolean b) e = refl
  scan_value-IsTidy self (number t) e = refl
  scan_value-IsTidy self (string t) e =
      or_violation-IsTidy (scan_parsed self (deep_parsed parse t)) _
        (or_violation-IsTidy (check_string scanner.patterns t) _
          (check_person-IsTidy scanner.ner_scanner t))
        e
  scan_value-IsTidy self (array vs) e = scan_items-IsTidy self (items vs) e
  scan_value-IsTidy self (object es) e = scan_entries-IsTidy scanner.key_rules self es e

  scan_to-IsTidy : (depth : ℕ) (v : Json) → IsTidy (scan_to parse scanner depth v)
  unfolding scan_to
  scan_to-IsTidy zero v e = refl
  scan_to-IsTidy (suc depth) v e = scan_value-IsTidy (scan_to parse scanner depth) v e

  module _ (parser : IsParser parse) where
    parts-lt : (v : Json) (i : ℕ) (u : Json) → get_elem? (parts v) i ≡ some u → weight u < weight v
    unfolding weight
    parts-lt null i u e = absurd (cc e)
    parts-lt (boolean b) i u e = absurd (cc e)
    parts-lt (number t) i u e = absurd (cc e)
    parts-lt (string t) i u e =
        let parsed = text_index (is_json_text (trim t)) (parse (trim t)) i u e in
        omega (arith, parser (trim t) u parsed, trim-le t)
    parts-lt (array vs) i u e = omega (arith, items-le vs i u e)
    parts-lt (object es) i u e = omega (arith, values-le es i u e)

    -- With a parser that takes at least one character for each part of a value: a value passes the
    -- scan exactly if none of the values that the scan reaches, also in texts that hold JSON, is
    -- an object with a refused key, a text in which the NER scanner finds a person, or a text in
    -- which a rule finds something, where the first such rule has a name that is not empty. A rule
    -- finds its text in either case of letters, its expression, or a match that its validator
    -- accepts: any match of a global pattern, the first one of another. A key is refused if it is
    -- forbidden in either case of letters, or if it is not in the safelist and matches the
    -- boundary pattern of a short token or holds a long one.
    pub scan-eq-none_iff :
        (v : Json)
        → (scan parse scanner v ≡ none) ↔ ((w : Json) → Reaches parts v w → exposes w ≡ false)
    unfolding scan scan_to
    scan-eq-none_iff v =
        let walk =
          fails-eq-false_iff parts exposes (λ depth u. is_violation (scan_to parse scanner depth u))
            (λ depth u. scan_value-parts (scan_to parse scanner depth) u) parts-lt v in
        ((λ e. walk.0 (ap is_violation e)), λ h. scan_to-IsTidy (weight v) v (walk.1 h))
